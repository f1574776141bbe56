-- ===== src/Heartbeats.antt =====
-- orchestrator/src/heartbeats.js
pub mod Entries
pub mod Liveness
pub mod Listing
use habs.Base.{
  String, Bool, true, false, not, ◌&&◌, Option, none, some, List, [], ◌∷◌, ◌++◌, if◌then◌else◌,
  find?, ◌==◌, Number, num, minus, less, same, show, parse_int,
}
use habs.Utils.{Node, construct_nodes_list}

-- An argument that is a text (from an event) or a number (from `fillHeartbeatsFromChain`).
pub data Value : Type 0 where
  text : String → Value
  number : Number → Value

-- `v.toString()`
unfoldable pub to_text : Value → String
to_text (text s) = s
to_text (number n) = show n

pub record Heartbeat : Type 0 where
  pub name : String
  pub group : Value
  pub node_status : Value
  pub block_number : Number

-- A `Map` in the order of insertion.
abbrev pub Entries : Type 0
Entries = List (String × Heartbeat)

pub record Heartbeats : Type 0 where
  pub heartbeats : Entries
  pub nodes : List Node

-- The constructor.
unfoldable pub new : String → String → Heartbeats
new nodes_wallets archipel_name = record {
  heartbeats = [];
  nodes = construct_nodes_list nodes_wallets archipel_name;
}

-- `Map.set`: a key that is there keeps its place.
unfoldable pub set : String → Heartbeat → Entries → Entries
set wallet h [] = (wallet, h) ∷ []
set wallet h ((key, value) ∷ entries) =
    let rest = set wallet h entries in
    if key == wallet then (key, h) ∷ entries else (key, value) ∷ rest

-- `Map.get`
unfoldable pub get : String → Entries → Option Heartbeat
get wallet [] = none
get wallet ((key, value) ∷ entries) = if key == wallet then some value else get wallet entries

abbrev pub name_of : Option Node → String
name_of none = ""
name_of (some node) = node.name

-- Add heartbeat into Map
unfoldable pub add_heartbeat : String → Value → Value → Value → Heartbeats → Heartbeats
unfolding to_text
add_heartbeat wallet group node_status block_number hs =
    let node = find? (λ (element : Node). element.wallet == wallet) hs.nodes in
    record hs {
      heartbeats =
          set wallet
            (record {
              name = name_of node;
              group = group;
              node_status = node_status;
              block_number = parse_int (to_text block_number);
            })
            hs.heartbeats;
    }

-- The test of the loop: someone was alive less blocks than `alive_time` ago.
unfoldable pub is_alive : Number → Number → Heartbeat → Bool
is_alive alive_time best_number value =
    not (same value.block_number (num 0)) && less (minus best_number value.block_number) alive_time

-- The loop over the map, with its two variables.
unfoldable pub alive_loop : String → Number → Number → Bool → Bool → Entries → Bool
alive_loop exclude alive_time best other current [] = other && current
alive_loop exclude alive_time best other current ((key, value) ∷ entries) =
    let here = is_alive alive_time best value in
    alive_loop exclude alive_time best (if here && not (key == exclude) then true else other)
      (if here && (key == exclude) then true else current) entries

-- Check if anyone is alive: one other node and the current node must be. The code does not use
-- its parameter `group`.
unfoldable pub any_one_alive : String → Number → Number → Number → Heartbeats → Bool
unfolding alive_loop
any_one_alive exclude_node alive_time group best_number hs =
    alive_loop exclude_node alive_time best_number false false hs.heartbeats

-- Get a heartbeat of a node
unfoldable pub get_heartbeat : String → Heartbeats → Option Heartbeat
get_heartbeat wallet hs = get wallet hs.heartbeats
