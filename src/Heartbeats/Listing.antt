-- ===== src/Heartbeats/Listing.antt =====
-- `getAllHeartbeats` of orchestrator/src/heartbeats.js. The host sorts, and
-- compares names by its locale: `Array.prototype.sort` with `localeCompare` is a parameter,
-- `sort_by_name`.
use habs.Base.{String, List, [], ◌∷◌, Number}
use habs.Heartbeats.{Value, Entries, Heartbeats}

-- An element of the list that `getAllHeartbeats` returns.
pub record Listed : Type 0 where
  pub wallet : String
  pub name : String
  pub group : Value
  pub node_status : Value
  pub block_number : Number

-- The loop over the map.
abbrev pub listed : Entries → List Listed
listed [] = []
listed ((key, value) ∷ entries) =
    record {
      wallet = key;
      name = value.name;
      group = value.group;
      node_status = value.node_status;
      block_number = value.block_number;
    }
    ∷ listed entries

-- Get all heartbeats from heartbeat map
unfoldable pub get_all_heartbeats : (List Listed → List Listed) → Heartbeats → List Listed
get_all_heartbeats sort_by_name hs = sort_by_name (listed hs.heartbeats)
