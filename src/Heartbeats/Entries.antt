-- ===== src/Heartbeats/Entries.antt =====
-- The map of heartbeats: what is found after an insertion, and one entry for each wallet.
use habs.Base.{
  String, ◌≡◌, ◌≢◌, refl, none, some, [], ◌∷◌, ◌==◌, eq_iff, eq_refl, arith, if◌then◌else◌,
  parse_int, find?,
}
use habs.Utils.{Node}
use habs.Heartbeats.{
  Value, to_text, Heartbeat, Entries, Heartbeats, set, get, name_of, add_heartbeat, get_heartbeat,
}

pub get-set :
    (k j : String) (h : Heartbeat) (es : Entries)
    → get j (set k h es) ≡ (if k == j then some h else get j es)
unfolding get set
get-set k j h [] = refl
get-set k j h ((i, v) ∷ es) = ground (arith, eq_iff k j, eq_iff i k, eq_iff i j, get-set k j h es)

-- No two entries of the map have the same wallet.
abbrev pub NodupKeys : Entries → Type 0
NodupKeys [] = Unit
NodupKeys ((k, v) ∷ es) = (get k es ≡ none) × NodupKeys es

pub set-NodupKeys :
    (k : String) (h : Heartbeat) (es : Entries) → NodupKeys es → NodupKeys (set k h es)
unfolding set get
set-NodupKeys k h [] u = (refl, tt)
set-NodupKeys k h ((i, v) ∷ es) u =
    ground (arith, set-NodupKeys k h es u.1, get-set k i h es, eq_iff k i, eq_iff i k)

-- The heartbeat that `addHeartbeat` stores.
abbrev pub stored : String → Value → Value → Value → Heartbeats → Heartbeat
stored wallet group node_status block_number hs = record {
  name = name_of (find? (λ (element : Node). element.wallet == wallet) hs.nodes);
  group = group;
  node_status = node_status;
  block_number = parse_int (to_text block_number);
}

-- After `addHeartbeat` the wallet has the new heartbeat, with the block number parsed and the name
-- looked up among the nodes; every other wallet has what it had; and the map still holds one entry
-- for each wallet.
pub get_heartbeat-add_heartbeat :
    (wallet other : String) (group node_status block_number : Value) (hs : Heartbeats)
    → NodupKeys hs.heartbeats
    → let after = add_heartbeat wallet group node_status block_number hs in
      (get_heartbeat wallet after ≡ some (stored wallet group node_status block_number hs))
      × (wallet ≢ other → get_heartbeat other after ≡ get_heartbeat other hs)
      × NodupKeys after.heartbeats
unfolding add_heartbeat get_heartbeat
get_heartbeat-add_heartbeat wallet other group node_status block_number hs u =
    let h = stored wallet group node_status block_number hs in
    (
      ground (arith, get-set wallet wallet h hs.heartbeats, eq_refl wallet),
      λ ne. ground (arith, get-set wallet other h hs.heartbeats, eq_iff wallet other),
      set-NodupKeys wallet h hs.heartbeats u,
    )
