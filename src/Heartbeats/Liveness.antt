-- ===== src/Heartbeats/Liveness.antt =====
-- When the federation counts as alive.
use habs.Base.{String, ◌≡◌, ◌≢◌, ◌⊎◌, true, [], ◌∷◌, Number}
use habs.Heartbeats.{Heartbeat, Entries, Heartbeats, is_alive}

-- Some entry of the map satisfies `P`.
abbrev pub Any : (String → Heartbeat → Type 0) → Entries → Type 0
Any P [] = ⊥
Any P ((k, v) ∷ es) = P k v ⊎ Any P es

module _ (node : String) (alive_time best : Number) where
  abbrev pub OtherAlive : String → Heartbeat → Type 0
  OtherAlive k v = (k ≢ node) × (is_alive alive_time best v ≡ true)

  abbrev pub SelfAlive : String → Heartbeat → Type 0
  SelfAlive k v = (k ≡ node) × (is_alive alive_time best v ≡ true)
