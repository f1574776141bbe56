-- ===== src/Orchestrator/Waiting.antt =====
-- How long a node waits for a leader that it has no heartbeat of, and that it does not displace a
-- leader that counts as alive.
use habs.Base.{
  ℕ, zero, suc, ◌+◌, ◌≤◌, ◌<◌, ◌≡◌, ◌∙◌, ap, String, true, false, none, some, arith, ltb, ok,
  Number, minus, less, int, nan,
}
use habs.Env.{Env}
use habs.Heartbeats.{Heartbeat, get_heartbeat, is_alive}
use habs.Chain.{get_best_number}
use habs.Orchestrator.State.{Orchestrator}
use habs.Orchestrator.Leadership.{
  known_block, become_leader, leader_unknown, leader_seen, other_leader_action,
}

less_asymm : (a b : Number) → less a b ≡ true → less b a ≡ false
less_asymm (int a) (int b) h = ground arith
less_asymm nan b h = absurd (ground arith)
less_asymm (int a) nan h = absurd (ground arith)

known_of_alive :
    (alive_time best : Number) (h : Heartbeat)
    → is_alive alive_time best h ≡ true
    → (known_block (some h) ≡ some h.block_number)
      × (less alive_time (minus best h.block_number) ≡ false)
unfolding is_alive
known_of_alive alive_time best h alive =
    let other_way = less_asymm (minus best h.block_number) alive_time (ground arith) in
    (ground arith, other_way)

module _ {W : Type 0} (env : Env W) where
  -- `n` orchestrations that reach `otherLeaderAction`, with nothing in between.
  abbrev pub attempts : ℕ → String → Orchestrator × W → Orchestrator × W
  attempts zero leader s = s
  attempts (suc n) leader s = (other_leader_action env leader (attempts n leader s)).1

  abbrev pub counted : ℕ → Orchestrator × W → Orchestrator × W
  counted n s = (record (s.0) { no_liveness_from_leader = n + s.0.no_liveness_from_leader }, s.1)

  unknown_step :
      (leader : String) (s : Orchestrator × W)
      → known_block (get_heartbeat leader s.0.heartbeats) ≡ none
      → s.0.no_liveness_from_leader < s.0.no_liveness_threshold
      → other_leader_action env leader s ≡ (
        ok false,
        (record (s.0) { no_liveness_from_leader = s.0.no_liveness_from_leader + 1 }, s.1),
      )
  unfolding other_leader_action leader_unknown
  unknown_step leader s e lt =
      let more : ltb s.0.no_liveness_from_leader s.0.no_liveness_threshold ≡ true = ground arith in
      rw (e, other_leader_action) (rw more)

  unknown_full :
      (leader : String) (s : Orchestrator × W)
      → known_block (get_heartbeat leader s.0.heartbeats) ≡ none
      → s.0.no_liveness_threshold ≤ s.0.no_liveness_from_leader
      → other_leader_action env leader s
        ≡ become_leader env leader (record (s.0) { no_liveness_from_leader = 0 }, s.1)
  unfolding other_leader_action leader_unknown
  unknown_full leader s e le =
      let full : ltb s.0.no_liveness_from_leader s.0.no_liveness_threshold ≡ false = ground arith in
      rw (e, other_leader_action) (rw full)

  attempts-counted :
      (n : ℕ) (leader : String) (s : Orchestrator × W)
      → known_block (get_heartbeat leader s.0.heartbeats) ≡ none
      → n + s.0.no_liveness_from_leader ≤ s.0.no_liveness_threshold
      → attempts n leader s ≡ counted n s
  attempts-counted zero leader s e le = ground arith
  attempts-counted (suc n) leader s e le =
      ap (λ t. (other_leader_action env leader t).1) (attempts-counted n leader s e (omega arith))
      ∙ ap (λ p. p.1) (unknown_step leader (counted n s) e (omega arith))
      ∙ ground arith

  -- While no heartbeat of the leader is known, orchestration number `n + 1` only counts as long as
  -- the threshold is not reached; the one at the threshold resets the count and tries to take the
  -- leadership from that leader.
  pub unknown_leader_displaced :
      (n : ℕ) (leader : String) (s : Orchestrator × W)
      → known_block (get_heartbeat leader s.0.heartbeats) ≡ none
      → (n + s.0.no_liveness_from_leader < s.0.no_liveness_threshold
          → other_leader_action env leader (attempts n leader s) ≡ (ok false, counted (suc n) s))
        × (n + s.0.no_liveness_from_leader ≡ s.0.no_liveness_threshold
            → other_leader_action env leader (attempts n leader s)
              ≡ become_leader env leader (record (s.0) { no_liveness_from_leader = 0 }, s.1))
  unknown_leader_displaced n leader s e = (
    λ lt.
        ap (other_leader_action env leader) (attempts-counted n leader s e (omega arith))
        ∙ unknown_step leader (counted n s) e lt
        ∙ ground arith,
    λ eq.
        ap (other_leader_action env leader) (attempts-counted n leader s e (omega arith))
        ∙ unknown_full leader (counted n s) e (omega arith),
  )

  -- A leader whose heartbeat counts as alive for `anyOneAlive` keeps its place: the action only
  -- reads the best block number.
  pub alive_leader_kept :
      (leader : String) (h : Heartbeat) (best : Number) (s : Orchestrator × W)
      → get_heartbeat leader s.0.heartbeats ≡ some h
      → (get_best_number env s.1).0 ≡ ok best
      → is_alive s.0.alive_time best h ≡ true
      → other_leader_action env leader s ≡ (ok false, (s.0, (get_best_number env s.1).1))
  unfolding other_leader_action leader_seen
  alive_leader_kept leader h best s found read alive =
      let (known, late) = known_of_alive s.0.alive_time best h alive in
      rw (ap known_block found ∙ known, other_leader_action) (rw read (rw late))
