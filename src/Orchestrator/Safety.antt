-- ===== src/Orchestrator/Safety.antt =====
-- The service is launched in active mode exactly when every check has passed.
use habs.Base.{
  String, ◌≡◌, ◌≢◌, ◌↔◌, ◌∙◌, ap, true, false, not, ◌||◌, ◌==◌, eq_iff, arith, ok, Exec, ◌>>=◌,
  Number, Option, continue-new, continue-tt, if_false, if◌then◌else◌, Bool-cases, inl, inr,
}
use habs.Env.{Env}
use habs.Utils.{get_keys_from_seed, address_of}
use habs.Heartbeats.{any_one_alive}
use habs.Chain.{leader_text, get_leader, get_best_number, can_send_transactions}
use habs.Orchestrator.State.{Orchestrator, on_world, on_chain, is_noservice, service_start}
use habs.Orchestrator.Leadership.{leadership_management}
use habs.Orchestrator.Readiness.{service_readiness_management}
use habs.Orchestrator.Decision.{
  go_passive, go_active, lead_if_allowed, orchestrate_operator_service,
}
use habs.Orchestrator.Frames.{
  mode_of, leadership-standing, readiness-standing, service_start_mode, go_passive_inactive,
  guard_passed,
}

module _ {W : Type 0} (env : Env W) where
  -- The states after the steps, each from the state before it.
  abbrev after_can_send : Orchestrator × W → Orchestrator × W
  after_can_send s = (on_chain (can_send_transactions env) s).1

  abbrev after_best : Orchestrator × W → Orchestrator × W
  after_best s = (on_world (get_best_number env) s).1

  abbrev after_ready : Orchestrator × W → Orchestrator × W
  after_ready s = (service_readiness_management env s).1

  abbrev after_leadership : String → Orchestrator × W → Orchestrator × W
  after_leadership key s = (leadership_management env key s).1

  abbrev after_get_leader : Orchestrator × W → Orchestrator × W
  after_get_leader s = (on_world (get_leader env s.0.group) s).1

  -- The checks from the state `s4` on, in which the leader is read a last time.
  pub record LeaderChecked (key : String) (s : Orchestrator × W) : Type 0 where
    pub leader : Option String
    pub answered : (get_leader env s.0.group s.1).0 ≡ ok leader
    pub own : leader_text leader ≡ key

  -- The checks from the state in which the service is found ready.
  pub record SendAllowed (key : String) (s : Orchestrator × W) : Type 0 where
    pub heartbeats_on : s.0.heartbeat_send_enabled ≡ true
    pub heartbeats_admin_on : s.0.heartbeat_send_enabled_admin ≡ true
    pub leadership : (leadership_management env key s).0 ≡ ok true
    pub last_check : LeaderChecked key (after_leadership key s)

  -- All checks of a run from `s`, each in the state in which the code makes it.
  pub record AllChecks (s : Orchestrator × W) : Type 0 where
    pub can_send : (can_send_transactions env (s.0.chain, s.1)).0 ≡ ok true
    pub key : String
    pub own_key : address_of (get_keys_from_seed env s.0.mnemonic "sr25519") ≡ ok key
    pub best : Number
    pub best_read : (get_best_number env (after_can_send s).1).0 ≡ ok best
    pub alive : any_one_alive key s.0.alive_time s.0.group best s.0.heartbeats ≡ true
    pub ready : (service_readiness_management env (after_best (after_can_send s))).0 ≡ ok true
    pub allowed : SendAllowed key (after_ready (after_best (after_can_send s)))

  go_active→LeaderChecked :
      (key : String) (s : Orchestrator × W)
      → mode_of s ≢ "active"
      → mode_of (go_active env key s).1 ≡ "active"
      → LeaderChecked key s
  unfolding go_active
  go_active→LeaderChecked key s old h =
      let (leader, answered, rest) =
        continue-new mode_of (get_leader env s.0.group s.1).0 _ _ old h in
      elim (Bool-cases (leader_text leader == key)) [
        | inl e ↦ record { leader = leader; answered = answered; own = (eq_iff _ _).0 e }
        | inr e ↦ absurd (old (rw e at rest))
      ]

  -- The part of `lead_if_allowed` behind its test.
  abbrev lead : String → Exec (Orchestrator × W) (Unit {0})
  lead key = do
    leadership ← leadership_management env key
    if not leadership then go_passive env else go_active env key

  readiness_mode : (s : Orchestrator × W) → mode_of (after_ready s) ≡ mode_of s
  readiness_mode s = ap (λ p. p.1) (readiness-standing env s)

  leadership_mode :
      (key : String) (s : Orchestrator × W) → mode_of (after_leadership key s) ≡ mode_of s
  leadership_mode key s = ap (λ p. p.1) (leadership-standing env key s)

  lead→SendAllowed :
      (key : String) (s : Orchestrator × W)
      → mode_of s ≢ "active"
      → mode_of (lead_if_allowed env key s).1 ≡ "active"
      → SendAllowed key s
  unfolding lead_if_allowed
  lead→SendAllowed key s old h = elim (Bool-cases s.0.heartbeat_send_enabled) [
    | inr off ↦ absurd (go_passive_inactive env s old (ground (arith, h, off)))
    | inl on ↦ elim (Bool-cases s.0.heartbeat_send_enabled_admin) [
      | inr off ↦ absurd (go_passive_inactive env s old (ground (arith, h, on, off)))
      | inl admin ↦
          let h1 : mode_of (lead key s).1 ≡ "active" = ground (arith, h, on, admin) in
          let s4 = after_leadership key s in
          let old4 : mode_of s4 ≢ "active" = rw (leadership_mode key s) old in
          let (led, led_said, h2) =
            continue-new mode_of (leadership_management env key s).0 _ s4 old4 h1 in
          let (led_true, h3) = guard_passed env led _ s4 old4 h2 in
          record {
            heartbeats_on = on;
            heartbeats_admin_on = admin;
            leadership = led_said ∙ ap ok led_true;
            last_check = go_active→LeaderChecked key s4 old4 h3;
          }
    ]
  ]

  pub active→AllChecks :
      (s : Orchestrator × W)
      → mode_of s ≢ "active"
      → mode_of (orchestrate_operator_service env s).1 ≡ "active"
      → AllChecks s
  unfolding orchestrate_operator_service
  active→AllChecks s old h =
      let (can, can_said, h1) =
        continue-new mode_of (can_send_transactions env (s.0.chain, s.1)).0 _ _ old h in
      let s1 = after_can_send s in
      let (can_true, h2) = guard_passed env can _ s1 old h1 in
      let (key, own_key, h3) =
        continue-new mode_of (address_of (get_keys_from_seed env s.0.mnemonic "sr25519")) _ s1 old
          h2 in
      let (best, best_read, h4) = continue-new mode_of (get_best_number env s1.1).0 _ _ old h3 in
      let s2 = after_best s1 in
      let alive = any_one_alive key s.0.alive_time s.0.group best s.0.heartbeats in
      let (alive_true, h5) = guard_passed env alive _ s2 old h4 in
      let (ready, ready_said, h6) =
        continue-new mode_of (service_readiness_management env s2).0 _ _
          (rw (readiness_mode s2) old) h5 in
      let s3 = after_ready s2 in
      let old3 : mode_of s3 ≢ "active" = rw (readiness_mode s2) old in
      let (ready_true, h7) = guard_passed env ready _ s3 old3 h6 in
      record {
        can_send = can_said ∙ ap ok can_true;
        key = key;
        own_key = own_key;
        best = best;
        best_read = best_read;
        alive = alive_true;
        ready = ready_said ∙ ap ok ready_true;
        allowed = lead→SendAllowed key s3 old3 h7;
      }

  -- The run in which every check passes, from the last part backwards.
  LeaderChecked→launch :
      (key : String) (s : Orchestrator × W)
      → LeaderChecked key s
      → (go_active env key s).1 ≡ (service_start env "active" (after_get_leader s)).1
  unfolding go_active
  LeaderChecked→launch key s c =
      rw (c.answered, (eq_iff (leader_text c.leader) key).1 c.own)
        (continue-tt (service_start env "active" (after_get_leader s)).0 tt _)

  lead→launch :
      (key : String) (s : Orchestrator × W)
      → SendAllowed key s
      → (lead key s).1 ≡ (service_start env "active" (after_get_leader (after_leadership key s))).1
  lead→launch key s c =
      rw c.leadership (LeaderChecked→launch key (after_leadership key s) c.last_check)

  SendAllowed→launch :
      (key : String) (s : Orchestrator × W)
      → SendAllowed key s
      → (lead_if_allowed env key s).1
        ≡ (service_start env "active" (after_get_leader (after_leadership key s))).1
  unfolding lead_if_allowed
  SendAllowed→launch key s c =
      let on : (not s.0.heartbeat_send_enabled || not s.0.heartbeat_send_enabled_admin) ≡ false =
        ground (arith, c.heartbeats_on, c.heartbeats_admin_on) in
      ap (λ (m : Exec (Orchestrator × W) (Unit {0})). (m s).1)
        (if_false (go_passive env) (lead key) on)
      ∙ lead→launch key s c

  -- The state in which the launch in active mode is made.
  abbrev pub launch_state : String → Orchestrator × W → Orchestrator × W
  launch_state key s =
      after_get_leader (after_leadership key (after_ready (after_best (after_can_send s))))

  AllChecks→launch :
      (s : Orchestrator × W) (c : AllChecks s)
      → (orchestrate_operator_service env s).1
        ≡ (service_start env "active" (launch_state c.key s)).1
  unfolding orchestrate_operator_service
  AllChecks→launch s c =
      rw (c.can_send, c.own_key, c.best_read, c.alive, c.ready)
        (SendAllowed→launch c.key (after_ready (after_best (after_can_send s))) c.allowed)

  launch_state-role :
      (key : String) (s : Orchestrator × W) → (launch_state key s).0.node_role ≡ s.0.node_role
  launch_state-role key s =
      let s2 = after_best (after_can_send s) in
      ap (λ p. p.0) (leadership-standing env key (after_ready s2))
      ∙ ap (λ p. p.0) (readiness-standing env s2)

  AllChecks→active :
      (s : Orchestrator × W)
      → is_noservice s.0 ≡ false
      → AllChecks s
      → mode_of (orchestrate_operator_service env s).1 ≡ "active"
  AllChecks→active s served c =
      ap mode_of (AllChecks→launch s c)
      ∙ service_start_mode env "active" (launch_state c.key s)
      ∙ rw (launch_state-role c.key s) (rw served)

  -- A service node whose service is not in active mode has it in active mode after the main
  -- orchestration logic exactly when every check of the run passed: transactions can be sent, this
  -- node and another are alive, the service is ready, both heartbeat switches are on, the node got
  -- or has the leadership, and the chain, read once more, names this node as the leader.
  pub active_iff_AllChecks :
      (s : Orchestrator × W)
      → is_noservice s.0 ≡ false
      → mode_of s ≢ "active"
      → (mode_of (orchestrate_operator_service env s).1 ≡ "active") ↔ AllChecks s
  active_iff_AllChecks s served old = (active→AllChecks s old, AllChecks→active s served)
