-- ===== src/Orchestrator/Frames.antt =====
-- What the steps of an orchestration leave alone: the role of the node and the mode of its service.
use habs.Base.{
  String, ◌≡◌, ◌≢◌, refl, Bool, true, false, not, inl, inr, eq_iff, arith, Exec, Option-cases,
  Keeps, if-Keeps, continue-Keeps, if◌then◌else◌, Number,
}
use habs.Env.{Env}
use habs.Heartbeats.{get_heartbeat}
use habs.Chain.{leader_text, get_leader, is_leaded_group, get_best_number}
use habs.Service
use habs.Orchestrator.State.{Orchestrator, service_start, is_noservice}
use habs.Orchestrator.Leadership.{
  leadership_management, become_leader, leader_unknown, leader_seen, other_leader_action,
  known_block,
}
use habs.Orchestrator.Readiness.{note_ready, service_readiness_management}
use habs.Orchestrator.Decision.{go_passive}

-- The role of the node and the mode of its service.
abbrev pub standing : {W : Type 0} → Orchestrator × W → String × String
standing s = (s.0.node_role, s.0.service.mode)

abbrev pub mode_of : {W : Type 0} → Orchestrator × W → String
mode_of s = s.0.service.mode

module _ {W : Type 0} (env : Env W) where
  pub become_leader-standing : (key : String) → Keeps standing (become_leader env key)
  unfolding become_leader
  become_leader-standing key s = ground arith

  pub leader_unknown-standing : (key : String) → Keeps standing (leader_unknown env key)
  unfolding leader_unknown
  leader_unknown-standing key s =
      if-Keeps standing _ _ _ (λ t. refl) (λ t. become_leader-standing key _) s

  pub leader_seen-standing : (key : String) (b : Number) → Keeps standing (leader_seen env key b)
  unfolding leader_seen
  leader_seen-standing key b s =
      continue-Keeps standing (get_best_number env s.1).0 _ _ refl
        λ best t. if-Keeps standing _ _ _ (become_leader-standing key) (λ u. refl) t

  pub other_leader_action-standing : (key : String) → Keeps standing (other_leader_action env key)
  unfolding other_leader_action
  other_leader_action-standing key s =
      elim (Option-cases (known_block (get_heartbeat key s.0.heartbeats))) [
        | inl e ↦ rw (e, other_leader_action) (leader_unknown-standing key s)
        | inr (b, e) ↦ rw (e, other_leader_action) (leader_seen-standing key b s)
      ]

  pub leadership-standing : (key : String) → Keeps standing (leadership_management env key)
  unfolding leadership_management
  leadership-standing key s =
      continue-Keeps standing (get_leader env s.0.group s.1).0 _ _ refl λ leader t.
        continue-Keeps standing (is_leaded_group env s.0.group t.1).0 _ _ refl λ leaded u.
          ground (
            arith,
            become_leader-standing key u,
            other_leader_action-standing (leader_text leader) u,
          )

  pub readiness-standing : Keeps standing (service_readiness_management env)
  unfolding service_readiness_management note_ready Service.service_ready
  readiness-standing s = ground arith

  pub service_start_mode :
      (mode : String) (s : Orchestrator × W)
      → mode_of (service_start env mode s).1 ≡ (if is_noservice s.0 then s.0.service.mode else mode)
  unfolding service_start Service.service_start
  service_start_mode mode s = ground arith

  pub go_passive_inactive :
      (s : Orchestrator × W) → mode_of s ≢ "active" → mode_of (go_passive env s).1 ≢ "active"
  unfolding go_passive
  go_passive_inactive s h e =
      ground (arith, service_start_mode "passive" s, eq_iff "passive" "active")

  -- A guard `if (!b) { enforce passive; return; }`, passed on the way to active mode
  pub guard_passed :
      (b : Bool) (m : Exec (Orchestrator × W) (Unit {0})) (s : Orchestrator × W)
      → mode_of s ≢ "active"
      → mode_of ((if not b then go_passive env else m) s).1 ≡ "active"
      → (b ≡ true) × (mode_of (m s).1 ≡ "active")
  guard_passed true m s old h = (refl, h)
  guard_passed false m s old h = absurd (go_passive_inactive s old h)
