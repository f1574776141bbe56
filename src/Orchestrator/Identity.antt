-- ===== src/Orchestrator/Identity.antt =====
-- What an orchestration never changes: the role of the node, its group, its service mode and the
-- switches of the HTTP API; and how a node comes to be active.
use habs.Base.{
  ◌≡◌, ◌≢◌, refl, String, Bool, not, inl, inr, eq_iff, arith, Option-cases, Keeps, if-Keeps,
  continue-Keeps, Number, ◌==◌, if◌then◌else◌, true, false, ok, ap, Bool-cases,
}
use habs.Env.{Env}
use habs.Utils.{get_keys_from_seed, address_of}
use habs.Heartbeats.{get_heartbeat, any_one_alive}
use habs.Chain.{get_best_number, get_leader, is_leaded_group, leader_text, can_send_transactions}
use habs.Service
use habs.Orchestrator.State.{Orchestrator, is_noservice, service_start}
use habs.Orchestrator.Leadership.{
  leadership_management, force_active, start_if_leader, become_leader, leader_unknown, leader_seen,
  other_leader_action, known_block,
}
use habs.Orchestrator.Readiness.{service_readiness_management, note_ready}
use habs.Orchestrator.Decision.{
  go_passive, go_active, lead_if_allowed, orchestrate_operator_service, orchestrate_service,
}
use habs.Orchestrator.Frames.{mode_of, go_passive_inactive}
use habs.Orchestrator.Safety.{AllChecks, active→AllChecks}

abbrev pub identity : {W : Type 0} → Orchestrator × W → String × Number × String × Bool × Bool
identity s =
    let o = s.0 in
    (o.node_role, o.group, o.service_mode, o.orchestration_enabled, o.heartbeat_send_enabled_admin)

module _ {W : Type 0} (env : Env W) where
  pub service_start-identity : (mode : String) → Keeps identity (service_start env mode)
  unfolding service_start Service.service_start
  service_start-identity mode s = ground arith

  become_leader-identity : (key : String) → Keeps identity (become_leader env key)
  unfolding become_leader
  become_leader-identity key s = ground arith

  leader_unknown-identity : (key : String) → Keeps identity (leader_unknown env key)
  unfolding leader_unknown
  leader_unknown-identity key s =
      if-Keeps identity _ _ _ (λ t. refl) (λ t. become_leader-identity key _) s

  leader_seen-identity : (key : String) (b : Number) → Keeps identity (leader_seen env key b)
  unfolding leader_seen
  leader_seen-identity key b s =
      continue-Keeps identity (get_best_number env s.1).0 _ _ refl
        λ best t. if-Keeps identity _ _ _ (become_leader-identity key) (λ u. refl) t

  other_leader_action-identity : (key : String) → Keeps identity (other_leader_action env key)
  unfolding other_leader_action
  other_leader_action-identity key s =
      elim (Option-cases (known_block (get_heartbeat key s.0.heartbeats))) [
        | inl e ↦ rw (e, other_leader_action) (leader_unknown-identity key s)
        | inr (b, e) ↦ rw (e, other_leader_action) (leader_seen-identity key b s)
      ]

  leadership-identity : (key : String) → Keeps identity (leadership_management env key)
  unfolding leadership_management
  leadership-identity key s =
      continue-Keeps identity (get_leader env s.0.group s.1).0 _ _ refl λ leader t.
        continue-Keeps identity (is_leaded_group env s.0.group t.1).0 _ _ refl λ leaded u.
          ground (
            arith,
            become_leader-identity key u,
            other_leader_action-identity (leader_text leader) u,
          )

  readiness-identity : Keeps identity (service_readiness_management env)
  unfolding service_readiness_management note_ready Service.service_ready
  readiness-identity s = ground arith

  go_passive-identity : Keeps identity (go_passive env)
  unfolding go_passive
  go_passive-identity s =
      continue-Keeps identity (service_start env "passive" s).0 _ _
        (service_start-identity "passive" s) λ b t. refl

  go_active-identity : (key : String) → Keeps identity (go_active env key)
  unfolding go_active
  go_active-identity key s =
      continue-Keeps identity (get_leader env s.0.group s.1).0 _ _ refl λ leader t.
        if-Keeps identity (leader_text leader == key) _ _
          (λ u.
            continue-Keeps identity (service_start env "active" u).0 _ _
              (service_start-identity "active" u) λ b v. refl)
          (λ u. refl) t

  lead_if_allowed-identity : (key : String) → Keeps identity (lead_if_allowed env key)
  unfolding lead_if_allowed
  lead_if_allowed-identity key s =
      if-Keeps identity _ _ _ go_passive-identity
        (λ t.
          continue-Keeps identity (leadership_management env key t).0 _ _
            (leadership-identity key t)
            λ led u. if-Keeps identity (not led) _ _ go_passive-identity (go_active-identity key) u)
        s

  operator-identity : Keeps identity (orchestrate_operator_service env)
  unfolding orchestrate_operator_service
  operator-identity s =
      continue-Keeps identity (can_send_transactions env (s.0.chain, s.1)).0 _ _ refl λ can t.
        if-Keeps identity (not can) _ _ go_passive-identity
          (λ u.
            continue-Keeps identity (address_of (get_keys_from_seed env u.0.mnemonic "sr25519")) _ _
              refl
              λ key v. continue-Keeps identity (get_best_number env v.1).0 _ _ refl λ best x.
                if-Keeps identity
                  (not (any_one_alive key x.0.alive_time x.0.group best x.0.heartbeats)) _ _
                  go_passive-identity
                  (λ y.
                    continue-Keeps identity (service_readiness_management env y).0 _ _
                      (readiness-identity y)
                      λ ready z.
                        if-Keeps identity (not ready) _ _ go_passive-identity
                          (lead_if_allowed-identity key) z)
                  x)
          t

  start_if_leader-identity : (key : String) → Keeps identity (start_if_leader env key)
  unfolding start_if_leader
  start_if_leader-identity key s =
      continue-Keeps identity (get_leader env s.0.group s.1).0 _ _ refl λ leader t.
        if-Keeps identity (leader_text leader == key) _ _
          (λ u.
            continue-Keeps identity (service_start env "active" u).0 _ _
              (service_start-identity "active" u) λ b v. refl)
          (λ u. refl) t

  force_active_idle :
      (s : Orchestrator × W) → is_noservice s.0 ≡ true → force_active env s ≡ (ok false, s)
  unfolding force_active
  force_active_idle s idle = rw idle refl

  force_active_served :
      (s : Orchestrator × W)
      → is_noservice s.0 ≡ false
      → identity (force_active env s).1 ≡ identity s
  unfolding force_active
  force_active_served s served = rw served (
      continue-Keeps identity (address_of (get_keys_from_seed env s.0.mnemonic "sr25519")) _ s refl
        λ key u. continue-Keeps identity (get_leader env u.0.group u.1).0 _ _ refl λ leader v.
          elim (Bool-cases (leader_text leader == key)) [
            | inl own ↦ rw own (
                continue-Keeps identity (service_start env "active" v).0 _ _
                  (service_start-identity "active" v) λ b y. refl)
            | inr other ↦ rw other (
                continue-Keeps identity (is_leaded_group env u.0.group v.1).0 _ _ refl λ leaded y.
                  continue-Keeps identity
                    (become_leader env (if leaded then leader_text leader else key) y).0 _ _
                    (become_leader-identity _ y)
                    λ taken z. elim (Bool-cases taken) [
                      | inl won ↦ rw won (start_if_leader-identity key z)
                      | inr lost ↦ rw lost refl
                    ])
          ])

  pub force_active-identity : Keeps identity (force_active env)
  force_active-identity s = elim (Bool-cases (is_noservice s.0)) [
    | inl idle ↦ ap (λ r. identity r.1) (force_active_idle s idle)
    | inr served ↦ force_active_served s served
  ]

  pub orchestrate_service-identity : Keeps identity (orchestrate_service env)
  unfolding orchestrate_service
  orchestrate_service-identity s =
      ground (arith, operator-identity s, go_passive-identity s, force_active-identity s)

  -- A node that is not forced into active mode becomes active only by a run in which every check passes.
  pub orchestrate_service-active :
      (s : Orchestrator × W)
      → s.0.service_mode ≢ "active"
      → mode_of s ≢ "active"
      → mode_of (orchestrate_service env s).1 ≡ "active"
      → AllChecks env s
  unfolding orchestrate_service
  orchestrate_service-active s free old h =
      active→AllChecks env s old
        (ground (arith, eq_iff s.0.service_mode "active", go_passive_inactive env s old))
