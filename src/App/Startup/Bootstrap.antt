-- ===== src/App/Startup/Bootstrap.antt =====
-- What the bootstrap of an orchestrator changes.
use habs.Base.{
  ℕ, ◌≡◌, refl, ◌∙◌, ap, String, Bool, true, false, List, [], ◌∷◌, if◌then◌else◌, ◌==◌, arith,
  Number, ok, Keeps, if-Keeps, continue-Keeps, continue-Then, if_false, throw, split,
}
use habs.Env.{Env}
use habs.Chain.{get_heartbeat}
use habs.Service
use habs.Orchestrator.State.{
  Orchestrator, is_noservice, service_clean_up, service_start, fill_wallets,
  fill_heartbeats_from_chain, on_service,
}
use habs.Orchestrator.Decision.{bootstrap_orchestrator}
use habs.Orchestrator.Frames.{mode_of, service_start_mode}

-- What no step of the bootstrap changes: role, group, keys, the name of
-- the service, switches and counters.
abbrev pub fixed :
    {W : Type 0}
    → Orchestrator × W
    → (String × Number × String × String × String) × (Bool × Bool × Bool) × (ℕ × ℕ)
fixed s =
    let o = s.0 in
    (
      (o.node_role, o.group, o.mnemonic, o.service_mode, o.service.service_name),
      (o.orchestration_enabled, o.heartbeat_send_enabled, o.heartbeat_send_enabled_admin),
      (o.no_liveness_from_leader, o.no_ready_count),
    )

module _ {W : Type 0} (env : Env W) where
  clean_up-fixed : Keeps fixed (service_clean_up env)
  unfolding service_clean_up Service.service_clean_up
  clean_up-fixed s = ground arith

  start-fixed : (mode : String) → Keeps fixed (service_start env mode)
  unfolding service_start Service.service_start
  start-fixed mode s = ground arith

  -- Filling in the heartbeats leaves the service alone too.
  abbrev fixed_with_mode :
      Orchestrator × W
      → ((String × Number × String × String × String) × (Bool × Bool × Bool) × (ℕ × ℕ)) × String
  fixed_with_mode s = (fixed s, s.0.service.mode)

  fill-fixed : (wallets : List String) → Keeps fixed_with_mode (fill_wallets env wallets)
  unfolding fill_wallets
  fill-fixed [] s = refl
  fill-fixed (wallet ∷ wallets) s =
      continue-Keeps fixed_with_mode (get_heartbeat env wallet s.1).0 _ _ refl
        λ block t. fill-fixed wallets _

  fill_from_chain-fixed : Keeps fixed_with_mode (fill_heartbeats_from_chain env)
  unfolding fill_heartbeats_from_chain
  fill_from_chain-fixed s = fill-fixed (split 44 s.0.nodes_wallets) s

  on_service-fixed :
      (data_directory config_directory : String)
      → Keeps fixed (on_service (Service.service_bootstrap env config_directory data_directory))
  unfolding Service.service_bootstrap
  on_service-fixed a b s = refl

  pub bootstrap-fixed : Keeps fixed (bootstrap_orchestrator env)
  unfolding bootstrap_orchestrator
  bootstrap-fixed s =
      if-Keeps fixed (is_noservice s.0) _ _ (λ t. refl)
        (λ t. continue-Keeps fixed (service_clean_up env t).0 _ _ (clean_up-fixed t) λ b u.
          continue-Keeps fixed
            (on_service
              (Service.service_bootstrap env u.0.service_config_directory
                u.0.service_data_directory)
              u).0
            _ _ (on_service-fixed u.0.service_data_directory u.0.service_config_directory u)
            λ n v.
              continue-Keeps fixed (service_start env "passive" v).0 _ _ (start-fixed "passive" v)
                λ started x.
                  if-Keeps fixed started _ _ (λ y. ap (λ p. p.0) (fill_from_chain-fixed y))
                    (λ y. refl) x)
        s

  pub bootstrap-idle :
      (s : Orchestrator × W) → is_noservice s.0 ≡ true → bootstrap_orchestrator env s ≡ (ok tt, s)
  unfolding bootstrap_orchestrator
  bootstrap-idle s idle = rw idle refl

  after_start :
      (started : Bool) (message : String) (t : Orchestrator × W)
      → mode_of t ≡ "passive"
      → ((if started then fill_heartbeats_from_chain env else throw message) t).0 ≡ ok tt
      → mode_of ((if started then fill_heartbeats_from_chain env else throw message) t).1
        ≡ "passive"
  after_start true message t passive h = ap (λ p. p.1) (fill_from_chain-fixed t) ∙ passive
  after_start false message t passive h = absurd (ground arith)

  -- The bootstrap that returned has started the service of a service node in passive mode.
  pub bootstrap-mode :
      (s : Orchestrator × W)
      → is_noservice s.0 ≡ false
      → (bootstrap_orchestrator env s).0 ≡ ok tt
      → mode_of (bootstrap_orchestrator env s).1 ≡ "passive"
  unfolding bootstrap_orchestrator
  bootstrap-mode s served h =
      let Passive : Orchestrator × W → Type 0 = λ t. mode_of t ≡ "passive" in
      let clean = service_clean_up env s in
      let boot =
        on_service
          (Service.service_bootstrap env clean.1.0.service_config_directory
            clean.1.0.service_data_directory)
          clean.1 in
      let start = service_start env "passive" boot.1 in
      let still : is_noservice boot.1.0 ≡ false =
        ap (λ f. f.0.0 == "noservice") (clean_up-fixed s) ∙ served in
      let passive : mode_of start.1 ≡ "passive" =
        service_start_mode env "passive" boot.1 ∙ if_false _ _ still in
      rw served (
        continue-Then Passive clean.0 _ clean.1
          (λ b. continue-Then Passive boot.0 _ boot.1 λ u.
            continue-Then Passive start.0 _ start.1
              λ started. after_start started _ start.1 passive)
          (rw served at h))
