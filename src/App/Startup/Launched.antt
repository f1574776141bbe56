-- ===== src/App/Startup/Launched.antt =====
-- What a process that was launched is.
use habs.Base.{
  ◌≡◌, refl, ◌∙◌, ap, sym, String, true, Option, none, some, if◌then◌else◌, ◌==◌, eq_iff, inl, inr,
  arith, Result, ok, err, pending, Bool-cases, continue-eq-ok, if_true, if_false,
}
use habs.Env.{Env}
use habs.Config.{Config, ServiceConfig, construct_configuration}
use habs.Chain.{Chain, connect, get_heartbeat}
use habs.Chain
use habs.Heartbeats
use habs.Heartbeats.{Heartbeats}
use habs.Service
use habs.Orchestrator.State.{Orchestrator, is_noservice}
use habs.Orchestrator.Decision.{bootstrap_orchestrator}
use habs.Config.Steps.{and_then-ok}
use habs.Polkadot.Environment.{construct_polkadot_configuration}
use habs.App.Startup.{
  Settings, Process, launched, new_orchestrator, new_service, new_for, kept, start_process, main,
  text_of, outcome,
}
use habs.App.Startup.Bootstrap.{fixed, bootstrap-fixed, bootstrap-idle, bootstrap-mode}

-- What the constructors make of a configuration.
record IsMade (config : Config) (service_config : Option ServiceConfig) (o : Orchestrator)
    : Type 0 where
  pub role : o.node_role ≡ config.node_role
  pub group : o.group ≡ config.node_group_id
  pub switches :
      (o.orchestration_enabled ≡ config.orchestration_enabled)
      × (o.heartbeat_send_enabled ≡ true)
      × (o.heartbeat_send_enabled_admin ≡ config.heartbeat_enabled)
  pub counters : (o.no_liveness_from_leader ≡ 0) × (o.no_ready_count ≡ 0)
  pub mode : o.service.mode ≡ "none"
  pub supported :
      (s : ServiceConfig)
      → service_config ≡ some s
      → (s.service ≡ "polkadot")
        × (o.service_mode ≡ s.service_mode)
        × (o.service.service_name ≡ "polkadot")

new_service-ok :
    (settings : Settings) (name : String) (service : Service.Service)
    → new_service settings name ≡ ok service
    → (name ≡ "polkadot") × (service.mode ≡ "none") × (service.service_name ≡ "polkadot")
unfolding new_service Service.new
new_service-ok settings name service h = elim (Bool-cases (name == "polkadot")) [
  | inl same ↦
      let (config, e, made) =
        and_then-ok (construct_polkadot_configuration settings.process_env settings.polkadot_object)
          _ (rw same at h) in
      (
        (eq_iff _ _).0 same,
        ground (arith, made),
        ground (arith, made, (eq_iff name "polkadot").0 same),
      )
  | inr other ↦ absurd (ground (arith, h, other))
]

new_for-IsMade :
    (settings : Settings) (config : Config) (chain : Chain) (h : Heartbeats)
    (service_config : Option ServiceConfig) (o : Orchestrator)
    → new_for settings config chain h service_config ≡ ok o
    → IsMade config service_config o
unfolding new_for
new_for-IsMade settings config chain h none o e = record {
  role = ground arith;
  group = ground arith;
  switches = ground arith;
  counters = ground arith;
  mode = ground arith;
  supported = λ s there. absurd (ground arith);
}
new_for-IsMade settings config chain h (some s) o e =
    let (service, made, last) = and_then-ok (new_service settings s.service) _ e in
    let (name, mode, named) = new_service-ok settings s.service service made in
    record {
      role = ground arith;
      group = ground arith;
      switches = ground arith;
      counters = ground arith;
      mode = ground (arith, mode);
      supported = λ t there. ground (arith, name, named);
    }

kept-ok : {S A : Type 0} (s t : S) (r : Result A) → kept s r ≡ ok t → (a : A) × (r ≡ ok a) × (s ≡ t)
kept-ok s t (ok a) h = (a, refl, ground arith)
kept-ok s t (err e) h = absurd (ground arith)
kept-ok s t pending h = absurd (ground arith)

outcome-launched : (r : Result Process) (p : Process) → outcome r ≡ launched p → r ≡ ok p
outcome-launched (ok q) p h = ground arith
outcome-launched (err e) p h = absurd (ground arith)
outcome-launched pending p h = absurd (ground arith)

-- What is known of a process that goes on with its handlers.
pub record IsLaunched (settings : Settings) (o : Orchestrator) : Type 0 where
  pub config : Config
  pub read : construct_configuration settings.process_env settings.config_object ≡ ok config
  pub role : o.node_role ≡ config.node_role
  pub group : o.group ≡ config.node_group_id
  pub orchestration : o.orchestration_enabled ≡ config.orchestration_enabled
  pub heartbeats :
      (o.heartbeat_send_enabled ≡ true)
      × (o.heartbeat_send_enabled_admin ≡ config.heartbeat_enabled)
  pub counters : (o.no_liveness_from_leader ≡ 0) × (o.no_ready_count ≡ 0)
  pub supported :
      (s : ServiceConfig)
      → config.service_config ≡ some s
      → (s.service ≡ "polkadot")
        × (o.service_mode ≡ s.service_mode)
        × (o.service.service_name ≡ "polkadot")
  pub mode : o.service.mode ≡ (if is_noservice o then "none" else "passive")

module _ {W : Type 0} (settings : Settings) (env : Env W) where
  bootstrapped :
      (config : Config) (made o : Orchestrator) (w : W)
      → construct_configuration settings.process_env settings.config_object ≡ ok config
      → IsMade config config.service_config made
      → (bootstrap_orchestrator env (made, w)).0 ≡ ok tt
      → (bootstrap_orchestrator env (made, w)).1.0 ≡ o
      → IsLaunched settings o
  bootstrapped config made o w read m done e =
      let same : fixed (o, w) ≡ fixed (made, w) =
        ap (λ o. fixed (o, w)) (sym e) ∙ bootstrap-fixed env (made, w) in
      let role : is_noservice o ≡ is_noservice made = ap (λ f. f.0.0 == "noservice") same in
      record {
        config = config;
        read = read;
        role = ap (λ f. f.0.0) same ∙ m.role;
        group = ap (λ f. f.0.1) same ∙ m.group;
        orchestration = ap (λ f. f.1.0) same ∙ m.switches.0;
        heartbeats = (ap (λ f. f.1.1) same ∙ m.switches.1, ap (λ f. f.1.2) same ∙ m.switches.2);
        counters = (ap (λ f. f.2.0) same ∙ m.counters.0, ap (λ f. f.2.1) same ∙ m.counters.1);
        supported = λ s there.
            let (name, mode, named) = m.supported s there in
            (name, ap (λ f. f.0.3) same ∙ mode, ap (λ f. f.0.4) same ∙ named);
        mode = elim (Bool-cases (is_noservice made)) [
          | inl idle ↦
              let untouched : made ≡ o =
                ap (λ t. t.1.0) (sym (bootstrap-idle env (made, w) idle)) ∙ e in
              ap (λ o. o.service.mode) (sym untouched) ∙ m.mode ∙ sym (if_true _ _ (role ∙ idle))
          | inr served ↦
              ap (λ o. o.service.mode) (sym e)
              ∙ bootstrap-mode env (made, w) served done
              ∙ sym (if_false _ _ (role ∙ served))
        ];
      }

  -- A process that goes on with its handlers has a complete configuration, whose role, group and
  -- switches its orchestrator has; its counters are 0, and heartbeats are sent unless the
  -- configuration forbids it. Where the configuration has a service, its name is polkadot,
  -- the service of the orchestrator has that name too, and the orchestrator has the service mode of
  -- the configuration. The service is in passive mode, or in mode none on a node of role
  -- noservice. So no node is active when its handlers begin.
  pub main-IsLaunched :
      (w : W) (p : Process)
      → (main settings env w).0 ≡ launched p
      → IsLaunched settings p.orchestrator
  unfolding main start_process new_orchestrator
  main-IsLaunched w p h =
      let (config, read, h1) =
        continue-eq-ok (construct_configuration settings.process_env settings.config_object) _ _
          (outcome-launched _ p h) in
      let connected = connect env config.node_ws (Chain.new, w) in
      let (chain, e1, h2) = continue-eq-ok (kept connected.1.0 connected.0) _ connected.1.1 h1 in
      let hearts = Heartbeats.new (text_of config.nodes_wallets) config.archipel_name in
      let (made, e2, h3) = continue-eq-ok (new_orchestrator settings config chain hearts) _ _ h2 in
      let boot = bootstrap_orchestrator env (made, connected.1.1) in
      let (o, e3, h4) = continue-eq-ok (kept boot.1.0 boot.0) _ boot.1.1 h3 in
      let (u, done, same) = kept-ok boot.1.0 o boot.0 e3 in
      let last : o ≡ p.orchestrator = ground arith in
      bootstrapped config made p.orchestrator connected.1.1 read
        (new_for-IsMade settings config chain hearts config.service_config made e2) done
        (same ∙ last)
