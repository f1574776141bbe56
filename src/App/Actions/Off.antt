-- ===== src/App/Actions/Off.antt =====
-- A switch of the HTTP API that is off stays off until the request that switches it on.
use habs.Base.{
  ◌≡◌, ◌≢◌, refl, ◌∙◌, ap, String, Bool, false, Option, List, [], ◌∷◌, All, arith, Keeps, if-Keeps,
  continue-Keeps, try_catch-Keeps, not, ◌||◌,
}
use habs.Env.{Env, Event}
use habs.Chain
use habs.Heartbeats.Listing.{Listed}
use habs.Orchestrator.State.{Orchestrator, service_start, service_clean_up, get_service_mode}
use habs.Orchestrator.Identity.{
  identity, service_start-identity, force_active-identity, orchestrate_service-identity,
}
use habs.Orchestrator.Reading.{get_orchestrator_info-orchestrator}
use habs.Routes.{
  serve, disable_heartbeats, enable_heartbeats, disable_orchestration, enable_orchestration,
  get_heartbeats_disable, get_heartbeats_enable, get_orchestration_disable,
  get_orchestration_enable, post_service_start, get_service_stop, route_service_start,
}
use habs.Routes.Requests.{
  Endpoint, endpoint, answer, served, handle, get_main_page, main_page, heartbeats_disable,
  heartbeats_enable, orchestration_disable, orchestration_enable, service_start_in, service_stop,
  not_found,
}
use habs.App.{heartbeat_tick, orchestrate_tick, listen_event, listen_events}
use habs.App.Events.{listen_events_step}
use habs.App.Actions.{Action, beat, orchestrate, read_events, receive, act, run, Avoids}
use habs.Service

module _ {W : Type 0} (env : Env W) where
  beat-identity : Keeps identity (heartbeat_tick env)
  unfolding heartbeat_tick
  beat-identity = try_catch-Keeps identity _ tt λ s.
      if-Keeps identity (not s.0.heartbeat_send_enabled || not s.0.heartbeat_send_enabled_admin) _ _
        (λ t. refl)
        (λ t.
          continue-Keeps identity
            (Chain.add_heartbeat env (get_service_mode s.0) s.0.mnemonic s.0.group
              (t.0.chain, t.1)).0
            _ _ refl λ sent u. refl)
        s

  orchestrate-identity : Keeps identity (orchestrate_tick env)
  unfolding orchestrate_tick
  orchestrate-identity = try_catch-Keeps identity _ tt (orchestrate_service-identity env)

  event-identity :
      (address : String) (e : Event) (s : Orchestrator × W)
      → identity (listen_event env address e s).1 ≡ identity s
  unfolding listen_event
  event-identity address e s = ground (arith, service_start-identity env "passive" s)

  events-identity :
      (address : String) (events : List Event) → Keeps identity (listen_events env address events)
  unfolding listen_events
  events-identity address [] s = refl
  events-identity address (e ∷ events) s =
      ap (λ p. identity p.1) (listen_events_step env address e events s)
      ∙ events-identity address events (listen_event env address e s).1
      ∙ event-identity address e s

  start-identity :
      (mode : Option String) (s : Orchestrator × W)
      → identity (serve (post_service_start env mode) s).1 ≡ identity s
  unfolding serve post_service_start route_service_start
  start-identity mode s =
      ground (arith, service_start-identity env "passive" s, force_active-identity env s)

  stop-identity : (s : Orchestrator × W) → identity (serve (get_service_stop env) s).1 ≡ identity s
  unfolding serve get_service_stop service_clean_up Service.service_clean_up
  stop-identity s = ground arith

  -- Disabling the orchestration leaves the other switch alone.
  disable-heartbeats_off :
      (s : Orchestrator × W)
      → s.0.heartbeat_send_enabled_admin ≡ false
      → (serve (get_orchestration_disable env) s).1.0.heartbeat_send_enabled_admin ≡ false
  unfolding serve get_orchestration_disable disable_orchestration service_start
      Service.service_start
  disable-heartbeats_off s off = ground arith

  module _ (takes : String → String → Bool) (sort_by_name : List Listed → List Listed) where
    answer-orchestration_off :
        (e : Endpoint) (s : Orchestrator × W)
        → e ≢ orchestration_enable
        → s.0.orchestration_enabled ≡ false
        → (answer env takes sort_by_name e s).1.0.orchestration_enabled ≡ false
    unfolding answer served get_main_page serve get_heartbeats_disable disable_heartbeats
        get_heartbeats_enable enable_heartbeats get_orchestration_disable disable_orchestration
    answer-orchestration_off main_page s other off =
        ap (λ o. o.orchestration_enabled) (get_orchestrator_info-orchestrator env sort_by_name s)
        ∙ off
    answer-orchestration_off heartbeats_disable s other off = ground arith
    answer-orchestration_off heartbeats_enable s other off = ground arith
    answer-orchestration_off orchestration_disable s other off = ground arith
    answer-orchestration_off orchestration_enable s other off = absurd (other refl)
    answer-orchestration_off (service_start_in mode) s other off =
        ap (λ i. i.3) (start-identity mode s) ∙ off
    answer-orchestration_off service_stop s other off = ap (λ i. i.3) (stop-identity s) ∙ off
    answer-orchestration_off not_found s other off = off

    answer-heartbeats_off :
        (e : Endpoint) (s : Orchestrator × W)
        → e ≢ heartbeats_enable
        → s.0.heartbeat_send_enabled_admin ≡ false
        → (answer env takes sort_by_name e s).1.0.heartbeat_send_enabled_admin ≡ false
    unfolding answer served get_main_page serve get_heartbeats_disable disable_heartbeats
        get_orchestration_enable enable_orchestration
    answer-heartbeats_off main_page s other off =
        ap (λ o. o.heartbeat_send_enabled_admin)
          (get_orchestrator_info-orchestrator env sort_by_name s)
        ∙ off
    answer-heartbeats_off heartbeats_disable s other off = ground arith
    answer-heartbeats_off heartbeats_enable s other off = absurd (other refl)
    answer-heartbeats_off orchestration_disable s other off = disable-heartbeats_off s off
    answer-heartbeats_off orchestration_enable s other off = ground arith
    answer-heartbeats_off (service_start_in mode) s other off =
        ap (λ i. i.4) (start-identity mode s) ∙ off
    answer-heartbeats_off service_stop s other off = ap (λ i. i.4) (stop-identity s) ∙ off
    answer-heartbeats_off not_found s other off = off

    act-orchestration_off :
        (a : Action) (s : Orchestrator × W)
        → Avoids takes orchestration_enable a
        → s.0.orchestration_enabled ≡ false
        → (act env takes sort_by_name a s).0.orchestration_enabled ≡ false
    unfolding act handle
    act-orchestration_off beat s avoids off = ap (λ i. i.3) (beat-identity s) ∙ off
    act-orchestration_off orchestrate s avoids off = ap (λ i. i.3) (orchestrate-identity s) ∙ off
    act-orchestration_off (read_events address events) s avoids off =
        ap (λ i. i.3) (events-identity address events s) ∙ off
    act-orchestration_off (receive r) s avoids off =
        answer-orchestration_off (endpoint takes r) s avoids off

    act-heartbeats_off :
        (a : Action) (s : Orchestrator × W)
        → Avoids takes heartbeats_enable a
        → s.0.heartbeat_send_enabled_admin ≡ false
        → (act env takes sort_by_name a s).0.heartbeat_send_enabled_admin ≡ false
    unfolding act handle
    act-heartbeats_off beat s avoids off = ap (λ i. i.4) (beat-identity s) ∙ off
    act-heartbeats_off orchestrate s avoids off = ap (λ i. i.4) (orchestrate-identity s) ∙ off
    act-heartbeats_off (read_events address events) s avoids off =
        ap (λ i. i.4) (events-identity address events s) ∙ off
    act-heartbeats_off (receive r) s avoids off =
        answer-heartbeats_off (endpoint takes r) s avoids off

    pub run-orchestration_off :
        (actions : List Action) (s : Orchestrator × W)
        → All (Avoids takes orchestration_enable) actions
        → s.0.orchestration_enabled ≡ false
        → (run env takes sort_by_name actions s).0.orchestration_enabled ≡ false
    unfolding run
    run-orchestration_off [] s avoided off = off
    run-orchestration_off (a ∷ actions) s avoided off =
        run-orchestration_off actions _ avoided.1 (act-orchestration_off a s avoided.0 off)

    pub run-heartbeats_off :
        (actions : List Action) (s : Orchestrator × W)
        → All (Avoids takes heartbeats_enable) actions
        → s.0.heartbeat_send_enabled_admin ≡ false
        → (run env takes sort_by_name actions s).0.heartbeat_send_enabled_admin ≡ false
    unfolding run
    run-heartbeats_off [] s avoided off = off
    run-heartbeats_off (a ∷ actions) s avoided off =
        run-heartbeats_off actions _ avoided.1 (act-heartbeats_off a s avoided.0 off)
