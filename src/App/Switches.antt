-- ===== src/App/Switches.antt =====
-- The switches of the HTTP API: what they answer, and what stays still until they are switched on.
use habs.Base.{◌≡◌, true, false, arith, ok, String, Bool, List, All}
use habs.Env.{Env}
use habs.Orchestrator.State.{Orchestrator, is_noservice, service_start}
use habs.Orchestrator.Decision.{orchestrate_service}
use habs.Orchestrator.Frames.{mode_of}
use habs.Routes.{
  response, error_handler, serve, get_orchestration_disable, disable_orchestration,
  get_heartbeats_disable, get_heartbeats_enable, disable_heartbeats, enable_heartbeats,
}
use habs.Heartbeats.Listing.{Listed}
use habs.Routes.Requests.{orchestration_enable, heartbeats_enable}
use habs.App.{heartbeat_tick}
use habs.App.Actions.{Action, Avoids, run}
use habs.App.Actions.Off.{run-orchestration_off, run-heartbeats_off}
use habs.Service

module _ {W : Type 0} (env : Env W) (takes : String → String → Bool)
    (sort_by_name : List Listed → List Listed) where
  disabled_outcome :
      (s : Orchestrator × W)
      → s.0.orchestration_enabled ≡ true
      → is_noservice s.0 ≡ false
      → (mode_of (serve (get_orchestration_disable env) s).1 ≡ "passive")
        × ((serve (get_orchestration_disable env) s).1.0.orchestration_enabled ≡ false)
  unfolding serve get_orchestration_disable disable_orchestration service_start
      Service.service_start
  disabled_outcome s on served = ground arith

  orchestrate_disabled :
      (s : Orchestrator × W)
      → s.0.orchestration_enabled ≡ false
      → orchestrate_service env s ≡ (ok tt, s)
  unfolding orchestrate_service
  orchestrate_disabled s off = ground arith

  disable_again :
      (s : Orchestrator × W)
      → s.0.orchestration_enabled ≡ false
      → serve (get_orchestration_disable env) s
        ≡ (error_handler "Orchestration is already disabled.", s)
  unfolding serve get_orchestration_disable disable_orchestration
  disable_again s off = ground arith

  heartbeats_outcome :
      (s : Orchestrator × W)
      → s.0.heartbeat_send_enabled_admin ≡ true
      → let after = (serve (get_heartbeats_disable env) s).1 in
        ((serve (get_heartbeats_disable env) s).0
          ≡ response 200 "Success! Heartbeats send was disabled.")
        × (serve (get_heartbeats_enable env) after
            ≡ (response 200 "Success! Heartbeats send was enabled.", s))
        × (after.0.heartbeat_send_enabled_admin ≡ false)
  unfolding serve get_heartbeats_disable disable_heartbeats get_heartbeats_enable enable_heartbeats
  heartbeats_outcome s on = ground arith

  beat_disabled :
      (s : Orchestrator × W)
      → s.0.heartbeat_send_enabled_admin ≡ false
      → heartbeat_tick env s ≡ (ok tt, s)
  unfolding heartbeat_tick
  beat_disabled s off = ground arith

  disable_heartbeats_again :
      (s : Orchestrator × W)
      → s.0.heartbeat_send_enabled_admin ≡ false
      → serve (get_heartbeats_disable env) s
        ≡ (error_handler "Heartbeats send is already disabled.", s)
  unfolding serve get_heartbeats_disable disable_heartbeats
  disable_heartbeats_again s off = ground arith

  -- On a service node with orchestration enabled, the route that disables it leaves the service in
  -- passive mode, whatever the answer. In every state that is reached from there by beats,
  -- orchestrations, blocks of events and requests, in any order, none of the requests being the one
  -- that enables it, an orchestration changes nothing, and disabling again is answered with an
  -- error and changes nothing.
  pub orchestration_disabled :
      (s : Orchestrator × W)
      → s.0.orchestration_enabled ≡ true
      → is_noservice s.0 ≡ false
      → let after = (serve (get_orchestration_disable env) s).1 in
        (mode_of after ≡ "passive")
        × ((actions : List Action)
            → All (Avoids takes orchestration_enable) actions
            → let later = run env takes sort_by_name actions after in
              (orchestrate_service env later ≡ (ok tt, later))
              × (serve (get_orchestration_disable env) later
                  ≡ (error_handler "Orchestration is already disabled.", later)))
  orchestration_disabled s on served =
      let (passive, off) = disabled_outcome s on served in
      (
        passive,
        λ actions avoided.
            let still = run-orchestration_off env takes sort_by_name actions _ avoided off in
            (orchestrate_disabled _ still, disable_again _ still),
      )

  -- The route that disables heartbeats answers with success where they are enabled. In every state
  -- that is reached from there by beats, orchestrations, blocks of events and requests, in any
  -- order, none of the requests being the one that enables them, the interval sends nothing and
  -- changes nothing, and disabling again is answered with an error and changes nothing. Enabling
  -- at once answers with success and restores the state.
  pub heartbeats_disabled :
      (s : Orchestrator × W)
      → s.0.heartbeat_send_enabled_admin ≡ true
      → let after = (serve (get_heartbeats_disable env) s).1 in
        ((serve (get_heartbeats_disable env) s).0
          ≡ response 200 "Success! Heartbeats send was disabled.")
        × (serve (get_heartbeats_enable env) after
            ≡ (response 200 "Success! Heartbeats send was enabled.", s))
        × ((actions : List Action)
            → All (Avoids takes heartbeats_enable) actions
            → let later = run env takes sort_by_name actions after in
              (heartbeat_tick env later ≡ (ok tt, later))
              × (serve (get_heartbeats_disable env) later
                  ≡ (error_handler "Heartbeats send is already disabled.", later)))
  heartbeats_disabled s on =
      let (answered, enabled_again, off) = heartbeats_outcome s on in
      (
        answered,
        enabled_again,
        λ actions avoided.
            let still = run-heartbeats_off env takes sort_by_name actions _ avoided off in
            (beat_disabled _ still, disable_heartbeats_again _ still),
      )
