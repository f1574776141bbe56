-- ===== src/App.antt =====
-- orchestrator/src/app.js and `listenEvents` of orchestrator/src/chain.js: the handlers that the
-- process runs. A run is a sequence of handlers, each run to its end before the next begins.
pub mod Events
pub mod Actions
pub mod Startup
pub mod Switches
use habs.Base.{
  String, Bool, not, ◌&&◌, ◌||◌, Option, none, some, List, [], ◌∷◌, if◌then◌else◌, get_elem?, ◌==◌,
  show, Exec, pure, gets, try_catch, when, detach, ◌>>=◌, ◌>>◌,
}
use habs.Env.{Env, Event}
use habs.Heartbeats.{text}
use habs.Heartbeats
use habs.Chain
use habs.Orchestrator.State.{Orchestrator, on_chain, set_fields, get_service_mode, service_start}
use habs.Orchestrator.Decision.{orchestrate_service}

abbrev pub is_event : String → Event → Bool
is_event method e = e.section == "archipelModule" && e.method == method

-- If anyone other took leadership of the group
unfoldable pub is_taken_by_other : String → Orchestrator → Event → Bool
is_taken_by_other address o e =
    is_event "NewLeader" e && not (e.field_at 0 == address) && e.field_at 1 == show o.group

module _ {W : Type 0} (env : Env W) where
  -- The body of the loop over the events of a block, for the node with the address `address`.
  unfoldable pub listen_event : String → Event → Exec (Orchestrator × W) (Unit {0})
  listen_event address e = do
    o ← gets (λ s. s.0)
    when (is_taken_by_other address o e) (detach (service_start env "passive"))
    when (is_event "NewHeartbeat" e) (
        set_fields (λ o. record o {
          heartbeats =
              Heartbeats.add_heartbeat (e.field_at 0) (text (e.field_at 1)) (text (e.field_at 2))
                (text (e.field_at 3)) o.heartbeats;
        }))

  -- The callback of the subscription.
  unfoldable pub listen_events : String → List Event → Exec (Orchestrator × W) (Unit {0})
  listen_events address [] = pure tt
  listen_events address (e ∷ events) = do listen_event address e; listen_events address events

  -- The body of the first interval: add heartbeats every 10 seconds
  unfoldable pub heartbeat_tick : Exec (Orchestrator × W) (Unit {0})
  heartbeat_tick =
      try_catch
        (do
          o ← gets (λ s. s.0)
          if not o.heartbeat_send_enabled || not o.heartbeat_send_enabled_admin then pure tt else do
            _ ← on_chain (Chain.add_heartbeat env (get_service_mode o) o.mnemonic o.group)
            pure tt)
        (pure tt)

  -- The body of the second interval: orchestrate every 10 seconds
  unfoldable pub orchestrate_tick : Exec (Orchestrator × W) (Unit {0})
  orchestrate_tick = try_catch (orchestrate_service env) (pure tt)
