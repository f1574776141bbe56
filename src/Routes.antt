-- ===== src/Routes.antt =====
-- orchestrator/src/routes/heartbeats.js, orchestrator.js, service.js and the error answers of
-- orchestrator/src/api.js
pub mod Requests
use habs.Base.{
  ℕ, String, Bool, true, false, not, Option, none, some, if◌then◌else◌, ◌==◌, ◌<>◌, Result, ok, err,
  pending, Exec, pure, throw, gets, modify, ◌>>=◌, ◌>>◌,
}
use habs.Env.{Env}
use habs.Utils.{is_empty_string}
use habs.Orchestrator.State.{Orchestrator, on_world, set_fields, service_start, service_clean_up}
use habs.Orchestrator.Leadership.{force_active}

-- What a request is answered with: the status code and the message, or no answer.
pub data Response : Type 0 where
  response : ℕ → String → Response
  no_response : Response

-- `errorHandler`: `err.toString()` of an `Error`
unfoldable pub error_handler : String → Response
error_handler message = response 500 ("Error: " <> message)

-- `get404`
abbrev pub get404 : Response
get404 = response 404 "Requested resource was not found."

abbrev respond : Result String → Response
respond (ok message) = response 200 message
respond (err message) = error_handler message
respond pending = no_response

-- A handler under Express: an error that it throws goes to `errorHandler`.
unfoldable pub serve : {S : Type 0} → Exec S String → S → Response × S
serve handler s = let (r, s') = handler s in (respond r, s')

module _ {W : Type 0} (env : Env W) where
  -- Disable heartbeats send
  unfoldable pub disable_heartbeats : Exec (Orchestrator × W) Bool
  disable_heartbeats = do
    o ← gets (λ s. s.0)
    if o.heartbeat_send_enabled_admin
        then (do set_fields (λ o. record o { heartbeat_send_enabled_admin = false }); pure true)
        else pure false

  -- Enable heartbeats send
  unfoldable pub enable_heartbeats : Exec (Orchestrator × W) Bool
  enable_heartbeats = do
    o ← gets (λ s. s.0)
    if not o.heartbeat_send_enabled_admin
        then (do set_fields (λ o. record o { heartbeat_send_enabled_admin = true }); pure true)
        else pure false

  -- Disable orchestration function
  unfoldable pub disable_orchestration : Exec (Orchestrator × W) Bool
  disable_orchestration = do
    o ← gets (λ s. s.0)
    if o.orchestration_enabled
        then (do
          set_fields (λ o. record o { orchestration_enabled = false })
          on_world (modify (env.sleep 5000))
          _ ← service_start env "passive"
          pure true)
        else pure false

  -- Enable orchestration function
  unfoldable pub enable_orchestration : Exec (Orchestrator × W) Bool
  enable_orchestration = do
    o ← gets (λ s. s.0)
    if not o.orchestration_enabled
        then (do set_fields (λ o. record o { orchestration_enabled = true }); pure true)
        else pure false

  -- Starting service in a specific mode
  unfoldable pub route_service_start : String → Exec (Orchestrator × W) (Unit {0})
  route_service_start mode =
      if mode == "active"
      then (do _ ← force_active env; pure tt)
      else (do _ ← service_start env "passive"; pure tt)

  abbrev succeed : String → String → Bool → Exec (Orchestrator × W) String
  succeed yes_message no_message true = pure yes_message
  succeed yes_message no_message false = throw no_message

  -- GET /heartbeats/disable
  unfoldable pub get_heartbeats_disable : Exec (Orchestrator × W) String
  get_heartbeats_disable = do
    done ← disable_heartbeats
    succeed "Success! Heartbeats send was disabled." "Heartbeats send is already disabled." done

  -- GET /heartbeats/enable
  unfoldable pub get_heartbeats_enable : Exec (Orchestrator × W) String
  get_heartbeats_enable = do
    done ← enable_heartbeats
    succeed "Success! Heartbeats send was enabled." "Heartbeats send is already enabled." done

  -- GET /orchestration/disable
  unfoldable pub get_orchestration_disable : Exec (Orchestrator × W) String
  get_orchestration_disable = do
    done ← disable_orchestration
    succeed "Success! Orchestration was disabled." "Orchestration is already disabled." done

  -- GET /orchestration/enable
  unfoldable pub get_orchestration_enable : Exec (Orchestrator × W) String
  get_orchestration_enable = do
    done ← enable_orchestration
    succeed "Success! Orchestration was enabled." "Orchestration is already enabled." done

  abbrev mode_text : Option String → String
  mode_text none = ""
  mode_text (some mode) = mode

  -- POST /service/start: `checkRequestFields`, then the handler
  unfoldable pub post_service_start : Option String → Exec (Orchestrator × W) String
  post_service_start mode = if is_empty_string mode then throw "Service start mode is empty" else do
    route_service_start (mode_text mode)
    pure ("Success! Service was started in " <> mode_text mode <> " mode.")

  -- GET /service/stop
  unfoldable pub get_service_stop : Exec (Orchestrator × W) String
  get_service_stop = do _ ← service_clean_up env; pure "Success! Service was stopped."
