-- ===== src/Orchestrator/Readiness.antt =====
-- `serviceReadinessManagement`
use habs.Base.{◌+◌, Bool, true, false, not, ◌&&◌, ltb, if◌then◌else◌, ◌==◌, Result, ok, Exec, ◌>>=◌}
use habs.Env.{Env}
use habs.Service.{service_ready}
use habs.Orchestrator.State.{Orchestrator, on_service}

-- What the method does with the answer of the service.
unfoldable pub note_ready : Bool → Orchestrator → Result Bool × Orchestrator
note_ready ready o =
    if not ready && (o.service.mode == "active")
    then (if ltb o.no_ready_count o.no_ready_threshold
        then (ok true, record o { no_ready_count = o.no_ready_count + 1 })
        else (ok false, record o { heartbeat_send_enabled = false }))
    else if ready && not o.heartbeat_send_enabled
    then (ok ready, record o { heartbeat_send_enabled = true; no_ready_count = 0 })
    else (ok ready, record o { no_ready_count = 0 })

module _ {W : Type 0} (env : Env W) where
  -- Service readiness management
  unfoldable pub service_readiness_management : Exec (Orchestrator × W) Bool
  service_readiness_management = do
    ready ← on_service (service_ready env)
    λ s. let (r, o) = note_ready ready s.0 in (r, (o, s.1))
