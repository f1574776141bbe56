-- ===== src/Orchestrator/Decision.antt =====
-- `bootstrapOrchestrator`, `orchestrateOperatorService`, `orchestrateService`
use habs.Base.{String, not, ◌||◌, if◌then◌else◌, ◌==◌, ◌<>◌, Exec, pure, throw, gets, ◌>>=◌, ◌>>◌}
use habs.Env.{Env}
use habs.Heartbeats.{any_one_alive}
use habs.Chain.{leader_text, get_leader, get_best_number, can_send_transactions}
use habs.Service
use habs.Orchestrator.State.{
  Orchestrator, on_world, on_chain, on_service, is_noservice, service_clean_up, service_start,
  fill_heartbeats_from_chain,
}
use habs.Orchestrator.Leadership.{node_key, leadership_management, force_active}
use habs.Orchestrator.Readiness.{service_readiness_management}

module _ {W : Type 0} (env : Env W) where
  -- Bootstrap service at boot
  unfoldable pub bootstrap_orchestrator : Exec (Orchestrator × W) (Unit {0})
  bootstrap_orchestrator = do
    noservice ← gets (λ s. is_noservice s.0)
    if noservice then pure tt else do
      _ ← service_clean_up env
      o ← gets (λ s. s.0)
      on_service (Service.service_bootstrap env o.service_config_directory o.service_data_directory)
      started ← service_start env "passive"
      if started
          then fill_heartbeats_from_chain env
          else throw
              "Unable to start service in passive mode. Please check your configuration and docker daemon."

  -- `await this.serviceStart('passive'); return;`
  unfoldable pub go_passive : Exec (Orchestrator × W) (Unit {0})
  go_passive = do _ ← service_start env "passive"; pure tt

  -- The last check: only the leader on the chain is launched in active mode.
  unfoldable pub go_active : String → Exec (Orchestrator × W) (Unit {0})
  go_active key = do
    group ← gets (λ s. s.0.group)
    current_leader ← on_world (get_leader env group)
    if leader_text current_leader == key
        then (do _ ← service_start env "active"; pure tt)
        else pure tt

  -- The end of `orchestrateOperatorService`, from the test of the two heartbeat switches on.
  unfoldable pub lead_if_allowed : String → Exec (Orchestrator × W) (Unit {0})
  lead_if_allowed key = do
    o ← gets (λ s. s.0)
    if not o.heartbeat_send_enabled || not o.heartbeat_send_enabled_admin then go_passive else do
      leadership ← leadership_management env key
      if not leadership then go_passive else go_active key

  -- This method contains main orchestration logic
  unfoldable pub orchestrate_operator_service : Exec (Orchestrator × W) (Unit {0})
  orchestrate_operator_service = do
    send_transaction ← on_chain (can_send_transactions env)
    if not send_transaction then go_passive else do
      key ← node_key env
      best ← on_world (get_best_number env)
      alive ← gets (λ s. any_one_alive key s.0.alive_time s.0.group best s.0.heartbeats)
      if not alive then go_passive else do
        ready ← service_readiness_management env
        if not ready then go_passive else lead_if_allowed key

  dispatch : Orchestrator → Exec (Orchestrator × W) (Unit {0})
  dispatch o =
      if is_noservice o
      then pure tt
      else if not o.orchestration_enabled
      then pure tt
      else if o.service_mode == "orchestrator"
      then orchestrate_operator_service
      else if o.service_mode == "passive"
      then go_passive
      else if o.service_mode == "active"
      then (do _ ← force_active env; pure tt)
      else throw ("Wrong service mode " <> o.service_mode <> "...")

  -- Orchestrate service
  unfoldable pub orchestrate_service : Exec (Orchestrator × W) (Unit {0})
  unfolding dispatch
  orchestrate_service = do o ← gets (λ s. s.0); dispatch o
