-- ===== src/Orchestrator/Info.antt =====
-- `getOrchestratorInfo` of orchestrator/src/orchestrator.js, which orchestrator/src/routes/main.js
-- answers with
use habs.Base.{
  String, Bool, Option, none, some, List, Number, Exec, pure, gets, ◌>>=◌, if◌then◌else◌,
}
use habs.Env.{Env}
use habs.Chain.{
  get_peer_id, get_peer_number, get_best_number, get_best_number_finalized, get_sync_state,
  get_leader, is_connected,
}
use habs.Heartbeats.Listing.{Listed, get_all_heartbeats}
use habs.Service.{ServiceInfo, get_service_info}
use habs.Orchestrator.State.{Orchestrator, on_world, on_service, is_noservice}
use habs.Orchestrator.Leadership.{node_key}

-- The info of the orchestrator, with that of the service where the node has one. A failed call is
-- `none` where the code answers `false` or 0.
pub record OrchestratorInfo : Type 0 where
  pub orchestrator_address : String
  pub archipel_name : String
  pub is_connected : Bool
  pub peer_id : Option String
  pub peer_number : Number
  pub best_number : Number
  pub best_number_finalized : Number
  pub synch_state : Option Bool
  pub leader : Option String
  pub orchestration_enabled : Bool
  pub heartbeat_send_enabled_admin : Bool
  pub heartbeat_send_enabled : Bool
  pub heartbeats : List Listed
  pub service_info : Option ServiceInfo

module _ {W : Type 0} (env : Env W) (sort_by_name : List Listed → List Listed) where
  unfoldable pub with_service : OrchestratorInfo → Exec (Orchestrator × W) OrchestratorInfo
  with_service info = do
    service_info ← on_service (get_service_info env)
    pure (record info { service_info = some service_info })

  -- Get orchestrator info and stats
  unfoldable pub get_orchestrator_info : Exec (Orchestrator × W) OrchestratorInfo
  unfolding with_service
  get_orchestrator_info = do
    address ← node_key env
    connected ← gets (λ s. is_connected env s.1)
    peer_id ← on_world (get_peer_id env)
    peer_number ← on_world (get_peer_number env)
    best_number ← on_world (get_best_number env)
    finalized_number ← on_world (get_best_number_finalized env)
    synch_state ← on_world (get_sync_state env)
    group ← gets (λ s. s.0.group)
    leader ← on_world (get_leader env group)
    o ← gets (λ s. s.0)
    let info : OrchestratorInfo = record {
      orchestrator_address = address;
      archipel_name = o.archipel_name;
      is_connected = connected;
      peer_id = peer_id;
      peer_number = peer_number;
      best_number = best_number;
      best_number_finalized = finalized_number;
      synch_state = synch_state;
      leader = leader;
      orchestration_enabled = o.orchestration_enabled;
      heartbeat_send_enabled_admin = o.heartbeat_send_enabled_admin;
      heartbeat_send_enabled = o.heartbeat_send_enabled;
      heartbeats = get_all_heartbeats sort_by_name o.heartbeats;
      service_info = none;
    }
    if is_noservice o then pure info else with_service info
