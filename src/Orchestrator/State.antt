-- ===== src/Orchestrator/State.antt =====
-- The fields of the class Orchestrator, and its methods that hand on to the service.
use habs.Base.{
  ℕ, String, Bool, false, List, [], ◌∷◌, if◌then◌else◌, ◌==◌, Number, num, split, Exec, pure, gets,
  modify, zoom, ◌>>=◌, ◌>>◌,
}
use habs.Env.{Env}
use habs.Heartbeats.{Heartbeats, add_heartbeat, number}
use habs.Chain.{Chain, get_heartbeat}
use habs.Service.{Service}
use habs.Service

-- A node of role noservice has no `service` and no `serviceMode`: there the two fields stand for
-- nothing, and every method asks for the role before it reads them.
pub record Orchestrator : Type 0 where
  pub node_role : String
  pub service : Service
  pub service_mode : String
  pub no_liveness_from_leader : ℕ
  pub no_liveness_threshold : ℕ
  pub chain : Chain
  pub heartbeats : Heartbeats
  pub alive_time : Number
  pub mnemonic : String
  pub group : Number
  pub archipel_name : String
  pub orchestration_enabled : Bool
  pub heartbeat_send_enabled : Bool
  pub heartbeat_send_enabled_admin : Bool
  pub no_ready_count : ℕ
  pub no_ready_threshold : ℕ
  pub nodes_wallets : String
  pub service_data_directory : String
  pub service_config_directory : String

abbrev pub on_world : {W A : Type 0} → Exec W A → Exec (Orchestrator × W) A
on_world = zoom (λ s. s.1) (λ s w. (s.0, w))

abbrev pub on_chain : {W A : Type 0} → Exec (Chain × W) A → Exec (Orchestrator × W) A
on_chain = zoom (λ s. (s.0.chain, s.1)) (λ s t. (record (s.0) { chain = t.0 }, t.1))

abbrev pub on_service : {W A : Type 0} → Exec (Service × W) A → Exec (Orchestrator × W) A
on_service = zoom (λ s. (s.0.service, s.1)) (λ s t. (record (s.0) { service = t.0 }, t.1))

abbrev pub set_fields :
    {W : Type 0} → (Orchestrator → Orchestrator) → Exec (Orchestrator × W) (Unit {0})
set_fields f = modify (λ s. (f s.0, s.1))

abbrev pub is_noservice : Orchestrator → Bool
is_noservice o = o.node_role == "noservice"

-- Get service mode
unfoldable pub get_service_mode : Orchestrator → String
get_service_mode o = if is_noservice o then "noservice" else o.service.mode

module _ {W : Type 0} (env : Env W) where
  -- Service cleanup
  unfoldable pub service_clean_up : Exec (Orchestrator × W) Bool
  service_clean_up = do
    noservice ← gets (λ s. is_noservice s.0)
    if noservice then pure false else on_service (Service.service_clean_up env)

  -- Service start
  unfoldable pub service_start : String → Exec (Orchestrator × W) Bool
  service_start mode = do
    noservice ← gets (λ s. is_noservice s.0)
    if noservice then pure false else on_service (Service.service_start env mode)

  unfoldable pub fill_wallets : List String → Exec (Orchestrator × W) (Unit {0})
  fill_wallets [] = pure tt
  fill_wallets (wallet ∷ wallets) = do
    heartbeat_block ← on_world (get_heartbeat env wallet)
    set_fields (λ o. record o {
      heartbeats =
          add_heartbeat wallet (number (num 0)) (number (num 0)) (number heartbeat_block)
            o.heartbeats;
    })
    fill_wallets wallets

  -- This function fills heartbeat values from chain for every wallet from node wallets
  unfoldable pub fill_heartbeats_from_chain : Exec (Orchestrator × W) (Unit {0})
  unfolding fill_wallets
  fill_heartbeats_from_chain = do
    wallets ← gets (λ s. s.0.nodes_wallets)
    fill_wallets (split 44 wallets)
