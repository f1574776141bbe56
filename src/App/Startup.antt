-- ===== src/App/Startup.antt =====
-- `main` of orchestrator/src/app.js up to the two intervals, with the constructors of Orchestrator
-- and Service that it runs, and the handler of `catchExitSignals` of orchestrator/src/utils.js.
pub mod Bootstrap
pub mod Launched
use habs.Base.{
  ℕ, String, Bool, true, false, Option, none, some, [], if◌then◌else◌, ◌==◌, ◌<>◌, num, Result, ok,
  err, pending, Exec, pure, lift, ◌>>=◌, ◌>>◌,
}
use habs.Env.{Env, KeyPair}
use habs.Utils.{get_keys_from_seed}
use habs.Config.{ConfigObject, Config, ServiceConfig, and_then, construct_configuration}
use habs.Polkadot.State.{PolkadotConfig}
use habs.Polkadot.State
use habs.Polkadot.Environment.{PolkadotObject, construct_polkadot_configuration}
use habs.Chain.{Chain, connect}
use habs.Chain
use habs.Heartbeats.{Heartbeats}
use habs.Heartbeats
use habs.Service.{Service}
use habs.Service
use habs.Orchestrator.State.{Orchestrator, service_clean_up}
use habs.Orchestrator.Decision.{bootstrap_orchestrator}

-- What the process reads before it begins: the environment variables and the configuration file,
-- in the two views that its two readers have of it.
pub record Settings : Type 0 where
  pub process_env : String → Option String
  pub config_object : String → Result ConfigObject
  pub polkadot_object : String → Result PolkadotObject

abbrev pub text_of : Option String → String
text_of none = ""
text_of (some s) = s

-- `new Service(serviceName)`: the configuration of Polkadot is read where the name is polkadot.
unfoldable pub new_service : Settings → String → Result Service
new_service settings name =
    if name == "polkadot"
    then (and_then (construct_polkadot_configuration settings.process_env settings.polkadot_object)
        λ config. Service.new config name)
    else err ("Service " <> name <> " is not supported yet.")

-- What stands in the field of a node that has no service.
abbrev pub no_service : Service
no_service = record {
  service_name = "";
  mode = "none";
  service_instance = State.new (record {
    polkadot_name = "";
    polkadot_image = "";
    polkadot_prefix = "";
    polkadot_key_gran = "";
    polkadot_key_babe = "";
    polkadot_key_imon = "";
    polkadot_key_para = "";
    polkadot_key_asgn = "";
    polkadot_key_audi = "";
    polkadot_unix_user_id = 0;
    polkadot_unix_group_id = 0;
    polkadot_rpc_port = 0;
    polkadot_validator_name = none;
    polkadot_reserved_nodes = none;
    polkadot_telemetry_url = none;
    polkadot_node_key_file = none;
    polkadot_additional_options = none;
    database_path = "";
    polkadot_session_key_to_check = none;
    polkadot_simulate_synch = false;
    polkadot_archive_node = false;
    testing = false;
  });
}

-- The fields of the constructor of Orchestrator, with the service and the parts of its
-- configuration.
abbrev pub with_service :
    Config
    → Chain
    → Heartbeats
    → Service
    → (mode data_directory config_directory : String) → Orchestrator
with_service config chain heartbeats service mode data_directory config_directory = record {
  node_role = config.node_role;
  service = service;
  service_mode = mode;
  no_liveness_from_leader = 0;
  no_liveness_threshold = 5;
  chain = chain;
  heartbeats = heartbeats;
  alive_time = config.alive_time;
  mnemonic = text_of config.mnemonic;
  group = config.node_group_id;
  archipel_name = config.archipel_name;
  orchestration_enabled = config.orchestration_enabled;
  heartbeat_send_enabled = true;
  heartbeat_send_enabled_admin = config.heartbeat_enabled;
  no_ready_count = 0;
  no_ready_threshold = 30;
  nodes_wallets = text_of config.nodes_wallets;
  service_data_directory = data_directory;
  service_config_directory = config_directory;
}

-- `new Orchestrator(config, chain, heartbeats)`: a node of role noservice has no service.
unfoldable pub new_for :
    Settings → Config → Chain → Heartbeats → Option ServiceConfig → Result Orchestrator
new_for settings config chain heartbeats none =
    ok (with_service config chain heartbeats no_service "" "" "")
new_for settings config chain heartbeats (some s) =
    and_then (new_service settings s.service) λ service. ok (
      with_service config chain heartbeats service s.service_mode s.service_data_directory
        s.service_config_directory)

unfoldable pub new_orchestrator : Settings → Config → Chain → Heartbeats → Result Orchestrator
unfolding new_for
new_orchestrator settings config chain heartbeats =
    new_for settings config chain heartbeats config.service_config

-- A method of an object that was made before: its new state, when the method has returned.
abbrev pub kept {ℓ} : {S A : Type ℓ} → S → Result A → Result S
kept s (ok a) = ok s
kept s (err e) = err e
kept s pending = pending

abbrev pub run_on {ℓ} : {S W A : Type ℓ} → S → Exec (S × W) A → Exec W S
run_on s m w = let (r, t) = m (s, w) in (kept t.0 r, t.1)

-- The process that goes on with its handlers: the address that `listenEvents` compares with is
-- missing where the keys cannot be made, and the events are not listened to then.
pub record Process : Type 0 where
  pub orchestrator : Orchestrator
  pub address : Option String

abbrev pub listener : Result KeyPair → Option String
listener (ok keys) = some keys.address
listener (err e) = none
listener pending = none

module _ {W : Type 0} (settings : Settings) (env : Env W) where
  -- The `try` of `main`, up to the intervals.
  unfoldable pub start_process : Exec W Process
  start_process = do
    config ← lift (construct_configuration settings.process_env settings.config_object)
    chain ← run_on Chain.new (connect env config.node_ws)
    let heartbeats = Heartbeats.new (text_of config.nodes_wallets) config.archipel_name
    made ← lift (new_orchestrator settings config chain heartbeats)
    orchestrator ← run_on made (bootstrap_orchestrator env)
    pure (record {
      orchestrator = orchestrator;
      address = listener (get_keys_from_seed env (text_of config.mnemonic) "sr25519");
    })

-- How `main` ends: the handlers run on, the process exits, or an awaited call never settles.
pub data Outcome : Type 0 where
  launched : Process → Outcome
  exited : Outcome
  stuck : Outcome

abbrev pub outcome : Result Process → Outcome
outcome (ok p) = launched p
outcome (err e) = exited
outcome pending = stuck

module _ {W : Type 0} (settings : Settings) (env : Env W) where
  -- Main function
  unfoldable pub main : W → Outcome × W
  main w = let (r, w') = start_process settings env w in (outcome r, w')

  -- The handler of a signal, up to `process.exit(1)`
  unfoldable pub exit_signal : Exec (Orchestrator × W) (Unit {0})
  exit_signal = do _ ← service_clean_up env; pure tt
