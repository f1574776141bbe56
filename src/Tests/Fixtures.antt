-- ===== src/Tests/Fixtures.antt =====
-- A world in which every call answers the same each time, and states to start from.
use habs.Base.{
  ℕ, String, true, false, Option, none, some, List, [], ◌∷◌, ◌<>◌, ok, Exec, num, pure, throw,
}
use habs.Env.{Env, NodeApi, Dockerode, FileSystem, Event, Notification, finalized, in_block}
use habs.Heartbeats.{Heartbeats, Heartbeat, number}
use habs.Chain
use habs.Polkadot.State.{Polkadot, PolkadotConfig}
use habs.Polkadot.State
use habs.Service.{Service}
use habs.Federation.{field_of}
use habs.Orchestrator.State.{Orchestrator}

abbrev pub World : Type 0
World = Unit {0}

abbrev pub done : Exec World (Unit {0})
done = pure tt

abbrev pub new_leader : Event
new_leader = record {
  section = "archipelModule";
  method = "NewLeader";
  field_at = field_of ("alice" ∷ "1" ∷ []);
  data_is_json = true;
}

abbrev pub confirmed : List Notification
confirmed =
    (record { status = in_block; events = [] })
    ∷ (record { status = finalized; events = new_leader ∷ [] })
    ∷ []

abbrev pub node_api : NodeApi World
node_api = record {
  connect = λ ws. done;
  is_connected = λ w. true;
  leaders = λ group. pure "bob";
  leaded_group = λ group. pure "true";
  heartbeats = λ key. pure "7";
  nodes_status = λ key. pure "1";
  groups = λ key. pure "1";
  best_number = pure "20";
  best_number_finalized = pure "18";
  health = pure (record { peers = "3"; is_syncing = "false" });
  local_peer_id = pure "peer";
  account_nonce = λ address. pure "0";
  send = λ call keys nonce. pure confirmed;
  disconnect = done;
}

abbrev pub empty_host : Dockerode World
empty_host = record {
  inspect_image = λ image. done;
  pull = λ image. done;
  remove_image = λ image. done;
  inspect_volume = λ name. done;
  create_volume = λ name. done;
  remove_volume = λ name. done;
  list_containers = pure [];
  inspect = λ id. throw "no such container";
  create_container = λ c. pure "c1";
  start = λ id. done;
  stop = λ id. done;
  remove = λ id. done;
  exec = λ id command. pure "";
}

abbrev pub files : FileSystem World
files = record {
  exists = λ path w. false;
  ensure_dir = λ path. done;
  copy = λ from to. done;
  chown = λ path user group. done;
}

abbrev pub synced_answer : Option String
synced_answer =
    some "{\"jsonrpc\":\"2.0\",\"result\":{\"peers\":5,\"isSyncing\":false},\"hasKey\":true}"

-- A seed is its own address, and its public key shows the scheme.
abbrev pub env_with : Option String → Env World
env_with answer = record {
  add_from_uri = λ type seed. ok (record { address = seed; public_key = type <> ":" <> seed });
  api = node_api;
  docker = empty_host;
  post = λ url request. pure answer;
  fs = files;
  hostname = "host";
  sleep = λ ms w. w;
}

abbrev pub env : Env World
env = env_with synced_answer

abbrev pub config : PolkadotConfig
config = record {
  polkadot_name = "node";
  polkadot_image = "parity/polkadot:latest";
  polkadot_prefix = "node-";
  polkadot_key_gran = "g";
  polkadot_key_babe = "b";
  polkadot_key_imon = "i";
  polkadot_key_para = "p";
  polkadot_key_asgn = "n";
  polkadot_key_audi = "d";
  polkadot_unix_user_id = 1000;
  polkadot_unix_group_id = 1000;
  polkadot_rpc_port = 9993;
  polkadot_validator_name = none;
  polkadot_reserved_nodes = none;
  polkadot_telemetry_url = none;
  polkadot_node_key_file = none;
  polkadot_additional_options = none;
  database_path = "/data";
  polkadot_session_key_to_check = none;
  polkadot_simulate_synch = false;
  polkadot_archive_node = true;
  testing = false;
}

abbrev pub six_keys : List String
six_keys = "ed25519:g" ∷ "sr25519:b" ∷ "sr25519:i" ∷ "sr25519:p" ∷ "sr25519:n" ∷ "sr25519:d" ∷ []

abbrev pub service_in : String → List String → Service
service_in mode keys = record {
  service_name = "polkadot";
  mode = mode;
  service_instance = record (State.new config) { imported_keys = keys };
}

abbrev pub seen_at : ℕ → Heartbeat
seen_at block = record {
  name = "";
  group = number (num 1);
  node_status = number (num 1);
  block_number = num block;
}

abbrev pub heartbeats : Heartbeats
heartbeats = record {
  heartbeats = ("alice", seen_at 18) ∷ ("bob", seen_at 3) ∷ ("carol", seen_at 19) ∷ [];
  nodes = [];
}

-- The node of alice in group 1, whose leader on the chain is bob.
abbrev pub node_in : String → Orchestrator
node_in mode = record {
  node_role = "operator";
  service = service_in mode six_keys;
  service_mode = "orchestrator";
  no_liveness_from_leader = 0;
  no_liveness_threshold = 5;
  chain = Chain.new;
  heartbeats = heartbeats;
  alive_time = num 12;
  mnemonic = "alice";
  group = num 1;
  archipel_name = "test-archipel";
  orchestration_enabled = true;
  heartbeat_send_enabled = true;
  heartbeat_send_enabled_admin = true;
  no_ready_count = 0;
  no_ready_threshold = 30;
  nodes_wallets = "alice,bob,carol";
  service_data_directory = "/service";
  service_config_directory = "/config";
}
