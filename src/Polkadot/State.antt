-- ===== src/Polkadot/State.antt =====
-- The fields of the class Polkadot and of its configuration
-- (orchestrator/src/services/polkadot/polkadot.js and config.js)
use habs.Base.{ℕ, String, Bool, false, Option, List, [], Exec, gets, modify, zoom}

pub record PolkadotConfig : Type 0 where
  pub polkadot_name : String
  pub polkadot_image : String
  pub polkadot_prefix : String
  pub polkadot_key_gran : String
  pub polkadot_key_babe : String
  pub polkadot_key_imon : String
  pub polkadot_key_para : String
  pub polkadot_key_asgn : String
  pub polkadot_key_audi : String
  pub polkadot_unix_user_id : ℕ
  pub polkadot_unix_group_id : ℕ
  pub polkadot_rpc_port : ℕ
  pub polkadot_validator_name : Option String
  pub polkadot_reserved_nodes : Option String
  pub polkadot_telemetry_url : Option String
  pub polkadot_node_key_file : Option String
  pub polkadot_additional_options : Option String
  pub database_path : String
  pub polkadot_session_key_to_check : Option String
  pub polkadot_simulate_synch : Bool
  pub polkadot_archive_node : Bool
  pub testing : Bool

pub record Polkadot : Type 0 where
  pub cleaning_up : Bool
  pub imported_keys : List String
  pub imported_keys_delay : ℕ
  pub config : PolkadotConfig
  pub polkadot_volume : String
  pub common_polkadot_options : List String
  pub network_mode : String
  pub prepared : Bool
  pub name : String

-- The constructor.
abbrev pub new : PolkadotConfig → Polkadot
new config = record {
  cleaning_up = false;
  imported_keys = [];
  imported_keys_delay = 20000;
  config = config;
  polkadot_volume = "";
  common_polkadot_options = [];
  network_mode = "";
  prepared = false;
  name = config.polkadot_name;
}

abbrev pub on_world : {W A : Type 0} → Exec W A → Exec (Polkadot × W) A
on_world = zoom (λ s. s.1) (λ s w. (s.0, w))

abbrev pub set_fields : {W : Type 0} → (Polkadot → Polkadot) → Exec (Polkadot × W) (Unit {0})
set_fields f = modify (λ s. (f s.0, s.1))

abbrev pub get_config : {W : Type 0} → Exec (Polkadot × W) PolkadotConfig
get_config = gets (λ s. s.0.config)

-- The object, beside the world.
abbrev pub object : {W : Type 0} → Polkadot × W → Polkadot
object t = t.0
