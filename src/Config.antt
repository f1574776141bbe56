-- ===== src/Config.antt =====
-- orchestrator/src/config.js. The environment variables are a function from their names, and the
-- file is read by `read_to_obj`, as `readToObj` of utils.js does.
pub mod Checks
pub mod Steps
pub mod Texts
use habs.Base.{
  ℕ, zero, suc, ◌+◌, ◌-◌, String, Bool, true, false, not, ◌&&◌, ◌||◌, Option, none, some, List, [],
  ◌∷◌, ◌++◌, get_elem?, if◌then◌else◌, ◌==◌, ◌<>◌, is_empty, includes, split, Result, ok, err,
  pending, Number, num, int, nan, ℤ, pos, negsuc, less, at_least, parse_int, show,
}
use habs.Utils.{is_empty_string, check_variable}

-- The parts of the configuration file that are read. A key that is missing is `none`.
pub record ConfigObject : Type 0 where
  pub nodes_number : Number
  pub nodes_role : String
  pub archipel_seeds : List (Option String)
  pub archipel_sr25519_list : Option String
  pub name : Option String
  pub nodes_group_id : String
  pub service_names : List (Option String)

-- What the configuration file decides for a node. The key `service` is absent (`none`) for a node
-- of role noservice.
pub record FileConfig : Type 0 where
  pub node_role : Option String
  pub mnemonic : Option String
  pub nodes_wallets : Option String
  pub archipel_name : Option String
  pub node_group_id : Option String
  pub service : Option (Option String)

pub record ServiceConfig : Type 0 where
  pub service : String
  pub service_mode : String
  pub service_data_directory : String
  pub service_config_directory : String

pub record Config : Type 0 where
  pub node_role : String
  pub mnemonic : Option String
  pub nodes_wallets : Option String
  pub archipel_name : String
  pub node_group_id : Number
  pub node_ws : String
  pub alive_time : Number
  pub heartbeat_enabled : Bool
  pub orchestration_enabled : Bool
  pub service_config : Option ServiceConfig

-- One step after another, the first error ends them.
abbrev pub and_then {ℓ} : {A B : Type ℓ} → Result A → (A → Result B) → Result B
and_then (ok a) f = f a
and_then (err e) f = err e
and_then pending f = pending

-- `a || b` for a text, which is false if it is not set or empty
abbrev pub or_default : Option String → String → String
or_default none fallback = fallback
or_default (some s) fallback = if is_empty s then fallback else s

-- `a ? a : b`
abbrev pub or_else : Option String → Option String → Option String
or_else a b = if is_empty_string a then b else a

abbrev pub is_nan : Number → Bool
is_nan nan = true
is_nan (int z) = false

-- `parseInt` of a variable; `undefined` gives NaN
abbrev pub parse_variable : Option String → Number
parse_variable none = nan
parse_variable (some s) = parse_int s

-- `nodeId - 1` as an index
abbrev pub index_of : Number → ℕ
index_of (int (pos n)) = n - 1
index_of _ = 0

-- `!v || !v.includes('false')`
abbrev pub enabled : Option String → Bool
enabled none = true
enabled (some s) = is_empty s || not (includes s "false")

-- `list[i].key`, which throws where there is no element
abbrev pub member : List (Option String) → ℕ → Result (Option String)
member [] i = err "Cannot read property of undefined"
member (x ∷ xs) zero = ok x
member (x ∷ xs) (suc i) = member xs i

abbrev pub says_noservice : Option String → Bool
says_noservice none = false
says_noservice (some role) = role == "noservice"

-- The end of the `try`, with the name of the service if the node has one.
abbrev service_of : Option String → ConfigObject → Result (Option (Option String))
service_of role o =
    if says_noservice role
    then ok none
    else and_then (member o.service_names 0) λ name. ok (some name)

-- The body of the `try` of `constructConfigurationFromConfigFile`
unfoldable pub from_object : ConfigObject → Number → Result FileConfig
from_object o node_id =
    if less o.nodes_number node_id || at_least (num 0) node_id
    then err ("Invalid node id. It must be between 1 and " <> show o.nodes_number)
    else let role = get_elem? (split 44 o.nodes_role) (index_of node_id) in
      and_then (member o.archipel_seeds (index_of node_id)) λ seed.
        and_then (service_of role o) λ service. ok (record {
          node_role = role;
          mnemonic = seed;
          nodes_wallets = o.archipel_sr25519_list;
          archipel_name = o.name;
          node_group_id = get_elem? (split 44 o.nodes_group_id) (index_of node_id);
          service = service;
        })

abbrev check_file : {A : Type 0} → Result A → Result A
check_file (err e) = err ("Error: " <> e <> ". Please check config file.")
check_file r = r

-- Without a configuration file nothing is decided yet.
abbrev pub no_file : FileConfig
no_file = record {
  node_role = none;
  mnemonic = none;
  nodes_wallets = none;
  archipel_name = none;
  node_group_id = none;
  service = none;
}

-- A value of the object: a text, which is absent where it is undefined, or a number or a Boolean,
-- which has no length.
pub data Property : Type 0 where
  text_property : Option String → Property
  other_property : Property

abbrev pub check_property : String → Property → Result Bool
check_property name (text_property value) = check_variable value name
check_property name other_property = ok true

-- The loop over the keys, `checkVariable` for each.
unfoldable pub check_all : List (String × Property) → Result Bool
check_all [] = ok true
check_all ((name, value) ∷ properties) =
    and_then (check_property name value) λ _. check_all properties

-- The value of `service` where the file set it: the name in the configuration of the service, and
-- on a node that the environment makes one of role noservice still the name of the file.
abbrev pub service_of_file :
    Option (Option String) → Option ServiceConfig → List (String × Property)
service_of_file none s = []
service_of_file (some name) none = ("service", text_property name) ∷ []
service_of_file (some name) (some s) = ("service", text_property (some s.service)) ∷ []

abbrev service_keys : ServiceConfig → List (String × Property)
service_keys s =
    ("serviceMode", text_property (some s.service_mode))
    ∷ ("serviceDataDirectory", text_property (some s.service_data_directory))
    ∷ ("serviceConfigDirectory", text_property (some s.service_config_directory))
    ∷ []

-- The keys that are set on a service node, `service` if it is new.
abbrev pub service_properties :
    Option (Option String) → Option ServiceConfig → List (String × Property)
service_properties name none = []
service_properties none (some s) = ("service", text_property (some s.service)) ∷ service_keys s
service_properties (some name) (some s) = service_keys s

module _ (read_to_obj : String → Result ConfigObject) where
  -- `constructConfigurationFromConfigFile`
  unfoldable pub from_config_file : String → Option String → Result FileConfig
  from_config_file path node_id =
      if is_nan (parse_variable node_id)
      then err "Node id must be set and must be an integer"
      else and_then (read_to_obj path) λ o. check_file (from_object o (parse_variable node_id))

module _ (process_env : String → Option String) where
  -- The configuration file is used where CONFIG_FILE is set.
  unfoldable pub file_config : (String → Result ConfigObject) → Result FileConfig
  file_config read_to_obj =
      if is_empty_string (process_env "CONFIG_FILE")
      then ok no_file
      else from_config_file read_to_obj
          (or_default (process_env "CONFIG_FILE_PATH") "/config/config.json")
          (process_env "NODE_ID")

  abbrev service_name : Option (Option String) → Option String
  service_name none = none
  service_name (some name) = name

  abbrev pub node_role_of : FileConfig → String
  node_role_of f = or_default f.node_role (or_default (process_env "NODE_ROLE") "operator")

  abbrev service_config_of : String → Option String → Option ServiceConfig
  service_config_of node_role service =
      if node_role == "noservice"
      then none
      else some (record {
        service = or_default service (or_default (process_env "SERVICES") "polkadot");
        service_mode = or_default (process_env "ARCHIPEL_SERVICE_MODE") "orchestrator";
        service_data_directory = or_default (process_env "SERVICE_DATA_DIRECTORY") "/service";
        service_config_directory = or_default (process_env "SERVICE_CONFIG_DIRECTORY") "/config";
      })

  abbrev pub alive_time_of : Number
  alive_time_of = parse_int (or_default (process_env "ALIVE_TIME") "12")

  abbrev pub node_group_id_of : FileConfig → Number
  node_group_id_of f =
      parse_int (or_default f.node_group_id (or_default (process_env "NODE_GROUP_ID") "1"))

  abbrev pub config_of : FileConfig → Config
  config_of f = record {
    node_role = node_role_of f;
    mnemonic = or_else f.mnemonic (process_env "MNEMONIC");
    nodes_wallets = or_else f.nodes_wallets (process_env "NODES_WALLETS");
    archipel_name =
        or_default f.archipel_name (or_default (process_env "ARCHIPEL_NAME") "test-archipel");
    node_group_id = node_group_id_of f;
    node_ws = or_default (process_env "NODE_WS") "ws://127.0.0.1:9944";
    alive_time = alive_time_of;
    heartbeat_enabled = enabled (process_env "ARCHIPEL_HEARTBEATS_ENABLE");
    orchestration_enabled = enabled (process_env "ARCHIPEL_ORCHESTRATION_ENABLE");
    service_config = service_config_of (node_role_of f) (service_name f.service);
  }

  -- The keys that the reader of the file adds.
  abbrev pub file_properties : List (String × Property)
  file_properties =
      if is_empty_string (process_env "CONFIG_FILE")
      then []
      else (("nodeId", other_property)
          ∷ (
            "configFilePath",
            text_property
                (some (or_default (process_env "CONFIG_FILE_PATH") "/config/config.json")),
          )
          ∷ [])

  -- `Object.keys(config)` in their order, with the values.
  abbrev pub properties : FileConfig → Config → List (String × Property)
  properties f c =
      file_properties
      ++ ("nodeRole", text_property (some c.node_role))
        ∷ ("mnemonic", text_property c.mnemonic)
        ∷ ("nodesWallets", text_property c.nodes_wallets)
        ∷ ("archipelName", text_property (some c.archipel_name))
        ∷ ("nodeGroupId", other_property)
        ∷ (service_of_file f.service c.service_config
            ++ ("nodeWs", text_property (some c.node_ws))
              ∷ ("aliveTime", other_property)
              ∷ ("heartbeatEnabled", other_property)
              ∷ ("orchestrationEnabled", other_property)
              ∷ service_properties f.service c.service_config)

  -- What follows the configuration file.
  unfoldable pub complete : FileConfig → Result Config
  complete f =
      if is_nan alive_time_of
      then err "Alive time must be an integer"
      else if is_nan (node_group_id_of f)
      then err "Node group id must be an integer"
      else and_then (check_all (properties f (config_of f))) λ _. ok (config_of f)

  -- Construct configuration from env variables
  unfoldable pub construct_configuration : (String → Result ConfigObject) → Result Config
  construct_configuration read_to_obj = and_then (file_config read_to_obj) complete
