-- ===== src/Polkadot/Environment.antt =====
-- orchestrator/src/services/polkadot/config.js. The environment variables are a function from their
-- names; `read_to_obj` reads the file, as `readToObj` of utils.js does.
pub mod Sufficient
use habs.Base.{
  ℕ, zero, suc, String, Bool, true, false, ◌||◌, Option, none, some, List, [], ◌∷◌, ◌++◌, get_elem?,
  find?, if◌then◌else◌, ◌==◌, ◌<>◌, includes, Result, ok, err, Number, num, less, at_least, show,
}
use habs.Utils.{is_empty_string}
use habs.Config.{
  Property, text_property, other_property, check_all, and_then, or_default, or_else, is_nan,
  parse_variable, index_of,
}
use habs.Polkadot.State.{PolkadotConfig}

-- An element of the fields of a node. A key that is missing is `none`.
pub record FieldObject : Type 0 where
  pub env : String
  pub value : Option String

pub record ServiceObject : Type 0 where
  pub fields : List (List FieldObject)
  pub reserved_peers_list : Option String
  pub id_files : List (Option String)

-- The parts of the configuration file that are read.
pub record PolkadotObject : Type 0 where
  pub nodes_number : Number
  pub name : Option String
  pub services : List ServiceObject

-- What the configuration file decides.
pub record PolkadotFile : Type 0 where
  pub polkadot_name : String
  pub polkadot_key_gran : Option String
  pub polkadot_key_babe : Option String
  pub polkadot_key_imon : Option String
  pub polkadot_key_para : Option String
  pub polkadot_key_asgn : Option String
  pub polkadot_key_audi : Option String
  pub polkadot_reserved_nodes : Option String
  pub polkadot_node_key_file : Option String

-- `x.property`, which throws where `x` is undefined
abbrev pub property_of {ℓ} : {A : Type ℓ} → Option A → String → Result A
property_of none property =
    err ("TypeError: Cannot read property '" <> property <> "' of undefined")
property_of (some a) property = ok a

-- In a text in backticks an undefined name is `undefined`.
abbrev pub printed : Option String → String
printed none = "undefined"
printed (some s) = s

-- `fields[index].find(element => element.env === env).value`
unfoldable pub key_at : PolkadotObject → ℕ → String → Result (Option String)
key_at o index env = and_then (property_of (get_elem? o.services 0) "fields") λ service.
    and_then (property_of (get_elem? service.fields index) "find") λ fields.
      and_then (property_of (find? (λ (f : FieldObject). f.env == env) fields) "value")
        λ field. ok field.value

-- The body of the `try` of `constructConfigurationFromConfigFile`
unfoldable pub polkadot_from_object : PolkadotObject → Number → Result PolkadotFile
polkadot_from_object o node_id =
    if less o.nodes_number node_id || at_least (num 0) node_id
    then err ("Error: Invalid node id. It must be between 1 and " <> show o.nodes_number)
    else let i = index_of node_id in
      and_then (key_at o i "POLKADOT_KEY_GRAN") λ gran.
        and_then (key_at o i "POLKADOT_KEY_BABE") λ babe.
          and_then (key_at o i "POLKADOT_KEY_IMON") λ imon.
            and_then (key_at o i "POLKADOT_KEY_PARA") λ para.
              and_then (key_at o i "POLKADOT_KEY_ASGN") λ asgn.
                and_then (key_at o i "POLKADOT_KEY_AUDI") λ audi.
                  and_then (property_of (get_elem? o.services 0) "reservedPeersList") λ service.
                    and_then (property_of (get_elem? service.id_files i) "idFile") λ id_file.
                      ok (record {
                        polkadot_name = printed o.name <> "-node-" <> show node_id;
                        polkadot_key_gran = gran;
                        polkadot_key_babe = babe;
                        polkadot_key_imon = imon;
                        polkadot_key_para = para;
                        polkadot_key_asgn = asgn;
                        polkadot_key_audi = audi;
                        polkadot_reserved_nodes = service.reserved_peers_list;
                        polkadot_node_key_file = id_file;
                      })

abbrev check_file : {A : Type 0} → Result A → Result A
check_file (err e) = err (e <> ". Please check config file.")
check_file r = r

-- `constructConfigurationFromConfigFile`
unfoldable pub polkadot_from_config_file :
    (String → Result PolkadotObject) → String → Option String → Result PolkadotFile
polkadot_from_config_file read_to_obj path node_id =
    if is_nan (parse_variable node_id)
    then err "Node id must be set and must be an integer"
    else and_then (read_to_obj path)
        λ o. check_file (polkadot_from_object o (parse_variable node_id))

-- A key that the file may have set.
abbrev pub given : Option PolkadotFile → (PolkadotFile → Option String) → Option String
given none key = none
given (some f) key = key f

module _ (process_env : String → Option String) where
  -- The file is used where CONFIG_FILE is set.
  unfoldable pub polkadot_file : (String → Result PolkadotObject) → Result (Option PolkadotFile)
  polkadot_file read_to_obj =
      if is_empty_string (process_env "CONFIG_FILE")
      then ok none
      else and_then
          (polkadot_from_config_file read_to_obj
            (or_default (process_env "CONFIG_FILE_PATH") "/config/config.json")
            (process_env "NODE_ID"))
          λ f. ok (some f)

  abbrev flag : String → String → Bool
  flag name default = includes (or_default (process_env name) default) "true"

  abbrev key : Option PolkadotFile → (PolkadotFile → Option String) → String → Option String
  key f field name = or_else (given f field) (process_env name)

  abbrev pub image_of : String
  image_of = or_default (process_env "POLKADOT_IMAGE") "parity/polkadot:latest"

  abbrev pub prefix_of : String
  prefix_of = or_default (process_env "POLKADOT_PREFIX") "node-"

  abbrev pub name_property : Option PolkadotFile → String × Property
  name_property f =
      ("polkadotName", text_property (key f (λ f. some f.polkadot_name) "POLKADOT_NAME"))

  abbrev pub key_properties : Option PolkadotFile → List (String × Property)
  key_properties f =
      ("polkadotKeyGran", text_property (key f (λ f. f.polkadot_key_gran) "POLKADOT_KEY_GRAN"))
      ∷ ("polkadotKeyBabe", text_property (key f (λ f. f.polkadot_key_babe) "POLKADOT_KEY_BABE"))
      ∷ ("polkadotKeyImon", text_property (key f (λ f. f.polkadot_key_imon) "POLKADOT_KEY_IMON"))
      ∷ ("polkadotKeyPara", text_property (key f (λ f. f.polkadot_key_para) "POLKADOT_KEY_PARA"))
      ∷ ("polkadotKeyAsgn", text_property (key f (λ f. f.polkadot_key_asgn) "POLKADOT_KEY_ASGN"))
      ∷ ("polkadotKeyAudi", text_property (key f (λ f. f.polkadot_key_audi) "POLKADOT_KEY_AUDI"))
      ∷ []

  abbrev pub unix_properties : List (String × Property)
  unix_properties =
      ("polkadotUnixUserId", other_property)
      ∷ ("polkadotUnixGroupId", other_property)
      ∷ ("polkadotRpcPort", other_property)
      ∷ []

  abbrev pub image_properties : List (String × Property)
  image_properties =
      ("polkadotImage", text_property (some image_of))
      ∷ ("polkadotPrefix", text_property (some prefix_of))
      ∷ []

  -- `Object.keys(config)` in their order, with the values, where the loop checks them: without a
  -- file, and with one, whose keys come first.
  abbrev pub polkadot_properties : Option PolkadotFile → List (String × Property)
  polkadot_properties none =
      unix_properties ++ name_property none ∷ (image_properties ++ key_properties none)
  polkadot_properties (some f) =
      ("nodeId", other_property)
      ∷ (
        "configFilePath",
        text_property (some (or_default (process_env "CONFIG_FILE_PATH") "/config/config.json")),
      )
      ∷ name_property (some f)
      ∷ (key_properties (some f)
          ++ ("polkadotReservedNodes", text_property f.polkadot_reserved_nodes)
            ∷ ("polkadotNodeKeyFile", text_property f.polkadot_node_key_file)
            ∷ (unix_properties ++ image_properties))

  -- What follows the configuration file.
  unfoldable pub complete_polkadot : Option PolkadotFile → Result PolkadotConfig
  complete_polkadot f = and_then (check_all (polkadot_properties f)) λ _. ok (record {
    polkadot_name = printed (key f (λ f. some f.polkadot_name) "POLKADOT_NAME");
    polkadot_image = image_of;
    polkadot_prefix = prefix_of;
    polkadot_key_gran = printed (key f (λ f. f.polkadot_key_gran) "POLKADOT_KEY_GRAN");
    polkadot_key_babe = printed (key f (λ f. f.polkadot_key_babe) "POLKADOT_KEY_BABE");
    polkadot_key_imon = printed (key f (λ f. f.polkadot_key_imon) "POLKADOT_KEY_IMON");
    polkadot_key_para = printed (key f (λ f. f.polkadot_key_para) "POLKADOT_KEY_PARA");
    polkadot_key_asgn = printed (key f (λ f. f.polkadot_key_asgn) "POLKADOT_KEY_ASGN");
    polkadot_key_audi = printed (key f (λ f. f.polkadot_key_audi) "POLKADOT_KEY_AUDI");
    polkadot_unix_user_id = 1000;
    polkadot_unix_group_id = 1000;
    polkadot_rpc_port = 9993;
    polkadot_validator_name = process_env "POLKADOT_VALIDATOR_NAME";
    polkadot_reserved_nodes = key f (λ f. f.polkadot_reserved_nodes) "POLKADOT_RESERVED_NODES";
    polkadot_telemetry_url = process_env "POLKADOT_TELEMETRY_URL";
    polkadot_node_key_file = key f (λ f. f.polkadot_node_key_file) "POLKADOT_NODE_KEY_FILE";
    polkadot_additional_options = process_env "POLKADOT_ADDITIONAL_OPTIONS";
    database_path = or_default (process_env "POLKADOT_DATABASE_PATH") "/data";
    polkadot_session_key_to_check = process_env "POLKADOT_SESSION_KEY_TO_CHECK";
    polkadot_simulate_synch = flag "POLKADOT_SIMULATE_SYNCH" "false";
    polkadot_archive_node = flag "POLKADOT_ARCHIVE_NODE" "true";
    testing = flag "TESTING" "false";
  })

  -- Construct configuration from env variables
  unfoldable pub construct_polkadot_configuration :
      (String → Result PolkadotObject) → Result PolkadotConfig
  construct_polkadot_configuration read_to_obj =
      and_then (polkadot_file read_to_obj) complete_polkadot
