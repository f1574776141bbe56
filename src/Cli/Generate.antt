-- ===== src/Cli/Generate.antt =====
-- cli/src/generate.js, but for the temporary directory, the prompt for the password and the archive
pub mod Valid
pub mod Constructed
pub mod Accepted
pub mod Objects
pub mod Delivered
use habs.Base.{
  ℕ, suc, zero, String, Bool, true, false, not, ◌&&◌, ◌||◌, Option, none, some, List, [], ◌∷◌, ◌<>◌,
  ◌==◌, split, is_empty, length, ltb, if◌then◌else◌, Exec, pure, throw, ◌>>=◌, ◌>>◌,
}
use habs.Cli.Shell.{Tools, check_text, replace_space}
use habs.Cli.Services.{
  ServiceData, ServiceEntry, validate_services_config, generate_services_config,
}
use habs.Cli.Wireguard.{WireguardConfig, generate_wireguard_config}
use habs.Cli.Archipel.{ArchipelConfig, generate_archipel_config}

-- The settings for alerts, which are passed on.
pub record Alerts : Type 0 where
  pub nexmo_api_key : Option String
  pub nexmo_api_secret : Option String
  pub nexmo_api_signature_method : Option String
  pub nexmo_api_signature_secret : Option String
  pub nexmo_phone_number : Option String
  pub outlet_phone_number : Option String

-- archipel.json. A key that is missing is `none`; without a number of service nodes none is made.
pub record ConfigData : Type 0 where
  pub name : Option String
  pub public_ips : Option String
  pub wireguard_ports : Option String
  pub nodes_role : Option String
  pub nodes_group_id : Option String
  pub nodes_group : Option String
  pub alerts : Alerts
  pub service_nodes_number : ℕ
  pub services : Option (List ServiceData)

-- config.json
pub record FederationConfig : Type 0 where
  pub name : String
  pub nodes_role : Option String
  pub nodes_group : Option String
  pub nodes_group_id : Option String
  pub alerts : Alerts
  pub nodes_number : ℕ
  pub service_nodes_number : ℕ
  pub services : List ServiceEntry
  pub wireguard : WireguardConfig
  pub archipel : ArchipelConfig

-- `undefined.split` throws.
abbrev pub parts : {W : Type 0} → Option String → Exec W (List String)
parts none = throw "Cannot read property 'split' of undefined"
parts (some s) = pure (split 44 s)

abbrev pub text_or_empty : Option String → String
text_or_empty none = ""
text_or_empty (some s) = s

abbrev check_services : {W : Type 0} → Option (List ServiceData) → Exec W (List ServiceData)
check_services none = throw "Services was not found in archipel.json file."
check_services (some []) = throw "Services was not found in archipel.json file."
check_services (some (s ∷ ss)) = pure (s ∷ ss)

-- The ports, if the text is there and not empty
abbrev pub ports_list : Option String → Option (List String)
ports_list none = none
ports_list (some s) = if is_empty s then none else some (split 44 s)

module _ {W : Type 0} (tools : Tools W) where
  unfoldable pub check_addresses : List String → Exec W (Unit {0})
  check_addresses [] = pure tt
  check_addresses (element ∷ elements) =
      if not (tools.is_ip element) && not (tools.is_valid_domain element)
      then throw ("Public ip list has an invalid IP address or DNS domain (" <> element <> ").")
      else check_addresses elements

  -- Validate public ips list
  unfoldable pub validate_public_ips : Option String → Exec W (Unit {0})
  validate_public_ips ips = do
    external_ip_addresses ← parts ips
    if ltb (length external_ip_addresses) 4
        then throw "Archipel must have at least 4 nodes config."
        else check_addresses external_ip_addresses

  unfoldable pub check_roles : List String → Exec W (Unit {0})
  check_roles [] = pure tt
  check_roles (role ∷ roles) =
      if not (role == "operator") && not (role == "noservice")
      then throw ("Bad role node :" <> role <> ". Archipel node role must be operator or noservice")
      else check_roles roles

  -- Validate nodes role support
  unfoldable pub validate_nodes_role : Option String → Exec W (Unit {0})
  validate_nodes_role roles = do list ← parts roles; check_roles list

  -- Validate config data from archipel.json file
  unfoldable pub validate_config_data : ConfigData → Exec W (Unit {0})
  validate_config_data config_data = do
    check_text config_data.name "Archipel Name was not set in archipel.json file."
    check_text config_data.public_ips "Nodes public ips were not set in archipel.json file."
    services ← check_services config_data.services
    validate_public_ips config_data.public_ips
    validate_nodes_role config_data.nodes_role
    validate_services_config tools services

  -- The construction of the configuration. It follows the validation, which has found the texts and
  -- the services that are asked for again here.
  unfoldable pub construct_config : ConfigData → Exec W FederationConfig
  construct_config config_data = do
    external_ip_addresses ← parts config_data.public_ips
    services_data ← check_services config_data.services
    let name = replace_space "-" (tools.to_lower_case (text_or_empty config_data.name))
    let nodes_number = length external_ip_addresses
    services ← generate_services_config tools services_data config_data.service_nodes_number
    wireguard ←
        generate_wireguard_config tools external_ip_addresses
          (ports_list config_data.wireguard_ports)
    archipel ← generate_archipel_config tools nodes_number
    pure (record {
      name = name;
      nodes_role = config_data.nodes_role;
      nodes_group = config_data.nodes_group;
      nodes_group_id = config_data.nodes_group_id;
      alerts = config_data.alerts;
      nodes_number = nodes_number;
      service_nodes_number = config_data.service_nodes_number;
      services = services;
      wireguard = wireguard;
      archipel = archipel;
    })

  -- Generate config, from the loaded file to the object that is written
  unfoldable pub generate_config : ConfigData → Exec W FederationConfig
  generate_config config_data = do validate_config_data config_data; construct_config config_data
