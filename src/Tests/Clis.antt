-- ===== src/Tests/Clis.antt =====
-- The command line tool at a federation of four nodes.
use habs.Base.{
  ℕ, ◌+◌, ◌≡◌, ◌↔◌, refl, String, false, none, some, List, [], ◌∷◌, Result, err, ok, pending,
  starts_with, if◌then◌else◌, includes, show_nat, split, join,
}
use habs.Cli.Shell.{
  Tools, exec_async, key_prefix, line_rest, before_last_tick, remove_ticks, ticked, after_prefix,
  address_line, replace_space, remove_label, address_of_line,
}
use habs.Cli.Services.Peers.{peer_addresses, reserved_peers-join}
use habs.Cli.Substrate.{
  NodeId, generate_key, generate_substrate_keys, generate_node_id, generate_node_ids, validate_seed,
}
use habs.Cli.Services.{
  member, fields_of, generate_service_fields_config, drop_last, push_peers, reserved_peers,
  validate_fields, validate_all, validate_services_config, generate_entry, generate_services_config,
}
use habs.Cli.Wireguard
use habs.Cli.Wireguard.{
  WireguardKey, WireguardConfig, external_addresses, generate_wireguard_key,
  generate_wireguard_keys, generate_wireguard_config,
}
use habs.Cli.Archipel
use habs.Cli.Archipel.{generate_archipel_config}
use habs.Cli.Generate.{
  Alerts, ConfigData, FederationConfig, check_addresses, check_roles, validate_public_ips,
  validate_nodes_role, validate_config_data, construct_config, generate_config,
}
use habs.Cli.Generate.Valid.{IsValid, validate_config_data_iff}

-- A shell that answers the commands the tool sends, and counts them.
unfoldable pub answer : String → String
answer cmd =
    if starts_with cmd "wg"
    then "AAAAAAAAAAAAAAAAAAAAAAAAAAAAAAAAAAAAAAAAAAA=\n"
    else if starts_with cmd "echo"
    then "BBBBBBBBBBBBBBBBBBBBBBBBBBBBBBBBBBBBBBBBBBB=\n"
    else if starts_with cmd "subkey generate-node-key"
    then "12D3KooW\n"
    else "Secret phrase `drive park` is:\n  SS58 Address:     5Grw\n"

abbrev pub tools : Tools ℕ
unfolding answer
tools = record {
  exec = λ cmd n. (record { error = false; stdout = answer cmd; stderr = "" }, n + 1);
  is_ip = λ s. starts_with s "1";
  is_valid_domain = λ s. false;
  to_lower_case = λ s. s;
}

abbrev pub no_alerts : Alerts
no_alerts = record {
  nexmo_api_key = none;
  nexmo_api_secret = none;
  nexmo_api_signature_method = none;
  nexmo_api_signature_secret = none;
  nexmo_phone_number = none;
  outlet_phone_number = none;
}

abbrev pub config : ConfigData
config = record {
  name = some "my habs";
  public_ips = some "1.1,1.2,1.3,1.4";
  wireguard_ports = some "51820";
  nodes_role = some "operator,operator,operator,noservice";
  nodes_group_id = some "1,1,2,99";
  nodes_group = some "A,A,B,0";
  alerts = no_alerts;
  service_nodes_number = 1;
  services = some (
      record {
        name = "centrifuge";
        fields =
            (("granKey", "g") ∷ ("babeKey", "b") ∷ ("imonKey", "i") ∷ ("audiKey", "a") ∷ []) ∷ [];
      }
      ∷ []);
}

abbrev pub value_of {ℓ} : {A : Type ℓ} → A → Result A → A
value_of default (ok a) = a
value_of default (err e) = default
value_of default pending = default

abbrev pub nothing : FederationConfig
nothing = record {
  name = "";
  nodes_role = none;
  nodes_group = none;
  nodes_group_id = none;
  alerts = no_alerts;
  nodes_number = 0;
  service_nodes_number = 0;
  services = [];
  wireguard = record {
    external_addr_list = "";
    peers_pub_addr_list = "";
    nodes = [];
    allowed_ips_list = "";
  };
  archipel = record { sr25519_list = ""; ed25519_list = ""; reserved_peers_list = ""; nodes = [] };
}

abbrev made : FederationConfig
made = value_of nothing (generate_config tools config 0).0

is_made : (generate_config tools config 0).0 ≡ ok made
unfolding answer starts_with includes show_nat split join exec_async key_prefix line_rest
    before_last_tick remove_ticks ticked after_prefix address_line replace_space remove_label
    address_of_line generate_key generate_substrate_keys generate_node_id generate_node_ids
    validate_seed member fields_of generate_service_fields_config drop_last push_peers
    reserved_peers validate_fields validate_all validate_services_config generate_entry
    generate_services_config Wireguard.fill_nodes external_addresses generate_wireguard_key
    generate_wireguard_keys generate_wireguard_config Archipel.fill_nodes generate_archipel_config
    check_addresses check_roles validate_public_ips validate_nodes_role validate_config_data
    construct_config generate_config
is_made = refl

validate_config_data_iff_example :
    ((validate_config_data tools config 0).0 ≡ ok tt) ↔ IsValid tools config 0
validate_config_data_iff_example = validate_config_data_iff tools config 0

-- It is valid.
is_valid : (validate_config_data tools config 0).0 ≡ ok tt
unfolding answer starts_with includes show_nat split join exec_async key_prefix line_rest
    before_last_tick remove_ticks ticked after_prefix address_line replace_space remove_label
    address_of_line generate_key generate_substrate_keys generate_node_id generate_node_ids
    validate_seed member fields_of generate_service_fields_config drop_last push_peers
    reserved_peers validate_fields validate_all validate_services_config generate_entry
    generate_services_config Wireguard.fill_nodes external_addresses generate_wireguard_key
    generate_wireguard_keys generate_wireguard_config Archipel.fill_nodes generate_archipel_config
    check_addresses check_roles validate_public_ips validate_nodes_role validate_config_data
    construct_config generate_config
is_valid = refl

abbrev key : WireguardKey
key = record {
  private_key = "AAAAAAAAAAAAAAAAAAAAAAAAAAAAAAAAAAAAAAAAAAA=";
  public_key = "BBBBBBBBBBBBBBBBBBBBBBBBBBBBBBBBBBBBBBBBBBB=";
}

abbrev one_node : WireguardConfig
one_node = record {
  external_addr_list = "1.1.1.1:51820";
  peers_pub_addr_list = key.public_key;
  nodes = key.private_key ∷ [];
  allowed_ips_list = "10.0.1.1/32";
}

abbrev two_nodes : List NodeId
two_nodes =
    record { peer_id = "12D3A"; id_file = "polkadot-node-id-0" }
    ∷ record { peer_id = "12D3B"; id_file = "polkadot-node-id-1" }
    ∷ []

peers_of_two : reserved_peers "30333" two_nodes ≡ join "," (peer_addresses "30333" 0 two_nodes)
peers_of_two = reserved_peers-join "30333" two_nodes

two_peers :
    reserved_peers "30333" two_nodes
    ≡ "/ip4/10.0.1.1/tcp/30333/p2p/12D3A,/ip4/10.0.1.2/tcp/30333/p2p/12D3B"
unfolding answer starts_with includes show_nat split join exec_async key_prefix line_rest
    before_last_tick remove_ticks ticked after_prefix address_line replace_space remove_label
    address_of_line generate_key generate_substrate_keys generate_node_id generate_node_ids
    validate_seed member fields_of generate_service_fields_config drop_last push_peers
    reserved_peers validate_fields validate_all validate_services_config generate_entry
    generate_services_config Wireguard.fill_nodes external_addresses generate_wireguard_key
    generate_wireguard_keys generate_wireguard_config Archipel.fill_nodes generate_archipel_config
    check_addresses check_roles validate_public_ips validate_nodes_role validate_config_data
    construct_config generate_config
two_peers = refl
