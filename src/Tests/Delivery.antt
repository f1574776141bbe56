-- ===== src/Tests/Delivery.antt =====
-- Polkadot for a federation of four nodes, with the keys of one service node.
use habs.Base.{
  ◌≡◌, refl, String, Option, none, some, [], ◌∷◌, arith, num, Result, err, ok, starts_with,
  if◌then◌else◌, ◌==◌, includes, show_nat, split, join, ℕ, suc, ◌≤◌, ◌<◌,
}
use habs.Cli.Shell.{
  exec_async, key_prefix, line_rest, before_last_tick, remove_ticks, ticked, after_prefix,
  address_line, replace_space, remove_label, address_of_line,
}
use habs.Cli.Substrate.{
  generate_key, generate_substrate_keys, generate_node_id, generate_node_ids, validate_seed,
}
use habs.Cli.Services.{
  Object, ServiceData, member, fields_of, generate_service_fields_config, drop_last, push_peers,
  reserved_peers, validate_fields, validate_all, validate_services_config, generate_entry,
  generate_services_config,
}
use habs.Cli.Wireguard
use habs.Cli.Wireguard.{
  WireguardKey, WireguardConfig, is_whole, external_addresses, generate_wireguard_key,
  generate_wireguard_keys, generate_wireguard_config,
}
use habs.Cli.Archipel
use habs.Cli.Archipel.{generate_archipel_config}
use habs.Config.{ConfigObject, FileConfig, from_config_file, parse_variable}
use habs.Cli.Generate.Accepted.{object_of, IsGiven, generate_config-accepted}
use habs.Cli.Generate.{
  ConfigData, FederationConfig, check_addresses, check_roles, validate_public_ips,
  validate_nodes_role, validate_config_data, construct_config, generate_config,
}
use habs.Cli.Generate.Objects.{polkadot_object}
use habs.Cli.Generate.Delivered.{IsDelivered, keys-IsDelivered, surplus_node_refused}
use habs.Polkadot.Environment.{PolkadotFile, PolkadotObject, polkadot_from_object}
use habs.Tests.Clis.{answer, tools, config, value_of, nothing}

abbrev keys : Object
keys =
    ("granKey", "g")
    ∷ ("babeKey", "b")
    ∷ ("imonKey", "i")
    ∷ ("paraKey", "p")
    ∷ ("asgnKey", "a")
    ∷ ("audiKey", "u")
    ∷ []

abbrev polkadot : ServiceData
polkadot = record { name = "polkadot"; fields = keys ∷ [] }

abbrev with_polkadot : ConfigData
with_polkadot = record config { services = some (polkadot ∷ []) }

abbrev made : FederationConfig
made = value_of nothing (generate_config tools with_polkadot 0).0

is_made : (generate_config tools with_polkadot 0).0 ≡ ok made
unfolding answer starts_with includes show_nat split join exec_async key_prefix line_rest
    before_last_tick remove_ticks ticked after_prefix address_line replace_space remove_label
    address_of_line generate_key generate_substrate_keys generate_node_id generate_node_ids
    validate_seed member fields_of generate_service_fields_config drop_last push_peers
    reserved_peers validate_fields validate_all validate_services_config generate_entry
    generate_services_config Wireguard.fill_nodes external_addresses generate_wireguard_key
    generate_wireguard_keys generate_wireguard_config Archipel.fill_nodes generate_archipel_config
    check_addresses check_roles validate_public_ips validate_nodes_role validate_config_data
    construct_config generate_config
is_made = refl

number : made.nodes_number ≡ 4
unfolding answer starts_with includes show_nat split join exec_async key_prefix line_rest
    before_last_tick remove_ticks ticked after_prefix address_line replace_space remove_label
    address_of_line generate_key generate_substrate_keys generate_node_id generate_node_ids
    validate_seed member fields_of generate_service_fields_config drop_last push_peers
    reserved_peers validate_fields validate_all validate_services_config generate_entry
    generate_services_config Wireguard.fill_nodes external_addresses generate_wireguard_key
    generate_wireguard_keys generate_wireguard_config Archipel.fill_nodes generate_archipel_config
    check_addresses check_roles validate_public_ips validate_nodes_role validate_config_data
    construct_config generate_config
number = refl

generate_config-accepted_example :
    (roles : String) × (made.nodes_role ≡ some roles)
    × (made.nodes_group_id ≡ some "1,1,2,99")
    × (4 ≤ made.nodes_number)
    × ((i : ℕ) (read_to_obj : String → Result ConfigObject) (path : String)
          (node_id : Option String)
        → i < made.nodes_number
        → read_to_obj path ≡ ok (object_of made roles "1,1,2,99")
        → parse_variable node_id ≡ num (suc i)
        → (f : FileConfig) × (from_config_file read_to_obj path node_id ≡ ok f)
          × IsGiven made roles "1,1,2,99" i f)
generate_config-accepted_example =
    generate_config-accepted tools with_polkadot 0 made "1,1,2,99" is_made refl

keys-IsDelivered_example :
    (f : PolkadotFile) × (polkadot_from_object (polkadot_object made) (num 1) ≡ ok f)
    × IsDelivered made 0 keys f
keys-IsDelivered_example =
    keys-IsDelivered tools with_polkadot 0 made polkadot [] 0 is_made refl refl
      (omega (arith, number)) keys (omega arith) refl

surplus_node_refused_example :
    polkadot_from_object (polkadot_object made) (num 2)
    ≡ err "TypeError: Cannot read property 'find' of undefined"
surplus_node_refused_example =
    surplus_node_refused tools with_polkadot 0 made polkadot [] 1 is_made refl refl
      (omega (arith, number)) (omega arith)

-- The first node reads the file.
abbrev variables : String → Option String
variables name =
    if name == "CONFIG_FILE" then some "true" else if name == "NODE_ID" then some "1" else none

abbrev read : String → Result PolkadotObject
read path = ok (polkadot_object made)
