-- ===== src/Tests/Commands.antt =====
-- The commands of the tool, on small file systems.
use habs.Base.{
  ◌≡◌, ◌≢◌, ◌≤◌, refl, ◌∙◌, ap, arith, ℕ, suc, ◌+◌, ◌-◌, ltb, String, Bool, true, false, ◌||◌, ◌==◌,
  ◌<>◌, eq_iff, some, List, [], ◌∷◌, ok, pending, pure, inl, inr, Bool-cases, if◌then◌else◌,
}
use habs.Base.{starts_with, includes, show_nat, split, join}
use habs.Cli.Shell.{size}
use habs.Cli.Shell.{
  exec_async, key_prefix, line_rest, before_last_tick, remove_ticks, ticked, after_prefix,
  address_line, replace_space, remove_label, address_of_line,
}
use habs.Cli.Substrate.{
  generate_key, generate_substrate_keys, generate_node_id, generate_node_ids, validate_seed,
}
use habs.Cli.Services.{
  member, fields_of, generate_service_fields_config, drop_last, push_peers, reserved_peers,
  validate_fields, validate_all, validate_services_config, generate_entry, generate_services_config,
}
use habs.Cli.Wireguard
use habs.Cli.Wireguard.{
  WireguardKey, WireguardConfig, is_whole, external_addresses, generate_wireguard_key,
  generate_wireguard_keys, generate_wireguard_config,
}
use habs.Cli.Archipel
use habs.Cli.Archipel.{generate_archipel_config}
use habs.Cli.Generate.{
  ConfigData, FederationConfig, check_addresses, check_roles, validate_public_ips,
  validate_nodes_role, validate_config_data, construct_config, generate_config,
}
use habs.Cli.Files.{
  Files, rm_non_empty_dir, for_each, rm_entry, file_exists, load_json_file, prepare_temp_directory,
  create_archive,
}
use habs.Cli.Files.Removal.{Finite, rm_non_empty_dir-ends}
use habs.Cli.Command.{returned, generate_command, generate_archive, temp_dir}
use habs.Cli.Command.Cleared.{Gone, generate_command-Gone}
use habs.Tests.Clis.{answer, tools, config}

-- The temporary directory is there while the number of steps is not 0.
abbrev disk : Files ℕ ConfigData FederationConfig
disk = record {
  exists = λ path n. ltb 0 n;
  readdir = λ path. pure [];
  is_directory = λ path. pure false;
  unlink = λ path. pure tt;
  rmdir = λ path n. (ok tt, 0);
  mkdir = λ path n. (ok tt, 1);
  access = λ path n. true;
  read_json = λ path. pure config;
  write_json = λ c path. pure tt;
  cwd = "/home/admin";
}

run_returned : (generate_command tools disk (pure (some "secret")) 1 0).0 ≡ returned
unfolding answer starts_with includes show_nat split join exec_async key_prefix line_rest
    before_last_tick remove_ticks ticked after_prefix address_line replace_space remove_label
    address_of_line generate_key generate_substrate_keys generate_node_id generate_node_ids
    validate_seed member fields_of generate_service_fields_config drop_last push_peers
    reserved_peers validate_fields validate_all validate_services_config generate_entry
    generate_services_config Wireguard.fill_nodes external_addresses generate_wireguard_key
    generate_wireguard_keys generate_wireguard_config Archipel.fill_nodes generate_archipel_config
    check_addresses check_roles validate_public_ips validate_nodes_role validate_config_data
    construct_config generate_config generate_archive file_exists load_json_file
    prepare_temp_directory generate_command create_archive rm_non_empty_dir for_each rm_entry
run_returned = refl

generate_command-Gone_example :
    Gone disk temp_dir (generate_command tools disk (pure (some "secret")) 1 0).1
generate_command-Gone_example =
    generate_command-Gone tools disk (pure (some "secret")) 1 (λ path w h. refl) 0 run_returned

-- A directory with a file and an empty directory.
abbrev is_dir : String → Bool
is_dir path = path == "/t" || path == "/t/d"

abbrev tree : Files (List String) (Unit {0}) (Unit {0})
tree = record {
  exists = λ path w. is_dir path;
  readdir = λ path. pure (if path == "/t" then "a" ∷ "d" ∷ [] else []);
  is_directory = λ path. pure (is_dir path);
  unlink = λ path w. (ok tt, path ∷ w);
  rmdir = λ path w. (ok tt, path ∷ w);
  mkdir = λ path. pure tt;
  access = λ path w. true;
  read_json = λ path. pure tt;
  write_json = λ c path. pure tt;
  cwd = "/";
}

size-append : (s t : String) → size (s <> t) ≡ size s + size t
size-append String.[] t = omega arith
size-append (String.◌∷◌ c s) t = ap suc (size-append s t) ∙ omega arith

size_dir : (path : String) → is_dir path ≡ true → size path ≤ 4
size_dir path h = elim (Bool-cases (path == "/t")) [
  | inl e ↦ rw ((eq_iff path "/t").0 e) (omega arith)
  | inr e ↦ elim (Bool-cases (path == "/t/d")) [
    | inl e' ↦ rw ((eq_iff path "/t/d").0 e') (omega arith)
    | inr e' ↦ absurd (ground (arith, h, e, e'))
  ]
]

tree-Finite : Finite tree
tree-Finite = record {
  depth = λ w path. 4 - size path;
  below = λ path name w h.
      omega (arith, size_dir (path <> "/" <> name) (ok_true h), size-append path ("/" <> name));
  readdir_ends = λ path w e. ground arith;
  is_directory_ends = λ path w e. ground arith;
  unlink_ends = λ path w e. ground arith;
  rmdir_ends = λ path w e. ground arith;
  readdir_depth = λ path q w. omega arith;
  is_directory_depth = λ path q w. omega arith;
  unlink_depth = λ path q w. omega arith;
  rmdir_depth = λ path q w. omega arith;
}
  where
    ok_true : {b : Bool} → ok b ≡ ok true → b ≡ true
    ok_true h = ground arith

rm_non_empty_dir-ends_example :
    (rm_non_empty_dir tree 3 "/t" [] ≡ rm_non_empty_dir tree 9 "/t" [])
    × ((rm_non_empty_dir tree 3 "/t" []).0 ≢ pending)
unfolding tree-Finite
rm_non_empty_dir-ends_example =
    rm_non_empty_dir-ends tree tree-Finite 3 9 "/t" [] (omega arith) (omega arith)
