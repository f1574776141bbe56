-- ===== src/Tests/Startup.antt =====
-- A process that is launched on a service node.
use habs.App.Startup
use habs.Chain
use habs.Config
use habs.Docker
use habs.Heartbeats
use habs.Orchestrator.Decision
use habs.Orchestrator.State
use habs.Polkadot.Environment
use habs.Polkadot.Keys
use habs.Polkadot.Launch
use habs.Service
use habs.Utils
use habs.Base.{ends_with, find?, includes, is_space, parse_int, show, show_nat, split, starts_with}
use habs.Base.{
  Bool, true, false, arith, ◌≡◌, refl, String, Option, none, some, err, if◌then◌else◌, ◌==◌,
}
use habs.Tests.Fixtures.{env}
use habs.App.Startup.{Settings, Process, Outcome, launched, exited, stuck, main, no_service}
use habs.App.Startup.Launched.{IsLaunched, main-IsLaunched}

abbrev variables : String → Option String
variables name =
    if name == "MNEMONIC"
    then some "alice"
    else if name == "NODES_WALLETS"
    then some "alice,bob"
    else if name == "POLKADOT_NAME"
    then some "node"
    else if name == "POLKADOT_KEY_GRAN"
    then some "g"
    else if name == "POLKADOT_KEY_BABE"
    then some "b"
    else if name == "POLKADOT_KEY_IMON"
    then some "i"
    else if name == "POLKADOT_KEY_PARA"
    then some "p"
    else if name == "POLKADOT_KEY_ASGN"
    then some "n"
    else if name == "POLKADOT_KEY_AUDI"
    then some "d"
    else none

abbrev settings : Settings
settings = record {
  process_env = variables;
  config_object = λ path. err "no such file";
  polkadot_object = λ path. err "no such file";
}

abbrev goes_on : Outcome → Bool
goes_on (launched p) = true
goes_on exited = false
goes_on stuck = false

the_process : (o : Outcome) → goes_on o ≡ true → (p : Process) × (o ≡ launched p)
the_process (launched p) h = (p, refl)
the_process exited h = absurd (ground arith)
the_process stuck h = absurd (ground arith)

is_launched : goes_on (main settings env tt).0 ≡ true
unfolding main Startup.new_for Startup.new_orchestrator Startup.new_service Startup.start_process
    ends_with find? includes is_space parse_int show show_nat split starts_with Chain.connect
    Chain.get_best_number Chain.get_heartbeat Config.complete Config.construct_configuration
    Config.file_config Config.from_config_file Config.from_object Docker.create_volume
    Docker.get_container Docker.get_image Docker.get_mount Docker.get_volume Docker.have_image
    Docker.is_called Docker.is_container_running Docker.pull_image Docker.remove_container
    Docker.start_container Docker.start_found Heartbeats.add_heartbeat Heartbeats.new Heartbeats.set
    Heartbeats.to_text Decision.bootstrap_orchestrator State.fill_heartbeats_from_chain
    State.fill_wallets State.service_clean_up State.service_start Environment.complete_polkadot
    Environment.construct_polkadot_configuration Config.check_all Environment.key_at
    Environment.polkadot_file Environment.polkadot_from_config_file Environment.polkadot_from_object
    Keys.check_key_added Keys.check_session_keys_on_node Keys.contains Keys.import_all
    Keys.import_key Keys.import_missing Keys.insert_key Keys.polkadot_keys_import Keys.rpc_url
    Launch.bootstrap Launch.clean_up Launch.common_options Launch.prepare_and_start
    Launch.prepare_service Launch.start Launch.start_as Launch.start_service_container Service.new
    Service.service_bootstrap Service.service_clean_up Service.service_start Utils.check_variable
    Utils.construct_nodes_list Utils.copy_a_file Utils.format_option_cmds Utils.format_option_list
    Utils.get_keys_from_seed Utils.is_empty_string Utils.push_items Utils.push_nodes
    Utils.push_option
is_launched = refl

process : (p : Process) × ((main settings env tt).0 ≡ launched p)
process = the_process (main settings env tt).0 is_launched

main-IsLaunched_example : IsLaunched settings process.0.orchestrator
main-IsLaunched_example = main-IsLaunched settings env tt process.0 process.1
