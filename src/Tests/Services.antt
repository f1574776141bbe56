-- ===== src/Tests/Services.antt =====
-- Runs of the Polkadot service and of Docker on the states of Tests/Fixtures.antt.
use habs.Base.{
  starts_with, find?, ◌≡◌, ◌≢◌, ◌⊎◌, ◌≤◌, ◌<◌, refl, String, true, [], ◌∷◌, length, NeverThrows, ok,
  none, false, some, sym, false≢true, includes, parse_int,
}
use habs.Env.{ContainerData}
use habs.Tests.Fixtures.{World, env, config, six_keys, empty_host}
use habs.Polkadot.State.{Polkadot, PolkadotConfig, object}
use habs.Polkadot.State
use habs.Utils.{get_keys_from_seed, is_empty_string}
use habs.Polkadot.Keys.{
  polkadot_keys_import, contains, import_all, import_key, insert_key, check_key_added,
  check_session_keys_on_node,
}
use habs.Polkadot.Keys.Pigeonhole.{Distinct}
use habs.Polkadot.Keys.Distinct.{
  KeysValid, configured, polkadot_keys_import-KeysValid, length_imported,
}
use habs.Polkadot.Health.{is_service_ready_to_start, accept, judge, match_peers, match_syncing}
use habs.Polkadot.Ready.{repeated_key_never_ready}
use habs.Docker
use habs.Docker.Starting.{CreatedAndStarted, StartedAgain, start_container-true}
use habs.Docker.Total.{docker-NeverThrows}

-- The keys for babe and im_online come from the same seed.
abbrev repeating : PolkadotConfig
repeating = record config { polkadot_key_imon = "b" }

abbrev boot : PolkadotConfig → Polkadot × World
boot c = (State.new c, tt)

boot-KeysValid : (c : PolkadotConfig) → KeysValid env (State.new c)
boot-KeysValid c = record { distinct = tt; within_configured = tt }

repeats : ¬ Distinct (configured env repeating)
unfolding contains get_keys_from_seed
repeats d = false≢true (sym d.1.0)

polkadot_keys_import-KeysValid_example :
    let p = object (polkadot_keys_import env (boot config)).1 in
    (p.config ≡ config) × KeysValid env p × (length p.imported_keys ≤ 6)
polkadot_keys_import-KeysValid_example =
    polkadot_keys_import-KeysValid env (boot config) (boot-KeysValid config)

start_imported :
    (length {A = String} [] ≤ 6)
    × (¬ Distinct (configured env repeating) → length {A = String} [] < 6)
start_imported = length_imported env (State.new repeating) (boot-KeysValid repeating)

repeated_key_never_ready_example :
    (is_service_ready_to_start env (polkadot_keys_import env (boot repeating)).1).0 ≢ ok true
repeated_key_never_ready_example =
    repeated_key_never_ready env (boot repeating) (boot-KeysValid repeating) repeats refl

-- With six different keys the service is ready after the import.
imported_then_ready :
    (is_service_ready_to_start env (polkadot_keys_import env (boot config)).1).0 ≡ ok true
unfolding polkadot_keys_import is_service_ready_to_start import_all import_key get_keys_from_seed
    contains insert_key check_key_added includes check_session_keys_on_node is_empty_string accept
    judge match_peers parse_int match_syncing
imported_then_ready = refl

abbrev synced_state : Polkadot × World
synced_state = (record (State.new config) { imported_keys = six_keys }, tt)

abbrev node_container : ContainerData
node_container = record {
  name = "node";
  image = "parity/polkadot:latest";
  cmd = "--validator" ∷ [];
  mounts = [];
  network_mode = none;
}

docker_calls_return :
    NeverThrows (Docker.get_image empty_host "node")
    × NeverThrows (Docker.pull_image empty_host "node")
    × NeverThrows (Docker.remove_image empty_host "node")
    × NeverThrows (Docker.get_volume empty_host "node")
    × NeverThrows (Docker.create_volume empty_host "node")
    × NeverThrows (Docker.remove_volume empty_host "node")
    × NeverThrows (Docker.get_container empty_host "node")
    × NeverThrows (Docker.start_container empty_host node_container)
    × NeverThrows (Docker.stop_container empty_host "node")
    × NeverThrows (Docker.remove_container empty_host "node")
    × NeverThrows (Docker.is_container_running empty_host "node")
    × NeverThrows (Docker.get_mount empty_host "node" "/data")
    × NeverThrows (Docker.docker_execute empty_host "node" ("ls" ∷ []))
docker_calls_return = docker-NeverThrows empty_host "node" "/data" node_container ("ls" ∷ [])

node_started : (Docker.start_container empty_host node_container tt).0 ≡ ok true
unfolding Docker.start_container Docker.get_container Docker.have_image Docker.get_image find?
node_started = refl

start_container-true_example :
    CreatedAndStarted empty_host node_container tt ⊎ StartedAgain empty_host node_container tt
start_container-true_example = start_container-true empty_host node_container tt node_started

-- The regular expression takes any earlier `false` for the state of the synchronisation.
earlier_false : match_syncing "{\"other\":false,\"isSyncing\":true}" ≡ some false
unfolding match_syncing starts_with
earlier_false = refl
