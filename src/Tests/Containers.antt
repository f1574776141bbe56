-- ===== src/Tests/Containers.antt =====
-- The containers of the service on a host with room for both.
use habs.Docker
use habs.Polkadot.Launch
use habs.Base.{◌≡◌, inl, inr, refl, true, false, none, [], ◌<>◌, find?, ok, Exec, pure, throw}
use habs.Env.{Env, NodeApi, FileSystem}
use habs.Docker.{is_called, first_is}
use habs.Docker.Daemon.{Absent}
use habs.Polkadot.State
use habs.Polkadot.State.{Polkadot}
use habs.Polkadot.Launch.{start_service_container, clean_up, start}
use habs.Polkadot.Launch.Exclusive.{NotBoth}
use habs.Polkadot.Launch.Started.{containers_exclusive}
use habs.Tests.Fixtures.{config}
use habs.Tests.Host.{Host, sync_only, sync_first, validator_name, sync_name, listing, host, daemon}

abbrev unavailable : {A : Type 0} → Exec Host A
unavailable = throw "not used"

abbrev no_api : NodeApi Host
no_api = record {
  connect = λ ws. unavailable;
  is_connected = λ w. false;
  leaders = λ group. unavailable;
  leaded_group = λ group. unavailable;
  heartbeats = λ key. unavailable;
  nodes_status = λ key. unavailable;
  groups = λ key. unavailable;
  best_number = unavailable;
  best_number_finalized = unavailable;
  health = unavailable;
  local_peer_id = unavailable;
  account_nonce = λ address. unavailable;
  send = λ call keys nonce. unavailable;
  disconnect = unavailable;
}

abbrev no_files : FileSystem Host
no_files = record {
  exists = λ path w. false;
  ensure_dir = λ path. unavailable;
  copy = λ from to. unavailable;
  chown = λ path user group. unavailable;
}

abbrev env : Env Host
env = record {
  add_from_uri = λ type seed. ok (record { address = seed; public_key = type <> seed });
  api = no_api;
  docker = host;
  post = λ url request. pure none;
  fs = no_files;
  hostname = "host";
  sleep = λ ms h. h;
}

-- The passive container exists.
abbrev node : Polkadot × Host
node = (State.new config, sync_only)

-- A start as the validator replaces it, and a clean-up removes it.
containers_exclusive_example :
    let a = validator_name in
    let b = sync_name in
    NotBoth a b (listing (start env "active" node).1.1)
    × Absent a (listing (clean_up env node).1.1)
    × Absent b (listing (clean_up env node).1.1)
unfolding is_called find? daemon
containers_exclusive_example =
    containers_exclusive env daemon (λ u r h. refl) (λ ms h. refl) "active" node (inl refl)
      (inr refl) refl (inl refl)

-- A daemon on which no container can be removed.
abbrev stubborn : Env Host
stubborn = record env { docker = record host { remove = λ id. throw "in use" } }

-- There the passive container stays while the validator starts, and the start returns true.
both_run :
    start_service_container stubborn "active" validator_name sync_name "parity/polkadot" [] "/data"
      "volume" "" sync_only
    ≡ (ok true, sync_first)
unfolding find? Docker.create_volume Docker.get_container Docker.get_image Docker.get_volume
    Docker.have_image Docker.is_called Docker.is_container_running Docker.remove_container
    Docker.start_container Launch.prepare_and_start Launch.start_service_container
both_run = refl
