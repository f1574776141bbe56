-- ===== src/Polkadot/Launch.antt =====
-- The containers: `bootstrap`, `checkLaunchedContainer`, `prepareService`, `prepareAndStart`,
-- `startServiceContainer`, `start`, `cleanUp`, `getInfo`
pub mod Exclusive
pub mod Started
use habs.Base.{
  String, Bool, true, false, not, ◌&&◌, Option, none, some, List, [], ◌∷◌, ◌++◌, if◌then◌else◌,
  ◌==◌, ◌<>◌, show_nat, Exec, pure, throw, gets, try_catch, when, ◌>>=◌, ◌>>◌,
}
use habs.Env.{Env, Mount, ContainerData}
use habs.Utils.{is_empty_string, format_option_list, format_option_cmds, copy_a_file}
use habs.Docker.{
  Container, create_volume, get_container, start_container, remove_container, is_container_running,
  get_mount,
}
use habs.Polkadot.State.{Polkadot, PolkadotConfig, on_world, set_fields, get_config}
use habs.Polkadot.Keys.{check_session_keys_on_node, polkadot_keys_import}

abbrev pub validator : PolkadotConfig → String
validator config = config.polkadot_prefix <> "polkadot-validator"

abbrev pub sync : PolkadotConfig → String
sync config = config.polkadot_prefix <> "polkadot-sync"

abbrev pub or_empty : Option String → String
or_empty none = ""
or_empty (some s) = s

abbrev pub exists? : Option Container → Bool
exists? none = false
exists? (some c) = true

abbrev given : Option String → (String → List String) → List String
given option f = if is_empty_string option then [] else f (or_empty option)

telemetry : String → List String
telemetry url =
    if url == "--no-telemetry"
    then "--no-telemetry" ∷ []
    else format_option_list "--telemetry-url" url

-- The list `commonPolkadotOptions` that `prepareService` builds.
unfoldable pub common_options : PolkadotConfig → List String
unfolding telemetry
common_options config =
    ("--prometheus-external"
      ∷ "--prometheus-port"
      ∷ "9615"
      ∷ "--rpc-cors"
      ∷ "http://localhost"
      ∷ "--rpc-port"
      ∷ show_nat config.polkadot_rpc_port
      ∷ [])
    ++ ((if config.polkadot_archive_node then "--pruning=archive" ∷ [] else [])
        ++ (given config.polkadot_additional_options format_option_cmds
            ++ (given config.polkadot_node_key_file
                  (λ file. ("--node-key-file=" <> config.database_path <> "/keys/" <> file) ∷ [])
                ++ (given config.polkadot_reserved_nodes (format_option_list "--reserved-nodes")
                    ++ given config.polkadot_telemetry_url telemetry))))

abbrev volume_name : PolkadotConfig → Option Mount → String
volume_name config none = config.polkadot_prefix <> "polkadot-volume"
volume_name config (some m) = or_empty m.name

-- What `getInfo` exposes.
pub record Info : Type 0 where
  pub session_keys_string : Option String
  pub session_keys_on_node : Bool
  pub launched_container : String

module _ {W : Type 0} (env : Env W) where
  open env use {docker, fs, hostname}

  -- Bootstrap service before start
  unfoldable pub bootstrap : String → String → Exec (Polkadot × W) (Unit {0})
  bootstrap config_directory service_data_directory = do
    config ← get_config
    here ← gets (λ s. fs.exists config_directory s.1 && fs.exists service_data_directory s.1)
    when (not (is_empty_string config.polkadot_node_key_file) && here) (
        on_world (
          copy_a_file fs config_directory (service_data_directory <> "/keys")
            (or_empty config.polkadot_node_key_file) config.polkadot_unix_user_id
            config.polkadot_unix_group_id 1))

  -- Check launched container
  unfoldable pub check_launched_container : Exec (Polkadot × W) String
  check_launched_container = do
    config ← get_config
    active ← on_world (is_container_running docker (validator config))
    if active then pure "active" else do
      passive ← on_world (is_container_running docker (sync config))
      pure (if passive then "passive" else "none")

  -- Prepare service before launch
  unfoldable pub prepare_service : Exec (Polkadot × W) (Unit {0})
  prepare_service = do
    config ← get_config
    set_fields (λ p. record p { common_polkadot_options = common_options config })
    when (not config.testing)
        (set_fields (λ p. record p { network_mode = "container:" <> hostname }))
    volume ← on_world (get_mount docker hostname "service")
    set_fields (λ p. record p { polkadot_volume = volume_name config volume })
    set_fields (λ p. record p { prepared = true })

  -- Remove 'down' container and start 'up' container
  unfoldable pub prepare_and_start : ContainerData → String → String → Exec W Bool
  prepare_and_start container_data up_name down_name = do
    container_up ← get_container docker up_name
    container_down ← get_container docker down_name
    let named = record container_data { name = up_name }
    when (exists? container_down) (do _ ← remove_container docker down_name; pure tt)
    if not (exists? container_up) then start_container docker named else do
      running ← is_container_running docker up_name
      if running
          then pure false
          else do _ ← remove_container docker up_name; start_container docker named

  -- What `startServiceContainer` does once no container of the type is running.
  launch : String → String → String → ContainerData → String → Exec W Bool
  launch type active_name passive_name container_data mount_source = do
    _ ← create_volume docker mount_source
    if type == "active"
        then prepare_and_start container_data active_name passive_name
        else if type == "passive"
        then prepare_and_start container_data passive_name active_name
        else throw ("Service type '" <> type <> "' is unknown.")

  -- `type === t && await isContainerRunning(name)`
  running_as : String → String → String → Exec W Bool
  running_as type t name = if type == t then is_container_running docker name else pure false

  -- Start passive or active service container
  unfoldable pub start_service_container :
      String → String → String → String → List String → String → String → String → Exec W Bool
  unfolding launch running_as
  start_service_container type active_name passive_name image cmd mount_target mount_source mode =
      do
        active ← running_as type "active" active_name
        if active then pure false else do
          passive ← running_as type "passive" passive_name
          if passive
              then pure false
              else launch type active_name passive_name
                  (record {
                    name = "";
                    image = image;
                    cmd = cmd;
                    mounts = (record { target = mount_target; source = mount_source }) ∷ [];
                    network_mode = if mode == "" then none else some mode;
                  })
                  mount_source

  abbrev active_name : Polkadot → String
  active_name p =
      if is_empty_string p.config.polkadot_validator_name
      then p.name <> "-active"
      else or_empty p.config.polkadot_validator_name

  -- The container of a mode, then the keys.
  unfoldable pub start_as : String → List String → Exec (Polkadot × W) Bool
  start_as type cmd = do
    p ← gets (λ s. s.0)
    started ← on_world (
        start_service_container type (validator p.config) (sync p.config) p.config.polkadot_image
          cmd p.config.database_path p.polkadot_volume p.network_mode)
    _ ← polkadot_keys_import env
    pure started

  -- Polkadot start function
  unfoldable pub start : String → Exec (Polkadot × W) Bool
  start mode = do
    prepared ← gets (λ s. s.0.prepared)
    when (not prepared) prepare_service
    p ← gets (λ s. s.0)
    if mode == "active"
        then start_as "active"
            ("--name" ∷ active_name p ∷ (p.common_polkadot_options ++ "--validator" ∷ []))
        else if mode == "passive"
        then start_as "passive" ("--name" ∷ (p.name <> "-passive") ∷ p.common_polkadot_options)
        else throw ("Mode '" <> mode <> "' is unknown.")

  -- Cleaning up polkadot service
  unfoldable pub clean_up : Exec (Polkadot × W) Bool
  clean_up =
      try_catch
        (do
          cleaning ← gets (λ s. s.0.cleaning_up)
          if cleaning then pure false else do
            set_fields (λ p. record p { cleaning_up = true })
            config ← get_config
            _ ← on_world (remove_container docker (sync config))
            _ ← on_world (remove_container docker (validator config))
            set_fields (λ p. record p { cleaning_up = false })
            pure true)
        (do set_fields (λ p. record p { cleaning_up = false }); pure false)

  -- Expose service info use in API
  unfoldable pub get_info : Exec (Polkadot × W) Info
  get_info = do
    mode ← check_launched_container
    config ← get_config
    session_keys ← check_session_keys_on_node env
    pure (record {
      session_keys_string = config.polkadot_session_key_to_check;
      session_keys_on_node = session_keys;
      launched_container = mode;
    })
