-- ===== src/Service.antt =====
-- orchestrator/src/service.js
use habs.Base.{
  String, Bool, Result, ok, err, if◌then◌else◌, ◌==◌, ◌<>◌, Exec, pure, gets, modify, zoom, ◌>>=◌,
  ◌>>◌,
}
use habs.Env.{Env}
use habs.Polkadot.State.{Polkadot, PolkadotConfig}
use habs.Polkadot.State
use habs.Polkadot.Health.{is_service_ready_to_start}
use habs.Polkadot.Launch.{Info, bootstrap, start, clean_up, check_launched_container, get_info}

pub record Service : Type 0 where
  pub service_name : String
  pub mode : String
  pub service_instance : Polkadot

-- The constructor, given the configuration that `new Polkadot()` reads.
unfoldable pub new : PolkadotConfig → String → Result Service
new config service_name =
    if service_name == "polkadot"
    then ok
        (record { service_name = service_name; mode = "none"; service_instance = State.new config })
    else err ("Service " <> service_name <> " is not supported yet.")

-- What `getServiceInfo` returns.
pub record ServiceInfo : Type 0 where
  pub service : String
  pub is_service_ready : Bool
  pub service_container : String
  pub service_mode : String
  pub info : Info

abbrev pub on_instance : {W A : Type 0} → Exec (Polkadot × W) A → Exec (Service × W) A
on_instance =
    zoom (λ s. (s.0.service_instance, s.1)) (λ s t. (record (s.0) { service_instance = t.0 }, t.1))

module _ {W : Type 0} (env : Env W) where
  -- Bootstrap service
  unfoldable pub service_bootstrap : String → String → Exec (Service × W) (Unit {0})
  service_bootstrap config_directory service_data_directory =
      on_instance (bootstrap env config_directory service_data_directory)

  -- Start service
  unfoldable pub service_start : String → Exec (Service × W) Bool
  service_start mode = do
    modify (λ s. (record (s.0) { mode = mode }, s.1))
    on_instance (start env mode)

  -- Cleanup a service
  unfoldable pub service_clean_up : Exec (Service × W) Bool
  service_clean_up = on_instance (clean_up env)

  -- Check if service is ready. The instance ignores the mode that it is given.
  unfoldable pub service_ready : Exec (Service × W) Bool
  service_ready = on_instance (is_service_ready_to_start env)

  -- Check service
  unfoldable pub service_check : Exec (Service × W) String
  service_check = on_instance (check_launched_container env)

  -- Get service instance information
  unfoldable pub get_service_info : Exec (Service × W) ServiceInfo
  get_service_info = do
    ready ← service_ready
    container ← service_check
    mode ← gets (λ s. s.0.mode)
    name ← gets (λ s. s.0.service_name)
    info ← on_instance (get_info env)
    pure (record {
      service = name;
      is_service_ready = ready;
      service_container = container;
      service_mode = mode;
      info = info;
    })
