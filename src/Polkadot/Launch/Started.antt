-- ===== src/Polkadot/Launch/Started.antt =====
-- `start` and `cleanUp` of orchestrator/src/services/polkadot/polkadot.js, on a daemon that does what
-- Docker/Daemon says.
use habs.Base.{
  ℕ, ◌≡◌, refl, sym, subst, String, false, not, List, ◌==◌, Exec, Keeps, continue-Keeps,
  continue-Inv, if-Inv, when, modify, ◌<>◌, when-Keeps,
}
use habs.Env.{Env, ContainerInfo, Rpc}
use habs.Docker.{get_mount}
use habs.Docker.Daemon.{Daemon, Absent, get_mount-Keeps}
use habs.Polkadot.State.{Polkadot, PolkadotConfig, on_world}
use habs.Polkadot.Keys.{polkadot_keys_import}
use habs.Polkadot.Keys.Outside.{with_config, on_world-Keeps, polkadot_keys_import-Keeps}
use habs.Polkadot.Launch.{
  validator, sync, prepare_service, common_options, start_service_container, start_as, start,
  clean_up,
}
use habs.Polkadot.Launch.Exclusive.{
  NotBoth, validator-sync, start_service_container-NotBoth, clean_up-Absent,
}

module _ {W : Type 0} (env : Env W) {names : String → Type 0} (m : Daemon env.docker names)
    (post_keeps : (url : String) (request : Rpc) → Keeps m.containers (env.post url request))
    (sleep_keeps : (ms : ℕ) (w : W) → m.containers (env.sleep ms w) ≡ m.containers w) where
  open env use {docker, hostname}

  abbrev View : Polkadot × W → PolkadotConfig × List ContainerInfo
  View = with_config m.containers

  -- The configuration is `c`, and not both containers exist.
  abbrev Held : PolkadotConfig → PolkadotConfig × List ContainerInfo → Type 0
  Held c v = (v.0 ≡ c) × NotBoth (validator c) (sync c) v.1

  mounted-Keeps : (name volume : String) → Keeps View (on_world (get_mount docker name volume))
  mounted-Keeps name volume =
      on_world-Keeps m.containers (get_mount docker name volume)
        (get_mount-Keeps docker m name volume)

  prepare_service-Keeps : Keeps View (prepare_service env)
  unfolding prepare_service
  prepare_service-Keeps s =
      let on_host : Exec (Polkadot × W) (Unit {0}) =
        modify (λ t. (record (t.0) { network_mode = "container:" <> hostname }, t.1)) in
      let t : Polkadot × W =
        (record (s.0) { common_polkadot_options = common_options s.0.config }, s.1) in
      let real = when (not s.0.config.testing) on_host in
      continue-Keeps View (real t).0 _ _
        (when-Keeps View (not s.0.config.testing) on_host (λ u. refl) t)
        λ u v.
          continue-Keeps View (get_mount docker hostname "service" v.1).0 _ _
            (mounted-Keeps hostname "service" v) λ volume x. refl

  start_as-Held :
      (type : String) (cmd : List String) (s : Polkadot × W) (c : PolkadotConfig)
      → names (validator c)
      → names (sync c)
      → Held c (View s)
      → Held c (View (start_as env type cmd s).1)
  unfolding start_as
  start_as-Held type cmd s c used_v used_s (same, not_both) =
      let P : Polkadot × W → Type 0 = λ t. Held c (View t) in
      let p = s.0 in
      let run =
        start_service_container env type (validator p.config) (sync p.config)
          p.config.polkadot_image cmd p.config.database_path p.polkadot_volume p.network_mode in
      let t : Polkadot × W = (p, (run s.1).1) in
      let started : P t = (
        same,
        subst (λ d. NotBoth (validator d) (sync d) (m.containers (run s.1).1)) same
            (start_service_container-NotBoth env m type _ _ p.config.polkadot_image cmd
              p.config.database_path p.polkadot_volume p.network_mode s.1
              (subst (λ d. names (validator d)) (sym same) used_v)
              (subst (λ d. names (sync d)) (sym same) used_s) (validator-sync p.config)
              (subst (λ d. NotBoth (validator d) (sync d) (m.containers s.1)) (sym same) not_both)),
      ) in
      let imported : P (polkadot_keys_import env t).1 =
        subst (Held c) (sym (polkadot_keys_import-Keeps env m.containers post_keeps sleep_keeps t))
          started in
      continue-Inv P (run s.1).0 _ t started
        λ b. continue-Inv P (polkadot_keys_import env t).0 _ _ imported λ u. imported

  start-Held :
      (mode : String) (s : Polkadot × W) (c : PolkadotConfig)
      → names (validator c)
      → names (sync c)
      → Held c (View s)
      → Held c (View (start env mode s).1)
  unfolding start
  start-Held mode s c used_v used_s held =
      let P : Polkadot × W → Type 0 = λ t. Held c (View t) in
      let ready = when (not s.0.prepared) (prepare_service env) in
      let prepared : P (ready s).1 =
        subst (Held c)
          (sym (when-Keeps View (not s.0.prepared) (prepare_service env) prepare_service-Keeps s))
          held in
      continue-Inv P (ready s).0 _ _ prepared λ u.
        if-Inv P (mode == "active") _ _ (ready s).1
          (start_as-Held "active" _ (ready s).1 c used_v used_s prepared)
          (if-Inv P (mode == "passive") _ _ (ready s).1
            (start_as-Held "passive" _ (ready s).1 c used_v used_s prepared) prepared)

-- On a daemon that does what Docker/Daemon says, where posts to the node and waiting touch no
-- container: where at most one of the validator and the passive container exists, a start in any
-- mode, whether it succeeds or fails, leaves at most one; and a clean-up, unless one is under way
-- already, leaves neither.
pub containers_exclusive :
    {W : Type 0} (env : Env W) {names : String → Type 0} (m : Daemon env.docker names)
    (post_keeps : (url : String) (request : Rpc) → Keeps m.containers (env.post url request))
    (sleep_keeps : (ms : ℕ) (w : W) → m.containers (env.sleep ms w) ≡ m.containers w)
    (mode : String) (s : Polkadot × W)
    → names (validator s.0.config)
    → names (sync s.0.config)
    → s.0.cleaning_up ≡ false
    → NotBoth (validator s.0.config) (sync s.0.config) (m.containers s.1)
    → let a = validator s.0.config in
      let b = sync s.0.config in
      NotBoth a b (m.containers (start env mode s).1.1)
      × Absent a (m.containers (clean_up env s).1.1)
      × Absent b (m.containers (clean_up env s).1.1)
containers_exclusive env m post_keeps sleep_keeps mode s used_v used_s idle not_both =
    let (gone_a, gone_b) = clean_up-Absent env m s used_v used_s idle in
    (
      (start-Held env m post_keeps sleep_keeps mode s s.0.config used_v used_s (refl, not_both)).1,
      gone_a,
      gone_b,
    )
