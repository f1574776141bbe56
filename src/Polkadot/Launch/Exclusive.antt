-- ===== src/Polkadot/Launch/Exclusive.antt =====
-- The two containers of the service (orchestrator/src/services/polkadot/polkadot.js), on a daemon
-- that does what Docker/Daemon says.
use habs.Base.{
  ◌≡◌, ◌≢◌, ◌⊎◌, inl, inr, refl, ◌∙◌, ap, sym, subst, String, Bool, false, not, Option, none, some,
  List, ◌==◌, if◌then◌else◌, arith, find?, Option-cases, ok, Exec, pure, Keeps, if-Keeps,
  continue-Inv, ◌>>=◌, ◌>>◌, if-Inv, when, continue-tt, text-cancel, eq_iff, continue,
}
use habs.Env.{Env, ContainerInfo, ContainerData}
use habs.Docker.{
  Container, create_volume, get_container, start_container, remove_container, is_container_running,
  is_called,
}
use habs.Docker.Daemon.{
  Daemon, Absent, get_container-Keeps, get_container-none, get_container-some, create_volume-Keeps,
  is_container_running-Keeps,
}
use habs.Docker.Daemon.Removal.{remove_container-Absent, remove_container-ok}
use habs.Docker.Daemon.Creation.{start_container-Absent}
use habs.Polkadot.State.{Polkadot, PolkadotConfig}
use habs.Polkadot.Launch.{
  validator, sync, exists?, prepare_and_start, launch, running_as, start_service_container,
  clean_up,
}

-- Not both names have a container.
abbrev pub NotBoth : String → String → List ContainerInfo → Type 0
NotBoth a b cs = Absent a cs ⊎ Absent b cs

-- The names of the two containers differ.
pub validator-sync : (config : PolkadotConfig) → validator config ≢ sync config
validator-sync config e =
    differ "polkadot-validator" "polkadot-sync" (text-cancel config.polkadot_prefix _ _ e) refl
  where
    differ : (s t : String) → s ≡ t → (s == t) ≢ false
    differ s t same = ground (arith, eq_iff s t, same)

module _ {W : Type 0} (env : Env W) {names : String → Type 0} (m : Daemon env.docker names) where
  open env use {docker}

  still :
      (name : String) (v w : W)
      → m.containers v ≡ m.containers w
      → Absent name (m.containers w)
      → Absent name (m.containers v)
  still name v w same absent = ap (find? (is_called name)) same ∙ absent

  -- What `prepareAndStart` does once the container that goes down is removed.
  abbrev bring_up : ContainerData → String → Option Container → Exec W Bool
  bring_up named up found = if not (exists? found) then start_container docker named else do
    running ← is_container_running docker up
    if running then pure false else do _ ← remove_container docker up; start_container docker named

  bring_up-Absent :
      (spec : ContainerData) (found : Option Container) (down : String) (w : W)
      → names spec.name
      → names down
      → spec.name ≢ down
      → Absent down (m.containers w)
      → Absent down (m.containers (bring_up spec spec.name found w).1)
  bring_up-Absent spec found down w used_up used other absent =
      let P : W → Type 0 = λ v. Absent down (m.containers v) in
      let w1 = (is_container_running docker spec.name w).1 in
      let w2 = (remove_container docker spec.name w1).1 in
      let absent1 = still down w1 w (is_container_running-Keeps docker m spec.name w) absent in
      let absent2 = (remove_container-Absent docker m spec.name down w1 used_up).1 absent1 in
      if-Inv P (not (exists? found)) _ _ w
        (start_container-Absent docker m spec down w used other absent)
        (continue-Inv P (is_container_running docker spec.name w).0 _ _ absent1 λ running.
          if-Inv P running _ _ w1 absent1 (
            continue-Inv P (remove_container docker spec.name w1).0 _ _ absent2
              λ u. start_container-Absent docker m spec down w2 used other absent2))

  get_container-ok :
      (name : String) (w : W)
      → (found : Option Container) × ((get_container docker name w).0 ≡ ok found)
  get_container-ok name w = elim (Option-cases (find? (is_called name) (m.containers w))) [
    | inl absent ↦ (none, get_container-none docker m name w absent)
    | inr (c, there) ↦
        let (found, e, same) = get_container-some docker m name w c there in (some found, e)
  ]

  -- Where there is a container that goes down, it is removed before what follows.
  abbrev take_down : String → Exec W Bool → Exec W Bool
  take_down down k = do
    container_down ← get_container docker down
    when (exists? container_down) (do _ ← remove_container docker down; pure tt)
    k

  take_down-Absent :
      (down : String) (k : Exec W Bool) (w : W)
      → names down
      → ((v : W) → Absent down (m.containers v) → Absent down (m.containers (k v).1))
      → Absent down (m.containers (take_down down k w).1)
  take_down-Absent down k w used after =
      let P : W → Type 0 = λ v. Absent down (m.containers v) in
      let w1 = (get_container docker down w).1 in
      let w2 = (remove_container docker down w1).1 in
      let r = (remove_container docker down w1).0 in
      let gone : P (continue r (λ _ t. (ok tt, t)) w2).1 =
        subst P (sym (continue-tt r tt w2))
          ((remove_container-Absent docker m down down w1 used).0) in
      elim (Option-cases (find? (is_called down) (m.containers w))) [
        | inl absent ↦
            rw (get_container-none docker m down w absent)
              (after w1 (still down w1 w (get_container-Keeps docker m down w) absent))
        | inr (c, there) ↦
            let (found, e, same) = get_container-some docker m down w c there in
            rw e (
              continue-Inv P (continue r (λ _ t. (ok tt, t)) w2).0 (λ _. k) _ gone
                λ u. after _ gone)
      ]

  -- The container that goes down is gone, whatever becomes of the other.
  prepare_and_start-Absent :
      (spec : ContainerData) (up down : String) (w : W)
      → names up
      → names down
      → up ≢ down
      → Absent down (m.containers (prepare_and_start env spec up down w).1)
  unfolding prepare_and_start
  prepare_and_start-Absent spec up down w used_up used other =
      let (found, e) = get_container-ok up w in
      rw e (
        take_down-Absent down (bring_up (record spec { name = up }) up found)
          (get_container docker up w).1 used
          λ v absent.
            bring_up-Absent (record spec { name = up }) found down v used_up used other absent)

  running_as-Keeps : (type t name : String) → Keeps m.containers (running_as env type t name)
  unfolding running_as
  running_as-Keeps type t name =
      if-Keeps m.containers (type == t) _ _ (is_container_running-Keeps docker m name) (λ v. refl)

  after_launch :
      (type a b : String) (spec : ContainerData) (source : String) (w : W)
      → names a
      → names b
      → a ≢ b
      → NotBoth a b (m.containers w)
      → NotBoth a b (m.containers (launch env type a b spec source w).1)
  unfolding launch
  after_launch type a b spec source w used_a used_b other not_both =
      let P : W → Type 0 = λ v. NotBoth a b (m.containers v) in
      let w1 = (create_volume docker source w).1 in
      let before : P w1 =
        subst (NotBoth a b) (sym (create_volume-Keeps docker m source w)) not_both in
      continue-Inv P (create_volume docker source w).0 _ _ before λ made.
        if-Inv P (type == "active") _ _ w1
          (inr (prepare_and_start-Absent spec a b w1 used_a used_b other))
          (if-Inv P (type == "passive") _ _ w1
            (inl (prepare_and_start-Absent spec b a w1 used_b used_a λ e. other (sym e))) before)

  pub start_service_container-NotBoth :
      (type a b image : String) (cmd : List String) (target source mode : String) (w : W)
      → names a
      → names b
      → a ≢ b
      → NotBoth a b (m.containers w)
      → NotBoth a b
          (m.containers (start_service_container env type a b image cmd target source mode w).1)
  unfolding start_service_container
  start_service_container-NotBoth type a b image cmd target source mode w used_a used_b other
        not_both =
      let P : W → Type 0 = λ v. NotBoth a b (m.containers v) in
      let w1 = (running_as env type "active" a w).1 in
      let w2 = (running_as env type "passive" b w1).1 in
      let before1 : P w1 =
        subst (NotBoth a b) (sym (running_as-Keeps type "active" a w)) not_both in
      let before2 : P w2 =
        subst (NotBoth a b) (sym (running_as-Keeps type "passive" b w1)) before1 in
      continue-Inv P (running_as env type "active" a w).0 _ _ before1 λ active.
        if-Inv P active _ _ w1 before1 (
          continue-Inv P (running_as env type "passive" b w1).0 _ _ before2 λ passive.
            if-Inv P passive _ _ w2 before2
              (after_launch type a b _ source w2 used_a used_b other before2))

  -- Cleaning up removes both.
  pub clean_up-Absent :
      (s : Polkadot × W)
      → names (validator s.0.config)
      → names (sync s.0.config)
      → s.0.cleaning_up ≡ false
      → let cs = m.containers (clean_up env s).1.1 in
        Absent (validator s.0.config) cs × Absent (sync s.0.config) cs
  unfolding clean_up
  clean_up-Absent s used_v used_s idle =
      let w1 = (remove_container docker (sync s.0.config) s.1).1 in
      let (b1, e1) = remove_container-ok docker m (sync s.0.config) s.1 in
      let (b2, e2) = remove_container-ok docker m (validator s.0.config) w1 in
      let (sync_gone, keeps) =
        remove_container-Absent docker m (sync s.0.config) (sync s.0.config) s.1 used_s in
      let (validator_gone, keeps2) =
        remove_container-Absent docker m (validator s.0.config) (sync s.0.config) w1 used_v in
      rw idle (rw e1 (rw e2 (validator_gone, keeps2 sync_gone)))
