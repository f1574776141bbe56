-- ===== src/Docker/Daemon/Creation.antt =====
-- Starting a container, which may create it, on a daemon that does what the parent says.
use habs.Base.{
  ◌≡◌, ◌≢◌, inl, inr, ◌∙◌, ap, String, true, false, not, Option, none, some, [], ◌∷◌, find?, ◌<>◌,
  eq_iff, arith, continue-Inv, try_catch-Inv, ◌>>=◌, ◌>>◌, if-Inv, pure, tail_of,
}
use habs.Env.{ContainerInfo, ContainerData, Dockerode}
use habs.Docker.{Container, is_called, get_container, have_image, start_found, start_container}
use habs.Docker.Daemon.{Daemon, Absent, Absent-append, get_container-Keeps, have_image-Keeps}

module _ {W : Type 0} (docker : Dockerode W) {names : String → Type 0}
    (m : Daemon docker names) where
  -- A container that was created is called by no other of the names.
  not_called :
      (spec : ContainerData) (name : String) (c : ContainerInfo)
      → names name
      → spec.name ≢ name
      → c.names ≡ ("/" <> spec.name) ∷ []
      → ((n : String) → names n → c.id ≢ n)
      → is_called name c ≡ false
  unfolding is_called
  not_called spec name c used other named fresh =
      let by_name : ("/" <> spec.name) ≢ ("/" <> name) = λ e. other (ap tail_of e) in
      ground (
        arith,
        eq_iff c.id name,
        fresh name used,
        named,
        eq_iff ("/" <> spec.name) ("/" <> name),
        by_name,
      )

  create_and_start-Absent :
      (spec : ContainerData) (name : String) (w : W)
      → names name
      → spec.name ≢ name
      → Absent name (m.containers w)
      → Absent name
          (m.containers ((do id ← docker.create_container spec; docker.start id; pure true) w).1)
  create_and_start-Absent spec name w used other absent =
      let P : W → Type 0 = λ v. Absent name (m.containers v) in
      continue-Inv P (docker.create_container spec w).0 _ _ created λ id.
        let started =
          ap (find? (is_called name)) (m.start_keeps id (docker.create_container spec w).1)
          ∙ created in
        continue-Inv P (docker.start id (docker.create_container spec w).1).0 _ _ started
          λ u. started
    where
      created : Absent name (m.containers (docker.create_container spec w).1)
      created = elim (m.created spec w) [
        | inl same ↦ ap (find? (is_called name)) same ∙ absent
        | inr (c, appended, named, fresh) ↦
            ap (find? (is_called name)) appended
            ∙ Absent-append name (m.containers w) c absent
                (not_called spec name c used other named fresh)
      ]

  start_found-Absent :
      (spec : ContainerData) (found : Option Container) (name : String) (w : W)
      → names name
      → spec.name ≢ name
      → Absent name (m.containers w)
      → Absent name (m.containers (start_found docker spec found w).1)
  unfolding start_found
  start_found-Absent spec none name w used other absent =
      let P : W → Type 0 = λ v. Absent name (m.containers v) in
      let w1 = (have_image docker spec.image w).1 in
      let still : P w1 =
        ap (find? (is_called name)) (have_image-Keeps docker m spec.image w) ∙ absent in
      continue-Inv P (have_image docker spec.image w).0 _ _ still λ pulled.
        if-Inv P (not pulled) _ _ w1 still (create_and_start-Absent spec name w1 used other still)
  start_found-Absent spec (some c) name w used other absent =
      let P : W → Type 0 = λ v. Absent name (m.containers v) in
      let started : P (docker.start c.id w).1 =
        ap (find? (is_called name)) (m.start_keeps c.id w) ∙ absent in
      if-Inv P (not c.description.running) _ _ w
        (continue-Inv P (docker.start c.id w).0 _ _ started λ u. started) absent

  -- Starting a container makes no other name appear.
  pub start_container-Absent :
      (spec : ContainerData) (name : String) (w : W)
      → names name
      → spec.name ≢ name
      → Absent name (m.containers w)
      → Absent name (m.containers (start_container docker spec w).1)
  unfolding start_container
  start_container-Absent spec name w used other absent =
      let P : W → Type 0 = λ v. Absent name (m.containers v) in
      let w1 = (get_container docker spec.name w).1 in
      let still : P w1 =
        ap (find? (is_called name)) (get_container-Keeps docker m spec.name w) ∙ absent in
      try_catch-Inv P (get_container docker spec.name >>= start_found docker spec) false w (
        continue-Inv P (get_container docker spec.name w).0 _ _ still
          λ found. start_found-Absent spec found name w1 used other still)
