-- ===== src/Docker/Daemon.antt =====
-- What the program relies on of the Docker daemon, and what the methods of
-- orchestrator/src/docker.js do on such a daemon.
pub mod Removal
pub mod Creation
use habs.Base.{
  ◌≡◌, ◌≢◌, ◌⊎◌, inl, inr, refl, ◌∙◌, ap, sym, String, Bool, true, false, not, Option, none, some,
  List, [], ◌∷◌, ◌++◌, find?, is_empty, ◌==◌, ◌<>◌, eq_iff, if◌then◌else◌, arith, Bool-cases,
  Option-cases, ok, Keeps, continue-Keeps, try_catch-Keeps, if-Keeps, if_true, continue-Inv,
  try_catch-Inv, ◌>>=◌, ◌>>◌, if-Inv, eq_refl, pure, tail_of,
}
use habs.Env.{ContainerInfo, Description, ContainerData, Dockerode}
use habs.Docker.{
  Container, is_called, describe, get_container, get_image, pull_image, get_volume, create_volume,
  have_image, start_found, start_container, remove_found, remove_container, is_container_running,
  get_mount,
}

-- The containers that do not have the id.
abbrev pub without : String → List ContainerInfo → List ContainerInfo
without id [] = []
without id (c ∷ cs) = if c.id == id then without id cs else c ∷ without id cs

-- No container has the name, or one has.
abbrev pub Absent : String → List ContainerInfo → Type 0
Absent name cs = find? (is_called name) cs ≡ none

abbrev pub AtMostOne : String → List ContainerInfo → Type 0
AtMostOne name [] = Unit
AtMostOne name (c ∷ cs) = (is_called name c ≡ true → Absent name cs) × AtMostOne name cs

-- A daemon that answers, and on which nobody else acts while a call runs: `names` are names that the
-- program uses.
pub record Daemon {W : Type 0} (docker : Dockerode W) (names : String → Type 0) : Type 0 where
  pub containers : W → List ContainerInfo
  pub listed : (w : W) → (docker.list_containers w).0 ≡ ok (containers w)
  pub list_keeps : Keeps containers docker.list_containers
  pub inspected :
      (name : String) (w : W) (c : ContainerInfo)
      → find? (is_called name) (containers w) ≡ some c
      → (d : Description) × ((docker.inspect c.id w).0 ≡ ok d)
  pub inspect_keeps : (id : String) → Keeps containers (docker.inspect id)
  -- Names are given once, and ids are not empty.
  pub unique : (name : String) (w : W) → names name → AtMostOne name (containers w)
  pub has_id :
      (name : String) (w : W) (c : ContainerInfo)
      → find? (is_called name) (containers w) ≡ some c
      → is_empty c.id ≡ false
  -- A container that is there can be removed.
  pub removes :
      (name : String) (w : W) (c : ContainerInfo)
      → find? (is_called name) (containers w) ≡ some c
      → (docker.remove c.id w).0 ≡ ok tt
  pub removed :
      (id : String) (w : W) → containers (docker.remove id w).1 ≡ without id (containers w)
  -- A container that is created has the name that is asked for, and an id that is none of the names.
  pub created :
      (spec : ContainerData) (w : W)
      → (containers (docker.create_container spec w).1 ≡ containers w)
        ⊎ ((c : ContainerInfo) × (containers (docker.create_container spec w).1
              ≡ containers w ++ c ∷ [])
            × (c.names ≡ ("/" <> spec.name) ∷ [])
            × ((name : String) → names name → c.id ≢ name))
  pub start_keeps : (id : String) → Keeps containers (docker.start id)
  pub image_keeps : (image : String) → Keeps containers (docker.inspect_image image)
  pub pull_keeps : (image : String) → Keeps containers (docker.pull image)
  pub volume_keeps : (name : String) → Keeps containers (docker.inspect_volume name)
  pub create_volume_keeps : (name : String) → Keeps containers (docker.create_volume name)

pub Absent-without :
    (name id : String) (cs : List ContainerInfo) → Absent name cs → Absent name (without id cs)
unfolding find?
Absent-without name id [] h = refl
Absent-without name id (c ∷ cs) h = ground (arith, Absent-without name id cs)

pub without-Absent :
    (name : String) (cs : List ContainerInfo) (c : ContainerInfo)
    → AtMostOne name cs
    → find? (is_called name) cs ≡ some c
    → Absent name (without c.id cs)
unfolding find?
without-Absent name [] c u h = absurd (ground arith)
without-Absent name (d ∷ cs) c (first, u) h = elim (Bool-cases (is_called name d)) [
  | inl called ↦
      let same : d ≡ c = ground (arith, called, h) in
      let rest = Absent-without name c.id cs (first called) in
      rw
        (if_true (without c.id cs) (d ∷ without c.id cs)
          (ap (λ e. d.id == e.id) (sym same) ∙ eq_refl d.id))
        rest
  | inr other ↦
      let there : find? (is_called name) cs ≡ some c = ground (arith, other, h) in
      let rest = without-Absent name cs c u there in ground (arith, rest, other)
]

pub Absent-append :
    (name : String) (cs : List ContainerInfo) (c : ContainerInfo)
    → Absent name cs
    → is_called name c ≡ false
    → Absent name (cs ++ c ∷ [])
unfolding find?
Absent-append name [] c h other = ground (arith, other)
Absent-append name (d ∷ cs) c h other = ground (arith, h, Absent-append name cs c)

module _ {W : Type 0} (docker : Dockerode W) {names : String → Type 0}
    (m : Daemon docker names) where
  pub get_container-Keeps : (name : String) → Keeps m.containers (get_container docker name)
  unfolding get_container describe
  get_container-Keeps name = try_catch-Keeps m.containers _ none λ w.
      continue-Keeps m.containers (docker.list_containers w).0 _ _ (m.list_keeps w) λ cs v.
        elim (Option-cases (find? (is_called name) cs)) [
          | inl e ↦ rw e refl
          | inr (c, e) ↦ rw e (
              if-Keeps m.containers (is_empty c.id) _ _ (λ u. refl)
                (λ u.
                  continue-Keeps m.containers (docker.inspect c.id u).0 _ _ (m.inspect_keeps c.id u)
                    λ d x. refl)
                v)
        ]

  pub get_container-none :
      (name : String) (w : W)
      → Absent name (m.containers w)
      → (get_container docker name w).0 ≡ ok none
  unfolding get_container describe
  get_container-none name w absent = rw (m.listed w) (rw absent refl)

  pub get_container-some :
      (name : String) (w : W) (c : ContainerInfo)
      → find? (is_called name) (m.containers w) ≡ some c
      → (found : Container) × ((get_container docker name w).0 ≡ ok (some found))
        × (found.id ≡ c.id)
  unfolding get_container describe
  get_container-some name w c there =
      let w1 = (docker.list_containers w).1 in
      let there1 : find? (is_called name) (m.containers w1) ≡ some c =
        ap (find? (is_called name)) (m.list_keeps w) ∙ there in
      let (d, e) = m.inspected name w1 c there1 in
      (
        record { id = c.id; description = d },
        rw (m.listed w) (rw there (rw (m.has_id name w c there) (rw e refl))),
        refl,
      )

  pub get_mount-Keeps : (name volume : String) → Keeps m.containers (get_mount docker name volume)
  unfolding get_mount
  get_mount-Keeps name volume = try_catch-Keeps m.containers _ none λ v.
      continue-Keeps m.containers (get_container docker name v).0 _ _ (get_container-Keeps name v)
        λ c x. refl

  get_image-Keeps : (image : String) → Keeps m.containers (get_image docker image)
  unfolding get_image
  get_image-Keeps image = try_catch-Keeps m.containers _ false λ v.
      continue-Keeps m.containers (docker.inspect_image image v).0 _ _ (m.image_keeps image v)
        λ u x. refl

  pull_image-Keeps : (image : String) → Keeps m.containers (pull_image docker image)
  unfolding pull_image
  pull_image-Keeps image = try_catch-Keeps m.containers _ false λ v.
      continue-Keeps m.containers (docker.pull image v).0 _ _ (m.pull_keeps image v) λ u x. refl

  pub have_image-Keeps : (image : String) → Keeps m.containers (have_image docker image)
  unfolding have_image
  have_image-Keeps image w =
      continue-Keeps m.containers (get_image docker image w).0 _ _ (get_image-Keeps image w)
        λ found v. if-Keeps m.containers found _ _ (λ x. refl) (pull_image-Keeps image) v

  get_volume-Keeps : (name : String) → Keeps m.containers (get_volume docker name)
  unfolding get_volume
  get_volume-Keeps name = try_catch-Keeps m.containers _ false λ v.
      continue-Keeps m.containers (docker.inspect_volume name v).0 _ _ (m.volume_keeps name v)
        λ u x. refl

  pub create_volume-Keeps : (name : String) → Keeps m.containers (create_volume docker name)
  unfolding create_volume
  create_volume-Keeps name = try_catch-Keeps m.containers _ false λ v.
      continue-Keeps m.containers (get_volume docker name v).0 _ _ (get_volume-Keeps name v)
        λ found x.
          if-Keeps m.containers found _ _ (λ y. refl)
            (λ y.
              continue-Keeps m.containers (docker.create_volume name y).0 _ _
                (m.create_volume_keeps name y) λ u z. refl)
            x

  pub is_container_running-Keeps :
      (name : String) → Keeps m.containers (is_container_running docker name)
  unfolding is_container_running
  is_container_running-Keeps name = try_catch-Keeps m.containers _ false λ v.
      continue-Keeps m.containers (get_container docker name v).0 _ _ (get_container-Keeps name v)
        λ c x. refl
