-- ===== src/Docker/Starting.antt =====
-- When `startContainer` answers that it started a container.
use habs.Base.{
  ◌≡◌, ◌∙◌, ap, String, Bool, true, false, ◌⊎◌, inl, inr, Option, none, some, arith, List, find?,
  is_empty, refl, continue, Option-cases, Result-cases, Result, ok, err, pending, pure, recover,
  continue-eq-ok, Bool-cases,
}
use habs.Env.{ContainerData, ContainerInfo, Description, Dockerode}
use habs.Docker.{
  Container, is_called, describe, get_image, pull_image, get_container, have_image, start_container,
  start_found,
}

module _ {W : Type 0} (docker : Dockerode W) where
  -- The daemon listed the container and described it.
  pub record Described (name : String) (w : W) (c : ContainerInfo) (d : Description) : Type 0 where
    pub containers : List ContainerInfo
    pub listed : (docker.list_containers w).0 ≡ ok containers
    pub found : find? (is_called name) containers ≡ some c
    pub described : (docker.inspect c.id (docker.list_containers w).1).0 ≡ ok d

  -- The daemon did not list and describe a container with an id, which also holds where one of the
  -- two calls failed. The host has the image, or it could be pulled; and the container was created
  -- and started.
  pub record CreatedAndStarted (data_ : ContainerData) (w : W) : Type 0 where
    pub not_described :
        (c : ContainerInfo) (d : Description) → is_empty c.id ≡ false → ¬ Described data_.name w c d
    pub before : W
    pub image :
        ((docker.inspect_image data_.image before).0 ≡ ok tt)
        ⊎ ((docker.pull data_.image (docker.inspect_image data_.image before).1).0 ≡ ok tt)
    pub id : String
    pub then : W
    pub created : (docker.create_container data_ then).0 ≡ ok id
    pub started : (docker.start id (docker.create_container data_ then).1).0 ≡ ok tt

  -- The daemon listed the container, described it as stopped, and started it.
  pub record StartedAgain (data_ : ContainerData) (w : W) : Type 0 where
    pub container : ContainerInfo
    pub description : Description
    pub described : Described data_.name w container description
    pub stopped : description.running ≡ false
    pub after : W
    pub started : (docker.start container.id after).0 ≡ ok tt

  recover-some :
      (r : Result (Option Container)) (w : W) (c : Container)
      → (recover r (pure none) w).0 ≡ ok (some c)
      → r ≡ ok (some c)
  recover-some (ok a) w c h = h
  recover-some (err e) w c h = absurd (ground arith)
  recover-some pending w c h = absurd (ground arith)

  some-Described :
      (name : String) (w : W) (found : Container)
      → (get_container docker name w).0 ≡ ok (some found)
      → (c : ContainerInfo) × (c.id ≡ found.id) × Described name w c found.description
  unfolding get_container describe
  some-Described name w found h =
      let (cs, listed, h1) =
        continue-eq-ok (docker.list_containers w).0 _ _ (recover-some _ _ found h) in
      elim (Option-cases (find? (is_called name) cs)) [
        | inl e ↦ absurd (ground (arith, rw e at h1))
        | inr (c, e) ↦
            let h2 = rw e at h1 in
            elim (Bool-cases (is_empty c.id)) [
              | inl empty ↦ absurd (ground (arith, rw empty at h2))
              | inr full ↦
                  let (d, described, h3) =
                    continue-eq-ok (docker.inspect c.id (docker.list_containers w).1).0 _ _
                      (rw full at h2) in
                  (
                    c,
                    ground (arith, h3),
                    record {
                      containers = cs;
                      listed = listed;
                      found = e;
                      described = described ∙ ap ok (ground (arith, h3));
                    },
                  )
            ]
      ]

  Described-some :
      (name : String) (w : W) (c : ContainerInfo) (d : Description)
      → is_empty c.id ≡ false
      → Described name w c d
      → (get_container docker name w).0 ≡ ok (some (record { id = c.id; description = d }))
  unfolding get_container describe
  Described-some name w c d full r = rw r.listed (rw r.found (rw full (rw r.described refl)))

  have-image :
      (image : String) (w : W)
      → (have_image docker image w).0 ≡ ok true
      → ((docker.inspect_image image w).0 ≡ ok tt)
        ⊎ ((docker.pull image (docker.inspect_image image w).1).0 ≡ ok tt)
  unfolding have_image get_image pull_image
  have-image image w h = elim (Result-cases (docker.inspect_image image w).0) [
    | inl (u, e) ↦ inl e
    | inr (inl (x, e)) ↦
        inr (pulled (docker.pull image (docker.inspect_image image w).1).0 _ (rw e at h))
    | inr (inr e) ↦ absurd (ground (arith, rw e at h))
  ]
    where
      pulled :
          (r : Result (Unit {0})) (v : W)
          → (recover
              (continue r (λ u. pure true) v).0
              (pure false)
              (continue r (λ u. pure true) v).1).0
            ≡ ok true
          → r ≡ ok tt
      pulled (ok u) v k = refl
      pulled (err x) v k = absurd (ground arith)
      pulled pending v k = absurd (ground arith)

  started_found :
      (data_ : ContainerData) (found : Option Container) (w : W)
      → (get_container docker data_.name w).0 ≡ ok found
      → (start_found docker data_ found (get_container docker data_.name w).1).0 ≡ ok true
      → CreatedAndStarted data_ w ⊎ StartedAgain data_ w
  unfolding start_found
  started_found data_ none w e h =
      let w1 = (get_container docker data_.name w).1 in
      let (pulled, have, h1) = continue-eq-ok (have_image docker data_.image w1).0 _ _ h in
      let w2 = (have_image docker data_.image w1).1 in
      elim (Bool-cases pulled) [
        | inr not_pulled ↦ absurd (ground arith)
        | inl was_pulled ↦
            let (id, created, h2) =
              continue-eq-ok (docker.create_container data_ w2).0 _ _ (rw was_pulled at h1) in
            let (u, started, h3) =
              continue-eq-ok (docker.start id (docker.create_container data_ w2).1).0 _ _ h2 in
            inl (record {
              not_described =
                  λ c d full r. absurd (ground (arith, e, Described-some data_.name w c d full r));
              before = w1;
              image = have-image data_.image w1 (have ∙ ap ok was_pulled);
              id = id;
              then = w2;
              created = created;
              started = started;
            })
      ]
  started_found data_ (some c) w e h = elim (Bool-cases c.description.running) [
    | inl runs ↦ absurd (ground arith)
    | inr stopped ↦
        let w1 = (get_container docker data_.name w).1 in
        let (u, started, h1) = continue-eq-ok (docker.start c.id w1).0 _ _ (rw stopped at h) in
        let (info, same, described) = some-Described data_.name w c e in
        inr (record {
          container = info;
          description = c.description;
          described = described;
          stopped = stopped;
          after = w1;
          started = ap (λ id. (docker.start id w1).0) same ∙ started;
        })
  ]

  caught : (r : Result Bool) (w : W) → (recover r (pure false) w).0 ≡ ok true → r ≡ ok true
  caught (ok b) w h = h
  caught (err e) w h = absurd (ground arith)
  caught pending w h = absurd (ground arith)

  -- `startContainer` answers true only in two cases. In one, the daemon did not both list and
  -- describe a container of that name with an id (it has none, or one of the two calls failed), the
  -- image was inspected or pulled without an error, and a container was created and started
  -- without an error. In the other, the daemon listed a container of that name and described it as
  -- not running, and it was started without an error.
  pub start_container-true :
      (data_ : ContainerData) (w : W)
      → (start_container docker data_ w).0 ≡ ok true
      → CreatedAndStarted data_ w ⊎ StartedAgain data_ w
  unfolding start_container
  start_container-true data_ w h =
      let (found, e, h1) =
        continue-eq-ok (get_container docker data_.name w).0 _ _ (caught _ _ h) in
      started_found data_ found w e h1
