-- ===== src/Docker/Daemon/Removal.antt =====
-- Removing a container, on a daemon that does what the parent says.
use habs.Base.{
  ◌≡◌, inl, inr, refl, ◌∙◌, ap, String, Bool, true, false, some, find?, Option-cases, ok,
  continue-Inv, try_catch-Inv, ◌>>=◌,
}
use habs.Env.{ContainerInfo, Dockerode}
use habs.Docker.{is_called, get_container, remove_found, remove_container}
use habs.Docker.Daemon.{
  Daemon, Absent, without, Absent-without, without-Absent, get_container-Keeps, get_container-none,
  get_container-some,
}

module _ {W : Type 0} (docker : Dockerode W) {names : String → Type 0}
    (m : Daemon docker names) where
  after_remove :
      (name : String) (w : W) (c : ContainerInfo)
      → find? (is_called name) (m.containers w) ≡ some c
      → m.containers (remove_container docker name w).1 ≡ without c.id (m.containers w)
  unfolding remove_container remove_found
  after_remove name w c there =
      let w1 = (get_container docker name w).1 in
      let (found, e, same) = get_container-some docker m name w c there in
      let Gone : W → Type 0 = λ v. m.containers v ≡ without c.id (m.containers w) in
      let gone : Gone (docker.remove found.id w1).1 =
        m.removed found.id w1
        ∙ ap (λ id. without id (m.containers w1)) same
        ∙ ap (without c.id) (get_container-Keeps docker m name w) in
      try_catch-Inv Gone (get_container docker name >>= remove_found docker) false w
        (rw e (continue-Inv Gone (docker.remove found.id w1).0 _ _ gone λ u. gone))

  after_remove_none :
      (name : String) (w : W)
      → Absent name (m.containers w)
      → m.containers (remove_container docker name w).1 ≡ m.containers w
  unfolding remove_container remove_found
  after_remove_none name w absent =
      rw (get_container-none docker m name w absent) (get_container-Keeps docker m name w)

  -- A container that is removed is gone, and no other name appears.
  pub remove_container-Absent :
      (name other : String) (w : W)
      → names name
      → let w' = (remove_container docker name w).1 in
        Absent name (m.containers w')
        × (Absent other (m.containers w) → Absent other (m.containers w'))
  remove_container-Absent name other w used =
      elim (Option-cases (find? (is_called name) (m.containers w))) [
        | inl absent ↦
            let same = after_remove_none name w absent in
            (ap (find? (is_called name)) same ∙ absent, λ h. ap (find? (is_called other)) same ∙ h)
        | inr (c, there) ↦
            let same = after_remove name w c there in
            (
              ap (find? (is_called name)) same
                  ∙ without-Absent name (m.containers w) c (m.unique name w used) there,
              λ h. ap (find? (is_called other)) same ∙ Absent-without other c.id (m.containers w) h,
            )
      ]

  pub remove_container-ok :
      (name : String) (w : W) → (b : Bool) × ((remove_container docker name w).0 ≡ ok b)
  unfolding remove_container remove_found
  remove_container-ok name w = elim (Option-cases (find? (is_called name) (m.containers w))) [
    | inl absent ↦ (false, rw (get_container-none docker m name w absent) refl)
    | inr (c, there) ↦
        let (found, e, same) = get_container-some docker m name w c there in
        let w1 = (get_container docker name w).1 in
        let there1 : find? (is_called name) (m.containers w1) ≡ some c =
          ap (find? (is_called name)) (get_container-Keeps docker m name w) ∙ there in
        let gone : (docker.remove found.id w1).0 ≡ ok tt =
          ap (λ id. (docker.remove id w1).0) same ∙ m.removes name w1 c there1 in
        (true, rw e (rw gone refl))
  ]
