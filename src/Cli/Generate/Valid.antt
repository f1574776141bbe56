-- ===== src/Cli/Generate/Valid.antt =====
-- The validation of archipel.json: validateConfigData of cli/src/generate.js.
use habs.Base.{
  ◌≤◌, ◌≡◌, ◌≢◌, ◌↔◌, ◌⊎◌, refl, false≢true, ◌∙◌, ap, sym, subst, String, true, false, Option, none,
  some, List, [], ◌∷◌, All, eq_iff, ◌>>=◌, is_empty, split, arith, length, ok, Exec, continue,
  continue-eq-ok,
}
use habs.Cli.Shell.{Tools, check_text}
use habs.Cli.Services.{ServiceData, validate_services_config}
use habs.Cli.Generate.{
  text_or_empty, ConfigData, check_addresses, check_roles, check_services, validate_public_ips,
  validate_nodes_role, validate_config_data,
}

-- A text that is there and not empty.
abbrev pub IsFilled : Option String → Type 0
IsFilled o = (s : String) × (o ≡ some s) × (is_empty s ≡ false)

abbrev pub IsRole : String → Type 0
IsRole role = (role ≡ "operator") ⊎ (role ≡ "noservice")

unset : (s : String) → some "" ≡ some s → is_empty s ≢ false
unset s h ne = false≢true (sym ne ∙ sym (ap (λ o. is_empty (text_or_empty o)) h))

check_text_iff :
    {W : Type 0} (o : Option String) (m : String) (w : W)
    → ((check_text o m w).0 ≡ ok tt) ↔ IsFilled o
check_text_iff none m w = (λ h. absurd (ground arith), λ (s, h, ne). absurd (ground arith))
check_text_iff (some String.[]) m w =
    (λ h. absurd (ground arith), λ (s, h, ne). absurd (unset s h ne))
check_text_iff (some (String.◌∷◌ c s)) m w = (λ h. (String.◌∷◌ c s, refl, refl), λ (s, h, ne). refl)

check_text-kept : {W : Type 0} (o : Option String) (m : String) (w : W) → (check_text o m w).1 ≡ w
check_text-kept none m w = refl
check_text-kept (some String.[]) m w = refl
check_text-kept (some (String.◌∷◌ c s)) m w = refl

check_services-kept :
    {W : Type 0} (o : Option (List ServiceData)) (w : W) → (check_services o w).1 ≡ w
check_services-kept none w = refl
check_services-kept (some []) w = refl
check_services-kept (some (s ∷ ss)) w = refl

check_services_iff :
    {W : Type 0} (o : Option (List ServiceData)) (w : W) (ss : List ServiceData)
    → ((check_services o w).0 ≡ ok ss) ↔ ((o ≡ some ss) × (ss ≢ []))
check_services_iff none w ss = (λ h. absurd (ground arith), λ (h, ne). absurd (ground arith))
check_services_iff (some []) w ss = (λ h. absurd (ground arith), λ (h, ne). absurd (ground arith))
check_services_iff (some (s ∷ rest)) w ss = (λ h. ground arith, λ (h, ne). ground arith)

-- A step that changes no state, before another.
module _ {W A B : Type 0} (m : Exec W A) (f : A → Exec W B) (w : W) {b : B}
    (kept : (m w).1 ≡ w) where
  first_ok : ((m >>= f) w).0 ≡ ok b → (a : A) × ((m w).0 ≡ ok a) × ((f a w).0 ≡ ok b)
  first_ok h =
      let (a, e, h1) = continue-eq-ok (m w).0 f _ h in (a, e, subst (λ s. (f a s).0 ≡ ok b) kept h1)

  both_ok : (a : A) → (m w).0 ≡ ok a → (f a w).0 ≡ ok b → ((m >>= f) w).0 ≡ ok b
  both_ok a e h =
      subst (λ r. (continue r f (m w).1).0 ≡ ok b) (sym e)
        (subst (λ s. (f a s).0 ≡ ok b) (sym kept) h)

module _ {W : Type 0} (tools : Tools W) where
  abbrev pub IsHost : String → Type 0
  IsHost element = (tools.is_ip element ≡ true) ⊎ (tools.is_valid_domain element ≡ true)

  check_addresses_iff :
      (elements : List String) (w : W)
      → ((check_addresses tools elements w).0 ≡ ok tt) ↔ All IsHost elements
  unfolding check_addresses
  check_addresses_iff [] w = (λ h. tt, λ h. refl)
  check_addresses_iff (element ∷ elements) w =
      let (to, from) = check_addresses_iff elements w in ground (arith, to, from)

  check_roles_iff :
      (roles : List String) (w : W) → ((check_roles tools roles w).0 ≡ ok tt) ↔ All IsRole roles
  unfolding check_roles
  check_roles_iff [] w = (λ h. tt, λ h. refl)
  check_roles_iff (role ∷ roles) w =
      let (to, from) = check_roles_iff roles w in
      let (o, o') = eq_iff role "operator" in
      let (n, n') = eq_iff role "noservice" in ground (arith, to, from, o, o', n, n')

  abbrev HasAddresses : Option String → Type 0
  HasAddresses o =
      (ips : String) × (o ≡ some ips) × (4 ≤ length (split 44 ips)) × All IsHost (split 44 ips)

  abbrev HasRoles : Option String → Type 0
  HasRoles o = (roles : String) × (o ≡ some roles) × All IsRole (split 44 roles)

  validate_public_ips_iff :
      (o : Option String) (w : W) → ((validate_public_ips tools o w).0 ≡ ok tt) ↔ HasAddresses o
  unfolding validate_public_ips
  validate_public_ips_iff none w =
      (λ h. absurd (ground arith), λ (ips, h, many, all). absurd (ground arith))
  validate_public_ips_iff (some ips) w =
      let (to, from) = check_addresses_iff (split 44 ips) w in
      (
        λ h.
            let (many, all) : (4 ≤ length (split 44 ips)) × All IsHost (split 44 ips) =
              ground (arith, to) in
            (ips, refl, many, all),
        λ (ips', h, many, all).
            let same : ips' ≡ ips = sym (ap text_or_empty h) in
            let enough : 4 ≤ length (split 44 ips) =
              subst (λ t. 4 ≤ length (split 44 t)) same many in
            let valid = from (subst (λ t. All IsHost (split 44 t)) same all) in
            ground (arith, enough, valid),
      )

  validate_nodes_role_iff :
      (o : Option String) (w : W) → ((validate_nodes_role tools o w).0 ≡ ok tt) ↔ HasRoles o
  unfolding validate_nodes_role
  validate_nodes_role_iff none w =
      (λ h. absurd (ground arith), λ (roles, h, rest). absurd (ground arith))
  validate_nodes_role_iff (some roles) w =
      let (to, from) = check_roles_iff (split 44 roles) w in
      (
        λ h. (roles, refl, to h),
        λ (roles', h, all).
            from (subst (λ t. All IsRole (split 44 t)) (sym (ap text_or_empty h)) all),
      )

  check_addresses-kept : (elements : List String) (w : W) → (check_addresses tools elements w).1 ≡ w
  unfolding check_addresses
  check_addresses-kept [] w = refl
  check_addresses-kept (element ∷ elements) w = ground (arith, check_addresses-kept elements w)

  validate_public_ips-kept : (o : Option String) (w : W) → (validate_public_ips tools o w).1 ≡ w
  unfolding validate_public_ips
  validate_public_ips-kept none w = refl
  validate_public_ips-kept (some ips) w = ground (arith, check_addresses-kept (split 44 ips) w)

  check_roles-kept : (roles : List String) (w : W) → (check_roles tools roles w).1 ≡ w
  unfolding check_roles
  check_roles-kept [] w = refl
  check_roles-kept (role ∷ roles) w = ground (arith, check_roles-kept roles w)

  validate_nodes_role-kept : (o : Option String) (w : W) → (validate_nodes_role tools o w).1 ≡ w
  unfolding validate_nodes_role
  validate_nodes_role-kept none w = refl
  validate_nodes_role-kept (some roles) w = check_roles-kept (split 44 roles) w

  -- What archipel.json must hold. The seeds of the services are tested by the tool that makes them.
  pub record IsValid (d : ConfigData) (w : W) : Type 0 where
    pub name : IsFilled d.name
    pub not_empty : IsFilled d.public_ips
    pub addresses : HasAddresses d.public_ips
    pub roles : HasRoles d.nodes_role
    pub services : List ServiceData
    pub listed : d.services ≡ some services
    pub some_service : services ≢ []
    pub seeds : (validate_services_config tools services w).0 ≡ ok tt

  -- The data of archipel.json passes exactly when the name is set, there are at least four
  -- addresses, each an IP address or a domain, the roles are a list of `operator` and `noservice`,
  -- a service is listed, and the validation of the services passes from the state at the beginning.
  pub validate_config_data_iff :
      (d : ConfigData) (w : W) → ((validate_config_data tools d w).0 ≡ ok tt) ↔ IsValid d w
  unfolding validate_config_data
  validate_config_data_iff d w = (
    λ h.
        let (u1, e1, h1) = first_ok (check_text d.name _) _ w (check_text-kept d.name _ w) h in
        let (u2, e2, h2) =
          first_ok (check_text d.public_ips _) _ w (check_text-kept d.public_ips _ w) h1 in
        let (ss, e3, h3) =
          first_ok (check_services d.services) _ w (check_services-kept d.services w) h2 in
        let (u4, e4, h4) =
          first_ok (validate_public_ips tools d.public_ips) _ w
            (validate_public_ips-kept d.public_ips w) h3 in
        let (u5, e5, h5) =
          first_ok (validate_nodes_role tools d.nodes_role) _ w
            (validate_nodes_role-kept d.nodes_role w) h4 in
        let (listed, ne) = (check_services_iff d.services w ss).0 e3 in
        record {
          name = (check_text_iff d.name _ w).0 e1;
          not_empty = (check_text_iff d.public_ips _ w).0 e2;
          addresses = (validate_public_ips_iff d.public_ips w).0 e4;
          roles = (validate_nodes_role_iff d.nodes_role w).0 e5;
          services = ss;
          listed = listed;
          some_service = ne;
          seeds = h5;
        },
    λ v.
        both_ok (check_text d.name _) _ w (check_text-kept d.name _ w) tt
          ((check_text_iff d.name _ w).1 v.name)
          (both_ok (check_text d.public_ips _) _ w (check_text-kept d.public_ips _ w) tt
            ((check_text_iff d.public_ips _ w).1 v.not_empty)
            (both_ok (check_services d.services) _ w (check_services-kept d.services w) v.services
              ((check_services_iff d.services w v.services).1 (v.listed, v.some_service))
              (both_ok (validate_public_ips tools d.public_ips) _ w
                (validate_public_ips-kept d.public_ips w) tt
                ((validate_public_ips_iff d.public_ips w).1 v.addresses)
                (both_ok (validate_nodes_role tools d.nodes_role) _ w
                  (validate_nodes_role-kept d.nodes_role w) tt
                  ((validate_nodes_role_iff d.nodes_role w).1 v.roles) v.seeds)))),
  )
