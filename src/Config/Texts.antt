-- ===== src/Config/Texts.antt =====
-- The texts of a configuration without a default, and the loop over its keys
-- (orchestrator/src/config.js).
use habs.Base.{
  ◌⊎◌, ◌≢◌, ◌∙◌, ap, sym, false≢true, is_empty, none, some, Option, String, false, refl, Bool-cases,
  All, All-left, All-right, All-append, eq_iff, ◌==◌, ◌≡◌, subst, arith, inl, inr,
}
use habs.Utils.{is_empty_string}
use habs.Config.Steps.{Passes, default-Passes}
use habs.Config.{
  FileConfig, ServiceConfig, or_else, config_of, node_role_of, file_properties, properties,
  service_of_file, service_properties,
}

-- A text that is set and not empty.
abbrev pub Full : Option String → Type 0
Full o = (s : String) × (o ≡ some s) × (s ≢ "")

is_empty_string-Full : (o : Option String) → is_empty_string o ≡ false → Full o
unfolding is_empty_string
is_empty_string-Full none h = absurd (ground arith)
is_empty_string-Full (some s) h = (s, refl, λ e. false≢true (sym h ∙ ap is_empty e))

Full-not_empty : (o : Option String) → Full o → is_empty_string o ≡ false
unfolding is_empty_string
Full-not_empty none (s, e, ne) = absurd (ground arith)
Full-not_empty (some String.[]) (s, e, ne) = absurd (ne (ground arith))
Full-not_empty (some (String.◌∷◌ c t)) f = refl

or_else-Full : (a b : Option String) → is_empty_string (or_else a b) ≡ false → Full a ⊎ Full b
or_else-Full a b h = elim (Bool-cases (is_empty_string a)) [
  | inl empty ↦ inr (is_empty_string-Full b (rw empty at h))
  | inr full ↦ inl (is_empty_string-Full a full)
]

Full-or_else : (a b : Option String) → Full a ⊎ Full b → is_empty_string (or_else a b) ≡ false
Full-or_else a b (inl f) = let e = Full-not_empty a f in rw e e
Full-or_else a b (inr f) = elim (Bool-cases (is_empty_string a)) [
  | inl empty ↦ rw empty (Full-not_empty b f)
  | inr full ↦ rw full full
]

module _ (process_env : String → Option String) where
  -- The texts of `f` or of the environment that have no default, and the name that the file gives
  -- the service of a node that the environment makes one of role noservice.
  pub record TextsSet (f : FileConfig) : Type 0 where
    pub mnemonic : Full f.mnemonic ⊎ Full (process_env "MNEMONIC")
    pub nodes_wallets : Full f.nodes_wallets ⊎ Full (process_env "NODES_WALLETS")
    pub service :
        node_role_of process_env f ≡ "noservice"
        → (name : Option String) → f.service ≡ some name
        → Full name

  file_properties-All : All Passes (file_properties process_env)
  unfolding is_empty_string
  file_properties-All = elim (Bool-cases (is_empty_string (process_env "CONFIG_FILE"))) [
    | inl empty ↦ rw empty tt
    | inr full ↦ rw full (tt, (default-Passes (process_env "CONFIG_FILE_PATH") _ refl, tt))
  ]

  name-Passes :
      (f : FileConfig) (name : Option String)
      → TextsSet f
      → f.service ≡ some name
      → All Passes (service_of_file (some name) (config_of process_env f).service_config)
  unfolding is_empty_string
  name-Passes f name t e = elim (Bool-cases (node_role_of process_env f == "noservice")) [
    | inl idle ↦ rw idle (Full-not_empty name (t.service ((eq_iff _ _).0 idle) name e), tt)
    | inr served ↦
        rw served (default-Passes _ _ (default-Passes (process_env "SERVICES") "polkadot" refl), tt)
  ]

  keys-of :
      (service : Option (Option String)) (s : ServiceConfig)
      → is_empty_string (some s.service) ≡ false
      → All Passes (service_properties (some none) (some s))
      → All Passes (service_properties service (some s))
  keys-of none s named three = (named, three)
  keys-of (some name) s named three = three

  keys-Passes :
      (f : FileConfig) (service : Option (Option String))
      → All Passes (service_properties service (config_of process_env f).service_config)
  unfolding is_empty_string
  keys-Passes f service = elim (Bool-cases (node_role_of process_env f == "noservice")) [
    | inl idle ↦ rw idle tt
    | inr served ↦ rw served (
        keys-of service _
          (default-Passes _ _ (default-Passes (process_env "SERVICES") "polkadot" refl))
          (
            default-Passes (process_env "ARCHIPEL_SERVICE_MODE") "orchestrator" refl,
            (
              default-Passes (process_env "SERVICE_DATA_DIRECTORY") "/service" refl,
              (default-Passes (process_env "SERVICE_CONFIG_DIRECTORY") "/config" refl, tt),
            ),
          ))
  ]

  service-Passes :
      (f : FileConfig) (service : Option (Option String))
      → f.service ≡ service
      → TextsSet f
      → All Passes (service_of_file service (config_of process_env f).service_config)
  service-Passes f none e t = tt
  service-Passes f (some name) e t = name-Passes f name t e

  pub TextsSet-All :
      (f : FileConfig)
      → TextsSet f
      → All Passes (properties process_env f (config_of process_env f))
  unfolding is_empty_string
  TextsSet-All f t = All-append Passes (file_properties process_env) _ file_properties-All (
    default-Passes f.node_role _ (default-Passes (process_env "NODE_ROLE") "operator" refl),
    (
      Full-or_else f.mnemonic (process_env "MNEMONIC") t.mnemonic,
      (
        Full-or_else f.nodes_wallets (process_env "NODES_WALLETS") t.nodes_wallets,
        (
          default-Passes f.archipel_name _
              (default-Passes (process_env "ARCHIPEL_NAME") "test-archipel" refl),
          (
            tt,
            All-append Passes (service_of_file f.service (config_of process_env f).service_config) _
                (service-Passes f f.service refl t)
                (
                  default-Passes (process_env "NODE_WS") "ws://127.0.0.1:9944" refl,
                  (tt, (tt, (tt, keys-Passes f f.service))),
                ),
          ),
        ),
      ),
    ),
  )

  name-Full :
      (f : FileConfig) (service : Option (Option String)) (name : Option String)
      → node_role_of process_env f ≡ "noservice"
      → service ≡ some name
      → All Passes (service_of_file service (config_of process_env f).service_config)
      → Full name
  name-Full f none name idle e h = absurd (ground arith)
  name-Full f (some n) name idle e h =
      let same : n ≡ name = ground arith in
      subst Full same (
        is_empty_string-Full n
          (rw ((eq_iff (node_role_of process_env f) "noservice").1 idle) at h).0)

  pub All-TextsSet :
      (f : FileConfig)
      → All Passes (properties process_env f (config_of process_env f))
      → TextsSet f
  All-TextsSet f h =
      let (role, (mnemonic, (wallets, (name, (group, rest))))) =
        All-right Passes (file_properties process_env) _ h in
      record {
        mnemonic = or_else-Full f.mnemonic (process_env "MNEMONIC") mnemonic;
        nodes_wallets = or_else-Full f.nodes_wallets (process_env "NODES_WALLETS") wallets;
        service = λ idle name e. name-Full f f.service name idle e (
            All-left Passes (service_of_file f.service (config_of process_env f).service_config) _
              rest);
      }
