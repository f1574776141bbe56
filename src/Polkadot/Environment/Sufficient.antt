-- ===== src/Polkadot/Environment/Sufficient.antt =====
-- When a configuration of Polkadot is constructed.
use habs.Base.{◌≡◌, ◌⊎◌, String, true, false, Option, none, some, is_empty, List, ◌∷◌, ◌++◌}
use habs.Utils.{is_empty_string}
use habs.Config.{Property, text_property}
use habs.Polkadot.State.{PolkadotConfig}
use habs.Polkadot.Environment.{PolkadotFile, given, unix_properties, image_properties}

-- The text is that of the file where it has one that is not empty, and else a text of the
-- environment that is not empty.
abbrev pub FileFirst : Option String → Option String → String → Type 0
FileFirst file variable s =
    (is_empty s ≡ false) × ((file ≡ some s) ⊎ ((is_empty_string file ≡ true) × (variable ≡ some s)))

-- The reserved peers and the file of the node key are there if a file is used.
abbrev pub FromFile : Option PolkadotFile → Type 0
FromFile none = Unit
FromFile (some f) =
    (is_empty_string f.polkadot_reserved_nodes ≡ false)
    × (is_empty_string f.polkadot_node_key_file ≡ false)

module _ (process_env : String → Option String) where
  -- The name and the keys of `c` are set in the file or in the environment, the file first.
  pub record AllSet (f : Option PolkadotFile) (c : PolkadotConfig) : Type 0 where
    pub name :
        FileFirst
          (given f (λ f. some f.polkadot_name))
          (process_env "POLKADOT_NAME")
          c.polkadot_name
    pub gran :
        FileFirst
          (given f (λ f. f.polkadot_key_gran))
          (process_env "POLKADOT_KEY_GRAN")
          c.polkadot_key_gran
    pub babe :
        FileFirst
          (given f (λ f. f.polkadot_key_babe))
          (process_env "POLKADOT_KEY_BABE")
          c.polkadot_key_babe
    pub imon :
        FileFirst
          (given f (λ f. f.polkadot_key_imon))
          (process_env "POLKADOT_KEY_IMON")
          c.polkadot_key_imon
    pub para :
        FileFirst
          (given f (λ f. f.polkadot_key_para))
          (process_env "POLKADOT_KEY_PARA")
          c.polkadot_key_para
    pub asgn :
        FileFirst
          (given f (λ f. f.polkadot_key_asgn))
          (process_env "POLKADOT_KEY_ASGN")
          c.polkadot_key_asgn
    pub audi :
        FileFirst
          (given f (λ f. f.polkadot_key_audi))
          (process_env "POLKADOT_KEY_AUDI")
          c.polkadot_key_audi
    pub from_file : FromFile f

  -- The keys after those of the service.
  abbrev after_keys_properties : PolkadotFile → List (String × Property)
  after_keys_properties f =
      ("polkadotReservedNodes", text_property f.polkadot_reserved_nodes)
      ∷ ("polkadotNodeKeyFile", text_property f.polkadot_node_key_file)
      ∷ (unix_properties process_env ++ image_properties process_env)
