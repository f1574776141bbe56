-- ===== src/Cli/Generate/Accepted.antt =====
-- The configuration file, from cli/src/generate.js to orchestrator/src/config.js.
use habs.Base.{
  ℕ, zero, suc, ◌≤◌, ◌<◌, ◌≡◌, refl, ◌∙◌, ap, sym, String, Option, Result, none, some, List, [],
  ◌∷◌, map, split, arith, length, get_elem?, num, ok, continue-eq-ok, if◌then◌else◌,
}
use habs.Cli.Shell.{Tools}
use habs.Cli.Services.{ServiceEntry}
use habs.Cli.Archipel.{ArchipelNode}
use habs.Cli.Generate.{
  text_or_empty, ConfigData, FederationConfig, generate_config, validate_config_data,
}
use habs.Cli.Generate.Valid.{validate_config_data_iff}
use habs.Config.{
  ConfigObject, FileConfig, from_object, from_config_file, parse_variable, says_noservice, member,
}
use habs.Cli.Generate.Constructed.{construct-Made}

-- What the orchestrator reads of the object that is written.
abbrev pub object_of : FederationConfig → String → String → ConfigObject
object_of c roles groups = record {
  nodes_number = num c.nodes_number;
  nodes_role = roles;
  archipel_seeds = map (λ (n : ArchipelNode). some n.seed) c.archipel.nodes;
  archipel_sr25519_list = some c.archipel.sr25519_list;
  name = some c.name;
  nodes_group_id = groups;
  service_names = map (λ (s : ServiceEntry). some s.name) c.services;
}

seed_at :
    (nodes : List ArchipelNode) (i : ℕ)
    → i < length nodes
    → (node : ArchipelNode) × (get_elem? nodes i ≡ some node)
      × (member (map (λ (n : ArchipelNode). some n.seed) nodes) i ≡ ok (some node.seed))
seed_at [] i h = absurd (ground arith)
seed_at (node ∷ nodes) zero h = (node, refl, refl)
seed_at (node ∷ nodes) (suc i) h = seed_at nodes i (omega arith)

-- What the node at the place `i` gets from the configuration.
pub record IsGiven (c : FederationConfig) (roles groups : String) (i : ℕ) (f : FileConfig)
    : Type 0 where
  pub node : ArchipelNode
  pub listed : get_elem? c.archipel.nodes i ≡ some node
  pub mnemonic : f.mnemonic ≡ some node.seed
  pub role : f.node_role ≡ get_elem? (split 44 roles) i
  pub group : f.node_group_id ≡ get_elem? (split 44 groups) i
  pub wallets : f.nodes_wallets ≡ some c.archipel.sr25519_list
  pub name : f.archipel_name ≡ some c.name
  pub entry : ServiceEntry
  pub others : List ServiceEntry
  pub services : c.services ≡ entry ∷ others
  pub service : f.service ≡ (if says_noservice f.node_role then none else some (some entry.name))

from_object-accepts :
    (c : FederationConfig) (roles groups : String) (i : ℕ) (entry : ServiceEntry)
    (rest : List ServiceEntry)
    → c.services ≡ entry ∷ rest
    → length c.archipel.nodes ≡ c.nodes_number
    → i < c.nodes_number
    → (f : FileConfig) × (from_object (object_of c roles groups) (num (suc i)) ≡ ok f)
      × IsGiven c roles groups i f
unfolding from_object
from_object-accepts c roles groups i entry rest first count h =
    let (node, listed, seed) = seed_at c.archipel.nodes i (omega (arith, count, h)) in
    let f : FileConfig = record {
      node_role = get_elem? (split 44 roles) i;
      mnemonic = some node.seed;
      nodes_wallets = some c.archipel.sr25519_list;
      archipel_name = some c.name;
      node_group_id = get_elem? (split 44 groups) i;
      service =
          if says_noservice (get_elem? (split 44 roles) i) then none else some (some entry.name);
    } in
    (
      f,
      ground (arith, seed, first, h),
      record {
        node = node;
        listed = listed;
        mnemonic = refl;
        role = refl;
        group = refl;
        wallets = refl;
        name = refl;
        entry = entry;
        others = rest;
        services = first;
        service = refl;
      },
    )

-- Where the number of a node parses and its file can be read, the body of the `try` decides.
from_object-file :
    (read_to_obj : String → Result ConfigObject) (path : String) (node_id : Option String)
    (o : ConfigObject) (n : ℕ) (f : FileConfig)
    → read_to_obj path ≡ ok o
    → parse_variable node_id ≡ num n
    → from_object o (num n) ≡ ok f
    → from_config_file read_to_obj path node_id ≡ ok f
unfolding from_config_file
from_object-file read_to_obj path node_id o n f r p h = rw p (rw r (rw h refl))

-- When the tool makes a configuration and the groups of the nodes are set, the roles are set too
-- and there are at least four nodes. On each node, from the first to the last, where the file of
-- the orchestrator reads as that configuration and its node id parses as the number of the node,
-- `constructConfigurationFromConfigFile` of the orchestrator returns, with the seed, the role and
-- the group of the node, the wallets, the name, and the name of the first service unless its role
-- is noservice. That the values are valid for what follows is not said.
pub generate_config-accepted :
    {W : Type 0} (tools : Tools W) (d : ConfigData) (w : W) (c : FederationConfig) (groups : String)
    → (generate_config tools d w).0 ≡ ok c
    → d.nodes_group_id ≡ some groups
    → (roles : String) × (c.nodes_role ≡ some roles)
      × (c.nodes_group_id ≡ some groups)
      × (4 ≤ c.nodes_number)
      × ((i : ℕ) (read_to_obj : String → Result ConfigObject) (path : String)
            (node_id : Option String)
          → i < c.nodes_number
          → read_to_obj path ≡ ok (object_of c roles groups)
          → parse_variable node_id ≡ num (suc i)
          → (f : FileConfig) × (from_config_file read_to_obj path node_id ≡ ok f)
            × IsGiven c roles groups i f)
unfolding generate_config
generate_config-accepted tools d w c groups h own =
    let (u, valid, h1) = continue-eq-ok (validate_config_data tools d w).0 _ _ h in
    let v = (validate_config_data_iff tools d w).0 valid in
    let (roles, set, all) = v.roles in
    let (ips, given, many, hosts) = v.addresses in
    let m = construct-Made tools d (validate_config_data tools d w).1 c h1 in
    let same : m.ips ≡ ips = sym (ap text_or_empty m.ips_set) ∙ ap text_or_empty given in
    let number : c.nodes_number ≡ length (split 44 ips) =
      m.number ∙ ap (λ t. length (split 44 t)) same in
    (
      roles,
      m.roles ∙ set,
      m.groups ∙ own,
      omega (arith, many, number),
      λ i read_to_obj path node_id below read parses.
          let (f, accepted, given_to) =
            from_object-accepts c roles groups i m.entry m.rest m.first m.nodes below in
          (
            f,
            from_object-file read_to_obj path node_id (object_of c roles groups) (suc i) f read
                parses accepted,
            given_to,
          ),
    )
