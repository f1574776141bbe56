-- ===== src/Config/Checks.antt =====
-- When a configuration is accepted.
use habs.Base.{
  Option, String, false, refl, ℕ, zero, suc, ◌+◌, ◌-◌, ◌≡◌, get_elem?, split, arith, Result, ok,
  Number, num, int, nan, pos, negsuc, less, inl, inr, Result-cases, at_least,
}
use habs.Config.Texts.{TextsSet}
use habs.Config.{
  ConfigObject, FileConfig, Config, is_nan, parse_variable, member, from_object, from_config_file,
  file_config, alive_time_of, node_group_id_of, index_of,
}

module _ (process_env : String → Option String) where
  -- Everything that is needed is there, `file` being what the file decides.
  pub record Sufficient (read_to_obj : String → Result ConfigObject) : Type 0 where
    pub file : FileConfig
    pub read : file_config process_env read_to_obj ≡ ok file
    pub alive_time : is_nan (alive_time_of process_env) ≡ false
    pub node_group_id : is_nan (node_group_id_of process_env file) ≡ false
    pub texts : TextsSet process_env file

module _ (read_to_obj : String → Result ConfigObject) where
  -- What the file says of the node with index `n`.
  pub record EntryOf (path : String) (node_id : Option String) (f : FileConfig) : Type 0 where
    pub object : ConfigObject
    pub index : ℕ
    pub read : read_to_obj path ≡ ok object
    pub numbered : parse_variable node_id ≡ num (index + 1)
    pub within : less object.nodes_number (num (index + 1)) ≡ false
    pub seed : member object.archipel_seeds index ≡ ok f.mnemonic
    pub role : f.node_role ≡ get_elem? (split 44 object.nodes_role) index
    pub group : f.node_group_id ≡ get_elem? (split 44 object.nodes_group_id) index
    pub wallets : f.nodes_wallets ≡ object.archipel_sr25519_list

  from_object-ok :
      (o : ConfigObject) (id : Number) (f : FileConfig)
      → from_object o id ≡ ok f
      → (less o.nodes_number id ≡ false)
        × (at_least (num 0) id ≡ false)
        × (member o.archipel_seeds (index_of id) ≡ ok f.mnemonic)
        × (f.node_role ≡ get_elem? (split 44 o.nodes_role) (index_of id))
        × (f.node_group_id ≡ get_elem? (split 44 o.nodes_group_id) (index_of id))
        × (f.nodes_wallets ≡ o.archipel_sr25519_list)
  unfolding from_object
  from_object-ok o id f h = ground arith

  object-EntryOf :
      (path : String) (node_id : Option String) (o : ConfigObject) (id : Number) (f : FileConfig)
      → read_to_obj path ≡ ok o
      → parse_variable node_id ≡ id
      → is_nan id ≡ false
      → from_object o id ≡ ok f
      → EntryOf path node_id f
  object-EntryOf path node_id o nan f r p a h = absurd (ground arith)
  object-EntryOf path node_id o (int (negsuc n)) f r p a h =
      absurd (ground (arith, from_object-ok o (int (negsuc n)) f h))
  object-EntryOf path node_id o (int (pos zero)) f r p a h =
      absurd (ground (arith, from_object-ok o (int (pos zero)) f h))
  object-EntryOf path node_id o (int (pos (suc n))) f r p a h =
      let (within, positive, seed, role, group, wallets) =
        from_object-ok o (int (pos (suc n))) f h in
      let back : suc n - 1 ≡ n = omega arith in
      let next : suc n ≡ n + 1 = omega arith in
      record {
        object = o;
        index = n;
        read = r;
        numbered = rw next at p;
        within = rw next at within;
        seed = rw back at seed;
        role = rw back at role;
        group = rw back at group;
        wallets = wallets;
      }

  -- A file that is accepted was read, the node id parses as a number that is at least 1 and not
  -- above the number of nodes that the file gives, and role, group and seed are those of that
  -- place, counted from 0.
  pub from_config_file-EntryOf :
      (path : String) (node_id : Option String) (f : FileConfig)
      → from_config_file read_to_obj path node_id ≡ ok f
      → EntryOf path node_id f
  unfolding from_config_file
  from_config_file-EntryOf path node_id f h =
      let number : is_nan (parse_variable node_id) ≡ false = ground arith in
      elim (Result-cases (read_to_obj path)) [
        | inl (o, r) ↦
            let accepted : from_object o (parse_variable node_id) ≡ ok f = ground arith in
            object-EntryOf path node_id o (parse_variable node_id) f r refl number accepted
        | inr (inl (e, r)) ↦ absurd (ground arith)
        | inr (inr r) ↦ absurd (ground arith)
      ]
