-- ===== src/Cli/Generate/Constructed.antt =====
-- What the construction of the configuration returns (cli/src/generate.js).
use habs.Base.{
  ℕ, zero, suc, ◌≡◌, refl, String, Option, none, some, List, [], ◌∷◌, split, arith, length, ok,
  continue-eq-ok, subst,
}
use habs.Cli.Shell.{replace_space, Tools}
use habs.Cli.Substrate.{SubstrateKey, NodeId, generate_substrate_keys, generate_node_ids}
use habs.Cli.Services.{
  ServiceData, ServiceEntry, generate_entry, fields_for, generate_services_config,
}
use habs.Cli.Archipel.{ArchipelNode, ArchipelConfig, fill_nodes, generate_archipel_config}
use habs.Cli.Wireguard.{generate_wireguard_config}
use habs.Cli.Generate.{
  text_or_empty, ConfigData, FederationConfig, ports_list, check_services, construct_config, parts,
}

module _ {W : Type 0} (tools : Tools W) where
  length-fill_nodes :
      (n : ℕ) (keys : List SubstrateKey) (ids : List NodeId) (w : W) (nodes : List ArchipelNode)
      → (fill_nodes n keys ids w).0 ≡ ok nodes
      → length nodes ≡ n
  unfolding fill_nodes
  length-fill_nodes zero keys ids w nodes h = ground arith
  length-fill_nodes (suc n) [] ids w nodes h = absurd (ground arith)
  length-fill_nodes (suc n) (key ∷ keys) [] w nodes h =
      let (rest, e, h1) = continue-eq-ok (fill_nodes n keys [] w).0 _ _ h in
      ground (arith, length-fill_nodes n keys [] w rest e)
  length-fill_nodes (suc n) (key ∷ keys) (id ∷ ids) w nodes h =
      let (rest, e, h1) = continue-eq-ok (fill_nodes n keys ids w).0 _ _ h in
      ground (arith, length-fill_nodes n keys ids w rest e)

  length-generate_archipel :
      (n : ℕ) (w : W) (c : ArchipelConfig)
      → (generate_archipel_config tools n w).0 ≡ ok c
      → length c.nodes ≡ n
  unfolding generate_archipel_config
  length-generate_archipel n w c h =
      let (keys, e, h1) = continue-eq-ok (generate_substrate_keys tools n w).0 _ _ h in
      let w1 = (generate_substrate_keys tools n w).1 in
      let (ids, e1, h2) = continue-eq-ok (generate_node_ids tools "archipel" n w1).0 _ _ h1 in
      let w2 = (generate_node_ids tools "archipel" n w1).1 in
      let (nodes, e2, h3) = continue-eq-ok (fill_nodes n keys ids w2).0 _ _ h2 in
      ground (arith, length-fill_nodes n keys ids w2 nodes e2)

  head-generate_services :
      (s : ServiceData) (ss : List ServiceData) (n : ℕ) (w : W) (entries : List ServiceEntry)
      → (generate_services_config tools (s ∷ ss) n w).0 ≡ ok entries
      → (entry : ServiceEntry) × (rest : List ServiceEntry) × (entries ≡ entry ∷ rest)
        × ((generate_entry tools s n (fields_for s.name) w).0 ≡ ok entry)
  unfolding generate_services_config
  head-generate_services s ss n w entries h =
      let (entry, e, h1) =
        continue-eq-ok (generate_entry tools s n (fields_for s.name) w).0 _ _ h in
      let w1 = (generate_entry tools s n (fields_for s.name) w).1 in
      let (rest, e1, h2) = continue-eq-ok (generate_services_config tools ss n w1).0 _ _ h1 in
      (entry, rest, ground arith, e)

  -- What the construction gives. The first service was made from the state `world`.
  pub record Made (d : ConfigData) (c : FederationConfig) : Type 0 where
    pub ips : String
    pub ips_set : d.public_ips ≡ some ips
    pub number : c.nodes_number ≡ length (split 44 ips)
    pub nodes : length c.archipel.nodes ≡ c.nodes_number
    pub entry : ServiceEntry
    pub rest : List ServiceEntry
    pub first : c.services ≡ entry ∷ rest
    pub service : ServiceData
    pub others : List ServiceData
    pub listed : d.services ≡ some (service ∷ others)
    pub world : W
    pub generated :
        (generate_entry tools service d.service_nodes_number (fields_for service.name) world).0
        ≡ ok entry
    pub name : c.name ≡ replace_space "-" (tools.to_lower_case (text_or_empty d.name))
    pub roles : c.nodes_role ≡ d.nodes_role
    pub groups : c.nodes_group_id ≡ d.nodes_group_id

  check_services-ok :
      (o : Option (List ServiceData)) (w : W) (ss : List ServiceData)
      → (check_services o w).0 ≡ ok ss
      → (s : ServiceData) × (rest : List ServiceData) × (ss ≡ s ∷ rest) × (o ≡ some (s ∷ rest))
  check_services-ok none w ss h = absurd (ground arith)
  check_services-ok (some []) w ss h = absurd (ground arith)
  check_services-ok (some (s ∷ rest)) w ss h = (s, rest, ground arith, refl)

  parts-ok :
      (o : Option String) (w : W) (xs : List String)
      → (parts o w).0 ≡ ok xs
      → (s : String) × (o ≡ some s) × (xs ≡ split 44 s)
  parts-ok none w xs h = absurd (ground arith)
  parts-ok (some s) w xs h = (s, refl, ground arith)

  pub construct-Made :
      (d : ConfigData) (w : W) (c : FederationConfig)
      → (construct_config tools d w).0 ≡ ok c
      → Made d c
  unfolding construct_config
  construct-Made d w c h =
      let (xs, e, h1) = continue-eq-ok (parts d.public_ips w).0 _ _ h in
      let w1 = (parts d.public_ips w).1 in
      let (ss, e1, h2) = continue-eq-ok (check_services d.services w1).0 _ _ h1 in
      let w2 = (check_services d.services w1).1 in
      let n = d.service_nodes_number in
      let (entries, e2, h3) = continue-eq-ok (generate_services_config tools ss n w2).0 _ _ h2 in
      let w3 = (generate_services_config tools ss n w2).1 in
      let ports = ports_list d.wireguard_ports in
      let (wireguard, e3, h4) =
        continue-eq-ok (generate_wireguard_config tools xs ports w3).0 _ _ h3 in
      let w4 = (generate_wireguard_config tools xs ports w3).1 in
      let (archipel, e4, h5) =
        continue-eq-ok (generate_archipel_config tools (length xs) w4).0 _ _ h4 in
      let len = length-generate_archipel (length xs) w4 archipel e4 in
      let (ips, set, split_eq) = parts-ok d.public_ips w xs e in
      let (s, rest, listed, in_data) = check_services-ok d.services w1 ss e1 in
      let (entry, others, first, generated) =
        head-generate_services s rest n w2 entries
          (subst (λ l. (generate_services_config tools l n w2).0 ≡ ok entries) listed e2) in
      record {
        ips = ips;
        ips_set = set;
        number = ground (arith, split_eq);
        nodes = ground (arith, len);
        entry = entry;
        rest = others;
        first = ground (arith, first);
        service = s;
        others = rest;
        listed = in_data;
        world = w2;
        generated = generated;
        name = ground arith;
        roles = ground arith;
        groups = ground arith;
      }
