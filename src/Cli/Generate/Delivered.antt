-- ===== src/Cli/Generate/Delivered.antt =====
-- The keys of Polkadot, from archipel.json to orchestrator/src/services/polkadot/config.js.
use habs.Base.{
  ℕ, suc, ◌≤◌, ◌<◌, ◌≡◌, refl, ◌∙◌, ap, sym, subst, String, none, some, List, ◌∷◌, map, ◌<>◌,
  show_nat, show, get_elem?, find?, length, arith, num, ok, err, continue-eq-ok,
}
use habs.Cli.Shell.{Tools}
use habs.Cli.Substrate.{NodeId}
use habs.Cli.Services.{
  Object, FieldValue, ServiceData, ServiceEntry, fields_for, polkadot_fields, generate_entry,
}
use habs.Cli.Services.Entries.{generate_fields-at, generate_fields-beyond, entry-made}
use habs.Cli.Generate.{ConfigData, FederationConfig, generate_config, validate_config_data}
use habs.Cli.Generate.Constructed.{construct-Made, Made}
use habs.Polkadot.Environment.{PolkadotFile, key_at, polkadot_from_object}
use habs.Cli.Generate.Objects.{
  service_object, fields_object, polkadot_object, IsKeys, six, SixKeys, key_at-found,
  fields_of-SixKeys, get_elem?-map, get_elem?-map-none,
}

-- What the file decides.
abbrev decided :
    FederationConfig → ServiceEntry → ℕ → String → (g b i p a u : String) → PolkadotFile
decided c entry place file g b i p a u = record {
  polkadot_name = c.name <> "-node-" <> show (num (suc place));
  polkadot_key_gran = some g;
  polkadot_key_babe = some b;
  polkadot_key_imon = some i;
  polkadot_key_para = some p;
  polkadot_key_asgn = some a;
  polkadot_key_audi = some u;
  polkadot_reserved_nodes = some entry.reserved_peers_list;
  polkadot_node_key_file = some file;
}

module _ {W : Type 0} (tools : Tools W) (d : ConfigData) (c : FederationConfig) (m : Made tools d c)
    (is_polkadot : m.service.name ≡ "polkadot") where
  made :
      (generate_entry tools m.service d.service_nodes_number (some polkadot_fields) m.world).0
      ≡ ok m.entry
  made =
      subst (λ o. (generate_entry tools m.service d.service_nodes_number o m.world).0 ≡ ok m.entry)
        (ap fields_for is_polkadot) m.generated

  service_at : get_elem? (polkadot_object c).services 0 ≡ some (service_object m.entry)
  service_at = ap (λ l. get_elem? (map service_object l) 0) m.first

  keys-at :
      (i : ℕ) (object : Object)
      → get_elem? m.service.fields i ≡ some object
      → (values : List FieldValue) × (get_elem? (service_object m.entry).fields i
          ≡ some (fields_object values))
        × SixKeys object values
  keys-at i object at =
      let (all, ids) =
        entry-made tools m.service d.service_nodes_number polkadot_fields m.world m.entry made in
      let (values, place, e) =
        generate_fields-at polkadot_fields m.service.fields m.entry.fields all i object at in
      (
        values,
        get_elem?-map fields_object m.entry.fields i values place,
        fields_of-SixKeys object values e,
      )

  keys-none :
      (i : ℕ) → length m.service.fields ≤ i → get_elem? (service_object m.entry).fields i ≡ none
  keys-none i far =
      let (all, ids) =
        entry-made tools m.service d.service_nodes_number polkadot_fields m.world m.entry made in
      get_elem?-map-none fields_object m.entry.fields i
        (generate_fields-beyond polkadot_fields m.service.fields m.entry.fields all i far)

  object-refused :
      (i : ℕ)
      → i < c.nodes_number
      → length m.service.fields ≤ i
      → polkadot_from_object (polkadot_object c) (num (suc i))
        ≡ err "TypeError: Cannot read property 'find' of undefined"
  unfolding polkadot_from_object key_at
  object-refused i below far = ground (arith, service_at, keys-none i far)

  object-accepted :
      (i : ℕ) (object : Object)
      → i < c.nodes_number
      → i < d.service_nodes_number
      → get_elem? m.service.fields i ≡ some object
      → (f : PolkadotFile) × (polkadot_from_object (polkadot_object c) (num (suc i)) ≡ ok f)
        × IsKeys object f
        × (f.polkadot_reserved_nodes ≡ some m.entry.reserved_peers_list)
        × (f.polkadot_node_key_file ≡ some ("polkadot-node-id-" <> show_nat i))
        × (f.polkadot_name ≡ c.name <> "-node-" <> show_nat (suc i))
  unfolding polkadot_from_object find? show
  object-accepted i object below served at =
      let (values, place, k) = keys-at i object at in
      let (all, ids) =
        entry-made tools m.service d.service_nodes_number polkadot_fields m.world m.entry made in
      let (node, listed, file) = ids i served in
      let o = polkadot_object c in
      let service = service_object m.entry in
      let fields = fields_object (six k.g k.b k.i k.p k.a k.u) in
      let there = place ∙ ap (λ l. some (fields_object l)) k.values_eq in
      let gran = key_at-found o i "POLKADOT_KEY_GRAN" service fields _ service_at there refl in
      let babe = key_at-found o i "POLKADOT_KEY_BABE" service fields _ service_at there refl in
      let imon = key_at-found o i "POLKADOT_KEY_IMON" service fields _ service_at there refl in
      let para = key_at-found o i "POLKADOT_KEY_PARA" service fields _ service_at there refl in
      let asgn = key_at-found o i "POLKADOT_KEY_ASGN" service fields _ service_at there refl in
      let audi = key_at-found o i "POLKADOT_KEY_AUDI" service fields _ service_at there refl in
      let id_file = get_elem?-map (λ (n : NodeId). some n.id_file) m.entry.node_ids i node listed in
      (
        decided c m.entry i node.id_file k.g k.b k.i k.p k.a k.u,
        ground (arith, gran, babe, imon, para, asgn, audi, service_at, id_file),
        record {
          gran = k.gran;
          babe = k.babe;
          imon = k.imon;
          para = k.para;
          asgn = k.asgn;
          audi = k.audi;
        },
        refl,
        ap some (file ∙ ap (λ n. n <> "-node-id-" <> show_nat i) is_polkadot),
        refl,
      )

-- What a node has from the file: the keys of its object in archipel.json, the reserved peers of the
-- first service, the file of its own node key, and a name.
pub record IsDelivered (c : FederationConfig) (i : ℕ) (object : Object) (f : PolkadotFile)
    : Type 0 where
  pub keys : IsKeys object f
  pub entry : ServiceEntry
  pub others : List ServiceEntry
  pub first : c.services ≡ entry ∷ others
  pub reserved : f.polkadot_reserved_nodes ≡ some entry.reserved_peers_list
  pub node_key_file : f.polkadot_node_key_file ≡ some ("polkadot-node-id-" <> show_nat i)
  pub name : f.polkadot_name ≡ c.name <> "-node-" <> show_nat (suc i)

head_of : {s t : ServiceData} {ss ts : List ServiceData} → some (s ∷ ss) ≡ some (t ∷ ts) → s ≡ t
head_of h = ground arith

module _ {W : Type 0} (tools : Tools W) (d : ConfigData) (w : W) (c : FederationConfig)
    (service : ServiceData) (others : List ServiceData) (i : ℕ)
    (generated : (generate_config tools d w).0 ≡ ok c)
    (listed : d.services ≡ some (service ∷ others)) (is_polkadot : service.name ≡ "polkadot")
    (below : i < c.nodes_number) where
  constructed : Made tools d c
  unfolding generate_config
  constructed =
      let (u, valid, h) = continue-eq-ok (validate_config_data tools d w).0 _ _ generated in
      construct-Made tools d (validate_config_data tools d w).1 c h

  same : service ≡ constructed.service
  same = head_of (sym listed ∙ constructed.listed)

  -- When the tool makes a configuration whose first service is polkadot, a node whose place is
  -- below the number of service nodes and that has an object of fields in archipel.json is
  -- accepted by the configuration of Polkadot with its number, and gets the six keys of that
  -- object, the reserved peers of the service, the file of its own node key, and its own name.
  pub keys-IsDelivered :
      (object : Object)
      → i < d.service_nodes_number
      → get_elem? service.fields i ≡ some object
      → (f : PolkadotFile) × (polkadot_from_object (polkadot_object c) (num (suc i)) ≡ ok f)
        × IsDelivered c i object f
  keys-IsDelivered object served at =
      let m = constructed in
      let (f, e, keys, reserved, file, name) =
        object-accepted tools d c m (ap (λ s. s.name) (sym same) ∙ is_polkadot) i object below
          served (ap (λ s. get_elem? s.fields i) (sym same) ∙ at) in
      (
        f,
        e,
        record {
          keys = keys;
          entry = m.entry;
          others = m.rest;
          first = m.first;
          reserved = reserved;
          node_key_file = file;
          name = name;
        },
      )

  -- In a configuration of the tool whose first service is polkadot, every node whose place is not
  -- below the number of objects of fields is refused by the configuration of Polkadot, whatever
  -- its role: the objects are indexed by the number of the node, not by its place among the
  -- service nodes.
  pub surplus_node_refused :
      length service.fields ≤ i
      → polkadot_from_object (polkadot_object c) (num (suc i))
        ≡ err "TypeError: Cannot read property 'find' of undefined"
  surplus_node_refused far =
      object-refused tools d c constructed (ap (λ s. s.name) (sym same) ∙ is_polkadot) i below
        (subst (λ s. length s.fields ≤ i) same far)
