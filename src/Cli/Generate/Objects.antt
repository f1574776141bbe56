-- ===== src/Cli/Generate/Objects.antt =====
-- What orchestrator/src/services/polkadot/config.js reads of the object that cli/src/generate.js writes.
use habs.Base.{
  ℕ, zero, suc, ◌≡◌, refl, ◌∙◌, ap, sym, String, none, some, List, [], ◌∷◌, map, ◌==◌, get_elem?,
  find?, arith, num, ok,
}
use habs.Cli.Substrate.{NodeId}
use habs.Cli.Services.{Object, FieldValue, ServiceEntry, member, fields_of, polkadot_fields}
use habs.Cli.Services.Entries.{fields_of-cons}
use habs.Cli.Generate.{FederationConfig}
use habs.Polkadot.Environment.{FieldObject, ServiceObject, PolkadotObject, PolkadotFile, key_at}

abbrev pub field_object : FieldValue → FieldObject
field_object v = record { env = v.env; value = some v.value }

abbrev pub fields_object : List FieldValue → List FieldObject
fields_object values = map field_object values

abbrev pub service_object : ServiceEntry → ServiceObject
service_object e = record {
  fields = map fields_object e.fields;
  reserved_peers_list = some e.reserved_peers_list;
  id_files = map (λ (n : NodeId). some n.id_file) e.node_ids;
}

-- What the configuration of Polkadot reads of the object that is written.
abbrev pub polkadot_object : FederationConfig → PolkadotObject
polkadot_object c = record {
  nodes_number = num c.nodes_number;
  name = some c.name;
  services = map service_object c.services;
}

-- The keys are those of the object in archipel.json.
pub record IsKeys (object : Object) (f : PolkadotFile) : Type 0 where
  pub gran : f.polkadot_key_gran ≡ member "granKey" object
  pub babe : f.polkadot_key_babe ≡ member "babeKey" object
  pub imon : f.polkadot_key_imon ≡ member "imonKey" object
  pub para : f.polkadot_key_para ≡ member "paraKey" object
  pub asgn : f.polkadot_key_asgn ≡ member "asgnKey" object
  pub audi : f.polkadot_key_audi ≡ member "audiKey" object

pub get_elem?-map :
    {A B : Type 0} (f : A → B) (xs : List A) (i : ℕ) (x : A)
    → get_elem? xs i ≡ some x
    → get_elem? (map f xs) i ≡ some (f x)
get_elem?-map f [] i x h = absurd (ground arith)
get_elem?-map f (y ∷ ys) zero x h = ground arith
get_elem?-map f (y ∷ ys) (suc i) x h = get_elem?-map f ys i x h

pub get_elem?-map-none :
    {A B : Type 0} (f : A → B) (xs : List A) (i : ℕ)
    → get_elem? xs i ≡ none
    → get_elem? (map f xs) i ≡ none
get_elem?-map-none f [] i h = refl
get_elem?-map-none f (y ∷ ys) zero h = absurd (ground arith)
get_elem?-map-none f (y ∷ ys) (suc i) h = get_elem?-map-none f ys i h

-- The six elements of the list of a node.
abbrev pub six : String → String → String → String → String → String → List FieldValue
six g b i p a u =
    record { name = "granKey"; value = g; env = "POLKADOT_KEY_GRAN" }
    ∷ record { name = "babeKey"; value = b; env = "POLKADOT_KEY_BABE" }
    ∷ record { name = "imonKey"; value = i; env = "POLKADOT_KEY_IMON" }
    ∷ record { name = "paraKey"; value = p; env = "POLKADOT_KEY_PARA" }
    ∷ record { name = "asgnKey"; value = a; env = "POLKADOT_KEY_ASGN" }
    ∷ record { name = "audiKey"; value = u; env = "POLKADOT_KEY_AUDI" }
    ∷ []

pub record SixKeys (object : Object) (values : List FieldValue) : Type 0 where
  pub g : String
  pub b : String
  pub i : String
  pub p : String
  pub a : String
  pub u : String
  pub values_eq : values ≡ six g b i p a u
  pub gran : some g ≡ member "granKey" object
  pub babe : some b ≡ member "babeKey" object
  pub imon : some i ≡ member "imonKey" object
  pub para : some p ≡ member "paraKey" object
  pub asgn : some a ≡ member "asgnKey" object
  pub audi : some u ≡ member "audiKey" object

followed :
    {v : FieldValue} {xs rest tail : List FieldValue} → xs ≡ v ∷ rest → rest ≡ tail → xs ≡ v ∷ tail
followed {v} e q = e ∙ ap (λ t. v ∷ t) q

fields_of-nil :
    (object : Object) (values : List FieldValue) → fields_of [] object ≡ ok values → values ≡ []
unfolding fields_of
fields_of-nil object values h = ground arith

pub fields_of-SixKeys :
    (object : Object) (values : List FieldValue)
    → fields_of polkadot_fields object ≡ ok values
    → SixKeys object values
fields_of-SixKeys object values h =
    let (g, r1, m1, e1, h1) = fields_of-cons _ _ object values h in
    let (b, r2, m2, e2, h2) = fields_of-cons _ _ object r1 h1 in
    let (i, r3, m3, e3, h3) = fields_of-cons _ _ object r2 h2 in
    let (p, r4, m4, e4, h4) = fields_of-cons _ _ object r3 h3 in
    let (a, r5, m5, e5, h5) = fields_of-cons _ _ object r4 h4 in
    let (u, r6, m6, e6, h6) = fields_of-cons _ _ object r5 h5 in
    let last = fields_of-nil object r6 h6 in
    record {
      g = g;
      b = b;
      i = i;
      p = p;
      a = a;
      u = u;
      values_eq =
          followed e1 (followed e2 (followed e3 (followed e4 (followed e5 (followed e6 last)))));
      gran = sym m1;
      babe = sym m2;
      imon = sym m3;
      para = sym m4;
      asgn = sym m5;
      audi = sym m6;
    }

pub key_at-found :
    (o : PolkadotObject) (i : ℕ) (env : String) (service : ServiceObject)
    (fields : List FieldObject) (field : FieldObject)
    → get_elem? o.services 0 ≡ some service
    → get_elem? service.fields i ≡ some fields
    → find? (λ (f : FieldObject). f.env == env) fields ≡ some field
    → key_at o i env ≡ ok field.value
unfolding key_at
key_at-found o i env service fields field h place found = ground (arith, h, place, found)
