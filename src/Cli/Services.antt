-- ===== src/Cli/Services.antt =====
-- cli/src/service.js, polkadot.js and centrifuge.js
pub mod Peers
pub mod Entries
use habs.Base.{
  ℕ, zero, suc, ◌+◌, String, Bool, true, false, not, Option, none, some, List, [], ◌∷◌, ◌++◌, map,
  ◌<>◌, ◌==◌, split, is_empty, show_nat, if◌then◌else◌, Result, ok, err, Exec, pure, throw, lift,
  ◌>>=◌, ◌>>◌,
}
use habs.Cli.Shell.{Tools}
use habs.Cli.Substrate.{NodeId, generate_node_ids, validate_seed}

-- A field that a service needs. The type is always `text`.
pub record Field : Type 0 where
  pub name : String
  pub label : String
  pub env : String

-- Necessary fields for the polkadot service
abbrev pub polkadot_fields : List Field
polkadot_fields =
    record { name = "granKey"; label = "Gran Key"; env = "POLKADOT_KEY_GRAN" }
    ∷ record { name = "babeKey"; label = "Babe Key"; env = "POLKADOT_KEY_BABE" }
    ∷ record { name = "imonKey"; label = "Imon Key"; env = "POLKADOT_KEY_IMON" }
    ∷ record { name = "paraKey"; label = "Para Key"; env = "POLKADOT_KEY_PARA" }
    ∷ record { name = "asgnKey"; label = "Asgn Key"; env = "POLKADOT_KEY_ASGN" }
    ∷ record { name = "audiKey"; label = "Audi Key"; env = "POLKADOT_KEY_AUDI" }
    ∷ []

-- Necessary fields for the centrifuge service
abbrev pub centrifuge_fields : List Field
centrifuge_fields =
    record { name = "granKey"; label = "Gran Key"; env = "CENTRIFUGE_KEY_GRAN" }
    ∷ record { name = "babeKey"; label = "Babe Key"; env = "CENTRIFUGE_KEY_BABE" }
    ∷ record { name = "imonKey"; label = "Imon Key"; env = "CENTRIFUGE_KEY_IMON" }
    ∷ record { name = "audiKey"; label = "Audi Key"; env = "CENTRIFUGE_KEY_AUDI" }
    ∷ []

-- A JSON object whose values are texts.
abbrev pub Object : Type 0
Object = List (String × String)

unfoldable pub member : String → Object → Option String
member key [] = none
member key ((k, value) ∷ rest) = if k == key then some value else member key rest

-- A service in archipel.json
pub record ServiceData : Type 0 where
  pub name : String
  pub fields : List Object

pub record FieldValue : Type 0 where
  pub name : String
  pub value : String
  pub env : String

-- A service in config.json
pub record ServiceEntry : Type 0 where
  pub name : String
  pub fields : List (List FieldValue)
  pub node_ids : List NodeId
  pub reserved_peers_list : String

abbrev pub result_bind : {A B : Type 0} → Result A → (A → Result B) → Result B
result_bind (ok a) f = f a
result_bind (err e) f = err e
result_bind Result.pending f = Result.pending

-- The value of a field in a JSON object that must have it and not be empty.
abbrev pub set_value : Option String → Option String
set_value none = none
set_value (some s) = if is_empty s then none else some s

abbrev needed : Field → Option String → Result String
needed field none = err ("'" <> field.label <> "' field was not set.")
needed field (some s) = ok s

-- The loop over the fields of one node
unfoldable pub fields_of : List Field → Object → Result (List FieldValue)
fields_of [] fields_data = ok []
fields_of (field ∷ fields) fields_data =
    result_bind (needed field (set_value (member field.name fields_data))) λ value.
      result_bind (fields_of fields fields_data)
        λ rest. ok (record { name = field.name; value = value; env = field.env } ∷ rest)

-- `generateServiceFieldsConfig`
unfoldable pub generate_service_fields_config :
    List Field → List Object → Result (List (List FieldValue))
generate_service_fields_config service_fields [] = ok []
generate_service_fields_config service_fields (fields_data ∷ rest) =
    result_bind (fields_of service_fields fields_data) λ fields.
      result_bind (generate_service_fields_config service_fields rest)
        λ others. ok (fields ∷ others)

-- The fields of a service that is supported.
abbrev pub fields_for : String → Option (List Field)
fields_for name =
    if name == "polkadot"
    then some polkadot_fields
    else if name == "centrifuge"
    then some centrifuge_fields
    else none

-- `slice(0, -1)`
unfoldable pub drop_last : String → String
drop_last String.[] = ""
drop_last (String.◌∷◌ c String.[]) = ""
drop_last (String.◌∷◌ c (String.◌∷◌ d s)) = String.◌∷◌ c (drop_last (String.◌∷◌ d s))

abbrev pub peer_address : String → ℕ → NodeId → String
peer_address port index node =
    "/ip4/10.0.1." <> show_nat (index + 1) <> "/tcp/" <> port <> "/p2p/" <> node.peer_id

-- The reduction over the nodes
unfoldable pub push_peers : String → String → ℕ → List NodeId → String
push_peers port acc index [] = acc
push_peers port acc index (node ∷ nodes) =
    push_peers port (acc <> peer_address port index node <> ",") (index + 1) nodes

unfoldable pub reserved_peers : String → List NodeId → String
reserved_peers port nodes = drop_last (push_peers port "" 0 nodes)

module _ {W : Type 0} (tools : Tools W) where
  -- The sequence of tests in `validatePolkadotConfig` and `validateCentrifugeConfig`
  unfoldable pub validate_fields : List Field → Object → Exec W (Unit {0})
  validate_fields [] field_data = pure tt
  validate_fields (field ∷ fields) field_data = do
    valid ← validate_seed tools (member field.name field_data)
    if not valid
        then throw (field.name <> " seed is not valid.")
        else validate_fields fields field_data

  unfoldable pub validate_all : List Field → List Object → Exec W (Unit {0})
  validate_all fields [] = pure tt
  validate_all fields (object ∷ objects) = do
    validate_fields fields object
    validate_all fields objects

  validate_one : Option (List Field) → List Object → Exec W (Unit {0})
  validate_one none objects = throw "Service undefined is not supported yet."
  validate_one (some fields) objects = validate_all fields objects

  -- Validate service config. The message names `configData.service`, which is never set.
  unfoldable pub validate_services_config : List ServiceData → Exec W (Unit {0})
  unfolding validate_one
  validate_services_config [] = pure tt
  validate_services_config (service ∷ services) = do
    validate_one (fields_for service.name) service.fields
    validate_services_config services

  unfoldable pub generate_entry : ServiceData → ℕ → Option (List Field) → Exec W ServiceEntry
  generate_entry service federation_size none =
      throw ("Service " <> service.name <> " is not supported yet.")
  generate_entry service federation_size (some service_fields) = do
    fields ← lift (generate_service_fields_config service_fields service.fields)
    node_ids ← generate_node_ids tools service.name federation_size
    pure (record {
      name = service.name;
      fields = fields;
      node_ids = node_ids;
      reserved_peers_list = reserved_peers "30333" node_ids;
    })

  -- Generate service configuration
  unfoldable pub generate_services_config : List ServiceData → ℕ → Exec W (List ServiceEntry)
  unfolding generate_entry
  generate_services_config [] federation_size = pure []
  generate_services_config (service ∷ services) federation_size = do
    entry ← generate_entry service federation_size (fields_for service.name)
    entries ← generate_services_config services federation_size
    pure (entry ∷ entries)

-- The object that has every field, empty.
abbrev pub blank : List Field → Object
blank [] = []
blank (field ∷ fields) = (field.name, "") ∷ blank fields

abbrev pub replicate {ℓ} : {A : Type ℓ} → ℕ → A → List A
replicate zero a = []
replicate (suc n) a = a ∷ replicate n a

template_of : String → ℕ → Option (List Field) → Result ServiceData
template_of name instances none = err ("Service " <> name <> " is not supported yet.")
template_of name instances (some fields) =
    ok (record { name = name; fields = replicate instances (blank fields) })

templates : List String → ℕ → Result (List ServiceData)
unfolding template_of
templates [] instances = ok []
templates (name ∷ names) instances =
    result_bind (template_of name instances (fields_for name))
      λ service. result_bind (templates names instances) λ services. ok (service ∷ services)

-- Generate service template
unfoldable pub generate_services_template : String → ℕ → Result (List ServiceData)
unfolding templates
generate_services_template services_name instances = templates (split 44 services_name) instances
