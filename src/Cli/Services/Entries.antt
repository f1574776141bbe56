-- ===== src/Cli/Services/Entries.antt =====
-- The fields and the node ids of a service (cli/src/service.js and substrate.js).
use habs.Base.{
  ℕ, zero, suc, ◌+◌, ◌≤◌, ◌<◌, ◌≡◌, refl, ◌∙◌, ap, sym, String, Option, none, some, List, [], ◌∷◌,
  ◌<>◌, show_nat, get_elem?, length, arith, Result, ok, err, pending, continue-eq-ok,
}
use habs.Cli.Shell.{Tools, exec_async}
use habs.Cli.Substrate.{NodeId, generate_node_id, node_ids_from, generate_node_ids}
use habs.Cli.Services.{
  Field, Object, FieldValue, ServiceData, ServiceEntry, member, result_bind, set_value, needed,
  fields_of, generate_service_fields_config, generate_entry,
}

result_bind-ok :
    {A B : Type 0} (r : Result A) (f : A → Result B) {b : B}
    → result_bind r f ≡ ok b
    → (a : A) × (r ≡ ok a) × (f a ≡ ok b)
result_bind-ok (ok a) f h = (a, refl, h)
result_bind-ok (err e) f h = absurd (ground arith)
result_bind-ok pending f h = absurd (ground arith)

needed-ok :
    (field : Field) (o : Option String) (s : String)
    → needed field (set_value o) ≡ ok s
    → o ≡ some s
needed-ok field none s h = absurd (ground arith)
needed-ok field (some t) s h = ground arith

-- The list begins with the value of the field in the object.
pub fields_of-cons :
    (field : Field) (fields : List Field) (object : Object) (values : List FieldValue)
    → fields_of (field ∷ fields) object ≡ ok values
    → (value : String) × (rest : List FieldValue) × (member field.name object ≡ some value)
      × (values ≡ record { name = field.name; value = value; env = field.env } ∷ rest)
      × (fields_of fields object ≡ ok rest)
unfolding fields_of
fields_of-cons field fields object values h =
    let (value, e, h1) = result_bind-ok (needed field (set_value (member field.name object))) _ h in
    let (rest, e1, h2) = result_bind-ok (fields_of fields object) _ h1 in
    (value, rest, needed-ok field (member field.name object) value e, ground arith, e1)

-- There are values for each object, at its place, and no others.
pub generate_fields-at :
    (fields : List Field) (objects : List Object) (lists : List (List FieldValue))
    → generate_service_fields_config fields objects ≡ ok lists
    → (i : ℕ) → (object : Object) → get_elem? objects i ≡ some object
    → (values : List FieldValue) × (get_elem? lists i ≡ some values)
      × (fields_of fields object ≡ ok values)
unfolding generate_service_fields_config
generate_fields-at fields [] lists h i object at = absurd (ground arith)
generate_fields-at fields (o ∷ objects) lists h zero object at =
    let (values, e, h1) = result_bind-ok (fields_of fields o) _ h in
    let (rest, e1, h2) = result_bind-ok (generate_service_fields_config fields objects) _ h1 in
    let same : o ≡ object = ground arith in
    (values, ground arith, ap (fields_of fields) (sym same) ∙ e)
generate_fields-at fields (o ∷ objects) lists h (suc i) object at =
    let (values, e, h1) = result_bind-ok (fields_of fields o) _ h in
    let (rest, e1, h2) = result_bind-ok (generate_service_fields_config fields objects) _ h1 in
    let (found, place, made) = generate_fields-at fields objects rest e1 i object at in
    (found, ground (arith, place), made)

pub generate_fields-beyond :
    (fields : List Field) (objects : List Object) (lists : List (List FieldValue))
    → generate_service_fields_config fields objects ≡ ok lists
    → (i : ℕ) → length objects ≤ i
    → get_elem? lists i ≡ none
unfolding generate_service_fields_config
generate_fields-beyond fields [] lists h i far = ground arith
generate_fields-beyond fields (o ∷ objects) lists h zero far = absurd (omega arith)
generate_fields-beyond fields (o ∷ objects) lists h (suc i) far =
    let (values, e, h1) = result_bind-ok (fields_of fields o) _ h in
    let (rest, e1, h2) = result_bind-ok (generate_service_fields_config fields objects) _ h1 in
    ground (arith, generate_fields-beyond fields objects rest e1 i (omega arith))

module _ {W : Type 0} (tools : Tools W) where
  node_id-file :
      (service : String) (i : ℕ) (w : W) (node : NodeId)
      → (generate_node_id tools service i w).0 ≡ ok node
      → node.id_file ≡ service <> "-node-id-" <> show_nat i
  unfolding generate_node_id
  node_id-file service i w node h =
      let (out, e, h1) = continue-eq-ok (exec_async tools _ w).0 _ _ h in ground arith

  -- The file of each node is named by its place.
  node_ids-at :
      (service : String) (i n : ℕ) (w : W) (nodes : List NodeId)
      → (node_ids_from tools service i n w).0 ≡ ok nodes
      → (j : ℕ) → j < n
      → (node : NodeId) × (get_elem? nodes j ≡ some node)
        × (node.id_file ≡ service <> "-node-id-" <> show_nat (i + j))
  unfolding node_ids_from
  node_ids-at service i zero w nodes h j below = absurd (omega arith)
  node_ids-at service i (suc n) w nodes h zero below =
      let (node, e, h1) = continue-eq-ok (generate_node_id tools service i w).0 _ _ h in
      let w1 = (generate_node_id tools service i w).1 in
      let (rest, e1, h2) = continue-eq-ok (node_ids_from tools service (i + 1) n w1).0 _ _ h1 in
      let here : i ≡ i + 0 = omega arith in
      (
        node,
        ground arith,
        node_id-file service i w node e ∙ ap (λ k. service <> "-node-id-" <> show_nat k) here,
      )
  node_ids-at service i (suc n) w nodes h (suc j) below =
      let (node, e, h1) = continue-eq-ok (generate_node_id tools service i w).0 _ _ h in
      let w1 = (generate_node_id tools service i w).1 in
      let (rest, e1, h2) = continue-eq-ok (node_ids_from tools service (i + 1) n w1).0 _ _ h1 in
      let (found, place, file) = node_ids-at service (i + 1) n w1 rest e1 j (omega arith) in
      let here : i + 1 + j ≡ i + suc j = omega arith in
      (found, ground (arith, place), file ∙ ap (λ k. service <> "-node-id-" <> show_nat k) here)

  -- The entry of a service that is supported: its fields, and the files of its nodes.
  pub entry-made :
      (s : ServiceData) (n : ℕ) (fields : List Field) (w : W) (entry : ServiceEntry)
      → (generate_entry tools s n (some fields) w).0 ≡ ok entry
      → (generate_service_fields_config fields s.fields ≡ ok entry.fields)
        × ((j : ℕ)
            → j < n
            → (node : NodeId) × (get_elem? entry.node_ids j ≡ some node)
              × (node.id_file ≡ s.name <> "-node-id-" <> show_nat j))
  unfolding generate_entry generate_node_ids
  entry-made s n fields w entry h =
      let (lists, e, h1) = continue-eq-ok (generate_service_fields_config fields s.fields) _ _ h in
      let (ids, e1, h2) = continue-eq-ok (node_ids_from tools s.name 0 n w).0 _ _ h1 in
      let same : ids ≡ entry.node_ids = ground arith in
      (
        e ∙ ground arith,
        λ j below.
            let (node, place, file) = node_ids-at s.name 0 n w ids e1 j below in
            let here : 0 + j ≡ j = omega arith in
            (
              node,
              ap (λ l. get_elem? l j) (sym same) ∙ place,
              file ∙ ap (λ k. s.name <> "-node-id-" <> show_nat k) here,
            ),
      )
