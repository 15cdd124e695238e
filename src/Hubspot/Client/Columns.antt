-- ===== src/Hubspot/Client/Columns.antt =====
-- The records that the client hands on have the columns of the table.
use glynac_ingestion_platfor.Common.{
  String, ◌≡◌, refl, ap, ◌∙◌, true, false, ◌&&◌, ◌||◌, Option, List, [], ◌∷◌, map, any, str_eq,
  eq_iff, eq_refl, inl, inr, Bool-cases, arith,
}
use glynac_ingestion_platfor.Json.{Json, JsonObject, text, get, put}
use glynac_ingestion_platfor.World.{SchemaField}
use glynac_ingestion_platfor.Hubspot.Client.{
  Item, typed_fields, is_null, in_types, with_updated_at, normalise_item, normalise_results,
}

-- The names of the columns that a record has.
abbrev pub columns_of : JsonObject → List String
columns_of rec = map (λ (f : String × Json). f.0) rec

abbrev pub names_of : List SchemaField → List String
names_of types = map (λ (t : SchemaField). t.0) types

columns_of-put :
    (k : String) (v : Json) (d : JsonObject)
    → any (λ n. str_eq n k) (columns_of d) ≡ true
    → columns_of (put k v d) ≡ columns_of d
columns_of-put k v [] h = cc
columns_of-put k v ((n, w) ∷ d) h = elim (Bool-cases (str_eq n k)) [
  | inl same ↦ rw same refl
  | inr apart ↦ rw apart (ap (λ ns. n ∷ ns) (columns_of-put k v d (ground (arith, apart, h))))
]

get-put : (k : String) (v : Json) (d : JsonObject) → get k (put k v d) ≡ v
get-put k v [] = rw (eq_refl k) refl
get-put k v ((n, w) ∷ d) = elim (Bool-cases (str_eq n k)) [
  | inl same ↦ rw same (rw same refl)
  | inr apart ↦ rw apart (rw apart (get-put k v d))
]

get-put_ne :
    (k i : String) (v : Json) (d : JsonObject) → str_eq k i ≡ false → get i (put k v d) ≡ get i d
get-put_ne k i v [] ne = rw ne refl
get-put_ne k i v ((n, w) ∷ d) ne = elim (Bool-cases (str_eq n k)) [
  | inl same ↦ let e : n ≡ k = (eq_iff n k).0 same in rw same (rw (e, ne) refl)
  | inr apart ↦ rw apart (ground (arith, get-put_ne k i v d ne))
]

any-names_of :
    (name : String) (types : List SchemaField)
    → any (λ n. str_eq n name) (names_of types) ≡ in_types name types
any-names_of name [] = refl
any-names_of name (t ∷ types) = ap (λ b. str_eq t.0 name || b) (any-names_of name types)

module _ (read_float read_int : Json → Option Json) where
  columns_of-typed_fields :
      (props : JsonObject) (types : List SchemaField)
      → columns_of (typed_fields read_float read_int props types) ≡ names_of types
  unfolding typed_fields
  columns_of-typed_fields props [] = refl
  columns_of-typed_fields props ((name, type_name) ∷ types) =
      ap (λ ns. name ∷ ns) (columns_of-typed_fields props types)

  -- A column that the table has keeps the columns of a record when it is set.
  set_column :
      (types : List SchemaField) (k : String) (v : Json) (d : JsonObject)
      → in_types k types ≡ true
      → columns_of d ≡ names_of types
      → columns_of (put k v d) ≡ names_of types
  set_column types k v d there same =
      columns_of-put k v d (ap (any (λ n. str_eq n k)) same ∙ any-names_of k types ∙ there) ∙ same

  updated_columns :
      (types : List SchemaField) (item : Item) (d : JsonObject)
      → columns_of d ≡ names_of types
      → columns_of (with_updated_at item types d) ≡ names_of types
  updated_columns types item d same = elim (Bool-cases (in_types "updated_at" types)) [
    | inl there ↦ elim (Bool-cases (is_null (get "updated_at" d))) [
      | inl missing ↦
          rw (there, missing) (set_column types "updated_at" item.updated_at d there same)
      | inr given ↦ rw given same
    ]
    | inr none_there ↦ ground (arith, none_there, same)
  ]

  updated_get :
      (types : List SchemaField) (item : Item) (k : String) (d : JsonObject)
      → str_eq "updated_at" k ≡ false
      → get k (with_updated_at item types d) ≡ get k d
  updated_get types item k d ne =
      elim (Bool-cases (is_null (get "updated_at" d) && in_types "updated_at" types)) [
        | inl set ↦ rw set (get-put_ne "updated_at" k item.updated_at d ne)
        | inr kept ↦ rw kept refl
      ]

  -- What a record of the table is made of.
  abbrev Shaped : List SchemaField → String → Item → JsonObject → Type 0
  Shaped types org_id item rec =
      (columns_of rec ≡ names_of types)
      × (get "id" rec ≡ item.id)
      × (get "organisation_id" rec ≡ text org_id)

  normalise_item-Shaped :
      (types : List SchemaField) (org_id : String) (item : Item)
      → in_types "id" types ≡ true
      → in_types "organisation_id" types ≡ true
      → Shaped types org_id item (normalise_item read_float read_int types org_id item)
  unfolding normalise_item
  normalise_item-Shaped types org_id item has_id has_org =
      let fields = typed_fields read_float read_int item.properties types in
      let with_id = put "id" item.id fields in
      let updated = with_updated_at item types with_id in
      (
        set_column types "organisation_id" (text org_id) updated has_org (
            updated_columns types item with_id (
              set_column types "id" item.id fields has_id
                (columns_of-typed_fields item.properties types))),
        get-put_ne "organisation_id" "id" (text org_id) updated refl
            ∙ updated_get types item "id" with_id refl
            ∙ get-put "id" item.id fields,
        get-put "organisation_id" (text org_id) updated,
      )

  -- Whatever properties HubSpot sends, and whatever it leaves out: the records that the client hands on
  -- have exactly the columns of the table, in the order of the schema, each with the id that HubSpot sent
  -- and the organisation that the job runs for. The schema must name both columns.
  pub normalise_results_shaped :
      (types : List SchemaField) (org_id : String) (raw : List Item)
      → in_types "id" types ≡ true
      → in_types "organisation_id" types ≡ true
      → let records = normalise_results read_float read_int types org_id raw in
        (map columns_of records ≡ map (λ (i : Item). names_of types) raw)
        × (map (get "id") records ≡ map (λ (i : Item). i.id) raw)
        × (map (get "organisation_id") records ≡ map (λ (i : Item). text org_id) raw)
  unfolding normalise_results
  normalise_results_shaped types org_id [] has_id has_org = (refl, refl, refl)
  normalise_results_shaped types org_id (item ∷ raw) has_id has_org =
      let (columns, id, org) = normalise_item-Shaped types org_id item has_id has_org in
      let (more_columns, more_ids, more_orgs) =
        normalise_results_shaped types org_id raw has_id has_org in
      (cc (columns, more_columns), cc (id, more_ids), cc (org, more_orgs))
