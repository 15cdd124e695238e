-- ===== src/Mocks/Hubspot.antt =====
-- mock_services/hubspot.py: the mock HubSpot server, and app/hubspot/schemas.py, the records that it makes
-- up. `fake_field` is what the Faker library and the formulas beside it give a column, by the object, the
-- column, its type and the offset. A record of the server is its offset, its columns, and whether it has an id.
pub mod Pages
use glynac_ingestion_platfor.Common.{
  ℕ, zero, suc, ◌+◌, ◌-◌, ◌%◌, String, ◌<>◌, Bool, true, false, ◌&&◌, ◌*◌, ◌||◌, not, Option, none,
  some, List, [], ◌∷◌, ◌++◌, if◌then◌else◌, ◌==◌, leb, ltb, str_eq, map, any, filter, length,
}
use glynac_ingestion_platfor.Common.Maps.{lookup}
use glynac_ingestion_platfor.Common.Text.{show, lower, codes}
use glynac_ingestion_platfor.Errors.{ok, err}
use glynac_ingestion_platfor.Json.{Json, JsonObject, null, bool, text, get, put, str}
use glynac_ingestion_platfor.World.{SchemaField}
use glynac_ingestion_platfor.Time.{digits_value}
use glynac_ingestion_platfor.SyncState.{parse_ts, iso}
use glynac_ingestion_platfor.Hubspot.{hubspot_schemas}
use glynac_ingestion_platfor.Hubspot.Client.{
  Item, Response, Query, account_details, list_objects, search_objects, property_of, object_types,
}
use glynac_ingestion_platfor.Mocks.Slices.{slice}

abbrev Fields : Type 0
Fields = String → String → String → ℕ → Json

-- One column of a record.
unfoldable pub fake_value : Fields → String → String → ℕ → SchemaField → Json
unfolding lower show
fake_value fake_field object_name org_id idx (name, type_name) =
    if str_eq name "id"
    then text (lower object_name <> "-" <> org_id <> "-" <> show idx)
    else if str_eq name "organisation_id"
    then text org_id
    else if str_eq name "company_id"
    then text ("companies-" <> org_id <> "-" <> show (idx % 20))
    else if str_eq object_name "Deals" && str_eq name "pipeline"
    then text ("pipelines-" <> org_id <> "-" <> show (idx % 3))
    else fake_field object_name name type_name idx

-- `generate_fake_page`
unfoldable pub generate_fake_page :
    Fields → String → List SchemaField → ℕ → ℕ → String → List JsonObject
unfolding fake_value
generate_fake_page fake_field object_name schema offset zero org_id = []
generate_fake_page fake_field object_name schema offset (suc count) org_id =
    map (λ (f : SchemaField). (f.0, fake_value fake_field object_name org_id offset f)) schema
    ∷ generate_fake_page fake_field object_name schema (offset + 1) count org_id

-- class _State
pub record State : Type 0 where
  pub total_records : ℕ
  pub fail_with_429 : ℕ
  pub fail_with_500 : ℕ
  pub corrupt_offsets : List ℕ
  pub overrides : List ((String × ℕ) × JsonObject)
  pub requests_seen : List String

-- An offset, its record, and whether the record has its id.
abbrev pub Stored : Type 0
Stored = ℕ × JsonObject × Bool

abbrev pub overridden : String → ℕ → List ((String × ℕ) × JsonObject) → JsonObject
overridden object_type offset [] = []
overridden object_type offset (((t, o), fields) ∷ rest) =
    if str_eq t object_type && o == offset then fields else overridden object_type offset rest

-- `{**rec, **fields}`
abbrev pub merged : JsonObject → JsonObject → JsonObject
merged rec [] = rec
merged rec ((k, v) ∷ fields) = merged (put k v rec) fields

-- The loop of `_materialise`.
unfoldable pub materialise_from : State → String → ℕ → List JsonObject → List Stored
materialise_from s object_type offset [] = []
materialise_from s object_type offset (rec ∷ recs) =
    (
      offset,
      merged rec (overridden object_type offset s.overrides),
      not (any (λ o. o == offset) s.corrupt_offsets),
    )
    ∷ materialise_from s object_type (offset + 1) recs

-- `_stringify`
abbrev pub stringify : Json → Json
stringify null = null
stringify (bool true) = text "true"
stringify (bool false) = text "false"
stringify v = text (str v)

abbrev is_wanted : List String → String → Bool
is_wanted [] prop = true
is_wanted (w ∷ ws) prop = any (str_eq prop) (w ∷ ws)

-- The properties of one record: all of them where none are named.
unfoldable pub properties_of : List String → JsonObject → JsonObject
properties_of wanted [] = []
properties_of wanted ((k, v) ∷ rec) =
    let rest = properties_of wanted rec in
    if str_eq k "id" || str_eq k "organisation_id" || not (is_wanted wanted (property_of k))
    then rest
    else (property_of k, stringify v) ∷ rest

abbrev pub render_item : List String → Stored → Item
render_item wanted (offset, rec, has_id) = record {
  id = if has_id then get "id" rec else null;
  updated_at = stringify (get "updated_at" rec);
  properties = properties_of wanted rec;
}

-- `_render`
unfoldable pub render : List String → List Stored → List Item
unfolding properties_of
render wanted items = map (render_item wanted) items

-- `_error`
abbrev pub error : ℕ → String → Option String → Response
error status message retry_after = record {
  status = status;
  retry_after = retry_after;
  body = message;
  results = [];
  next_after = none;
}

-- The name of an object type, if it is one.
unfoldable pub object_of : String → List (String × String) → Option String
object_of object_type [] = none
object_of object_type ((name, t) ∷ types) =
    let rest = object_of object_type types in if str_eq t object_type then some name else rest

-- `_SEARCHABLE`
unfoldable pub searchable : List String
searchable = "contacts" ∷ "companies" ∷ "deals" ∷ "tickets" ∷ "line_items" ∷ "engagements" ∷ []

abbrev pub offset_of : Option String → ℕ
offset_of none = 0
offset_of (some s) = if str_eq s "" then 0 else digits_value 0 (codes s)

-- A page of some records, of which there are `total`, and the cursor of the next one.
unfoldable pub page_of : List Stored → ℕ → ℕ → Option String → List String → Response
unfolding digits_value
page_of items total limit after wanted =
    let page = slice (offset_of after) limit items in
    record {
      status = 200;
      retry_after = none;
      body = "";
      results = render wanted page;
      next_after =
          if ltb (offset_of after + length page) total
          then some (show (offset_of after + length page))
          else none;
    }

-- The time of a record's last change, where it can be read.
abbrev pub changed_at : Stored → ℕ
changed_at (offset, rec, has_id) = elim (get "updated_at" rec) [
  | text s ↦ (elim (parse_ts s) [ ok t ↦ t | err e ↦ 0 ])
  | _ ↦ 0
]

unfoldable pub put_in_order : Stored → List Stored → List Stored
put_in_order x [] = x ∷ []
put_in_order x (y ∷ ys) =
    let rest = put_in_order x ys in
    if leb (changed_at x) (changed_at y) then x ∷ y ∷ ys else y ∷ rest

-- The oldest change first; records of the same time stay in their order.
unfoldable pub by_change : List Stored → List Stored
by_change [] = []
by_change (x ∷ xs) = put_in_order x (by_change xs)

-- `_gate`, for a request with the right token: an error that is injected goes first.
unfoldable pub gate : String → State → Option Response × State
gate log s =
    let t : State = record s { requests_seen = s.requests_seen ++ log ∷ [] } in
    if ltb 0 s.fail_with_429
    then (
      some (error 429 "You have reached your secondly limit." (some "1")),
      record t { fail_with_429 = s.fail_with_429 - 1 },
    )
    else if ltb 0 s.fail_with_500
    then (
      some (error 500 "Internal server error" none),
      record t { fail_with_500 = s.fail_with_500 - 1 },
    )
    else (none, t)

module _ (fake_field : Fields) where
  -- `_materialise`
  unfoldable pub materialise : State → String → String → List SchemaField → List Stored
  unfolding materialise_from generate_fake_page
  materialise s object_type object_name schema =
      materialise_from s object_type 0
        (generate_fake_page fake_field object_name schema 0 s.total_records "mock-org")

  -- The records of an object type, if there is such a type.
  unfoldable pub records_of : State → String → Option (List Stored)
  unfolding materialise
  records_of s object_type = elim (object_of object_type object_types) [
    | none ↦ none
    | some object_name ↦ elim (lookup object_name hubspot_schemas) [
      | none ↦ none
      | some schema ↦ some (materialise s object_type object_name schema)
    ]
  ]

  -- The rest of an endpoint, behind the gate.
  abbrev pub behind : Option Response × State → Response → Response × State
  behind (some bad, s) answer = (bad, s)
  behind (none, s) answer = (answer, s)

  -- `search_objects`, for a type that was found: the records changed at or after a moment.
  unfoldable pub search : String → List Stored → ℕ → Option String → ℕ → List String → Response
  search object_type items limit after since wanted =
      if any (str_eq object_type) searchable
      then (let found = by_change (filter (λ x. leb (since * 1000) (changed_at x)) items) in
          page_of found (length found) limit after wanted)
      else error 400 ("Search is not available for " <> object_type) none

  abbrev or_none : Option String → String
  or_none none = "None"
  or_none (some s) = s

  abbrev list_label : String → ℕ → Option String → String
  list_label object_type limit after =
      "GET " <> object_type <> " limit=" <> show limit <> " after=" <> or_none after

  abbrev search_label : String → ℕ → Option String → ℕ → String
  search_label object_type limit after since =
      "POST "
      <> object_type
      <> "/search limit="
      <> show limit
      <> " after="
      <> or_none after
      <> " since="
      <> iso (since * 1000)

  -- An object type that the server does not know.
  abbrev not_found : String → String → State → Response × State
  not_found log object_type s = (
    error 404 ("Unknown object type " <> object_type) none,
    record s { requests_seen = s.requests_seen ++ log ∷ [] },
  )

  -- The endpoints that the client calls.
  unfoldable pub serve : Query → State → Response × State
  serve account_details s =
      (error 200 "" none, record s { requests_seen = s.requests_seen ++ "GET account-info" ∷ [] })
  serve (list_objects object_type limit after wanted) s = elim (records_of s object_type) [
    | none ↦ not_found (list_label object_type limit after) object_type s
    | some items ↦
        behind (gate (list_label object_type limit after) s)
          (page_of items s.total_records limit after wanted)
  ]
  serve (search_objects object_type limit after since wanted) s = elim (records_of s object_type) [
    | none ↦ not_found (search_label object_type limit after since) object_type s
    | some items ↦
        behind (gate (search_label object_type limit after since) s)
          (search object_type items limit after since wanted)
  ]

-- `admin_modify`: the offsets take the new fields.
unfoldable pub admin_modify : String → List ℕ → String → JsonObject → State → State
admin_modify object_type [] stamp fields s = s
admin_modify object_type (o ∷ offsets) stamp fields s =
    admin_modify object_type offsets stamp fields (record s {
      overrides = ((object_type, o), merged (("updated_at", text stamp) ∷ []) fields) ∷ s.overrides;
    })
