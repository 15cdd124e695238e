-- ===== src/Hubspot.antt =====
-- app/hubspot/schemas.py and app/hubspot/client.py: the schemas of the objects, the check of the
-- required fields, and the objects that can be loaded incrementally.
pub mod Pipeline
pub mod Ingest
pub mod Paging
pub mod Client
use glynac_ingestion_platfor.Common.{
  String, Bool, true, false, ◌||◌, List, [], ◌∷◌, if◌then◌else◌, str_eq, any,
}
use glynac_ingestion_platfor.Json.{Json, JsonObject, get, is_falsy, bool, num}
use glynac_ingestion_platfor.World.{SchemaField}

-- HUBSPOT_SCHEMAS
unfoldable pub hubspot_schemas : List (String × List SchemaField)
hubspot_schemas =
    (
      "Contacts",
      ("id", "string")
          ∷ ("organisation_id", "string")
          ∷ ("email", "string")
          ∷ ("first_name", "string")
          ∷ ("last_name", "string")
          ∷ ("lifecycle_stage", "string")
          ∷ ("updated_at", "datetime")
          ∷ [],
    )
    ∷ (
      "Deals",
      ("id", "string")
          ∷ ("organisation_id", "string")
          ∷ ("deal_name", "string")
          ∷ ("stage", "string")
          ∷ ("amount", "float")
          ∷ ("pipeline", "string")
          ∷ ("company_id", "string")
          ∷ ("updated_at", "datetime")
          ∷ [],
    )
    ∷ (
      "Companies",
      ("id", "string")
          ∷ ("organisation_id", "string")
          ∷ ("name", "string")
          ∷ ("domain", "string")
          ∷ ("industry", "string")
          ∷ ("employee_count", "int")
          ∷ ("updated_at", "datetime")
          ∷ [],
    )
    ∷ (
      "Tickets",
      ("id", "string")
          ∷ ("organisation_id", "string")
          ∷ ("subject", "string")
          ∷ ("status", "string")
          ∷ ("priority", "string")
          ∷ ("pipeline", "string")
          ∷ ("updated_at", "datetime")
          ∷ [],
    )
    ∷ (
      "LineItems",
      ("id", "string")
          ∷ ("organisation_id", "string")
          ∷ ("deal_id", "string")
          ∷ ("product_id", "string")
          ∷ ("name", "string")
          ∷ ("quantity", "int")
          ∷ ("unit_price", "float")
          ∷ ("amount", "float")
          ∷ ("updated_at", "datetime")
          ∷ [],
    )
    ∷ (
      "Engagements",
      ("id", "string")
          ∷ ("organisation_id", "string")
          ∷ ("type", "string")
          ∷ ("contact_id", "string")
          ∷ ("deal_id", "string")
          ∷ ("body", "string")
          ∷ ("updated_at", "datetime")
          ∷ [],
    )
    ∷ (
      "Pipelines",
      ("id", "string")
          ∷ ("organisation_id", "string")
          ∷ ("label", "string")
          ∷ ("display_order", "int")
          ∷ ("active", "bool")
          ∷ ("updated_at", "datetime")
          ∷ [],
    )
    ∷ (
      "Owners",
      ("id", "string")
          ∷ ("organisation_id", "string")
          ∷ ("email", "string")
          ∷ ("first_name", "string")
          ∷ ("last_name", "string")
          ∷ ("team_id", "string")
          ∷ ("updated_at", "datetime")
          ∷ [],
    )
    ∷ []

-- INCREMENTAL_OBJECTS
unfoldable pub incremental_objects : List String
incremental_objects =
    "Contacts" ∷ "Companies" ∷ "Deals" ∷ "Tickets" ∷ "LineItems" ∷ "Engagements" ∷ []

-- `HubSpotClient.supports_incremental`
unfoldable pub supports_incremental : String → Bool
supports_incremental object_name = any (str_eq object_name) incremental_objects

-- `not record.get("id") or not record.get("organisation_id")`
abbrev pub is_invalid : JsonObject → Bool
is_invalid r = is_falsy (get "id" r) || is_falsy (get "organisation_id" r)

-- `validate_records`: the valid records, and the others with the reason.
unfoldable pub validate_records : List JsonObject → List JsonObject × List (JsonObject × String)
validate_records [] = ([], [])
validate_records (r ∷ records) =
    let (valid, invalid) = validate_records records in
    if is_invalid r
    then (valid, (r, "missing required field: id or organisation_id") ∷ invalid)
    else (r ∷ valid, invalid)

-- `int(v) if isinstance(v, bool) else v`
abbrev pub int_of_bool : Json → Json
int_of_bool (bool true) = num 1
int_of_bool (bool false) = num 0
int_of_bool v = v

-- `_normalise`
unfoldable pub normalise : JsonObject → JsonObject
normalise [] = []
normalise ((k, v) ∷ r) = (k, int_of_bool v) ∷ normalise r
