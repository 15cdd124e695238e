-- ===== src/Hubspot/Client.antt =====
-- app/hubspot/client.py: the CRM client. The HTTP library and the server are a parameter, `http`; so is
-- Python's reading of numbers, `read_float value` and `read_int value` being `float(value)` and
-- `int(float(value))`, or none where they raise ValueError. (That `int` raises OverflowError on an infinite
-- number, which nothing catches, is left out.)
pub mod Columns
use glynac_ingestion_platfor.Common.{
  ℕ, ◌/◌, String, ◌<>◌, Bool, true, false, ◌&&◌, ◌||◌, not, Option, none, some, List, [], ◌∷◌,
  if◌then◌else◌, ◌==◌, leb, ltb, str_eq, map, any, filter,
}
use glynac_ingestion_platfor.Common.Maps.{lookup}
use glynac_ingestion_platfor.Common.Text.{show, lower, strip, first_chars}
use glynac_ingestion_platfor.Errors.{
  Exception, transient_error, rate_limit_error, api_error, key_error, Result, ok, err,
}
use glynac_ingestion_platfor.Errors.RetryAfter.{parse_retry_after, retry_hint}
use glynac_ingestion_platfor.Json.{Json, JsonObject, null, bool, text, get, put, str}
use glynac_ingestion_platfor.World.{SchemaField}
use glynac_ingestion_platfor.SyncState.{parse_ts}
use glynac_ingestion_platfor.Hubspot.{hubspot_schemas, supports_incremental}
use glynac_ingestion_platfor.Hubspot.Pipeline.{Page}

-- OBJECT_TYPES
unfoldable pub object_types : List (String × String)
object_types =
    ("Contacts", "contacts")
    ∷ ("Companies", "companies")
    ∷ ("Deals", "deals")
    ∷ ("Tickets", "tickets")
    ∷ ("LineItems", "line_items")
    ∷ ("Engagements", "engagements")
    ∷ ("Pipelines", "pipelines")
    ∷ ("Owners", "owners")
    ∷ []

-- `PROPERTY_ALIASES.get(name, name)`
abbrev pub property_of : String → String
property_of name = if str_eq name "updated_at" then "hs_lastmodifieddate" else name

-- A record as HubSpot sends it.
pub record Item : Type 0 where
  pub id : Json
  pub updated_at : Json
  pub properties : JsonObject

-- What the client reads of a response.
pub record Response : Type 0 where
  pub status : ℕ
  pub retry_after : Option String
  pub body : String
  pub results : List Item
  pub next_after : Option String

-- The requests that the client makes. The number of `search_objects` is in milliseconds.
pub data Query : Type 0 where
  account_details : Query
  list_objects : String → ℕ → Option String → List String → Query
  search_objects : String → ℕ → Option String → ℕ → List String → Query

-- What an error status means.
unfoldable pub status_error : (String → Option ℕ) → String → Response → Exception
unfolding first_chars
status_error parse_date what resp =
    let detail = first_chars 300 resp.body in
    let retry_after = parse_retry_after parse_date resp.retry_after in
    if resp.status == 429
    then rate_limit_error (what <> ": rate limited (429" <> retry_hint retry_after <> ")")
        retry_after
    else if leb 500 resp.status
    then transient_error (what <> ": server error " <> show resp.status <> " " <> detail)
    else if resp.status == 401 || resp.status == 403
    then api_error (what <> ": authentication failed (" <> show resp.status <> ") " <> detail)
    else api_error (what <> ": " <> show resp.status <> " " <> detail)

-- `_raise_for_status`
unfoldable pub raise_for_status : (String → Option ℕ) → String → Response → Result (Unit {0})
raise_for_status parse_date what resp =
    if ltb resp.status 400 then ok tt else err (status_error parse_date what resp)

abbrev pub or_null : Option Json → Json
or_null none = null
or_null (some v) = v

abbrev is_empty : Json → Bool
is_empty null = true
is_empty (text s) = str_eq s ""
is_empty _ = false

abbrev is_true : String → Bool
is_true s = str_eq s "true" || str_eq s "1" || str_eq s "yes"

abbrev pub is_null : Json → Bool
is_null null = true
is_null _ = false

abbrev pub in_types : String → List SchemaField → Bool
in_types name types = any (λ (t : SchemaField). str_eq t.0 name) types

-- `record["updated_at"]`, where it is missing
abbrev pub with_updated_at : Item → List SchemaField → JsonObject → JsonObject
with_updated_at item types rec =
    if is_null (get "updated_at" rec) && in_types "updated_at" types
    then put "updated_at" item.updated_at rec
    else rec

-- The properties that the client asks for.
abbrev pub wanted : List SchemaField → List String
wanted types =
    map (λ (t : SchemaField). property_of t.0)
      (filter (λ (t : SchemaField). not (str_eq t.0 "id" || str_eq t.0 "organisation_id")) types)

-- `if text:`
abbrev pub some_text : Option String → Option String
some_text none = none
some_text (some s) = if str_eq s "" then none else some s

module _ (read_float read_int : Json → Option Json) where
  -- `_coerce`: a malformed number is NULL.
  unfoldable pub coerce : Json → String → Json
  unfolding lower strip str
  coerce value type_name =
      if is_empty value
      then null
      else if str_eq type_name "float"
      then or_null (read_float value)
      else if str_eq type_name "int"
      then or_null (read_int value)
      else if str_eq type_name "bool"
      then bool (is_true (lower (strip (str value))))
      else value

  -- The dict comprehension of `normalise_results`.
  unfoldable pub typed_fields : JsonObject → List SchemaField → JsonObject
  typed_fields props [] = []
  typed_fields props ((name, type_name) ∷ types) =
      (name, coerce (get (property_of name) props) type_name) ∷ typed_fields props types

  -- One turn of the loop of `normalise_results`.
  unfoldable pub normalise_item : List SchemaField → String → Item → JsonObject
  unfolding typed_fields
  normalise_item types org_id item =
      put "organisation_id" (text org_id)
        (with_updated_at item types (put "id" item.id (typed_fields item.properties types)))

  -- `normalise_results`, for a schema that was found
  unfoldable pub normalise_results : List SchemaField → String → List Item → List JsonObject
  normalise_results types org_id raw_results = map (normalise_item types org_id) raw_results

  module _ (parse_date : String → Option ℕ) (http : Query → Response) (page_size : ℕ) where
    -- `_get` and `_post`
    unfoldable pub fetch : String → Query → Result Response
    fetch what query = elim (raise_for_status parse_date what (http query)) [
      | err e ↦ err e
      | ok _ ↦ ok (http query)
    ]

    -- `authenticate`
    unfoldable pub authenticate : Result (Unit {0})
    authenticate = elim (fetch "token check" account_details) [ err e ↦ err e | ok _ ↦ ok tt ]

    abbrev pub page_of : List SchemaField → String → Result Response → Result Page
    page_of types org_id (err e) = err e
    page_of types org_id (ok resp) = ok (record {
      results = normalise_results types org_id resp.results;
      next_after = resp.next_after;
    })

    -- A page of the records that changed since a moment.
    unfoldable pub search_page :
        String → String → List SchemaField → Option String → String → String → Result Page
    unfolding parse_ts
    search_page object_name object_type types after org_id since =
        if supports_incremental object_name
        then (elim (parse_ts since) [
          | err e ↦ err e
          | ok t ↦ page_of types org_id (
              fetch ("search " <> object_name)
                (search_objects object_type page_size after (t / 1000) (wanted types)))
        ])
        else err
            (api_error (object_name <> " does not support incremental sync; use a full refresh"))

    -- `fetch_page`
    unfoldable pub fetch_page : String → Option String → String → Option String → Result Page
    fetch_page object_name after org_id since = elim (lookup object_name hubspot_schemas) [
      | none ↦ err (key_error object_name)
      | some types ↦ elim (lookup object_name object_types) [
        | none ↦ err (key_error object_name)
        | some object_type ↦ elim (some_text since) [
          | some since ↦ search_page object_name object_type types (some_text after) org_id since
          | none ↦ page_of types org_id (
              fetch ("list " <> object_name)
                (list_objects object_type page_size after (wanted types)))
        ]
      ]
    ]
