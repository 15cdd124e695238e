-- ===== src/Sink/Views.antt =====
-- NullClickHouseSink._view_rows in app/clickhouse_sink.py: the two views that join the tables of a
-- Salesforce and a HubSpot organisation. A view is none where a name is not a text and Python raises.
use glynac_ingestion_platfor.Common.{
  String, Bool, ◌&&◌, Option, none, some, List, [], ◌∷◌, ◌++◌, if◌then◌else◌, map, filter, str_eq,
}
use glynac_ingestion_platfor.Common.Text.{lower}
use glynac_ingestion_platfor.Json.{Json, JsonObject, text, get, is_falsy}
use glynac_ingestion_platfor.Sink.{canon, json_eq, key_eq, rows_of}

abbrev pub Tables : Type 0
Tables = List (String × List JsonObject)

-- The last row that has a key.
unfoldable pub last_at : (JsonObject → List Json) → List Json → List JsonObject → Option JsonObject
last_at key k [] = none
last_at key k (r ∷ rows) = elim (last_at key k rows) [
  | some f ↦ some f
  | none ↦ if key_eq (key r) k then some r else none
]

-- `{key(r): r for r in rows}.get(k, {})`
unfoldable pub row_at : (JsonObject → List Json) → List Json → List JsonObject → JsonObject
unfolding last_at
row_at key k rows = elim (last_at key k rows) [ none ↦ [] | some r ↦ r ]

-- (`row.get("organisation_id")`, `row.get(column)`)
abbrev pub org_and : String → JsonObject → List Json
org_and column row = canon (get "organisation_id" row) ∷ canon (get column row) ∷ []

-- A row of v_hubspot_deal_pipeline.
abbrev pipeline_row : JsonObject → JsonObject → JsonObject → JsonObject
pipeline_row d c p =
    ("deal_id", get "id" d)
    ∷ ("organisation_id", get "organisation_id" d)
    ∷ ("deal_name", get "deal_name" d)
    ∷ ("deal_stage", get "stage" d)
    ∷ ("deal_amount", get "amount" d)
    ∷ ("pipeline_id", get "pipeline" d)
    ∷ ("pipeline_label", get "label" p)
    ∷ ("pipeline_active", get "active" p)
    ∷ ("company_id", get "company_id" d)
    ∷ ("company_name", get "name" c)
    ∷ ("company_industry", get "industry" c)
    ∷ ("company_domain", get "domain" c)
    ∷ ("deal_updated_at", get "updated_at" d)
    ∷ []

-- `_view_rows("v_hubspot_deal_pipeline")`
unfoldable pub deal_pipeline : Tables → List JsonObject
unfolding row_at
deal_pipeline tables =
    map
      (λ d.
        pipeline_row d
          (row_at (org_and "id") (org_and "company_id" d)
            (rows_of "bronze_hubspot_companies" tables))
          (row_at (org_and "id") (org_and "pipeline" d)
            (rows_of "bronze_hubspot_pipelines" tables)))
      (rows_of "bronze_hubspot_deals" tables)

-- `(name or "").lower()`
unfoldable pub lower_name : Json → Option String
unfolding lower
lower_name (text s) = some (lower s)
lower_name v = if is_falsy v then some "" else none

-- The companies with their names in small letters.
unfoldable pub named : List JsonObject → Option (List (String × JsonObject))
named [] = some []
named (c ∷ companies) = elim (lower_name (get "name" c)) [
  | none ↦ none
  | some name ↦ elim (named companies) [ none ↦ none | some rest ↦ some ((name, c) ∷ rest) ]
]

-- Two rows are of one organisation.
abbrev pub same_org : JsonObject → JsonObject → Bool
same_org a b = json_eq (canon (get "organisation_id" a)) (canon (get "organisation_id" b))

-- A deal is of this company, for an opportunity's organisation.
abbrev pub deal_of : JsonObject → JsonObject → JsonObject → Bool
deal_of o c d = same_org d o && json_eq (canon (get "company_id" d)) (canon (get "id" c))

-- The deals of the companies that have the account's name, in the opportunity's organisation.
unfoldable pub matching_deals :
    JsonObject → String → List JsonObject → List (String × JsonObject) → List JsonObject
matching_deals o name deals [] = []
matching_deals o name deals ((n, c) ∷ companies) =
    let rest = matching_deals o name deals companies in
    if same_org c o && str_eq n name then filter (deal_of o c) deals ++ rest else rest

-- `or [{}]`
abbrev pub or_one_empty : List JsonObject → List JsonObject
or_one_empty [] = [] ∷ []
or_one_empty (h ∷ hs) = h ∷ hs

-- A row of v_client_360_deals.
abbrev pub client_row : JsonObject → JsonObject → JsonObject → JsonObject
client_row o a h =
    ("salesforce_opportunity_id", get "id" o)
    ∷ ("opportunity_name", get "name" o)
    ∷ ("salesforce_stage", get "stage_name" o)
    ∷ ("salesforce_amount", get "amount" o)
    ∷ ("salesforce_probability", get "probability" o)
    ∷ ("salesforce_account_id", get "account_id" o)
    ∷ ("account_name", get "name" a)
    ∷ ("account_industry", get "industry" a)
    ∷ ("hubspot_deal_id", get "id" h)
    ∷ ("hubspot_deal_name", get "deal_name" h)
    ∷ ("hubspot_amount", get "amount" h)
    ∷ ("hubspot_stage", get "stage" h)
    ∷ ("organisation_id", get "organisation_id" o)
    ∷ []

-- `accounts.get((org, o.get("account_id")), {})`
abbrev pub account_of : List JsonObject → JsonObject → JsonObject
account_of accounts o = row_at (org_and "id") (org_and "account_id" o) accounts

-- The loop over the opportunities.
unfoldable pub client_rows :
    List JsonObject
    → List JsonObject
    → List (String × JsonObject)
    → List JsonObject
    → Option (List JsonObject)
client_rows accounts deals companies [] = some []
client_rows accounts deals companies (o ∷ opportunities) =
    elim (lower_name (get "name" (account_of accounts o))) [
      | none ↦ none
      | some name ↦ elim (client_rows accounts deals companies opportunities) [
        | none ↦ none
        | some rest ↦ some (
            map (client_row o (account_of accounts o))
              (or_one_empty (matching_deals o name deals companies))
            ++ rest)
      ]
    ]

-- `_view_rows("v_client_360_deals")`
unfoldable pub client_360_deals : Tables → Option (List JsonObject)
unfolding named client_rows
client_360_deals tables = elim (named (rows_of "bronze_hubspot_companies" tables)) [
  | none ↦ none
  | some companies ↦
      client_rows (rows_of "bronze_salesforce_accounts" tables)
        (rows_of "bronze_hubspot_deals" tables) companies
        (rows_of "bronze_salesforce_opportunities" tables)
]
