-- ===== src/Tests/Clients.antt =====
-- The clients of Salesforce and HubSpot, and the mock servers behind them.
use Prim.Native.String.append.{nil, cons as append_cons}
use glynac_ingestion_platfor.Common.{
  ℕ, String, ◌<>◌, ◌≡◌, refl, ap, ◌∙◌, true, false, Option, none, some, List, [], ◌∷◌, arith, map,
}
use glynac_ingestion_platfor.Common.Text.{show, join}
use glynac_ingestion_platfor.Errors.{ok}
use glynac_ingestion_platfor.Json.{Json, JsonObject, text, num, get}
use glynac_ingestion_platfor.World.{SchemaField}
use glynac_ingestion_platfor.Hubspot.Client.{Item, normalise_results}
use glynac_ingestion_platfor.Hubspot.Client.Columns.{columns_of, names_of, normalise_results_shaped}
use glynac_ingestion_platfor.Salesforce.Client.{
  Session, query_results, after_newline, get_job_results, checked, raise_for_status,
}
use glynac_ingestion_platfor.Salesforce.Client.Failures.{Sorted, raise_for_status-Sorted}
use glynac_ingestion_platfor.Mocks.Salesforce.{
  State, QueryJob, error, csv_row, header_row, results_page, serve, token,
}
use glynac_ingestion_platfor.Mocks.Salesforce.Document.{
  OneLine, Ready, next, get_job_results_reads_all,
}
use glynac_ingestion_platfor.Mocks.Salesforce.Expiry.{expired_session_recovers}
use glynac_ingestion_platfor.Mocks.Hubspot as MockHubspot

abbrev no_date : String → Option ℕ
no_date s = none

raise_for_status-Sorted_example :
    Sorted
      (error 503 "down" none)
      (raise_for_status no_date "get job status" (error 503 "down" none))
raise_for_status-Sorted_example =
    raise_for_status-Sorted no_date "get job status" (error 503 "down" none)

-- A writer of rows with one column.
abbrev line : List Json → String
line vs = "\n"

newline_first : (rest : String) → "\n" <> rest ≡ String.◌∷◌ "\n" rest
newline_first rest = append_cons "\n" "" rest ∙ ap (λ t. String.◌∷◌ "\n" t) (nil rest)

abbrev fresh : ℕ → String
fresh n = "abc"

abbrev parse_soql : String → Option (String × List String)
parse_soql soql = none

abbrev generate : String → ℕ → List JsonObject
generate object_name count = []

abbrev job : QueryJob
job = record {
  object_name = "Accounts";
  columns = "Name" ∷ [];
  records =
      (("name", text "Apex") ∷ [])
      ∷ (("name", text "Summit") ∷ [])
      ∷ (("name", text "Cedar") ∷ [])
      ∷ [];
  polls = 2;
}

abbrev state : State
state = record {
  tokens = "mock-abc" ∷ [];
  jobs = ("7501", job) ∷ [];
  polls_to_complete = 2;
  record_count = 3;
  fail_status_with_429 = 0;
  fail_status_with_500 = 0;
  expire_tokens_once = false;
  requests_seen = [];
  drawn = 1;
}

abbrev session : Session State
session = record { access_token = "mock-abc"; server = state }

ready : Ready line fresh parse_soql generate no_date true "7501" job session
ready = record { named = refl; admitted = refl; steady = refl; there = refl }

one_line : OneLine (header_row line job.columns)
unfolding header_row after_newline
one_line rest = ap after_newline (newline_first rest)

get_job_results_reads_all_example :
    (get_job_results no_date
      (serve line fresh parse_soql generate)
      (token fresh true)
      5
      2
      "7501"
      []
      none
      session).0
    ≡ ok
        (some (header_row line job.columns <> join "" (map (csv_row line job.columns) job.records)))
get_job_results_reads_all_example =
    get_job_results_reads_all line fresh parse_soql generate no_date true "7501" job 2 5 session
      one_line (omega arith) (omega arith) ready

abbrev expiring : Session State
expiring = record session { server = record state { expire_tokens_once = true } }

expired_session_recovers_example :
    let (r, s') =
      checked no_date
        (serve line fresh parse_soql generate)
        (token fresh true)
        "get job results"
        (query_results "7501" 2 (some (show 1)))
        expiring in
    (r ≡ ok (results_page line job 1 2))
    × (s'.access_token ≡ "mock-" <> fresh expiring.server.drawn)
    × (s'.server.expire_tokens_once ≡ false)
expired_session_recovers_example =
    expired_session_recovers line fresh parse_soql generate no_date "7501" job 2 1 (some (show 1))
      expiring (next 1) refl refl refl

abbrev number : Json → Option Json
number (num n) = some (num n)
number _ = none

abbrev company_columns : List SchemaField
company_columns =
    ("id", "string")
    ∷ ("organisation_id", "string")
    ∷ ("name", "string")
    ∷ ("updated_at", "datetime")
    ∷ []

abbrev companies : List Item
companies =
    record {
      id = text "1";
      updated_at = text "2026-01-01T00:00:00Z";
      properties = ("name", text "Apex") ∷ [];
    }
    ∷ []

normalise_results_shaped_example :
    let records = normalise_results number number company_columns "org1" companies in
    (map columns_of records ≡ map (λ (i : Item). names_of company_columns) companies)
    × (map (get "id") records ≡ map (λ (i : Item). i.id) companies)
    × (map (get "organisation_id") records ≡ map (λ (i : Item). text "org1") companies)
normalise_results_shaped_example =
    normalise_results_shaped number number company_columns "org1" companies refl refl

abbrev fake_field : String → String → String → ℕ → Json
fake_field object_name name type_name idx = text "fake"

abbrev hubspot : MockHubspot.State
hubspot = record {
  total_records = 5;
  fail_with_429 = 0;
  fail_with_500 = 0;
  corrupt_offsets = [];
  overrides = [];
  requests_seen = [];
}

abbrev contact_columns : List SchemaField
contact_columns =
    ("id", "string")
    ∷ ("organisation_id", "string")
    ∷ ("email", "string")
    ∷ ("first_name", "string")
    ∷ ("last_name", "string")
    ∷ ("lifecycle_stage", "string")
    ∷ ("updated_at", "datetime")
    ∷ []

abbrev contacts : List MockHubspot.Stored
contacts = MockHubspot.materialise fake_field hubspot "contacts" "Contacts" contact_columns
