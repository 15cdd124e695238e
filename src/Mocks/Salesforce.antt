-- ===== src/Mocks/Salesforce.antt =====
-- mock_services/salesforce.py: the mock Salesforce server, one function for each endpoint. Random ids
-- (Python's uuid) are a parameter, `fresh n` being the n-th; `csv_line` is what Python's csv.writer
-- writes for a row.
pub mod Document
pub mod Expiry
use glynac_ingestion_platfor.Common.{
  ℕ, ◌+◌, String, ◌<>◌, Bool, true, false, ◌||◌, not, Option, none, some, List, [], ◌∷◌, ◌++◌,
  if◌then◌else◌, leb, ltb, str_eq, map, any, length, ◌-◌,
}
use glynac_ingestion_platfor.Common.Maps.{lookup, insert}
use glynac_ingestion_platfor.Common.Text.{show, codes, join}
use glynac_ingestion_platfor.Json.{Json, JsonObject, null, num, text, get}
use glynac_ingestion_platfor.Time.{isdigit, digits_value}
use glynac_ingestion_platfor.Salesforce.Client.{
  Response, Call, create_query, query_status, query_results,
}
use glynac_ingestion_platfor.Salesforce.Mapper.{to_snake}
use glynac_ingestion_platfor.Mocks.Slices.{slice}

-- An entry of `state.jobs`.
pub record QueryJob : Type 0 where
  pub object_name : String
  pub columns : List String
  pub records : List JsonObject
  pub polls : ℕ

-- class _State
pub record State : Type 0 where
  pub tokens : List String
  pub jobs : List (String × QueryJob)
  pub polls_to_complete : ℕ
  pub record_count : ℕ
  pub fail_status_with_429 : ℕ
  pub fail_status_with_500 : ℕ
  pub expire_tokens_once : Bool
  pub requests_seen : List String
  pub drawn : ℕ

abbrev pub success : JsonObject → Response
success json = record {
  status = 200;
  retry_after = none;
  at_token_url = false;
  body = "";
  json = json;
  locator = none;
}

-- `_error`
abbrev pub error : ℕ → String → Option String → Response
error status message retry_after = record {
  status = status;
  retry_after = retry_after;
  at_token_url = false;
  body = message;
  json = [];
  locator = none;
}

abbrev seen : String → State → State
seen what s = record s { requests_seen = s.requests_seen ++ what ∷ [] }

-- `_auth_failure`, of a request with an Authorization header: the state, and whether it is refused.
unfoldable pub auth_failure : String → State → Bool × State
auth_failure token s =
    if s.expire_tokens_once
    then (true, record s { expire_tokens_once = false; tokens = [] })
    else (not (any (str_eq token) s.tokens), s)

abbrev pub expired : Response
expired = error 401 "Session expired or invalid" none

-- `token`, of a form with the right credentials or not
unfoldable pub token : (ℕ → String) → Bool → State → Response × State
token fresh good s =
    if good
    then (
      success
          (("access_token", text ("mock-" <> fresh s.drawn)) ∷ ("token_type", text "Bearer") ∷ []),
      record (seen "POST token" s) {
        tokens = ("mock-" <> fresh s.drawn) ∷ s.tokens;
        drawn = s.drawn + 1;
      },
    )
    else (
      record (error 400 "invalid client credentials" none) { at_token_url = true },
      seen "POST token" s,
    )

-- `job_status`, of a request that is not refused
unfoldable pub job_status : String → State → Response × State
job_status job_id s =
    let t : State = seen "GET status" s in
    if ltb 0 s.fail_status_with_429
    then (
      error 429 "Too many requests" (some "1"),
      record t { fail_status_with_429 = s.fail_status_with_429 - 1 },
    )
    else if ltb 0 s.fail_status_with_500
    then (
      error 500 "An unexpected error occurred" none,
      record t { fail_status_with_500 = s.fail_status_with_500 - 1 },
    )
    else elim (lookup job_id s.jobs) [
      | none ↦ (error 404 ("The requested resource does not exist: " <> job_id) none, t)
      | some job ↦ (
        success (
            ("id", text job_id)
            ∷ (
              "state",
              text
                  (if leb s.polls_to_complete (job.polls + 1) then "JobComplete" else "InProgress"),
            )
            ∷ (
              "numberRecordsProcessed",
              num (if leb s.polls_to_complete (job.polls + 1) then length job.records else 0),
            )
            ∷ []),
        record t { jobs = insert job_id (record job { polls = job.polls + 1 }) s.jobs },
      )
    ]

abbrev or_blank : Json → Json
or_blank null = text ""
or_blank v = v

module _ (csv_line : List Json → String) where
  -- A row of the CSV, of the columns that the query asked for.
  unfoldable pub csv_row : List String → JsonObject → String
  csv_row columns rec = csv_line (map (λ c. or_blank (get (to_snake c) rec)) columns)

  unfoldable pub header_row : List String → String
  header_row columns = csv_line (map text columns)

  -- A page of the results.
  unfoldable pub results_page : QueryJob → ℕ → ℕ → Response
  results_page job offset max_records =
      let page = slice offset max_records job.records in
      record (success []) {
        body = header_row job.columns <> join "" (map (csv_row job.columns) page);
        locator = some (
            if ltb (offset + length page) (length job.records)
            then show (offset + length page)
            else "null");
      }

  -- `int(locator) if locator else 0`, where it is a number
  abbrev pub offset_of : Option String → ℕ
  offset_of none = 0
  offset_of (some l) = digits_value 0 (codes l)

  abbrev pub is_number : Option String → Bool
  is_number none = true
  is_number (some l) = str_eq l "" || isdigit (codes l)

  -- The answer, for the entry that was found. (A locator that is no number is an error of the server.)
  unfoldable pub results_of :
      String → ℕ → Option String → State → Option QueryJob → Response × State
  results_of job_id max_records locator s none =
      (error 404 ("The requested resource does not exist: " <> job_id) none, s)
  results_of job_id max_records locator s (some job) =
      if is_number locator
      then (
        results_page job (offset_of locator) max_records,
        seen ("GET results offset=" <> show (offset_of locator)) s,
      )
      else (error 500 "Internal Server Error" none, s)

  -- `job_results`, of a request that is not refused
  unfoldable pub job_results : String → ℕ → Option String → State → Response × State
  job_results job_id max_records locator s =
      results_of job_id max_records locator s (lookup job_id s.jobs)

  module _ (fresh : ℕ → String) (parse_soql : String → Option (String × List String))
      (generate : String → ℕ → List JsonObject) where
    -- `create_job`, of a request that is not refused. What it reads of a query, and the records that it makes
    -- up, are parameters.
    unfoldable pub create_job : String → State → Response × State
    create_job soql s = elim (parse_soql soql) [
      | none ↦ (error 400 ("cannot read SOQL: " <> soql) none, s)
      | some (object_name, columns) ↦ (
        success (
            ("id", text ("750" <> fresh s.drawn))
            ∷ ("operation", text "query")
            ∷ ("object", text object_name)
            ∷ ("state", text "UploadComplete")
            ∷ []),
        record (seen "POST jobs/query" s) {
          jobs =
              insert ("750" <> fresh s.drawn)
                (record {
                  object_name = object_name;
                  columns = columns;
                  records = generate object_name s.record_count;
                  polls = 0;
                })
                s.jobs;
          drawn = s.drawn + 1;
        },
      )
    ]

    -- The endpoint that a call goes to.
    unfoldable pub route : Call → State → Response × State
    route (create_query soql) s = create_job soql s
    route (query_status job_id) s = job_status job_id s
    route (query_results job_id max_records locator) s = job_results job_id max_records locator s

    -- A request with a token.
    unfoldable pub serve : Call → String → State → Response × State
    serve call token s =
        (let (refused, s') = auth_failure token s in
          if refused then (expired, s') else route call s')
