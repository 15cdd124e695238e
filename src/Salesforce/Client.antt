-- ===== src/Salesforce/Client.antt =====
-- app/salesforce/real_client.py: the OAuth2 and Bulk API clients. The HTTP library and the server behind
-- it are parameters: `send call token s` and `login s` are what the server answers in the state `s`, and
-- the state that it is in afterwards.
pub mod Failures
use Prim.Native.Char.{code}
use glynac_ingestion_platfor.Common.{
  ℕ, zero, suc, String, ◌<>◌, Bool, ◌&&◌, ◌||◌, Option, none, some, List, [], ◌∷◌, ◌++◌,
  if◌then◌else◌, ◌==◌, leb, ltb, str_eq,
}
use glynac_ingestion_platfor.Common.Text.{show, join, first_chars}
use glynac_ingestion_platfor.Errors.{
  Exception, transient_error, rate_limit_error, api_error, Result, ok, err,
}
use glynac_ingestion_platfor.Errors.RetryAfter.{parse_retry_after, retry_hint}
use glynac_ingestion_platfor.Json.{JsonObject, item, str}

-- What the client reads of a response. `at_token_url` is `"oauth2/token" in resp.url`.
pub record Response : Type 0 where
  pub status : ℕ
  pub retry_after : Option String
  pub at_token_url : Bool
  pub body : String
  pub json : JsonObject
  pub locator : Option String

-- The requests that the Bulk API client makes.
pub data Call : Type 0 where
  create_query : String → Call
  query_status : String → Call
  query_results : String → ℕ → Option String → Call

-- `text.split("\n", 1)[1] if "\n" in text else ""`
unfoldable pub after_newline : String → String
after_newline String.[] = ""
after_newline (String.◌∷◌ c s) = let rest = after_newline s in if code c == 10 then s else rest

-- What an error status means.
unfoldable pub status_error : (String → Option ℕ) → String → Response → Exception
unfolding first_chars
status_error parse_date what resp =
    let detail = first_chars 300 resp.body in
    let retry_after = parse_retry_after parse_date resp.retry_after in
    if resp.status == 429
    then rate_limit_error
        (what <> ": rate limited (429" <> retry_hint retry_after <> ") " <> detail) retry_after
    else if leb 500 resp.status
    then transient_error (what <> ": server error " <> show resp.status <> " " <> detail)
    else if (resp.status == 400 || resp.status == 401 || resp.status == 403) && resp.at_token_url
    then api_error (what <> ": authentication failed (" <> show resp.status <> ") " <> detail)
    else api_error (what <> ": " <> show resp.status <> " " <> detail)

-- `_raise_for_status`
unfoldable pub raise_for_status : (String → Option ℕ) → String → Response → Result (Unit {0})
raise_for_status parse_date what resp =
    if ltb resp.status 400 then ok tt else err (status_error parse_date what resp)

-- The part of a page that is kept: every page repeats the header row.
abbrev pub page_text : List String → String → String
page_text [] body = body
page_text (p ∷ ps) body = after_newline body

-- `if not locator or locator == "null"`
abbrev pub next_locator : Option String → Option String
next_locator none = none
next_locator (some l) = if str_eq l "" || str_eq l "null" then none else some l

-- The client's token, and the server.
pub record Session (S : Type 0) : Type 0 where
  pub access_token : String
  pub server : S

module _ {S : Type 0} (parse_date : String → Option ℕ) (send : Call → String → S → Response × S)
    (login : S → Response × S) where
  abbrev pub Step : Type 0 → Type 0
  Step A = Session S → Result A × Session S

  abbrev pub and_then : {A B : Type 0} → Result A × Session S → (A → Step B) → Result B × Session S
  and_then (ok a, s) f = f a s
  and_then (err e, s) f = (err e, s)

  -- What `authenticate` makes of the answer.
  abbrev pub read_token : Response → Result String
  read_token resp = elim (raise_for_status parse_date "OAuth2 token request" resp) [
    | err e ↦ err e
    | ok _ ↦ elim (item "access_token" resp.json) [ err e ↦ err e | ok token ↦ ok (str token) ]
  ]

  -- `authenticate`. The token is an empty text before the first login.
  unfoldable pub authenticate : Step (Unit {0})
  authenticate s =
      (let (resp, server) = login s.server in
        elim (read_token resp) [
          | err e ↦ (err e, record s { server = server })
          | ok token ↦ (ok tt, record { access_token = token; server = server })
        ])

  -- `if not self.oauth.access_token: self.oauth.authenticate()`
  unfoldable pub ensure_token : Step (Unit {0})
  ensure_token s = if str_eq s.access_token "" then authenticate s else (ok tt, s)

  unfoldable pub send_once : Call → Step Response
  send_once call s =
      (let (resp, server) = send call s.access_token s.server in
        (ok resp, record s { server = server }))

  -- The second attempt, or the response of the first.
  unfoldable pub second_attempt : Call → Response → Step Response
  second_attempt call resp s =
      if resp.status == 401
      then and_then (authenticate s) (λ _ s. and_then (ensure_token s) (λ _ s. send_once call s))
      else (ok resp, s)

  -- `_request`
  unfoldable pub request : Call → Step Response
  request call s =
      and_then (ensure_token s)
        (λ _ s. and_then (send_once call s) (λ resp s. second_attempt call resp s))

  -- A request whose response is checked.
  unfoldable pub checked : String → Call → Step Response
  checked what call s = and_then (request call s) (λ resp s.
      (elim (raise_for_status parse_date what resp) [ err e ↦ err e | ok _ ↦ ok resp ], s))

  -- `create_bulk_query_job`
  unfoldable pub create_bulk_query_job : String → Step JsonObject
  create_bulk_query_job soql_query s =
      and_then (checked "create bulk query job" (create_query soql_query) s)
        (λ resp s. (ok resp.json, s))

  -- `get_job_status`
  unfoldable pub get_job_status : String → Step JsonObject
  get_job_status job_id s =
      and_then (checked "get job status" (query_status job_id) s) (λ resp s. (ok resp.json, s))

  -- The end of the loop's body: all the pages, or the next one.
  unfoldable pub continue_results :
      (List String → Option String → Step (Option String))
      → List String
      → Option String
      → Step (Option String)
  continue_results again pages none s = (ok (some (join "" pages)), s)
  continue_results again pages (some next) s = again pages (some next) s

  -- `get_job_results`: the loop, on fuel. The result is `none` when the fuel ran out.
  unfoldable pub get_job_results :
      ℕ → ℕ → String → List String → Option String → Step (Option String)
  get_job_results zero page_size job_id pages locator s = (ok none, s)
  get_job_results (suc fuel) page_size job_id pages locator s =
      and_then (checked "get job results" (query_results job_id page_size locator) s) (λ resp s.
        continue_results (get_job_results fuel page_size job_id)
          (pages ++ page_text pages resp.body ∷ []) (next_locator resp.locator) s)
