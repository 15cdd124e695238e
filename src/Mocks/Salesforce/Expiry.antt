-- ===== src/Mocks/Salesforce/Expiry.antt =====
-- A session that the mock server has let expire.
use Prim.Native.Char.{Char, code}
use Prim.Native.String.append.{cons as append_cons}
use glynac_ingestion_platfor.Common.{
  ℕ, String, ◌<>◌, ◌≡◌, refl, ap, true, false, Option, some, List, [], ◌∷◌, str_eq, arith, eq_refl,
  eq_iff, inl, inr, Bool-cases,
}
use glynac_ingestion_platfor.Common.Text.{codes}
use glynac_ingestion_platfor.Common.Maps.{lookup}
use glynac_ingestion_platfor.Errors.{ok}
use glynac_ingestion_platfor.Json.{Json, JsonObject, str}
use glynac_ingestion_platfor.Salesforce.Client.{
  Session, Call, query_results, raise_for_status, authenticate, ensure_token, send_once,
  second_attempt, request, checked,
}
use glynac_ingestion_platfor.Mocks.Salesforce.{
  State, QueryJob, expired, auth_failure, results_page, serve, token,
}
use glynac_ingestion_platfor.Mocks.Salesforce.Document.{Ready, Asks, after_page, served_page}

cons_not_empty : (c : Char) (s : String) → str_eq (String.◌∷◌ c s) "" ≡ false
cons_not_empty c s = elim (Bool-cases (str_eq (String.◌∷◌ c s) "")) [
  | inr apart ↦ apart
  | inl same ↦
      let e : code c ∷ codes s ≡ [] = ap codes ((eq_iff (String.◌∷◌ c s) "").0 same) in cc e
]

not_empty : (s t : String) → str_eq s "" ≡ false → str_eq (s <> t) "" ≡ false
not_empty String.[] t h = cc
not_empty (String.◌∷◌ c s) t h = rw (append_cons c s t) (cons_not_empty c (s <> t))

module _ (csv_line : List Json → String) (fresh : ℕ → String)
    (parse_soql : String → Option (String × List String)) (generate : String → ℕ → List JsonObject)
    (parse_date : String → Option ℕ) where
  -- The session once the server has refused it, and once the client has logged in again.
  abbrev refused : Session State → Session State
  refused s = record s { server = record s.server { expire_tokens_once = false; tokens = [] } }

  abbrev renewed : Session State → Session State
  renewed s = record {
    access_token = "mock-" <> fresh s.server.drawn;
    server = (token fresh true (refused s).server).1;
  }

  serve-expiring :
      (call : Call) (s : Session State)
      → s.server.expire_tokens_once ≡ true
      → serve csv_line fresh parse_soql generate call s.access_token s.server
        ≡ (expired, (refused s).server)
  unfolding serve auth_failure
  serve-expiring call s expiring = simp expiring refl

  authenticate-renewed :
      (s : Session State)
      → authenticate parse_date
          (serve csv_line fresh parse_soql generate)
          (token fresh true)
          (refused s)
        ≡ (ok tt, renewed s)
  unfolding authenticate token raise_for_status str
  authenticate-renewed s = refl

  renewed-Ready :
      (job_id : String) (job : QueryJob) (s : Session State)
      → lookup job_id s.server.jobs ≡ some job
      → Ready csv_line fresh parse_soql generate parse_date true job_id job (renewed s)
  unfolding token
  renewed-Ready job_id job s there = record {
    named = not_empty "mock-" (fresh s.server.drawn) refl;
    admitted = ground (arith, eq_refl ("mock-" <> fresh s.server.drawn));
    steady = refl;
    there = there;
  }

  second_attempt-page :
      (job_id : String) (job : QueryJob) (limit o : ℕ) (locator : Option String) (s : Session State)
      → Asks csv_line fresh parse_soql generate parse_date true locator o
      → lookup job_id s.server.jobs ≡ some job
      → second_attempt parse_date
          (serve csv_line fresh parse_soql generate)
          (token fresh true)
          (query_results job_id limit locator)
          expired
          (refused s)
        ≡ (
          ok (results_page csv_line job o limit),
          after_page csv_line fresh parse_soql generate parse_date true o (renewed s),
        )
  unfolding second_attempt ensure_token send_once
  second_attempt-page job_id job limit o locator s asks there =
      let ready = renewed-Ready job_id job s there in
      let page =
        served_page csv_line fresh parse_soql generate parse_date true job_id job limit o locator
          (renewed s) ready asks in
      simp (authenticate-renewed s) (simp (ready.named) (simp page refl))

  -- The server lets the session expire before a page is asked for, the first one or any later one, by the
  -- locator of the offset at which it begins: the client logs in again, once, and the same request returns
  -- the page that begins there, with no error; the session then has the new token.
  pub expired_session_recovers :
      (job_id : String) (job : QueryJob) (limit o : ℕ) (locator : Option String) (s : Session State)
      → Asks csv_line fresh parse_soql generate parse_date true locator o
      → str_eq s.access_token "" ≡ false
      → s.server.expire_tokens_once ≡ true
      → lookup job_id s.server.jobs ≡ some job
      → let (r, s') =
          checked parse_date
            (serve csv_line fresh parse_soql generate)
            (token fresh true)
            "get job results"
            (query_results job_id limit locator)
            s in
        (r ≡ ok (results_page csv_line job o limit))
        × (s'.access_token ≡ "mock-" <> fresh s.server.drawn)
        × (s'.server.expire_tokens_once ≡ false)
  unfolding checked request ensure_token send_once second_attempt raise_for_status results_page
      token
  expired_session_recovers job_id job limit o locator s asks named expiring there =
      let again = second_attempt-page job_id job limit o locator s asks there in
      simp (named, serve-expiring (query_results job_id limit locator) s expiring)
        (simp again (refl, refl, refl))
