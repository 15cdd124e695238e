-- ===== src/Mocks/Salesforce/Document.antt =====
-- The client that reads the results of a query page by page, against the mock server.
use Prim.Native.String.append.{nil}
use glynac_ingestion_platfor.Common.{
  ℕ, zero, suc, ◌+◌, ◌≤◌, ◌<◌, String, ◌<>◌, ◌≡◌, refl, sym, ap, ◌∙◌, Bool, true, false, inl, inr,
  Option, none, some, List, [], ◌∷◌, ◌++◌, ltb→lt, map, any, length, ltb, str_eq, arith, Bool-cases,
  if◌then◌else◌,
}
use glynac_ingestion_platfor.Common.Maps.{lookup}
use glynac_ingestion_platfor.Common.Text.{show, join, append_assoc, join-append}
use glynac_ingestion_platfor.Errors.{ok}
use glynac_ingestion_platfor.Json.{Json, JsonObject}
use glynac_ingestion_platfor.Time.{isdigit}
use glynac_ingestion_platfor.Time.Digits.{show-Reads, show_apart}
use glynac_ingestion_platfor.Salesforce.Client.{
  Session, query_results, after_newline, raise_for_status, ensure_token, send_once, second_attempt,
  request, checked, page_text, next_locator, continue_results, get_job_results,
}
use glynac_ingestion_platfor.Mocks.Slices.{slice, drop, slice-next, slice_last, slice_advances}
use glynac_ingestion_platfor.Mocks.Salesforce.{
  State, QueryJob, auth_failure, csv_row, header_row, results_page, is_number, offset_of,
  results_of, job_results, route, serve, token,
}

map-append : {A B : Type 0} (f : A → B) (xs ys : List A) → map f (xs ++ ys) ≡ map f xs ++ map f ys
map-append f [] ys = refl
map-append f (x ∷ xs) ys = ap (λ zs. f x ∷ zs) (map-append f xs ys)

-- The header row ends in its first line feed.
abbrev pub OneLine : String → Type 0
OneLine header = (rest : String) → after_newline (header <> rest) ≡ rest

module _ (csv_line : List Json → String) (fresh : ℕ → String)
    (parse_soql : String → Option (String × List String)) (generate : String → ℕ → List JsonObject)
    (parse_date : String → Option ℕ) (good : Bool) where
  -- The session is logged in, and the server has the job.
  pub record Ready (job_id : String) (job : QueryJob) (s : Session State) : Type 0 where
    pub named : str_eq s.access_token "" ≡ false
    pub admitted : any (str_eq s.access_token) s.server.tokens ≡ true
    pub steady : s.server.expire_tokens_once ≡ false
    pub there : lookup job_id s.server.jobs ≡ some job

  -- What a page is asked for by, when it begins at an offset.
  pub data Asks : Option String → ℕ → Type 0 where
    first : Asks none 0
    next : (n : ℕ) → Asks (some (show n)) n

  abbrev pub after_page : ℕ → Session State → Session State
  after_page o s = record s {
    server = record s.server {
      requests_seen = s.server.requests_seen ++ ("GET results offset=" <> show o) ∷ [];
    };
  }

  auth_failure-Ready :
      (job_id : String) (job : QueryJob) (s : Session State)
      → Ready job_id job s
      → auth_failure s.access_token s.server ≡ (false, s.server)
  unfolding auth_failure
  auth_failure-Ready job_id job s r = simp (r.steady, r.admitted) refl

  is_number-Asks :
      (locator : Option String) (o : ℕ) → Asks locator o → is_number csv_line locator ≡ true
  is_number-Asks _ _ first = refl
  is_number-Asks _ o (next n) = ground (arith, (show-Reads n).1)

  offset_of-Asks :
      (locator : Option String) (o : ℕ) → Asks locator o → offset_of csv_line locator ≡ o
  offset_of-Asks _ _ first = refl
  offset_of-Asks _ o (next n) = (show-Reads n).0

  job_results_page :
      (job_id : String) (job : QueryJob) (limit o : ℕ) (locator : Option String) (s : Session State)
      → Ready job_id job s
      → Asks locator o
      → job_results csv_line job_id limit locator s.server
        ≡ (results_page csv_line job o limit, (after_page o s).server)
  unfolding job_results results_of
  job_results_page job_id job limit o locator s r a =
      ap (results_of csv_line job_id limit locator s.server) r.there
      ∙ simp (is_number-Asks locator o a) (simp (offset_of-Asks locator o a) refl)

  pub served_page :
      (job_id : String) (job : QueryJob) (limit o : ℕ) (locator : Option String) (s : Session State)
      → Ready job_id job s
      → Asks locator o
      → serve csv_line fresh parse_soql generate
          (query_results job_id limit locator)
          s.access_token
          s.server
        ≡ (results_page csv_line job o limit, (after_page o s).server)
  unfolding serve route
  served_page job_id job limit o locator s r a =
      simp (auth_failure-Ready job_id job s r) (job_results_page job_id job limit o locator s r a)

  checked_page :
      (job_id : String) (job : QueryJob) (limit o : ℕ) (locator : Option String) (s : Session State)
      → Ready job_id job s
      → Asks locator o
      → checked parse_date
          (serve csv_line fresh parse_soql generate)
          (token fresh good)
          "get job results"
          (query_results job_id limit locator)
          s
        ≡ (ok (results_page csv_line job o limit), after_page o s)
  unfolding checked request ensure_token send_once second_attempt raise_for_status results_page
  checked_page job_id job limit o locator s r a =
      simp (r.named, served_page job_id job limit o locator s r a) refl

  -- The rows from an offset on.
  abbrev pub rows_from : QueryJob → ℕ → String
  rows_from job o = join "" (map (csv_row csv_line job.columns) (drop o job.records))

  abbrev page_rows : QueryJob → ℕ → ℕ → String
  page_rows job limit o = join "" (map (csv_row csv_line job.columns) (slice o limit job.records))

  rows-next :
      (job : QueryJob) (limit o : ℕ)
      → page_rows job limit o <> rows_from job (o + length (slice o limit job.records))
        ≡ rows_from job o
  rows-next job limit o =
      let row : JsonObject → String = csv_row csv_line job.columns in
      sym (
        join-append (map row (slice o limit job.records))
          (map row (drop (o + length (slice o limit job.records)) job.records)))
      ∙ ap (join "") (sym (map-append row (slice o limit job.records) _))
      ∙ ap (λ rs. join "" (map row rs)) (slice-next o limit job.records)

  abbrev header : QueryJob → String
  header job = header_row csv_line job.columns

  -- What is kept of the page, and of the pages after it, is what would be kept of all the rows at once.
  page_text-next :
      (job : QueryJob) (pages : List String) (limit o : ℕ)
      → OneLine (header job)
      → page_text pages (header job <> page_rows job limit o)
          <> rows_from job (o + length (slice o limit job.records))
        ≡ page_text pages (header job <> rows_from job o)
  page_text-next job [] limit o one =
      append_assoc (header job) (page_rows job limit o) _
      ∙ ap (λ t. header job <> t) (rows-next job limit o)
  page_text-next job (p ∷ ps) limit o one =
      ap (λ t. t <> rows_from job (o + length (slice o limit job.records)))
        (one (page_rows job limit o))
      ∙ rows-next job limit o
      ∙ sym (one (rows_from job o))

  page_text-later :
      (pages : List String) (x body : String)
      → page_text (pages ++ x ∷ []) body ≡ after_newline body
  page_text-later [] x body = refl
  page_text-later (p ∷ ps) x body = refl

  next_locator-show : (n : ℕ) → next_locator (some (show n)) ≡ some (show n)
  unfolding isdigit
  next_locator-show n = rw (show_apart n "" refl, show_apart n "null" refl) refl

  -- The pages before, this page, and what is kept of the rest.
  join-next :
      (job : QueryJob) (pages : List String) (limit o : ℕ)
      → OneLine (header job)
      → let x = page_text pages (header job <> page_rows job limit o) in
        let n = o + length (slice o limit job.records) in
        join "" (pages ++ x ∷ []) <> page_text (pages ++ x ∷ []) (header job <> rows_from job n)
        ≡ join "" pages <> page_text pages (header job <> rows_from job o)
  unfolding join
  join-next job pages limit o one =
      let x : String = page_text pages (header job <> page_rows job limit o) in
      let n : ℕ = o + length (slice o limit job.records) in
      ap (λ t. join "" (pages ++ x ∷ []) <> t)
        (page_text-later pages x (header job <> rows_from job n) ∙ one (rows_from job n))
      ∙ ap (λ t. t <> rows_from job n) (join-append pages (x ∷ []))
      ∙ append_assoc (join "" pages) x (rows_from job n)
      ∙ ap (λ t. join "" pages <> t) (page_text-next job pages limit o one)

  join_last :
      (job : QueryJob) (pages : List String) (limit o : ℕ)
      → length job.records ≤ o + length (slice o limit job.records)
      → join "" (pages ++ page_text pages (header job <> page_rows job limit o) ∷ [])
        ≡ join "" pages <> page_text pages (header job <> rows_from job o)
  unfolding join
  join_last job pages limit o last =
      join-append pages (page_text pages (header job <> page_rows job limit o) ∷ [])
      ∙ ap
          (λ rs.
            join "" pages
            <> page_text pages (header job <> join "" (map (csv_row csv_line job.columns) rs)))
          (slice_last o limit job.records last)

  next_locator-results_page :
      (job : QueryJob) (limit o : ℕ) (b : Bool)
      → ltb (o + length (slice o limit job.records)) (length job.records) ≡ b
      → next_locator (results_page csv_line job o limit).locator
        ≡ (if b then some (show (o + length (slice o limit job.records))) else none)
  unfolding results_page
  next_locator-results_page job limit o true more =
      rw more (next_locator-show (o + length (slice o limit job.records)))
  next_locator-results_page job limit o false last = rw last refl

  get_job_results_from :
      (job_id : String) (job : QueryJob) (limit : ℕ)
      → OneLine (header job)
      → 1 ≤ limit
      → (fuel o : ℕ) (pages : List String) (locator : Option String) (s : Session State)
      → Ready job_id job s
      → Asks locator o
      → o ≤ length job.records
      → length job.records < o + fuel
      → (get_job_results parse_date
          (serve csv_line fresh parse_soql generate)
          (token fresh good)
          fuel
          limit
          job_id
          pages
          locator
          s).0
        ≡ ok (some (join "" pages <> page_text pages (header job <> rows_from job o)))
  unfolding get_job_results continue_results results_page
  get_job_results_from job_id job limit one size zero o pages locator s r a bound fuel_bound =
      ground (arith, bound, fuel_bound)
  get_job_results_from job_id job limit one size (suc fuel) o pages locator s r a bound fuel_bound =
      let n : ℕ = o + length (slice o limit job.records) in
      elim (Bool-cases (ltb n (length job.records))) [
        | inl more ↦
            let below : n < length job.records = ltb→lt n (length job.records) more in
            let forward = slice_advances o limit job.records size (omega (arith, below)) in
            simp (checked_page job_id job limit o locator s r a) (
              simp (next_locator-results_page job limit o true more) (
                get_job_results_from job_id job limit one size fuel n _ (some (show n))
                  (after_page o s)
                  (record {
                    named = r.named;
                    admitted = r.admitted;
                    steady = r.steady;
                    there = r.there;
                  })
                  (next n) (omega (arith, below)) (omega (arith, forward, fuel_bound))
                ∙ ap (λ t. ok (some t)) (join-next job pages limit o one)))
        | inr last ↦ simp (checked_page job_id job limit o locator s r a) (
            simp (next_locator-results_page job limit o false last)
              (ap (λ t. ok (some t)) (join_last job pages limit o (ground (arith, last)))))
      ]

  -- A client that is logged in, with a page size of at least 1, reading the results of a query job that
  -- the server holds: with fuel for a page for each record it ends, and it returns one CSV document,
  -- which is the header row once and then the row of every record, in order, whatever the page size.
  pub get_job_results_reads_all :
      (job_id : String) (job : QueryJob) (limit fuel : ℕ) (s : Session State)
      → OneLine (header_row csv_line job.columns)
      → 1 ≤ limit
      → length job.records < fuel
      → Ready job_id job s
      → (get_job_results parse_date
          (serve csv_line fresh parse_soql generate)
          (token fresh good)
          fuel
          limit
          job_id
          []
          none
          s).0
        ≡ ok (
            some (
              header_row csv_line job.columns
              <> join "" (map (csv_row csv_line job.columns) job.records)))
  unfolding join
  get_job_results_reads_all job_id job limit fuel s one size enough r =
      get_job_results_from job_id job limit one size fuel 0 [] none s r first (omega arith)
        (omega (arith, enough))
      ∙ ap (λ t. ok (some t)) (nil (header job <> rows_from job 0))
