-- ===== src/Tests/Hubspot.antt =====
-- A HubSpot client with two pages.
use glynac_ingestion_platfor.Common.{
  ℕ, ◌+◌, String, ◌≡◌, refl, false, Option, none, some, List, [], ◌∷◌, if◌then◌else◌, str_eq,
}
use glynac_ingestion_platfor.Errors.{Result, ok, err, api_error}
use glynac_ingestion_platfor.Json.{JsonObject, text}
use glynac_ingestion_platfor.Models.{Job, CursorText, running, paused}
use glynac_ingestion_platfor.World.{World, Action, pure, find_job, run_hubspot}
use glynac_ingestion_platfor.Hubspot.{validate_records}
use glynac_ingestion_platfor.Hubspot.Pipeline.{Page}
use glynac_ingestion_platfor.Hubspot.Paging.{Split, validate_records-Split}
use glynac_ingestion_platfor.Routers.Hubspot.{resume_job}
use glynac_ingestion_platfor.Routers.Hubspot.Resume.{resume_job_resumes}
use glynac_ingestion_platfor.Tests.Base.{job_with, world_with}

abbrev contact : String → JsonObject
contact id = ("id", text id) ∷ ("organisation_id", text "org1") ∷ []

abbrev first_page : Page
first_page = record { results = contact "c1" ∷ contact "" ∷ []; next_after = some "2" }

abbrev second_page : Page
second_page = record { results = contact "c3" ∷ []; next_after = none }

abbrev server : Option String → Result Page
server none = ok first_page
server (some after) = if str_eq after "2" then ok second_page else err (api_error "bad cursor")

abbrev base : Option String → String
base current = "hubspot/org1/contacts/part"

abbrev count_pages :
    ℕ → Option String → List (JsonObject × String) → List String → ℕ → Option String → Action ℕ
count_pages n next invalid landed valid page_max = pure (n + 1)

abbrev store : World
store = world_with (job_with 1 running ∷ [])

-- A valid record, and one without an organisation.
abbrev mixed : List JsonObject
mixed = (("id", text "1") ∷ ("organisation_id", text "org1") ∷ []) ∷ (("id", text "2") ∷ []) ∷ []

validate_records-Split_example : Split mixed (validate_records mixed).0 (validate_records mixed).1
validate_records-Split_example = validate_records-Split mixed

abbrev halted : Job
halted = record (job_with 1 paused) {
  cursor = some (CursorText.json (("mode", text "full") ∷ ("resume_cursor", text "2") ∷ []));
}

abbrev halted_store : World
halted_store = world_with (halted ∷ [])

resume_job_resumes_example :
    let (r, w') = resume_job 1 halted_store in
    ((j : Job) × (r ≡ ok j) × (find_job 1 w' ≡ some j) × (j.status ≡ running))
    × (w'.tasks ≡ run_hubspot 1 (some "Deals") "org1" (some "2") false ∷ [])
resume_job_resumes_example =
    resume_job_resumes 1 halted_store halted
      (("mode", text "full") ∷ ("resume_cursor", text "2") ∷ []) refl refl refl
