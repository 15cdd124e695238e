-- ===== src/Routers/Hubspot.antt =====
-- app/routers/hubspot.py: the endpoints that start, stop and resume HubSpot jobs.
pub mod Resume
use glynac_ingestion_platfor.Common.{
  ℕ, String, ◌<>◌, Bool, true, false, Option, none, some, List, [], ◌∷◌, ◌++◌, if◌then◌else◌,
  str_eq, any,
}
use glynac_ingestion_platfor.Errors.{http_exception, Result, ok, err, value_error}
use glynac_ingestion_platfor.Json.{JsonObject, get}
use glynac_ingestion_platfor.Models.{Job, JobStatus, running, paused, failed, cancelled, CursorText}
use glynac_ingestion_platfor.World.{
  Action, Task, run_hubspot, pure, raise, lift, modify, ◌>>=◌, ◌>>◌, SchemaField,
}
use glynac_ingestion_platfor.Control.{is_running}
use glynac_ingestion_platfor.Jobs.{create_job, get_job_or_404, transition, value}
use glynac_ingestion_platfor.Hubspot.{hubspot_schemas}
use glynac_ingestion_platfor.Hubspot.Pipeline.{signal_pause, text_of}

-- `background_tasks.add_task`
abbrev pub dispatch : Task → Action (Unit {0})
dispatch task = modify (λ w. record w { tasks = w.tasks ++ task ∷ [] })

abbrev is_supported : String → Bool
is_supported object_name =
    any (λ (s : String × List SchemaField). str_eq s.0 object_name) hubspot_schemas

-- `start_ingestion`: `id` is the fresh uuid of the job.
unfoldable pub start_ingestion : ℕ → String → String → Bool → Action Job
start_ingestion id object_name org_id full_refresh =
    if is_supported object_name
    then (do
      job ← create_job id "hubspot" (some object_name) (some org_id)
      dispatch (run_hubspot id (some object_name) org_id none full_refresh)
      pure job)
    else raise (
        http_exception 400
          ("Unsupported object '" <> object_name <> "'. See /api/hubspot/objects."))

-- The first loop of `start_all_ingestion`: a job for each object, and the task that will run it.
unfoldable pub create_all :
    (String → ℕ) → String → Bool → List (String × List SchemaField) → Action (List Task)
create_all fresh org_id full_refresh [] = pure []
create_all fresh org_id full_refresh ((object_name, schema) ∷ schemas) = do
  create_job (fresh object_name) "hubspot" (some object_name) (some org_id)
  tasks ← create_all fresh org_id full_refresh schemas
  pure (run_hubspot (fresh object_name) (some object_name) org_id none full_refresh ∷ tasks)

-- `start_all_ingestion`: the thread pool runs one task for each job. `fresh` gives the new uuids.
unfoldable pub start_all_ingestion : (String → ℕ) → String → Bool → Action (List Task)
start_all_ingestion fresh org_id full_refresh = do
  tasks ← create_all fresh org_id full_refresh hubspot_schemas
  modify (λ w. record w { tasks = w.tasks ++ tasks })
  pure tasks

-- `pause_job`
unfoldable pub pause_job : ℕ → Action Job
pause_job job_id = do
  job ← get_job_or_404 job_id
  if is_running job.status
      then (signal_pause job_id >> pure job)
      else raise (
          http_exception 409 ("Job is " <> value job.status <> ", not RUNNING — nothing to pause."))

-- `json.loads(job.cursor) if job.cursor else {}`
abbrev pub cursor_data : Job → Result JsonObject
cursor_data job = elim job.cursor [
  | none ↦ ok []
  | some (CursorText.json d) ↦ ok d
  | some (CursorText.raw s) ↦ if str_eq s "" then ok [] else err (value_error "Expecting value")
]

abbrev pub can_resume : JobStatus → Bool
can_resume paused = true
can_resume failed = true
can_resume _ = false

abbrev pub or_none : Option String → String
or_none none = "None"
or_none (some s) = s

abbrev pub org_or_default : Option String → String
org_or_default none = "org1"
org_or_default (some s) = if str_eq s "" then "org1" else s

-- The task that a resumed job runs: from its last cursor.
abbrev pub resume_task : Job → Option String → Task
resume_task job resume_cursor =
    run_hubspot job.id job.object_name (org_or_default job.org_id) resume_cursor false

-- `resume_job`
unfoldable pub resume_job : ℕ → Action Job
resume_job job_id = do
  job ← get_job_or_404 job_id
  if can_resume job.status
      then (do
        data_ ← lift (cursor_data job)
        fresh ← transition job running (
            some ("resume requested from cursor=" <> or_none (text_of (get "resume_cursor" data_))))
        dispatch (resume_task fresh (text_of (get "resume_cursor" data_)))
        pure fresh)
      else raise (http_exception 409 ("Job is " <> value job.status <> " — nothing to resume."))

-- `cancel_job`
unfoldable pub cancel_job : ℕ → Action Job
cancel_job job_id = do
  job ← get_job_or_404 job_id
  signal_pause job_id
  transition job cancelled none
