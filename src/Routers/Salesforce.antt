-- ===== src/Routers/Salesforce.antt =====
-- app/routers/salesforce.py: the endpoints that start, stop and resume Salesforce jobs.
use glynac_ingestion_platfor.Common.{
  ℕ, String, ◌<>◌, Option, none, some, List, if◌then◌else◌, str_eq, any, filter,
}
use glynac_ingestion_platfor.Errors.{http_exception}
use glynac_ingestion_platfor.Models.{Job, running, cancelled, pause, cancel}
use glynac_ingestion_platfor.World.{
  Action, Task, run_salesforce, pure, raise, gets, ◌>>=◌, ◌>>◌, SchemaField,
}
use glynac_ingestion_platfor.Control.{is_running, set_control, clear_control}
use glynac_ingestion_platfor.Jobs.{create_job, get_job_or_404, transition, value}
use glynac_ingestion_platfor.Routers.Hubspot.{dispatch, can_resume, org_or_default}
use glynac_ingestion_platfor.Routers.Jobs.{newest_first}
use glynac_ingestion_platfor.Salesforce.{salesforce_schemas}
use glynac_ingestion_platfor.Storage.{list_objects}

-- `start_ingestion`: `id` is the fresh uuid of the job.
unfoldable pub start_ingestion : ℕ → String → String → Action Job
start_ingestion id object_name org_id =
    if any (λ (s : String × List SchemaField). str_eq s.0 object_name) salesforce_schemas
    then (do
      job ← create_job id "salesforce" (some object_name) (some org_id)
      dispatch (run_salesforce id (some object_name) org_id)
      pure job)
    else raise (
        http_exception 400
          ("Unsupported object '" <> object_name <> "'. See /api/salesforce/objects."))

-- `list_salesforce_jobs`
unfoldable pub list_salesforce_jobs : Action (List Job)
list_salesforce_jobs =
    gets (λ w. newest_first (filter (λ (j : Job). str_eq j.service "salesforce") w.jobs))

-- `pause_job`
unfoldable pub pause_job : ℕ → Action Job
pause_job job_id = do
  job ← get_job_or_404 job_id
  if is_running job.status
      then set_control job_id (some pause) >> pure job
      else raise (
          http_exception 409 ("Job is " <> value job.status <> ", not RUNNING - nothing to pause."))

-- The task that a resumed job runs.
abbrev pub resumed_task : Job → Task
resumed_task job = run_salesforce job.id job.object_name (org_or_default job.org_id)

-- `resume_job`
unfoldable pub resume_job : ℕ → Action Job
resume_job job_id = do
  job ← get_job_or_404 job_id
  if can_resume job.status
      then (do
        clear_control job_id
        fresh ← transition job running (some "resumed")
        dispatch (resumed_task fresh)
        pure fresh)
      else raise (http_exception 409 ("Job is " <> value job.status <> " - nothing to resume."))

-- `cancel_job`
unfoldable pub cancel_job : ℕ → Action Job
cancel_job job_id = do
  job ← get_job_or_404 job_id
  set_control job_id (some cancel)
  transition job cancelled none

-- `browse_landed_files`, not yet sorted
unfoldable pub browse_landed_files : Option String → Action (List String)
browse_landed_files none = gets (list_objects "salesforce/")
browse_landed_files (some object_name) =
    if str_eq object_name ""
    then gets (list_objects "salesforce/")
    else gets (list_objects ("salesforce/" <> object_name <> "/"))
