-- ===== src/Jobs.antt =====
-- app/jobs.py: the state machine of a job.
pub mod Transitions
use glynac_ingestion_platfor.Common.{
  ℕ, ◌+◌, String, ◌<>◌, Bool, true, false, Option, none, some, [], ◌∷◌, ◌++◌, if◌then◌else◌,
}
use glynac_ingestion_platfor.Common.Text.{strip, show}
use glynac_ingestion_platfor.Errors.{http_exception}
use glynac_ingestion_platfor.Json.{dumps}
use glynac_ingestion_platfor.Models.{
  Job, JobStatus, pending, running, paused, completed, failed, cancelled, CursorText,
}
use glynac_ingestion_platfor.World.{
  Action, pure, raise, gets, modify, ◌>>=◌, ◌>>◌, find_job, save_job,
}
use glynac_ingestion_platfor.Audit.{log_audit}

-- `_ALLOWED_TRANSITIONS`, as the test `new in _ALLOWED_TRANSITIONS[current]`
unfoldable pub allowed : JobStatus → JobStatus → Bool
allowed pending running = true
allowed pending cancelled = true
allowed pending failed = true
allowed running paused = true
allowed running completed = true
allowed running failed = true
allowed running cancelled = true
allowed paused running = true
allowed paused cancelled = true
allowed failed running = true
allowed failed cancelled = true
allowed _ _ = false

-- `JobStatus.value`
unfoldable pub value : JobStatus → String
value pending = "PENDING"
value running = "RUNNING"
value paused = "PAUSED"
value completed = "COMPLETED"
value failed = "FAILED"
value cancelled = "CANCELLED"

abbrev pub or_empty : Option String → String
or_empty none = ""
or_empty (some s) = s

-- A new row with the defaults of the columns.
abbrev pub new_job : ℕ → ℕ → String → Option String → Option String → Job
new_job id now service object_name org_id = record {
  id = id;
  service = service;
  object_name = object_name;
  org_id = org_id;
  status = pending;
  cursor = none;
  row_count = 0;
  retry_count = 0;
  error = none;
  control = none;
  owner = none;
  heartbeat_at = none;
  created_at = now;
  updated_at = now;
}

abbrev or_none : Option String → String
or_none none = "None"
or_none (some s) = s

-- `create_job`: `id` is the fresh uuid of the row.
unfoldable pub create_job : ℕ → String → Option String → Option String → Action Job
create_job id service object_name org_id = do
  job ← gets (λ w. new_job id w.now service object_name org_id)
  modify (λ w. record w { jobs = w.jobs ++ job ∷ [] })
  log_audit id "CREATED" (
      some
        ("service=" <> service <> " object=" <> or_none object_name <> " org=" <> or_none org_id))
  pure job

-- `get_job_or_404`
unfoldable pub get_job_or_404 : ℕ → Action Job
get_job_or_404 job_id w = elim (find_job job_id w) [
  | none ↦ raise (http_exception 404 "Job not found.") w
  | some j ↦ pure j w
]

-- What `transition` writes to the row.
unfoldable pub set_status : JobStatus → Option String → Job → Job
set_status failed detail j = record j { status = failed; error = detail }
set_status running detail j = record j { status = running; error = none }
set_status new detail j = record j { status = new }

-- `transition`: the test reads the caller's copy of the row, the write goes to the row itself.
unfoldable pub transition : Job → JobStatus → Option String → Action Job
transition job new detail =
    if allowed job.status new
    then (do
      fresh ← save_job job.id (set_status new detail)
      log_audit job.id "STATUS_CHANGE"
          (some (strip (value job.status <> " -> " <> value new <> ". " <> or_empty detail)))
      pure fresh)
    else raise (
        http_exception 409
          ("Cannot transition job from " <> value job.status <> " to " <> value new <> "."))

-- The text in the cursor column.
unfoldable pub cursor_text : CursorText → String
cursor_text (CursorText.json d) = dumps d
cursor_text (CursorText.raw s) = s

-- `update_checkpoint`: the sum is the caller's copy of `row_count` plus the delta.
unfoldable pub update_checkpoint : Job → CursorText → ℕ → Action Job
update_checkpoint job cursor row_count_delta = do
  fresh ←
      save_job job.id
        (λ j. record j { cursor = some cursor; row_count = job.row_count + row_count_delta })
  log_audit job.id "CHECKPOINT"
      (some ("cursor=" <> cursor_text cursor <> " row_count=" <> show fresh.row_count))
  pure fresh
