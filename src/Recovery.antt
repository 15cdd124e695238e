-- ===== src/Recovery.antt =====
-- app/recovery.py: jobs whose owner has gone silent, and who takes them over.
pub mod Takeover
pub mod Healthy
use glynac_ingestion_platfor.Common.{
  ℕ, ◌-◌, ◌*◌, String, ◌<>◌, Bool, true, false, not, ◌&&◌, ◌||◌, Option, none, some, List, [], ◌∷◌,
  ◌++◌, ◌==◌, if◌then◌else◌, count, update_where, filter, map, ltb, str_eq, starts_with,
}
use glynac_ingestion_platfor.Common.Text.{show}
use glynac_ingestion_platfor.Errors.{
  Result, ok, err, configuration_error, value_error, stale_data_error,
}
use glynac_ingestion_platfor.Json
use glynac_ingestion_platfor.Json.{Json, JsonObject}
use glynac_ingestion_platfor.Models.{
  Job, JobStatus, pending, paused, cancelled, Control, CursorText,
}
use glynac_ingestion_platfor.World.{
  Action, Task, run_salesforce, run_hubspot, run_backfill, run_realtime, pure, lift, gets, modify,
  ◌>>=◌, ◌>>◌, find_job, has_id,
}
use glynac_ingestion_platfor.Settings.{Settings}
use glynac_ingestion_platfor.Audit.{log_audit}
use glynac_ingestion_platfor.Control.{clear_control, is_running, owned_by}
use glynac_ingestion_platfor.Jobs.{transition, cursor_text, or_empty}

-- `validate_heartbeat_settings`
unfoldable pub validate_heartbeat_settings : Settings → Result (Unit {0})
validate_heartbeat_settings s =
    if s.heartbeat_interval == 0 || ltb s.heartbeat_timeout (3 * s.heartbeat_interval)
    then err (
        configuration_error (
          "HEARTBEAT_TIMEOUT_SECONDS must be at least 3 x HEARTBEAT_INTERVAL_SECONDS, otherwise a "
          <> "healthy job missing one beat would be taken over."))
    else ok tt

-- `json.loads(job.cursor) if job.cursor and job.cursor.startswith("{") else {}`
unfoldable pub load_cursor : Option CursorText → Result JsonObject
load_cursor none = ok []
load_cursor (some (CursorText.json d)) = ok d
load_cursor (some (CursorText.raw s)) =
    if starts_with s "{" then err (value_error "not a JSON object") else ok []

-- `job.org_id or "org1"`
unfoldable pub org_or_default : Option String → String
org_or_default none = "org1"
org_or_default (some s) = if str_eq s "" then "org1" else s

-- A text, or None.
abbrev pub as_text : Json → Option String
as_text (Json.text s) = some s
as_text _ = none

-- `_runner_for`
unfoldable pub runner_for : Job → Result Task
unfolding load_cursor org_or_default
runner_for job = elim (load_cursor job.cursor) [
  | err e ↦ err e
  | ok cursor ↦
      let org = org_or_default job.org_id in
      if str_eq job.service "salesforce"
      then ok (run_salesforce job.id job.object_name org)
      else if str_eq job.service "hubspot"
      then ok
          (run_hubspot job.id job.object_name org (as_text (Json.get "resume_cursor" cursor)) false)
      else if str_eq job.service "slack"
      then (if str_eq (or_empty job.object_name) "historical"
          then ok (run_backfill job.id org 10)
          else ok (run_realtime job.id))
      else err (value_error ("unknown service " <> job.service))
]

abbrev pub is_pending : JobStatus → Bool
is_pending pending = true
is_pending _ = false

-- `Job.heartbeat_at.is_(None) or Job.heartbeat_at < cutoff`
abbrev pub silent : ℕ → Job → Bool
silent cutoff j = elim j.heartbeat_at [ none ↦ true | some t ↦ ltb t cutoff ]

-- `_orphan_filter`, as the test of a row by the process `boot_id`.
unfoldable pub orphan_filter : ℕ → ℕ → Job → Bool
orphan_filter boot_id cutoff j =
    not (owned_by boot_id j)
    && silent cutoff j
    && (is_running j.status || (is_pending j.status && ltb j.created_at cutoff))

abbrev pub claims : ℕ → ℕ → ℕ → Job → Bool
claims boot_id job_id cutoff j = has_id job_id j && orphan_filter boot_id cutoff j

-- `_take_over`: one conditional UPDATE, which leaves `updated_at` alone.
unfoldable pub take_over : ℕ → ℕ → ℕ → Action Bool
unfolding orphan_filter
take_over boot_id job_id cutoff w = (
  ok (count (claims boot_id job_id cutoff) w.jobs == 1),
  record w {
    jobs =
        update_where (claims boot_id job_id cutoff)
          (λ j. record j { owner = some boot_id; heartbeat_at = some w.now }) w.jobs;
  },
)

-- `db.query(Job).filter(Job.id == job_id).one()`
unfoldable pub one_job : ℕ → Action Job
one_job job_id w = elim (find_job job_id w) [
  | none ↦ (err (stale_data_error "No row was found when one was required"), w)
  | some j ↦ (ok j, w)
]

abbrev pub owner_label : Option Job → String
owner_label none = "None"
owner_label (some j) = elim j.owner [ none ↦ "None" | some o ↦ show o ]

abbrev cursor_label : Option CursorText → String
cursor_label none = "None"
cursor_label (some c) = cursor_text c

-- The last lines of the loop's body: the job runs again from its checkpoint.
unfoldable pub relaunch : Job → String → Action (List ℕ)
relaunch job previous = do
  log_audit job.id "RECOVERY" (
      some (
        "orphaned by previous process ("
        <> previous
        <> "); resuming from checkpoint "
        <> cursor_label job.cursor))
  task ← lift (runner_for job)
  modify (λ w. record w { tasks = w.tasks ++ task ∷ [] })
  pure (job.id ∷ [])

-- A request that was stored before the crash is honoured: the job stops as asked.
unfoldable pub stop_as : Job → JobStatus → String → Action (List ℕ)
stop_as job status detail = do transition job status (some detail); clear_control job.id; pure []

-- The rest of the loop's body, for a job that this process now owns, by the stored request: the
-- ids that it recovered.
unfoldable pub after_control : Job → String → Option Control → Action (List ℕ)
after_control job previous (some Control.cancel) =
    stop_as job cancelled "cancel was requested before crash"
after_control job previous (some Control.pause) =
    if is_running job.status
    then stop_as job paused "pause was requested before crash"
    else relaunch job previous
after_control job previous none = relaunch job previous

unfoldable pub resume_or_stop : Job → String → Action (List ℕ)
unfolding after_control
resume_or_stop job previous = after_control job previous job.control

-- The body of the loop: someone else may have taken the job, or its owner may just have proved
-- that it is alive.
unfoldable pub attempt : ℕ → ℕ → ℕ → Action (List ℕ)
attempt boot_id cutoff job_id = do
  previous ← gets (find_job job_id)
  mine ← take_over boot_id job_id cutoff
  if mine then (do job ← one_job job_id; resume_or_stop job (owner_label previous)) else pure []

-- The loop over the candidates.
unfoldable pub recover_each : ℕ → ℕ → List ℕ → Action (List ℕ)
recover_each boot_id cutoff [] = pure []
recover_each boot_id cutoff (job_id ∷ rest) = do
  recovered ← attempt boot_id cutoff job_id
  others ← recover_each boot_id cutoff rest
  pure (recovered ++ others)

-- `recover_interrupted_jobs`
unfoldable pub recover_interrupted_jobs : Settings → ℕ → Action (List ℕ)
recover_interrupted_jobs s boot_id = do
  cutoff ← gets (λ w. w.now - s.heartbeat_timeout)
  candidates ← gets (λ w. map (λ j. j.id) (filter (orphan_filter boot_id cutoff) w.jobs))
  recover_each boot_id cutoff candidates
