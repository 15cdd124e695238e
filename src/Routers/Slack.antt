-- ===== src/Routers/Slack.antt =====
-- app/routers/slack.py: the endpoints that start, stop and resume Slack jobs, and that take an event.
pub mod Cancel
use glynac_ingestion_platfor.Common.{
  ℕ, String, ◌<>◌, Bool, true, false, ◌||◌, not, Option, none, some, List, [], ◌∷◌, if◌then◌else◌,
  str_eq, filter,
}
use glynac_ingestion_platfor.Common.Maps.{lookup}
use glynac_ingestion_platfor.Common.Text.{lower}
use glynac_ingestion_platfor.Errors.{http_exception, Result, ok, err}
use glynac_ingestion_platfor.Json.{Json, JsonObject, null, text}
use glynac_ingestion_platfor.Models.{
  Job, JobStatus, pending, running, paused, cancelled, RealtimeMark,
}
use glynac_ingestion_platfor.World.{
  Action, Task, run_backfill, run_realtime, pure, raise, gets, ◌>>=◌, ◌>>◌,
}
use glynac_ingestion_platfor.Control.{is_running}
use glynac_ingestion_platfor.Jobs.{create_job, get_job_or_404, transition, value}
use glynac_ingestion_platfor.Routers.Hubspot.{dispatch, can_resume, org_or_default}
use glynac_ingestion_platfor.Routers.Jobs.{newest_first}
use glynac_ingestion_platfor.Slack.{request_pause, request_cancel, clear_control_events}
use glynac_ingestion_platfor.Slack.Realtime.{
  Ingested, active_realtime_job, buffer_event, ingest_realtime_event, backlog_size,
}

-- `start_historical`: `id` is the fresh uuid of the job.
unfoldable pub start_historical : ℕ → String → ℕ → Action Job
start_historical id org_id page_size = do
  job ← create_job id "slack" (some "historical") (some org_id)
  dispatch (run_backfill id org_id page_size)
  pure job

-- `start_realtime`
unfoldable pub start_realtime : ℕ → String → Action Job
start_realtime id org_id = do
  job ← create_job id "slack" (some "realtime") (some org_id)
  dispatch (run_realtime id)
  pure job

-- `list_slack_jobs`
unfoldable pub list_slack_jobs : Action (List Job)
list_slack_jobs = gets (λ w. newest_first (filter (λ (j : Job). str_eq j.service "slack") w.jobs))

-- `slack_status`
unfoldable pub slack_status : ℕ → Action Job
slack_status job_id = do
  job ← get_job_or_404 job_id
  if str_eq job.service "slack" then pure job else raise (http_exception 404 "Slack job not found.")

abbrev pub is_named : String → Job → Bool
is_named name j = elim j.object_name [ none ↦ false | some o ↦ str_eq o name ]

-- `pause_slack_job`
unfoldable pub pause_slack_job : ℕ → Action Job
pause_slack_job job_id = do
  job ← get_job_or_404 job_id
  if not (is_running job.status)
      then raise (http_exception 409 ("Job is " <> value job.status <> ", not RUNNING."))
      else if is_named "realtime" job
      then (clear_control_events job_id
          >> transition job paused (some "real-time paused; incoming events are buffered"))
      else (request_pause job_id >> pure job)

-- What a resumed job runs: a backfill with the default page size, or the stream.
abbrev pub resumed_task : Job → Task
resumed_task job =
    if is_named "historical" job
    then run_backfill job.id (org_or_default job.org_id) 10
    else run_realtime job.id

-- `resume_slack_job`
unfoldable pub resume_slack_job : ℕ → Action Job
resume_slack_job job_id = do
  job ← get_job_or_404 job_id
  if can_resume job.status
      then (do
        clear_control_events job_id
        fresh ← transition job running none
        dispatch (resumed_task fresh)
        pure fresh)
      else raise (
          http_exception 409
            ("Only PAUSED or FAILED jobs can be resumed. Current status: " <> value job.status))

abbrev pub can_cancel : JobStatus → Bool
can_cancel pending = true
can_cancel running = true
can_cancel paused = true
can_cancel _ = false

-- `cancel_slack_job`
unfoldable pub cancel_slack_job : ℕ → Action Job
cancel_slack_job job_id = do
  job ← get_job_or_404 job_id
  request_cancel job_id
  if can_cancel job.status then transition job cancelled none else pure job

-- SLACK_TABLES
unfoldable pub table_names : List (String × String)
table_names =
    ("messages", "bronze_slack_messages")
    ∷ ("users", "slack_users")
    ∷ ("channels", "slack_channels")
    ∷ ("threads", "slack_threads")
    ∷ ("files", "slack_files")
    ∷ ("reactions", "slack_reactions")
    ∷ []

abbrev key_of : String → String
key_of key = if str_eq key "historical" || str_eq key "realtime" then "messages" else key

-- The table that `inspect_clickhouse_table` shows.
unfoldable pub inspected_table : String → Result String
unfolding table_names lower
inspected_table object_name = elim (lookup (key_of (lower object_name)) table_names) [
  | some table ↦ ok table
  | none ↦ err (
      http_exception 404 (
        "Unknown Slack table '" <> object_name
        <> "'. Valid: ['channels', 'files', 'messages', 'reactions', 'threads', 'users']"))
]

-- class SlackEventRequest
pub record SlackEventRequest : Type 0 where
  pub channel_id : String
  pub user_id : String
  pub body : String
  pub message_ts : String
  pub thread_ts : Option String
  pub event_id : Option String

abbrev or_null : Option String → Json
or_null none = null
or_null (some s) = text s

-- `event.get("event_id")`, or the id that is made for it
abbrev pub event_id_of : SlackEventRequest → String
event_id_of r = elim r.event_id [
  | none ↦ r.channel_id <> ":" <> r.message_ts
  | some s ↦ if str_eq s "" then r.channel_id <> ":" <> r.message_ts else s
]

-- `payload.model_dump()`, with its "event_id" and its "id"
unfoldable pub event_of : SlackEventRequest → JsonObject
event_of r =
    ("channel_id", text r.channel_id)
    ∷ ("user_id", text r.user_id)
    ∷ ("text", text r.body)
    ∷ ("message_ts", text r.message_ts)
    ∷ ("thread_ts", or_null r.thread_ts)
    ∷ ("event_id", text (event_id_of r))
    ∷ ("id", text (event_id_of r))
    ∷ []

-- What `receive_realtime_event` returns.
pub data Receipt : Type 0 where
  parked : String → Bool → Receipt
  taken : Ingested → Receipt

-- `receive_realtime_event`
unfoldable pub receive_realtime_event : SlackEventRequest → Action Receipt
receive_realtime_event payload = do
  found ← gets active_realtime_job
  elim found [
    | none ↦ raise (http_exception 409 "No live realtime Slack job exists.")
    | some job ↦
        if is_running job.status
        then (do
          result ← ingest_realtime_event job.id (event_of payload) (org_or_default job.org_id)
          pure (taken result))
        else (do
          new ← buffer_event (org_or_default job.org_id) (event_of payload)
          pure (parked ("realtime job is " <> value job.status) new))
  ]

abbrev of_org : Option String → RealtimeMark → Bool
of_org none m = true
of_org (some org_id) m = if str_eq org_id "" then true else str_eq m.org_id org_id

-- `realtime_backlog`
unfoldable pub realtime_backlog : Option String → Action (ℕ × List RealtimeMark)
realtime_backlog org_id = gets (λ w. (backlog_size org_id w, filter (of_org org_id) w.marks))
