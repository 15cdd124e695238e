-- ===== src/Slack/Realtime/Stream.antt =====
-- app/slack/engine.py: the start, the resumption and the recovery of a real-time job.
use glynac_ingestion_platfor.Common.{
  ℕ, suc, String, ◌<>◌, Bool, true, false, ◌&&◌, Option, none, some, ◌==◌, if◌then◌else◌, str_eq,
  length,
}
use glynac_ingestion_platfor.Common.Text.{show}
use glynac_ingestion_platfor.Errors.{Exception, message, Result}
use glynac_ingestion_platfor.Models.{Job, JobStatus, pending, running, failed}
use glynac_ingestion_platfor.World.{Action, gets, ◌>>=◌, ◌>>◌, catch, skip, find_job}
use glynac_ingestion_platfor.Audit.{log_audit}
use glynac_ingestion_platfor.Control.{claim_job, is_running}
use glynac_ingestion_platfor.Jobs.{transition}
use glynac_ingestion_platfor.Slack.Realtime.{drain_backlog}
use glynac_ingestion_platfor.Slack.Client.{HistoryPage}
use glynac_ingestion_platfor.Slack.Realtime.CatchUp.{catch_up}

abbrev is_pending : JobStatus → Bool
is_pending pending = true
is_pending _ = false

-- `job.org_id or "org1"`
abbrev org_of : Job → String
org_of job = elim job.org_id [ none ↦ "org1" | some s ↦ if str_eq s "" then "org1" else s ]

-- The `except` clause: a running job fails, and a resume retries it.
unfoldable pub fail_stream : ℕ → Exception → Option Job → Action (Unit {0})
fail_stream job_id exc none = skip
fail_stream job_id exc (some job) =
    if is_running job.status
    then (transition job failed (some ("real-time resume failed: " <> message exc)) >> skip)
    else skip

-- `if drained or caught:`, where both loops came to their ends.
unfoldable pub log_sync : ℕ → Option ℕ → Option ℕ → Action (Unit {0})
log_sync job_id (some drained) (some caught) =
    if drained == 0 && caught == 0
    then skip
    else log_audit job_id "REALTIME_SYNC" (
        some
          ("drained " <> show drained <> " buffered, caught up " <> show caught <> " from history"))
log_sync job_id _ _ = skip

module _ (boot_id fuel : ℕ) (authenticate : Result (Unit {0}))
    (fetch_page : String → Option String → String → Result HistoryPage) where
  -- The `try` block. The fuel of the drain is more than the backlog holds.
  unfoldable pub sync_stream : ℕ → String → Action (Unit {0})
  sync_stream job_id org_id = do
    size ← gets (λ w. length w.backlog)
    drained ← drain_backlog (suc size) job_id org_id 0
    caught ← catch_up fetch_page fuel authenticate job_id org_id
    log_sync job_id drained caught

  unfoldable pub start_stream : ℕ → Option Job → Action (Unit {0})
  start_stream job_id none = skip
  start_stream job_id (some job) = do
    if is_pending job.status then (transition job running none >> skip) else skip
    claim_job boot_id job_id
    catch (sync_stream job_id (org_of job))
        λ exc. do row ← gets (find_job job_id); fail_stream job_id exc row

  -- `create_realtime_job`: nothing happens when the job is gone.
  unfoldable pub create_realtime_job : ℕ → Action (Unit {0})
  create_realtime_job job_id = do job ← gets (find_job job_id); start_stream job_id job
