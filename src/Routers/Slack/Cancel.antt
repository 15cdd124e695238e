-- ===== src/Routers/Slack/Cancel.antt =====
-- What cancelling and pausing a Slack job does.
use glynac_ingestion_platfor.Common.{
  ℕ, String, ◌≡◌, refl, sym, ap, ◌∙◌, true, Option, none, some, List, ◌∷◌, map, arith, ==_refl,
}
use glynac_ingestion_platfor.Errors.{Result, ok}
use glynac_ingestion_platfor.Models.{
  Job, JobStatus, pending, running, paused, completed, failed, cancelled, cancel,
}
use glynac_ingestion_platfor.World.{World, modify, ◌>>=◌, find_job, touch, modify_job}
use glynac_ingestion_platfor.World.Rows.{find_job-id, find_job-modify_job}
use glynac_ingestion_platfor.Control.{set_control}
use glynac_ingestion_platfor.Audit.{log_audit}
use glynac_ingestion_platfor.Jobs.{set_status}
use glynac_ingestion_platfor.Jobs.Transitions.{
  moved_world, transition-allowed, Edge-allowed, set_status-KeepsId, Edge, abandon, stop,
  stop_paused, get_job_found,
}
use glynac_ingestion_platfor.Slack.{request_cancel, cancel_requested}
use glynac_ingestion_platfor.Slack.Client.{HistoryPage}
use glynac_ingestion_platfor.Slack.Backfill.{Worker, page, run_pool}
use glynac_ingestion_platfor.Slack.Backfill.Stop.{run_pool_stops}
use glynac_ingestion_platfor.Routers.Slack.{cancel_slack_job, can_cancel}

can_cancel-Edge : (s : JobStatus) → can_cancel s ≡ true → Edge s cancelled
can_cancel-Edge pending h = abandon
can_cancel-Edge running h = stop
can_cancel-Edge paused h = stop_paused
can_cancel-Edge completed h = cc
can_cancel-Edge failed h = cc
can_cancel-Edge cancelled h = cc

-- The state in which the events are set.
abbrev signalled : ℕ → World → World
signalled k w = record w { cancel_events = k ∷ w.cancel_events; pause_events = k ∷ w.pause_events }

-- The state in which the request stands, too.
abbrev asked_world : ℕ → World → World
asked_world k w = modify_job k (λ j. record j { control = some cancel }) (signalled k w)

-- Cancelling a Slack job that is PENDING, RUNNING or PAUSED: it succeeds, the job's row is CANCELLED,
-- and from then on no turn of a worker of its backfill changes anything: no page is fetched, no file
-- or row is written and no checkpoint is saved, whatever the workers were doing.
pub cancel_slack_job_stops :
    (sha1 : String → String) (fetch_page : String → Option String → Result HistoryPage)
    (org_id partition_date : String) (k : ℕ) (w : World) (job : Job) (turns : List ℕ)
    (vs : List Worker)
    → find_job k w ≡ some job
    → can_cancel job.status ≡ true
    → let (r, w') = cancel_slack_job k w in
      ((j : Job) × (r ≡ ok j) × (find_job k w' ≡ some j) × (j.status ≡ cancelled))
      × ((run_pool sha1 fetch_page k org_id partition_date (map page turns) vs w').1 ≡ w')
unfolding cancel_slack_job request_cancel set_control modify ◌>>=◌ moved_world log_audit set_status
    cancel_requested
cancel_slack_job_stops sha1 fetch_page org_id partition_date k w job turns vs found can =
    let same : job.id ≡ k = find_job-id k w job found in
    let u : World = asked_world k w in
    let marked =
      find_job-modify_job (λ j. record j { control = some cancel }) (λ j. refl) (signalled k w) k in
    let here : find_job job.id u
        ≡ some (touch w.now (λ j. record j { control = some cancel }) job) =
      ap (λ i. find_job i u) same ∙ cc (marked, found) in
    let eq =
      transition-allowed job cancelled none u _ here
        (Edge-allowed (can_cancel-Edge job.status can)) in
    let row =
      find_job-modify_job (set_status cancelled none) (set_status-KeepsId cancelled none) u
        job.id in
    rw (get_job_found k w job found, can, eq)
      (
        (
          _,
          refl,
          ap (λ i. find_job i (moved_world job cancelled none u)) (sym same) ∙ cc (row, here),
          refl,
        ),
        run_pool_stops sha1 fetch_page k org_id partition_date turns vs _
            (ground (arith, ==_refl k)),
      )
