-- ===== src/Slack/Backfill/Run.antt =====
-- app/slack/engine.py: `run_historical_backfill` and `seed_metadata`, around the pool of workers. What
-- the client answers, behind the retries, is a parameter; `authenticate` stands for making the
-- client and for its first call.
use glynac_ingestion_platfor.Common.{
  ℕ, String, ◌<>◌, Bool, true, false, Option, none, some, List, [], ◌∷◌, if◌then◌else◌, ◌==◌, ltb,
  map, find, any, length,
}
use glynac_ingestion_platfor.Common.Maps.{insert}
use glynac_ingestion_platfor.Common.Text.{show, codes, join}
use glynac_ingestion_platfor.Errors.{Exception, message, Result, ok, err}
use glynac_ingestion_platfor.Json.{Json, JsonObject, text, put, item, str}
use glynac_ingestion_platfor.Models.{
  Job, JobStatus, pending, running, paused, completed, failed, cancelled, ChannelCheckpoint,
}
use glynac_ingestion_platfor.World.{
  World, Action, pure, gets, lift, modify, ◌>>=◌, ◌>>◌, catch, skip, find_job,
}
use glynac_ingestion_platfor.Time.{date_text}
use glynac_ingestion_platfor.Control.{claim_job}
use glynac_ingestion_platfor.Jobs.{transition}
use glynac_ingestion_platfor.Slack.{
  cancel_requested, pause_requested, clear_event, write_parquet, load_into_clickhouse,
}
use glynac_ingestion_platfor.Slack.Client.{HistoryPage}
use glynac_ingestion_platfor.Slack.Backfill.{is_checkpoint, Worker, working, broken, Turn, run_pool}

abbrev pub is_pending : JobStatus → Bool
is_pending pending = true
is_pending _ = false

abbrev pub is_paused : JobStatus → Bool
is_paused paused = true
is_paused _ = false

-- `{**row, "organisation_id": org_id}`
abbrev with_org : String → JsonObject → JsonObject
with_org org_id row = put "organisation_id" (text org_id) row

abbrev pub new_worker : String → Option String → Worker
new_worker channel_id cursor = record {
  channel_id = channel_id;
  cursor = cursor;
  rows_written = 0;
  standing = working;
}

abbrev pub start_at : Option ChannelCheckpoint → Option (Option String)
start_at none = some none
start_at (some c) = if c.completed then none else some c.cursor

-- Where a channel starts: none when it is already fully backfilled.
unfoldable pub start_of : ℕ → String → World → Option (Option String)
start_of job_id channel_id w = start_at (find (is_checkpoint job_id channel_id) w.checkpoints)

-- One channel of the loop: a worker for it, unless it is complete.
abbrev pub with_worker : String → Option (Option String) → List Worker → List Worker
with_worker channel_id none rest = rest
with_worker channel_id (some cursor) rest = new_worker channel_id cursor ∷ rest

abbrev pub add_worker : ℕ → World → Result Json → Result (List Worker) → Result (List Worker)
add_worker job_id w (err e) rest = err e
add_worker job_id w (ok id) (err e) = err e
add_worker job_id w (ok id) (ok rest) = ok (with_worker (str id) (start_of job_id (str id) w) rest)

-- The loop that collects `work_items`.
unfoldable pub work_items : ℕ → World → List JsonObject → Result (List Worker)
work_items job_id w [] = ok []
work_items job_id w (channel ∷ channels) =
    add_worker job_id w (item "id" channel) (work_items job_id w channels)

abbrev pub at_work : Worker → Bool
at_work v = elim v.standing [ working ↦ true | _ ↦ false ]

-- The channels whose worker raised, with the text of the exception.
unfoldable pub failures : List Worker → List (String × String)
failures [] = []
failures (v ∷ vs) = elim v.standing [
  | broken why ↦ insert v.channel_id why (failures vs)
  | _ ↦ failures vs
]

-- The order of texts is the order of their code points.
unfoldable pub before : List ℕ → List ℕ → Bool
before [] _ = true
before (c ∷ cs) [] = false
before (c ∷ cs) (d ∷ ds) = let rest = before cs ds in if c == d then rest else ltb c d

unfoldable pub insert_sorted : String × String → List (String × String) → List (String × String)
insert_sorted x [] = x ∷ []
insert_sorted x (y ∷ ys) =
    let rest = insert_sorted x ys in if before (codes x.0) (codes y.0) then x ∷ y ∷ ys else y ∷ rest

unfoldable pub sorted_failures : List (String × String) → List (String × String)
sorted_failures [] = []
sorted_failures (x ∷ xs) = insert_sorted x (sorted_failures xs)

-- The detail of a FAILED job.
unfoldable pub failure_detail : List (String × String) → String
failure_detail down =
    show (length down)
    <> " channel(s) failed: "
    <> join "; " (map (λ (f : String × String). f.0 <> ": " <> f.1) (sorted_failures down))

-- The status that a run ends with.
unfoldable pub conclude : List (String × String) → ℕ → Job → Bool → Bool → Action (Unit {0})
conclude down n job true _ = transition job cancelled none >> skip
conclude down n job false true =
    if is_paused job.status then skip else transition job paused none >> skip
conclude [] n job false false =
    transition job completed
      (some (show job.row_count <> " messages from " <> show n <> " channels"))
    >> skip
conclude (f ∷ fs) n job false false = transition job failed (some (failure_detail (f ∷ fs))) >> skip

-- The part after the pool.
unfoldable pub finish : ℕ → List (String × String) → ℕ → Action (Unit {0})
finish job_id down n = do
  found ← gets (find_job job_id)
  cancelling ← gets (cancel_requested job_id)
  pausing ← gets (pause_requested job_id)
  elim found [ none ↦ skip | some job ↦ conclude down n job cancelling pausing ]

-- The `except` clause: the job fails, if it can.
unfoldable pub give_up : ℕ → Exception → Action Bool
give_up job_id exc = do
  found ← gets (find_job job_id)
  elim found [
    | none ↦ pure true
    | some job ↦ catch (transition job failed (some (message exc)) >> pure true) (λ _. pure true)
  ]

-- The `finally` clause
unfoldable pub pop_events : ℕ → Action (Unit {0})
pop_events job_id = modify λ w. record w {
  pause_events = clear_event job_id w.pause_events;
  cancel_events = clear_event job_id w.cancel_events;
}

module _ (sha1 : String → String) (boot_id : ℕ) (authenticate : Result (Unit {0}))
    (list_channels list_users : Result (List JsonObject))
    (fetch_page : String → Option String → Result HistoryPage) where
  -- `seed_metadata`
  unfoldable pub seed_metadata : String → Action (Unit {0})
  seed_metadata org_id = do
    users ← lift list_users
    channels ← lift list_channels
    write_parquet ("slack/metadata/" <> org_id <> "/users.parquet") (map (with_org org_id) users)
    write_parquet ("slack/metadata/" <> org_id <> "/channels.parquet")
        (map (with_org org_id) channels)
    load_into_clickhouse "slack_users" (("slack/metadata/" <> org_id <> "/users.parquet") ∷ [])
        (("user_id", "id") ∷ [])
    load_into_clickhouse "slack_channels"
        (("slack/metadata/" <> org_id <> "/channels.parquet") ∷ []) (("channel_id", "id") ∷ [])

  -- The pool, of the channels that are not complete. It returns when no worker is at work: `none` when
  -- the schedule ends before.
  unfoldable pub backfill_channels :
      ℕ → String → String → List Turn → List JsonObject → Action (Option (List Worker))
  backfill_channels job_id org_id partition_date schedule channels = do
    workers ← λ w. (work_items job_id w channels, w)
    λ w.
        (let (vs, w') = run_pool sha1 fetch_page job_id org_id partition_date schedule workers w in
          (ok (if any at_work vs then none else some vs), w'))

  -- The `try` block, for a job that is there: whether the schedule was long enough.
  unfoldable pub backfill : ℕ → String → List Turn → Job → Action Bool
  backfill job_id org_id schedule job = do
    if is_pending job.status then transition job running none >> skip else skip
    claim_job boot_id job_id
    lift authenticate
    channels ← lift list_channels
    seed_metadata org_id
    pool ← backfill_channels job_id org_id (date_text job.created_at) schedule channels
    elim pool [
      | none ↦ pure false
      | some workers ↦ finish job_id (failures workers) (length channels) >> pure true
    ]

  -- `run_historical_backfill`, with the schedule of its workers.
  unfoldable pub run_historical_backfill : ℕ → String → List Turn → Action Bool
  run_historical_backfill job_id org_id schedule = do
    found ← gets (find_job job_id)
    over ← elim found [
      | none ↦ pure true
      | some job ↦ catch (backfill job_id org_id schedule job) (give_up job_id)
    ]
    if over then pop_events job_id >> pure true else pure false
