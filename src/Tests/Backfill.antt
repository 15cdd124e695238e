-- ===== src/Tests/Backfill.antt =====
-- The historical backfill of Slack, its client and its endpoints.
use glynac_ingestion_platfor.Common.{
  String, ◌<>◌, ◌≡◌, ◌≢◌, ap, refl, true, false, Option, none, some, List, [], ◌∷◌, if◌then◌else◌,
  map, All, str_eq,
}
use glynac_ingestion_platfor.Errors.{Result, ok, err, transient_error}
use glynac_ingestion_platfor.Json.{JsonObject, text, str}
use glynac_ingestion_platfor.Models.{Job, running, cancelled}
use glynac_ingestion_platfor.World.{World, find_job}
use glynac_ingestion_platfor.Slack.{cancel_requested, pause_requested}
use glynac_ingestion_platfor.Slack.Client.{SlackMessage, HistoryPage}
use glynac_ingestion_platfor.Slack.Backfill.{Worker, Turn, page, run_pool}
use glynac_ingestion_platfor.Slack.Backfill.Count.{counted, plus, written, run_pool_counts}
use glynac_ingestion_platfor.Slack.Backfill.Resume.{Resumable, Distinct, resume_continues}
use glynac_ingestion_platfor.Slack.Backfill.Run.{start_of, work_items, new_worker, finish}
use glynac_ingestion_platfor.Slack.Backfill.Verdict.{EndedIn, verdict, finish_ends}
use glynac_ingestion_platfor.Routers.Slack.{cancel_slack_job}
use glynac_ingestion_platfor.Routers.Slack.Cancel.{cancel_slack_job_stops}
use glynac_ingestion_platfor.Tests.Base.{job_with, world_with}

abbrev digest : String → String
digest s = "000000000000"

-- A message of a channel, as the client hands it on.
abbrev message : String → SlackMessage
message ts = record {
  fields =
      ("id", text ("C1:" <> ts))
      ∷ ("channel_id", text "C1")
      ∷ ("text", text "hello")
      ∷ ("message_ts", text ts)
      ∷ [];
  files = [];
  reactions = [];
}

-- The first page of a channel has two messages and the second one; another channel cannot be read.
abbrev history : String → Option String → Result HistoryPage
history channel_id none =
    if str_eq channel_id "C1"
    then ok (record {
      messages = message "2" ∷ message "3" ∷ [];
      next_cursor = some "next";
      has_more = true;
    })
    else err (transient_error "server error 500")
history channel_id (some cursor) =
    ok (record { messages = message "1" ∷ []; next_cursor = none; has_more = false })

abbrev job : Job
job = record (job_with 1 running) { service = "slack"; object_name = some "historical" }

abbrev start : World
start = world_with (job ∷ [])

abbrev channels : List JsonObject
channels = (("id", text "C1") ∷ []) ∷ (("id", text "C2") ∷ []) ∷ []

abbrev workers : List Worker
workers = new_worker "C1" none ∷ new_worker "C2" none ∷ []

abbrev schedule : List Turn
schedule = page 0 ∷ page 1 ∷ page 0 ∷ Turn.pause ∷ page 1 ∷ []

work_items_run : work_items 1 start channels ≡ ok workers
unfolding work_items start_of str
work_items_run = refl

abbrev second_channel : String
second_channel = "C2"

other_channel : second_channel ≢ "C1"
other_channel same = let clash : false ≡ true = ap (λ c. str_eq c "C1") same in cc clash

workers_Distinct : Distinct ("C1" ∷ "C2" ∷ [])
workers_Distinct = ((other_channel, tt), (tt, tt))

run_pool_counts_example :
    plus
      (written workers)
      (counted 1 (run_pool digest history 1 "org1" "2026-01-01" schedule workers start).1)
    ≡ plus
        (written (run_pool digest history 1 "org1" "2026-01-01" schedule workers start).0)
        (counted 1 start)
run_pool_counts_example =
    run_pool_counts digest history 1 "org1" "2026-01-01" schedule workers start

resume_continues_example :
    let (vs, w) = run_pool digest history 1 "org1" "2026-01-01" schedule workers start in
    All (Resumable history 1 w) vs
resume_continues_example =
    resume_continues digest history 1 "org1" "2026-01-01" schedule start channels workers
      work_items_run workers_Distinct

finish_ends_example :
    EndedIn 1
      (verdict
        (("C2", "server error 500") ∷ [])
        (cancel_requested 1 start)
        (pause_requested 1 start))
      (finish 1 (("C2", "server error 500") ∷ []) 2 start)
finish_ends_example = finish_ends 1 start job (("C2", "server error 500") ∷ []) 2 refl refl

cancel_slack_job_stops_example :
    let (r, w') = cancel_slack_job 1 start in
    ((j : Job) × (r ≡ ok j) × (find_job 1 w' ≡ some j) × (j.status ≡ cancelled))
    × ((run_pool digest history 1 "org1" "2026-01-01" (map page (0 ∷ 1 ∷ [])) workers w').1 ≡ w')
cancel_slack_job_stops_example =
    cancel_slack_job_stops digest history "org1" "2026-01-01" 1 start job (0 ∷ 1 ∷ []) workers refl
      refl
