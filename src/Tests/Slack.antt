-- ===== src/Tests/Slack.antt =====
-- The real-time stream.
use glynac_ingestion_platfor.Common.{
  none, false, Option, ◌≤◌, find, ◌+◌, String, ◌≡◌, refl, some, [], ◌∷◌, arith, length,
}
use glynac_ingestion_platfor.Errors.{Result, ok, infrastructure_unavailable}
use glynac_ingestion_platfor.Json.{JsonObject, text}
use glynac_ingestion_platfor.Models.{Job, RealtimeMark, running}
use glynac_ingestion_platfor.World.{World, find_job}
use glynac_ingestion_platfor.Time.{fraction, number_prefix}
use glynac_ingestion_platfor.Slack.{ts_value, cast_float}
use glynac_ingestion_platfor.Slack.Client.{HistoryPage, SlackMessage}
use glynac_ingestion_platfor.Slack.Realtime.CatchUp.{catch_up, catch_up_counts_once}
use glynac_ingestion_platfor.Slack.Realtime.Marks.{advance_mark_forward}
use glynac_ingestion_platfor.Slack.Realtime.{has_mark, advance_mark, drain_backlog, event_fields}
use glynac_ingestion_platfor.Slack.Realtime.Once.{
  SeenOnce, arrive, drain, stream_run, messages_counted_once,
}
use glynac_ingestion_platfor.Slack.Realtime.Drain.{Drained, drain_backlog_ends}
use glynac_ingestion_platfor.Slack.Realtime.Kept.{Kept}
use glynac_ingestion_platfor.Tests.Base.{job_with, world_with}

abbrev event : String → JsonObject
event id =
    ("id", text id)
    ∷ ("channel_id", text "C1")
    ∷ ("text", text "hello")
    ∷ ("message_ts", text "1700000000.000100")
    ∷ []

abbrev stream : Job
stream = job_with 1 running

abbrev live : World
live = world_with (stream ∷ [])

-- The storage fails at the first call.
abbrev outage : World
outage = record live { faults = some (infrastructure_unavailable "MinIO is unreachable") ∷ [] }

abbrev waiting : World
waiting = record live {
  backlog =
      record {
        org_id = "org1";
        message_id = "C1:1";
        payload = event_fields (event "C1:1");
        received_at = 5;
      }
      ∷ [];
}

nothing_seen : SeenOnce live
nothing_seen org_id message_id = omega arith

messages_counted_once_example :
    let ops = arrive (event "C1:1") "org1" ∷ arrive (event "C1:1") "org1" ∷ drain 3 "org1" ∷ [] in
    let w' = stream_run 1 ops live in
    ((j' : Job) × (find_job 1 w' ≡ some j')
      × (j'.row_count + length live.seen ≡ stream.row_count + length w'.seen))
    × SeenOnce w'
messages_counted_once_example =
    messages_counted_once 1
      (arrive (event "C1:1") "org1" ∷ arrive (event "C1:1") "org1" ∷ drain 3 "org1" ∷ []) live
      stream refl nothing_seen

drain_backlog_ends_example : Drained 1 "org1" 0 waiting (drain_backlog 2 1 "org1" 0 waiting)
drain_backlog_ends_example = drain_backlog_ends 2 1 "org1" 0 waiting (omega arith)

abbrev mark : RealtimeMark
mark = record { org_id = "org1"; channel_id = "C1"; message_ts = "1700000000.000100" }

abbrev marked : World
marked = record live { marks = mark ∷ [] }

mark_found : find (has_mark "org1" "C1") marked.marks ≡ some mark
mark_found = refl

readable : ts_value "1700000001.5" ≡ some 1700000001500000
unfolding ts_value number_prefix fraction
readable = refl

advance_mark_forward_example :
    let w' = (advance_mark "org1" "C1" "1700000001.5" marked).1 in
    (new : RealtimeMark) × (find (has_mark "org1" "C1") w'.marks ≡ some new)
    × (cast_float mark.message_ts ≤ cast_float new.message_ts)
    × (1700000001500000 ≤ cast_float new.message_ts)
advance_mark_forward_example =
    advance_mark_forward "org1" "C1" "1700000001.5" 1700000001500000 marked mark mark_found readable

abbrev bare : JsonObject → SlackMessage
bare fields = record { fields = fields; files = []; reactions = [] }

abbrev history : String → Option String → String → Result HistoryPage
history channel_id cursor oldest = ok (record {
  messages = bare (event "C1:2") ∷ bare (event "C1:1") ∷ [];
  next_cursor = none;
  has_more = false;
})

nothing_seen_marked : SeenOnce marked
nothing_seen_marked org_id message_id = omega arith

catch_up_counts_once_example :
    let w' = (catch_up history 3 (ok tt) 1 "org1" marked).1 in
    ((j' : Job) × (find_job 1 w' ≡ some j')
      × (j'.row_count + length marked.seen ≡ stream.row_count + length w'.seen))
    × SeenOnce w'
catch_up_counts_once_example =
    catch_up_counts_once history 3 (ok tt) 1 "org1" marked stream refl nothing_seen_marked
