-- ===== src/Slack/Realtime.antt =====
-- app/slack/engine.py: the real-time stream. Events are ingested or kept for later, the backlog is
-- drained, and the gap after an outage is read from the history.
pub mod Effects
pub mod Once
pub mod Backlog
pub mod Kept
pub mod Drain
pub mod Marks
pub mod CatchUp
pub mod Stream
use glynac_ingestion_platfor.Common.{
  ℕ, zero, suc, ◌+◌, String, ◌<>◌, Bool, true, false, ◌&&◌, not, Option, none, some, List, [], ◌∷◌,
  ◌++◌, if◌then◌else◌, str_eq, any, find, count, erase_first, update_where, ltb, length,
}
use glynac_ingestion_platfor.Common.Text.{replace}
use glynac_ingestion_platfor.Errors.{Exception, message, Result, ok, err, value_error}
use glynac_ingestion_platfor.Json.{JsonObject, get, str}
use glynac_ingestion_platfor.Models.{
  Job, JobStatus, pending, running, paused, failed, RealtimeBacklog, RealtimeMark, RealtimeSeen,
}
use glynac_ingestion_platfor.World.{
  World, Action, pure, raise, gets, lift, modify, ◌>>=◌, ◌>>◌, catch, skip, find_job, modify_job,
}
use glynac_ingestion_platfor.Time.{date_text}
use glynac_ingestion_platfor.Audit.{log_audit, send_to_dead_letter}
use glynac_ingestion_platfor.Slack.{
  write_parquet, load_into_clickhouse, Message, message_row, normalize_rows, ts_value, cast_float,
}

-- `_message_date`
unfoldable pub message_date : String → ℕ → String
message_date message_ts now = elim (ts_value message_ts) [
  | none ↦ date_text now
  | some t ↦ date_text t
]

abbrev pub has_mark : String → String → RealtimeMark → Bool
has_mark org_id channel_id m = str_eq m.org_id org_id && str_eq m.channel_id channel_id

-- The UPDATE of `advance_mark`.
unfoldable pub raise_mark : String → String → String → ℕ → World → World
raise_mark org_id channel_id message_ts t w = record w {
  marks =
      update_where (λ m. has_mark org_id channel_id m && ltb (cast_float m.message_ts) t)
        (λ m. record m { message_ts = message_ts }) w.marks;
}

abbrev float : String → Result ℕ
float ts = elim (ts_value ts) [
  | none ↦ err (value_error ("could not convert string to float: " <> ts))
  | some t ↦ ok t
]

-- `advance_mark`
unfoldable pub advance_mark : String → String → String → Action (Unit {0})
advance_mark org_id channel_id message_ts = do
  taken ← gets (λ w. any (has_mark org_id channel_id) w.marks)
  if taken
      then (do t ← lift (float message_ts); modify (raise_mark org_id channel_id message_ts t))
      else modify λ w. record w {
        marks =
            w.marks
            ++ record { org_id = org_id; channel_id = channel_id; message_ts = message_ts } ∷ [];
      }

-- What `ingest_realtime_event` returns.
pub data Ingested : Type 0 where
  ignored : Ingested
  ingested : Bool → String → String → Ingested

abbrev pub has_seen : String → String → RealtimeSeen → Bool
has_seen org_id message_id s = str_eq s.org_id org_id && str_eq s.message_id message_id

-- The "seen" record and the counter, in one commit.
abbrev pub count_new : ℕ → String → String → World → World
count_new job_id org_id message_id w =
    record (modify_job job_id (λ j. record j { row_count = j.row_count + 1 }) w) {
      seen = w.seen ++ record { org_id = org_id; message_id = message_id } ∷ [];
    }

-- Counts a message, unless it was seen before: whether it was.
unfoldable pub count_once : ℕ → String → String → Action Bool
count_once job_id org_id message_id w =
    if any (has_seen org_id message_id) w.seen
    then (ok true, w)
    else (ok false, count_new job_id org_id message_id w)

unfoldable pub parquet_path : String → Message → ℕ → String
parquet_path org_id row now =
    "slack/realtime/"
    <> org_id
    <> "/"
    <> "channel_id="
    <> row.channel_id
    <> "/"
    <> "processing_date="
    <> message_date row.message_ts now
    <> "/"
    <> replace b':' "_" row.message_id
    <> ".parquet"

-- The work on one row.
unfoldable pub ingest_row : ℕ → String → Message → Action Ingested
ingest_row job_id org_id row = do
  path ← gets (λ w. parquet_path org_id row w.now)
  write_parquet path (message_row row ∷ [])
  load_into_clickhouse "bronze_slack_messages" (path ∷ []) []
  duplicate ← count_once job_id org_id row.message_id
  catch (advance_mark org_id row.channel_id row.message_ts) (λ _. skip)
  pure (ingested duplicate row.message_id path)

-- The first row, if there is one.
unfoldable pub ingest_rows : ℕ → String → List Message → Action Ingested
ingest_rows job_id org_id [] = pure ignored
ingest_rows job_id org_id (row ∷ rows) = ingest_row job_id org_id row

-- The `try` block.
unfoldable pub ingest_body : ℕ → JsonObject → String → Action Ingested
ingest_body job_id event org_id = do
  now ← gets (λ w. w.now)
  rows ← lift (normalize_rows now "realtime" [] (event ∷ []))
  ingest_rows job_id org_id rows

-- The `except` clause: a dead letter, and the exception again.
unfoldable pub bury : ℕ → JsonObject → Exception → Action Ingested
bury job_id event exc = do
  job ← gets (find_job job_id)
  elim job [ none ↦ skip | some j ↦ send_to_dead_letter job_id event (message exc) ]
  raise exc

-- `ingest_realtime_event`
unfoldable pub ingest_realtime_event : ℕ → JsonObject → String → Action Ingested
ingest_realtime_event job_id event org_id =
    catch (ingest_body job_id event org_id) (bury job_id event)

-- LIVE_STATUSES
abbrev pub is_live : JobStatus → Bool
is_live running = true
is_live paused = true
is_live pending = true
is_live failed = true
is_live _ = false

abbrev pub is_stream : Job → Bool
is_stream j =
    str_eq j.service "slack"
    && (elim j.object_name [ none ↦ false | some o ↦ str_eq o "realtime" ])
    && is_live j.status

-- Of two jobs, the one created later; of two at the same time the first.
abbrev pub newer : Job → Option Job → Option Job
newer j none = some j
newer j (some k) = if ltb j.created_at k.created_at then some k else some j

abbrev pub newest_stream : List Job → Option Job
newest_stream [] = none
newest_stream (j ∷ js) = let rest = newest_stream js in if is_stream j then newer j rest else rest

-- `active_realtime_job`
unfoldable pub active_realtime_job : World → Option Job
active_realtime_job w = newest_stream w.jobs

-- `{k: event.get(k) for k in (...)}`
abbrev pub event_fields : JsonObject → JsonObject
event_fields event =
    ("id", get "id" event)
    ∷ ("channel_id", get "channel_id" event)
    ∷ ("user_id", get "user_id" event)
    ∷ ("text", get "text" event)
    ∷ ("message_ts", get "message_ts" event)
    ∷ ("thread_ts", get "thread_ts" event)
    ∷ []

abbrev pub is_buffered : String → String → RealtimeBacklog → Bool
is_buffered org_id message_id r = str_eq r.org_id org_id && str_eq r.message_id message_id

-- `buffer_event`
unfoldable pub buffer_event : String → JsonObject → Action Bool
unfolding str
buffer_event org_id event w =
    if any (is_buffered org_id (str (get "id" event))) w.backlog then (ok false, w) else (
      ok true,
      record w {
        backlog =
            w.backlog
            ++ record {
              org_id = org_id;
              message_id = str (get "id" event);
              payload = event_fields event;
              received_at = w.now;
            }
              ∷ [];
      },
    )

abbrev pub of_org : String → RealtimeBacklog → Bool
of_org org_id r = str_eq r.org_id org_id

-- `backlog_size`: of one organisation, or of all when there is none or it is empty.
unfoldable pub backlog_size : Option String → World → ℕ
backlog_size none w = length w.backlog
backlog_size (some org_id) w =
    if str_eq org_id "" then length w.backlog else count (of_org org_id) w.backlog

-- What `ingest_or_buffer` returns.
pub data Outcome : Type 0 where
  done : Ingested → Outcome
  buffered : String → Outcome

-- The `except` clause of `ingest_or_buffer`.
unfoldable pub keep_event : ℕ → JsonObject → String → Exception → Action Outcome
keep_event job_id event org_id exc = do
  buffer_event org_id event
  log_audit job_id "BUFFERED" (some ("ingest failed, event kept for retry: " <> message exc))
  pure (buffered (message exc))

-- `ingest_or_buffer`
unfoldable pub ingest_or_buffer : ℕ → JsonObject → String → Action Outcome
ingest_or_buffer job_id event org_id =
    catch (do result ← ingest_realtime_event job_id event org_id; pure (done result))
      (keep_event job_id event org_id)

-- One turn of the loop of `drain_backlog`, with the rest of the loop.
unfoldable pub drain_turn :
    ℕ → String → ℕ → (ℕ → Action (Option ℕ)) → Option RealtimeBacklog → Action (Option ℕ)
drain_turn job_id org_id drained again none = pure (some drained)
drain_turn job_id org_id drained again (some r) = do
  ingest_realtime_event job_id r.payload org_id
  modify λ w. record w { backlog = erase_first (of_org org_id) w.backlog }
  again (drained + 1)

-- `drain_backlog`: the loop, on fuel. The result is `none` when the fuel ran out.
unfoldable pub drain_backlog : ℕ → ℕ → String → ℕ → Action (Option ℕ)
drain_backlog zero job_id org_id drained = pure none
drain_backlog (suc fuel) job_id org_id drained = do
  row ← gets (λ w. find (of_org org_id) w.backlog)
  drain_turn job_id org_id drained (drain_backlog fuel job_id org_id) row
