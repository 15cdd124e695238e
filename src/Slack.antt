-- ===== src/Slack.antt =====
-- app/slack/engine.py and app/slack/tables.py, what all of the ingestion shares: the pause and
-- cancel requests, the tables, and the rows that are made of the messages.
pub mod Client
pub mod Events
pub mod Realtime
pub mod Backfill
use glynac_ingestion_platfor.Common.{
  ℕ, String, Bool, true, false, ◌||◌, not, Option, none, some, List, [], ◌∷◌, if◌then◌else◌, ◌==◌,
  str_eq, any, filter,
}
use glynac_ingestion_platfor.Common.Maps.{lookup}
use glynac_ingestion_platfor.Common.Text.{codes}
use glynac_ingestion_platfor.Errors.{Result, ok, err, key_error}
use glynac_ingestion_platfor.Json.{Json, JsonObject, text, get, item, str, or_default}
use glynac_ingestion_platfor.Models.{Control, pause, cancel}
use glynac_ingestion_platfor.World.{
  World, Action, SchemaField, gets, lift, modify, ◌>>=◌, ◌>>◌, skip,
}
use glynac_ingestion_platfor.Time.{number_prefix, decimal, date_text, to_iso}
use glynac_ingestion_platfor.Control.{set_control, get_control, clear_control}
use glynac_ingestion_platfor.Storage.{put_object}
use glynac_ingestion_platfor.Sink.{ensure_table, ensure_slack_views, load_from_storage}

abbrev set_event : ℕ → List ℕ → List ℕ
set_event job_id events = job_id ∷ events

abbrev is_set : ℕ → List ℕ → Bool
is_set job_id events = any (λ i. i == job_id) events

abbrev pub clear_event : ℕ → List ℕ → List ℕ
clear_event job_id events = filter (λ i. not (i == job_id)) events

-- `request_pause`
unfoldable pub request_pause : ℕ → Action (Unit {0})
request_pause job_id = do
  modify λ w. record w { pause_events = set_event job_id w.pause_events }
  set_control job_id (some pause)

-- `request_cancel`
unfoldable pub request_cancel : ℕ → Action (Unit {0})
request_cancel job_id = do
  modify λ w. record w {
    cancel_events = set_event job_id w.cancel_events;
    pause_events = set_event job_id w.pause_events;
  }
  set_control job_id (some cancel)

-- `clear_control_events`
unfoldable pub clear_control_events : ℕ → Action (Unit {0})
clear_control_events job_id = do
  modify λ w. record w {
    pause_events = clear_event job_id w.pause_events;
    cancel_events = clear_event job_id w.cancel_events;
  }
  clear_control job_id

-- `get_control(job_id) == CANCEL`, and `in (PAUSE, CANCEL)`
abbrev is_cancel : Option Control → Bool
is_cancel (some cancel) = true
is_cancel _ = false

abbrev is_request : Option Control → Bool
is_request none = false
is_request (some _) = true

-- `_cancel_requested`
unfoldable pub cancel_requested : ℕ → World → Bool
cancel_requested job_id w = is_set job_id w.cancel_events || is_cancel (get_control job_id w)

-- `_pause_requested`
unfoldable pub pause_requested : ℕ → World → Bool
pause_requested job_id w = is_set job_id w.pause_events || is_request (get_control job_id w)

-- `_write_parquet`
unfoldable pub write_parquet : String → List JsonObject → Action (Unit {0})
write_parquet path [] = skip
write_parquet path (row ∷ rows) = put_object path (row ∷ rows)

-- `_KEYS`
unfoldable pub keys : List (String × List String)
keys =
    ("bronze_slack_messages", "message_id" ∷ [])
    ∷ ("slack_users", "user_id" ∷ [])
    ∷ ("slack_channels", "channel_id" ∷ [])
    ∷ ("slack_files", "channel_id" ∷ "file_id" ∷ [])
    ∷ ("slack_reactions", "message_id" ∷ "emoji" ∷ "user_id" ∷ [])
    ∷ []

-- SLACK_TABLES: the schemas. (The engines and orders are parts of the DDL that only ClickHouse reads.)
unfoldable pub slack_tables : List (String × List SchemaField)
slack_tables =
    (
      "bronze_slack_messages",
      ("message_id", "string")
          ∷ ("channel_id", "string")
          ∷ ("user_id", "string")
          ∷ ("text", "string")
          ∷ ("message_ts", "string")
          ∷ ("thread_ts", "string")
          ∷ ("source", "string")
          ∷ ("processing_date", "date")
          ∷ ("inserted_at", "datetime")
          ∷ [],
    )
    ∷ ("slack_users", ("user_id", "string") ∷ ("name", "string") ∷ ("real_name", "string") ∷ [])
    ∷ ("slack_channels", ("channel_id", "string") ∷ ("name", "string") ∷ [])
    ∷ (
      "slack_files",
      ("file_id", "string")
          ∷ ("message_id", "string")
          ∷ ("channel_id", "string")
          ∷ ("file_name", "string")
          ∷ ("file_type", "string")
          ∷ ("size", "int")
          ∷ [],
    )
    ∷ (
      "slack_reactions",
      ("message_id", "string")
          ∷ ("channel_id", "string")
          ∷ ("emoji", "string")
          ∷ ("user_id", "string")
          ∷ [],
    )
    ∷ []

unfoldable pub ensure_each : List (String × List SchemaField) → Action (Unit {0})
ensure_each [] = skip
ensure_each ((table, schema) ∷ tables) = do
  ensure_table table schema "salesforce"
  ensure_each tables

-- `_ensure_slack_tables`
unfoldable pub ensure_slack_tables : Action (Unit {0})
ensure_slack_tables = do
  ready ← gets (λ w. w.slack_tables_ready)
  if ready then skip else (do
    ensure_each slack_tables
    ensure_slack_views
    modify λ w. record w { slack_tables_ready = true })

-- `_KEYS[table]` and `SLACK_TABLES[table]["schema"]`
abbrev pub entry {ℓ} : {A : Type ℓ} → String → List (String × A) → Result A
entry table d = elim (lookup table d) [ none ↦ err (key_error table) | some v ↦ ok v ]

-- `_load_into_clickhouse`
unfoldable pub load_into_clickhouse :
    String → List String → List (String × String) → Action (Unit {0})
load_into_clickhouse table [] renames = skip
load_into_clickhouse table (path ∷ paths) renames = do
  ensure_slack_tables
  key_columns ← lift (entry table keys)
  schema ← lift (entry table slack_tables)
  load_from_storage table schema (path ∷ paths) "salesforce" renames key_columns key_columns

-- A row of the table of messages.
pub record Message : Type 0 where
  pub message_id : String
  pub channel_id : String
  pub user_id : String
  pub body : String
  pub message_ts : String
  pub thread_ts : Json
  pub source : String
  pub inserted_at : ℕ

-- The dict that `_normalize_rows` makes.
unfoldable pub message_row : Message → JsonObject
message_row m =
    ("id", text m.message_id)
    ∷ ("message_id", text m.message_id)
    ∷ ("channel_id", text m.channel_id)
    ∷ ("user_id", text m.user_id)
    ∷ ("text", text m.body)
    ∷ ("message_ts", text m.message_ts)
    ∷ ("thread_ts", m.thread_ts)
    ∷ ("source", text m.source)
    ∷ ("processing_date", text (date_text m.inserted_at))
    ∷ ("inserted_at", text (to_iso m.inserted_at))
    ∷ []

abbrev pub new_message : ℕ → String → JsonObject → String → Json → Json → Message
new_message now source row message_id channel_id message_ts = record {
  message_id = message_id;
  channel_id = str channel_id;
  user_id = str (or_default (get "user_id" row) (text "unknown"));
  body = str (or_default (get "text" row) (text ""));
  message_ts = str message_ts;
  thread_ts = get "thread_ts" row;
  source = source;
  inserted_at = now;
}

-- One row: `row["id"]`, `row["channel_id"]` and `row["message_ts"]` must be there.
abbrev pub normalize_row : ℕ → String → JsonObject → String → Result Message
normalize_row now source row message_id = elim (item "channel_id" row) [
  | err e ↦ err e
  | ok channel_id ↦ elim (item "message_ts" row) [
    | err e ↦ err e
    | ok message_ts ↦ ok (new_message now source row message_id channel_id message_ts)
  ]
]

abbrev pub cons_ok : Result Message → Result (List Message) → Result (List Message)
cons_ok (err e) _ = err e
cons_ok (ok m) (err e) = err e
cons_ok (ok m) (ok ms) = ok (m ∷ ms)

-- `_normalize_rows`, with the ids that were seen before: the first message with an id is kept.
unfoldable pub normalize_rows : ℕ → String → List String → List JsonObject → Result (List Message)
unfolding str
normalize_rows now source seen [] = ok []
normalize_rows now source seen (row ∷ rows) = elim (item "id" row) [
  | err e ↦ err e
  | ok id ↦
      let again = normalize_rows now source seen rows in
      let rest = normalize_rows now source (str id ∷ seen) rows in
      if any (str_eq (str id)) seen
      then again
      else cons_ok (normalize_row now source row (str id)) rest
]

-- `float(ts)`, in millionths, of the timestamps that Slack sends: digits, and a fraction of up to
-- six digits. A text that does not begin with a digit cannot be read.
unfoldable pub ts_value : String → Option ℕ
ts_value ts = decimal (codes ts)

-- `CAST(ts AS FLOAT)` of SQLite: the number that the text begins with.
unfoldable pub cast_float : String → ℕ
cast_float ts = (number_prefix 0 (codes ts)).0
