-- ===== src/Slack/Backfill.antt =====
-- app/slack/engine.py: the historical backfill. Each channel has a worker thread of its own; a page is
-- its unit of work. The threads run in turns: a schedule says which worker takes its next page, and
-- when a request to pause or to cancel arrives. The client is a parameter, behind the retries.
pub mod Count
pub mod Run
pub mod Resume
pub mod Verdict
pub mod Stop
use glynac_ingestion_platfor.Common.{
  ℕ, zero, suc, ◌+◌, String, ◌<>◌, Bool, true, false, ◌&&◌, ◌||◌, not, Option, none, some, List, [],
  ◌∷◌, ◌++◌, if◌then◌else◌, ◌==◌, map, length, str_eq, upsert,
}
use glynac_ingestion_platfor.Errors.{message, value_error, Result, ok, err}
use glynac_ingestion_platfor.Json.{
  Json, JsonObject, null, bool, num, text, get, item, str, or_default,
}
use glynac_ingestion_platfor.Models.{completed, ChannelCheckpoint}
use glynac_ingestion_platfor.World.{
  World, Action, pure, gets, lift, modify, ◌>>=◌, ◌>>◌, modify_job,
}
use glynac_ingestion_platfor.Slack.{
  request_pause, request_cancel, cancel_requested, pause_requested, write_parquet,
  load_into_clickhouse, Message, message_row, normalize_rows,
}
use glynac_ingestion_platfor.Slack.Client.{SlackMessage, Reaction, HistoryPage}

-- `int(size or 0)`
abbrev pub int_of : Json → Result ℕ
int_of null = ok 0
int_of (bool true) = ok 1
int_of (bool false) = ok 0
int_of (num n) = ok n
int_of (text s) = if str_eq s "" then ok 0 else err (value_error "invalid literal for int()")

-- The row of one file.
abbrev pub file_row : Json → Json → JsonObject → Result JsonObject
file_row id channel_id f = elim (int_of (get "size" f)) [
  | err e ↦ err e
  | ok size ↦ ok (
      ("file_id", text (str (get "id" f)))
      ∷ ("message_id", text (str id))
      ∷ ("channel_id", text (str channel_id))
      ∷ ("file_name", or_default (get "name" f) (text ""))
      ∷ ("file_type", or_default (get "filetype" f) (text ""))
      ∷ ("size", num size)
      ∷ [])
]

unfoldable pub files_of : Json → Json → List JsonObject → Result (List JsonObject)
files_of id channel_id [] = ok []
files_of id channel_id (f ∷ fs) = elim (file_row id channel_id f) [
  | err e ↦ err e
  | ok row ↦ elim (files_of id channel_id fs) [ err e ↦ err e | ok rows ↦ ok (row ∷ rows) ]
]

abbrev reaction_row : Json → Json → Json → String → JsonObject
reaction_row id channel_id name user =
    ("message_id", text (str id))
    ∷ ("channel_id", text (str channel_id))
    ∷ ("emoji", or_default name (text ""))
    ∷ ("user_id", text user)
    ∷ []

unfoldable pub reactions_of : Json → Json → List Reaction → List JsonObject
reactions_of id channel_id [] = []
reactions_of id channel_id (r ∷ rs) =
    map (reaction_row id channel_id r.name) r.users ++ reactions_of id channel_id rs

-- The rows of each message that has any: `m["id"]` and `m["channel_id"]` are read for those only.
unfoldable pub rows_of_messages :
    {A : Type 0}
    → (SlackMessage → List A)
    → (Json → Json → List A → Result (List JsonObject))
    → List SlackMessage
    → Result (List JsonObject)
rows_of_messages part rows [] = ok []
rows_of_messages part rows (m ∷ ms) =
    let rest = rows_of_messages part rows ms in
    elim (part m) [
      | [] ↦ rest
      | f ∷ fs ↦ elim (item "id" m.fields) [
        | err e ↦ err e
        | ok id ↦ elim (item "channel_id" m.fields) [
          | err e ↦ err e
          | ok channel_id ↦ elim (rows id channel_id (f ∷ fs)) [
            | err e ↦ err e
            | ok rs ↦ elim rest [ err e ↦ err e | ok more ↦ ok (rs ++ more) ]
          ]
        ]
      ]
    ]

-- `_file_rows`
unfoldable pub file_rows : List SlackMessage → Result (List JsonObject)
file_rows = rows_of_messages (λ m. m.files) files_of

-- `_reaction_rows`
unfoldable pub reaction_rows : List SlackMessage → Result (List JsonObject)
reaction_rows =
    rows_of_messages (λ m. m.reactions) (λ id channel_id rs. ok (reactions_of id channel_id rs))

-- `if rows:` the file is written, and its path is one to load.
unfoldable pub land_rows : String → List JsonObject → Action (List String)
land_rows path [] = pure []
land_rows path (row ∷ rows) = do write_parquet path (row ∷ rows); pure (path ∷ [])

-- `_cursor_label`: twelve digits of a digest.
abbrev pub cursor_label : (String → String) → Option String → String
cursor_label sha1 none = "0"
cursor_label sha1 (some cursor) = if str_eq cursor "" then "0" else sha1 cursor

abbrev pub is_checkpoint : ℕ → String → ChannelCheckpoint → Bool
is_checkpoint job_id channel_id c = c.job_id == job_id && str_eq c.channel_id channel_id

abbrev pub last_ts : List Message → Option String → Option String
last_ts [] old = old
last_ts (m ∷ []) old = some m.message_ts
last_ts (m ∷ n ∷ ms) old = last_ts (n ∷ ms) old

-- What a page writes to its channel's checkpoint.
abbrev pub checked : HistoryPage → List Message → ChannelCheckpoint → ChannelCheckpoint
checked page rows c = record c {
  cursor = page.next_cursor;
  completed = not page.has_more;
  message_ts = last_ts rows c.message_ts;
}

abbrev pub new_checkpoint : ℕ → String → ChannelCheckpoint
new_checkpoint job_id channel_id = record {
  job_id = job_id;
  channel_id = channel_id;
  cursor = none;
  completed = false;
  message_ts = none;
  mode = "historical";
}

-- The checkpoint and the counter, in one commit.
unfoldable pub save_page : ℕ → String → HistoryPage → List Message → Action (Unit {0})
save_page job_id channel_id page rows = modify λ w.
    record (modify_job job_id (λ j. record j { row_count = j.row_count + length rows }) w) {
      checkpoints =
          upsert (is_checkpoint job_id channel_id) (checked page rows)
            (new_checkpoint job_id channel_id) w.checkpoints;
    }

-- Where a worker stands.
pub data Standing : Type 0 where
  working finished : Standing
  broken : String → Standing

-- The variables of `_backfill_channel`.
pub record Worker : Type 0 where
  pub channel_id : String
  pub cursor : Option String
  pub rows_written : ℕ
  pub standing : Standing

-- A turn of the schedule.
pub data Turn : Type 0 where
  page : ℕ → Turn
  pause cancel : Turn

module _ (sha1 : String → String) (fetch_page : String → Option String → Result HistoryPage)
    (job_id : ℕ) (org_id partition_date : String) where
  abbrev path_in : String → String → String
  path_in directory label =
      "slack/historical/" <> org_id <> "/" <> directory <> "/part-" <> label <> ".parquet"

  -- The three files of a page land, and ClickHouse loads them.
  unfoldable pub land_page : String → String → List Message → List SlackMessage → Action (Unit {0})
  land_page channel_id label rows messages = do
    msg_paths ←
        land_rows
          (path_in ("channel_id=" <> channel_id <> "/processing_date=" <> partition_date) label)
          (map message_row rows)
    files ← lift (file_rows messages)
    reactions ← lift (reaction_rows messages)
    file_paths ← land_rows (path_in ("files/channel_id=" <> channel_id) label) files
    reaction_paths ← land_rows (path_in ("reactions/channel_id=" <> channel_id) label) reactions
    load_into_clickhouse "bronze_slack_messages" msg_paths []
    load_into_clickhouse "slack_files" file_paths []
    load_into_clickhouse "slack_reactions" reaction_paths []

  -- One page: what it held, and how many rows were written.
  unfoldable pub backfill_page : String → Option String → Action (HistoryPage × ℕ)
  backfill_page channel_id cursor = do
    response ← lift (fetch_page channel_id cursor)
    now ← gets (λ w. w.now)
    rows ← lift (
        normalize_rows now "historical" [] (map (λ (m : SlackMessage). m.fields) response.messages))
    land_page channel_id (cursor_label sha1 cursor) rows response.messages
    save_page job_id channel_id response rows
    pure (response, length rows)

  -- What a page makes of its worker.
  abbrev advanced : Worker → Result (HistoryPage × ℕ) → Worker
  advanced v (err e) = record v { standing = broken (message e) }
  advanced v (ok (response, n)) = record v {
    rows_written = v.rows_written + n;
    cursor = response.next_cursor;
    standing = if response.has_more then working else finished;
  }

  -- One turn of the loop of `_backfill_channel`: it stops at a request.
  unfoldable pub work : Worker → World → Worker × World
  work v w =
      if cancel_requested job_id w || pause_requested job_id w
      then (record v { standing = finished }, w)
      else (let (r, w') = backfill_page v.channel_id v.cursor w in (advanced v r, w'))

  -- A worker that is at work takes a turn; another has nothing to do.
  unfoldable pub take_turn : Standing → Worker → World → Worker × World
  take_turn working v w = work v w
  take_turn _ v w = (v, w)

  -- The worker with this number.
  unfoldable pub turn_of : ℕ → List Worker → World → List Worker × World
  turn_of i [] w = ([], w)
  turn_of zero (v ∷ vs) w = let (v', w') = take_turn v.standing v w in (v' ∷ vs, w')
  turn_of (suc i) (v ∷ vs) w = let (vs', w') = turn_of i vs w in (v ∷ vs', w')

  unfoldable pub step : Turn → List Worker → World → List Worker × World
  step (page i) vs w = turn_of i vs w
  step pause vs w = (vs, (request_pause job_id w).1)
  step cancel vs w = (vs, (request_cancel job_id w).1)

  -- The workers under a schedule.
  unfoldable pub run_pool : List Turn → List Worker → World → List Worker × World
  run_pool [] vs w = (vs, w)
  run_pool (t ∷ ts) vs w = let (vs', w') = step t vs w in run_pool ts vs' w'
