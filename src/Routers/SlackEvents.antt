-- ===== src/Routers/SlackEvents.antt =====
-- app/routers/slack_events.py: the endpoint that Slack sends its events to. `loads` is Python's
-- `json.loads`, for a body that is an object: its own fields, and those of its "event".
pub mod Kept
use glynac_ingestion_platfor.Common.{
  ℕ, String, ◌<>◌, Bool, false, ◌||◌, not, Option, none, some, [], ◌∷◌, if◌then◌else◌, str_eq,
}
use glynac_ingestion_platfor.Errors.{http_exception, Result}
use glynac_ingestion_platfor.Json.{Json, JsonObject, text, get, has_key, item, str, is_falsy}
use glynac_ingestion_platfor.Models.{Job}
use glynac_ingestion_platfor.World.{Action, ingest_event, pure, raise, gets, lift, ◌>>=◌, ◌>>◌}
use glynac_ingestion_platfor.Settings.{Settings}
use glynac_ingestion_platfor.Control.{is_running}
use glynac_ingestion_platfor.Jobs.{value}
use glynac_ingestion_platfor.Routers.Hubspot.{dispatch, org_or_default}
use glynac_ingestion_platfor.Slack.Client.{thread_of}
use glynac_ingestion_platfor.Slack.Events.{signing_secret, verify}
use glynac_ingestion_platfor.Slack.Realtime.{active_realtime_job, buffer_event}

-- What the endpoint reads of a request.
pub record Delivery : Type 0 where
  pub timestamp : Option String
  pub signature : Option String
  pub body : String
  pub received_at : ℕ

-- The JSON object of a body.
pub record Payload : Type 0 where
  pub fields : JsonObject
  pub event : JsonObject

-- What the endpoint answers with status 200.
pub data Reply : Type 0 where
  challenge : Json → Reply
  ignored : String → Reply
  buffered : String → String → Reply
  accepted : String → Reply

abbrev pub is_text : String → Json → Bool
is_text s (text t) = str_eq t s
is_text s _ = false

-- The dict that the ingester takes.
unfoldable pub normalised : JsonObject → Json → Json → JsonObject
normalised event channel ts =
    ("id", text (str channel <> ":" <> str ts))
    ∷ ("channel_id", channel)
    ∷ ("user_id", get "user" event)
    ∷ ("text", if has_key "text" event then get "text" event else text "")
    ∷ ("message_ts", ts)
    ∷ ("thread_ts", thread_of (get "thread_ts" event) ts)
    ∷ []

-- A message for a stream that runs is handed to the background; else it is parked.
unfoldable pub take_message : Job → JsonObject → Action Reply
take_message job message =
    if is_running job.status
    then dispatch (ingest_event job.id message (org_or_default job.org_id))
      >> pure (accepted (str (get "id" message)))
    else buffer_event (org_or_default job.org_id) message
      >> pure (buffered ("realtime job is " <> value job.status) (str (get "id" message)))

-- `event.get("type") != "message" or event.get("subtype") or event.get("bot_id")`
abbrev pub not_plain : JsonObject → Bool
not_plain event =
    not (is_text "message" (get "type" event))
    || not (is_falsy (get "subtype" event))
    || not (is_falsy (get "bot_id" event))

-- A plain message, for the stream that is live.
unfoldable pub receive : JsonObject → Action Reply
receive event = do
  job ← gets active_realtime_job
  elim job [
    | none ↦ pure (ignored "no live realtime job")
    | some j ↦ (do
      ts ← lift (item "ts" event)
      channel ← lift (item "channel" event)
      take_message j (normalised event channel ts))
  ]

-- What is done with a payload whose signature is good.
unfoldable pub handle : Payload → Action Reply
handle payload =
    if is_text "url_verification" (get "type" payload.fields)
    then pure (challenge (get "challenge" payload.fields))
    else if not (is_text "event_callback" (get "type" payload.fields))
    then pure (ignored "unsupported payload type")
    else if not_plain payload.event
    then pure (ignored "not a plain user message")
    else receive payload.event

module _ (hmac_sha256 : String → String → String) (loads : String → Result Payload) where
  -- `slack_events`
  unfoldable pub slack_events : Settings → Delivery → Action Reply
  slack_events s d =
      if str_eq (signing_secret s) ""
      then raise (http_exception 503 "SLACK_SIGNING_SECRET is not set.")
      else if not
          (verify hmac_sha256 (signing_secret s) d.timestamp d.signature d.body d.received_at)
      then raise (http_exception 401 "Invalid Slack signature.")
      else (do payload ← lift (loads d.body); handle payload)
