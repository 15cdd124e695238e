-- ===== src/Routers/SlackEvents/Kept.antt =====
-- What the endpoint for Slack's events does with a delivery.
use mathlib.Core.List.{Memᴰ}
use mathlib.Core.Path.{subst}
use glynac_ingestion_platfor.Common.{
  String, ◌<>◌, ◌≡◌, ◌≢◌, refl, true, false, ◌⊎◌, inl, inr, some, [], ◌∷◌, ◌++◌, any, if◌then◌else◌,
  str_eq, Bool-cases,
}
use glynac_ingestion_platfor.Errors.{http_exception, Result, ok, err}
use glynac_ingestion_platfor.Json.{Json, JsonObject, text, get, has_key, item, str}
use glynac_ingestion_platfor.Models.{Job, JobStatus, running}
use glynac_ingestion_platfor.World.{World, ingest_event, pure, gets, lift, modify, ◌>>=◌, ◌>>◌}
use glynac_ingestion_platfor.Settings.{Settings}
use glynac_ingestion_platfor.Control.{is_running}
use glynac_ingestion_platfor.Jobs.{value}
use glynac_ingestion_platfor.Routers.Hubspot.{org_or_default}
use glynac_ingestion_platfor.Slack.Client.{thread_of}
use glynac_ingestion_platfor.Slack.Events.{signing_secret, verify}
use glynac_ingestion_platfor.Slack.Events.Genuine.{Genuine}
use glynac_ingestion_platfor.Slack.Realtime.{active_realtime_job, buffer_event, is_buffered}
use glynac_ingestion_platfor.Slack.Realtime.Backlog.{Waits, buffer_event-Waits}
use glynac_ingestion_platfor.Routers.SlackEvents.{
  Delivery, Payload, Reply, accepted, buffered, normalised, take_message, not_plain, receive,
  handle, slack_events,
}

-- What a delivery comes to.
abbrev pub Guarded :
    (String → String → String)
    → (String → Result Payload)
    → Settings
    → Delivery
    → World
    → Result Reply × World
    → Type 0
Guarded hmac_sha256 loads s d w c =
    let genuine : Type 0 =
      Genuine hmac_sha256 (signing_secret s) d.timestamp d.signature d.body d.received_at in
    ((signing_secret s ≡ "")
      × (c ≡ (err (http_exception 503 "SLACK_SIGNING_SECRET is not set."), w)))
    ⊎ ((signing_secret s ≢ "")
        × (¬ genuine)
        × (c ≡ (err (http_exception 401 "Invalid Slack signature."), w)))
    ⊎ ((signing_secret s ≢ "") × genuine × (c ≡ (lift (loads d.body) >>= handle) w))

-- What the message that is handed on holds of an event: its own fields, and an id made of the channel and the
-- time stamp.
abbrev pub Carries : JsonObject → Json → Json → JsonObject → Type 0
Carries event channel ts m =
    (get "id" m ≡ text (str channel <> ":" <> str ts))
    × (get "channel_id" m ≡ channel)
    × (get "user_id" m ≡ get "user" event)
    × (get "text" m ≡ (if has_key "text" event then get "text" event else text ""))
    × (get "message_ts" m ≡ ts)
    × (get "thread_ts" m ≡ thread_of (get "thread_ts" event) ts)

-- While the stream runs, and only then, the message is handed to the background for it; else it is answered as
-- buffered, and waits in the backlog with its fields.
abbrev pub PassedOn : Job → JsonObject → World → Result Reply × World → Type 0
PassedOn job m w (r, w') =
    ((job.status ≡ running)
      × (r ≡ ok (accepted (str (get "id" m))))
      × (w'.tasks ≡ w.tasks ++ ingest_event job.id m (org_or_default job.org_id) ∷ []))
    ⊎ ((job.status ≢ running)
        × (r ≡ ok (buffered ("realtime job is " <> value job.status) (str (get "id" m))))
        × Waits (org_or_default job.org_id) m w w')

-- A message of this content is passed on.
abbrev pub Passed : Job → (JsonObject → Type 0) → World → Result Reply × World → Type 0
Passed job content w c = (m : JsonObject) × content m × PassedOn job m w c

is_running-running : (s : JobStatus) → is_running s ≡ true → s ≡ running
is_running-running running h = refl
is_running-running _ h = cc

not_running : (s : JobStatus) → is_running s ≡ false → s ≢ running
not_running running h = cc
not_running _ h = λ e. cc

-- Parking a message never fails, and leaves the backlog as `buffer_event` does.
parked-buffer_event :
    (org_id : String) (message : JsonObject) (answer : Reply) (w : World)
    → ((buffer_event org_id message >> pure answer) w).0 ≡ ok answer
unfolding buffer_event ◌>>=◌ pure
parked-buffer_event org_id message answer w =
    elim (Bool-cases (any (is_buffered org_id (str (get "id" message))) w.backlog)) [
      | inl old ↦ rw old refl
      | inr new ↦ rw new refl
    ]

parked_backlog :
    (org_id : String) (message : JsonObject) (answer : Reply) (w : World)
    → (buffer_event org_id message w).1.backlog
      ≡ ((buffer_event org_id message >> pure answer) w).1.backlog
unfolding buffer_event ◌>>=◌ pure
parked_backlog org_id message answer w =
    elim (Bool-cases (any (is_buffered org_id (str (get "id" message))) w.backlog)) [
      | inl old ↦ rw old refl
      | inr new ↦ rw new refl
    ]

parked-Waits :
    (org_id : String) (message : JsonObject) (answer : Reply) (w : World)
    → Waits org_id message w ((buffer_event org_id message >> pure answer) w).1
parked-Waits org_id message answer w =
    let (r, there, keeps) = buffer_event-Waits org_id message w in
    (r, subst (Memᴰ r) (parked_backlog org_id message answer w) there, keeps)

take_message-PassedOn :
    (job : Job) (message : JsonObject) (w : World)
    → PassedOn job message w (take_message job message w)
unfolding take_message modify pure ◌>>=◌
take_message-PassedOn job message w = elim (Bool-cases (is_running job.status)) [
  | inl live ↦ rw live (inl (is_running-running job.status live, refl, refl))
  | inr parked ↦
      let org_id = org_or_default job.org_id in
      rw parked (
        inr (
          not_running job.status parked,
          parked-buffer_event org_id message _ w,
          parked-Waits org_id message _ w,
        ))
]

-- A delivery with a good signature whose event is a plain message, while a stream is live (RUNNING,
-- PAUSED, PENDING or FAILED): it is answered with 200, and a message with the event's fields, under the
-- id made of channel and time stamp, is passed on: handed to the background for the stream while it
-- runs, and else kept in the backlog, unless a row of the same id stands there already.
pub slack_events_passes :
    (hmac_sha256 : String → String → String) (loads : String → Result Payload) (s : Settings)
    (d : Delivery) (payload : Payload) (job : Job) (channel ts : Json) (w : World)
    → str_eq (signing_secret s) "" ≡ false
    → verify hmac_sha256 (signing_secret s) d.timestamp d.signature d.body d.received_at ≡ true
    → loads d.body ≡ ok payload
    → get "type" payload.fields ≡ text "event_callback"
    → not_plain payload.event ≡ false
    → active_realtime_job w ≡ some job
    → item "ts" payload.event ≡ ok ts
    → item "channel" payload.event ≡ ok channel
    → Passed job (Carries payload.event channel ts) w (slack_events hmac_sha256 loads s d w)
unfolding slack_events handle receive gets lift ◌>>=◌ normalised
slack_events_passes hmac_sha256 loads s d payload job channel ts w set good read callback plain live
      at in_channel =
    rw (set, good, read, callback, plain, live, at, in_channel)
      (
        normalised payload.event channel ts,
        (refl, refl, refl, refl, refl, refl),
        take_message-PassedOn job (normalised payload.event channel ts) w,
      )
