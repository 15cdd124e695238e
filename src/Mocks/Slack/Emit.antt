-- ===== src/Mocks/Slack/Emit.antt =====
-- mock_services/slack.py: the sender of signed events, and what app/routers/slack_events.py does with
-- them. HMAC-SHA256 and `json.dumps` of a payload are parameters; a random event id is an argument. A
-- number with its sign is written as `parse_int` of app/security.py is: (true, n) is -n.
use glynac_ingestion_platfor.Common.{
  ℕ, ◌+◌, ◌-◌, ◌*◌, ◌/◌, ◌%◌, ◌≤◌, String, ◌<>◌, ◌≡◌, refl, Bool, true, false, Option, none, some,
  [], ◌∷◌, ◌++◌, if◌then◌else◌, leb, str_eq,
}
use glynac_ingestion_platfor.Common.Text.{show}
use glynac_ingestion_platfor.Errors.{Result, ok}
use glynac_ingestion_platfor.Json.{JsonObject, num, text, get, str}
use glynac_ingestion_platfor.Models.{Job}
use glynac_ingestion_platfor.World.{World}
use glynac_ingestion_platfor.Settings.{Settings}
use glynac_ingestion_platfor.Time.{pad6}
use glynac_ingestion_platfor.Time.Digits.{show-Reads}
use glynac_ingestion_platfor.Security.{gap}
use glynac_ingestion_platfor.Slack.Events.{mock_slack_signing_secret, tolerance_seconds, sign}
use glynac_ingestion_platfor.Slack.Realtime.{active_realtime_job}
use glynac_ingestion_platfor.Routers.SlackEvents.{Delivery, Payload, slack_events}
use glynac_ingestion_platfor.Routers.SlackEvents.Kept.{Passed, slack_events_passes}
use glynac_ingestion_platfor.Slack.Events.Genuine.{signed-verify}
use glynac_ingestion_platfor.Mocks.Slack.{State}

-- class EmitRequest, without the address
pub record EmitRequest : Type 0 where
  pub channel : String
  pub user : String
  pub body : String
  pub ts : Option String
  pub subtype : Option String
  pub bad_signature : Bool
  pub timestamp_offset_seconds : Bool × ℕ

-- n + offset
unfoldable pub shifted : ℕ → Bool × ℕ → Bool × ℕ
shifted n (false, k) = (false, n + k)
shifted n (true, k) = if leb k n then (false, n - k) else (true, k - n)

-- `str` of a number with its sign
unfoldable pub signed_text : Bool × ℕ → String
signed_text (false, n) = show n
signed_text (true, n) = "-" <> show n

-- `req.ts or f"{time.time():.6f}"`, at a time in microseconds
unfoldable pub ts_or_now : Option String → ℕ → String
unfolding pad6
ts_or_now none now = show (now / 1000000) <> "." <> pad6 (now % 1000000)
ts_or_now (some ts) now =
    if str_eq ts "" then show (now / 1000000) <> "." <> pad6 (now % 1000000) else ts

abbrev subtype_field : Option String → JsonObject
subtype_field none = []
subtype_field (some subtype) = if str_eq subtype "" then [] else ("subtype", text subtype) ∷ []

-- The event of `emit`.
unfoldable pub emitted_event : EmitRequest → String → JsonObject
emitted_event req ts =
    ("type", text "message")
    ∷ ("channel", text req.channel)
    ∷ ("user", text req.user)
    ∷ ("text", text req.body)
    ∷ ("ts", text ts)
    ∷ ("event_ts", text ts)
    ∷ ("channel_type", text "channel")
    ∷ subtype_field req.subtype

-- The payload of `emit`.
unfoldable pub emitted_payload : EmitRequest → String → String → ℕ → Payload
unfolding emitted_event
emitted_payload req event_id ts now = record {
  fields =
      ("token", text "mock")
      ∷ ("team_id", text "T001")
      ∷ ("api_app_id", text "A001")
      ∷ ("type", text "event_callback")
      ∷ ("event_id", text event_id)
      ∷ ("event_time", num (now / 1000000))
      ∷ [];
  event = emitted_event req ts;
}

module _ (hmac_sha256 : String → String → String) (dumps : Payload → String) where
  -- `_post_signed`: what is sent at `now`, as it arrives at `received_at`
  unfoldable pub post_signed : Payload → Bool → Bool × ℕ → ℕ → ℕ → Delivery
  post_signed payload bad_signature offset now received_at =
      let timestamp = signed_text (shifted (now / 1000000) offset) in
      record {
        timestamp = some timestamp;
        signature = some (
            sign hmac_sha256 (if bad_signature then "wrong-secret" else mock_slack_signing_secret)
              timestamp (dumps payload));
        body = dumps payload;
        received_at = received_at;
      }

  -- `emit`: the delivery, and the state of the server.
  unfoldable pub emit : EmitRequest → String → ℕ → ℕ → State → Delivery × State
  emit req event_id now received_at s =
      let ts = ts_or_now req.ts now in
      (
        post_signed (emitted_payload req event_id ts now) req.bad_signature
            req.timestamp_offset_seconds now received_at,
        record s { requests_seen = s.requests_seen ++ ("emit " <> req.channel <> ":" <> ts) ∷ [] },
      )

  -- What the message has to hold: all that was asked for, under the id of its channel and its time.
  abbrev pub Asked : EmitRequest → String → JsonObject → Type 0
  Asked req ts m =
      (get "id" m ≡ text (req.channel <> ":" <> ts))
      × (get "channel_id" m ≡ text req.channel)
      × (get "user_id" m ≡ text req.user)
      × (get "text" m ≡ text req.body)
      × (get "message_ts" m ≡ text ts)

  -- An event that the mock server emits reaches the stream. Let the API trust the mock, the request not ask
  -- for a bad signature or a subtype, the time stamp of the delivery, moved by the offset, be `sent`, and
  -- the delivery arrive within the tolerance of it, while a stream is live. Then the API answers 200, and
  -- a message with the channel, the user, the text and the time that were asked for is handed to the
  -- stream while it runs, and else kept in the backlog, unless a row of the same id stands there already.
  -- Of `json` it is assumed that it reads this payload back as it was.
  pub emit-Passed :
      (loads : String → Result Payload) (settings : Settings) (req : EmitRequest)
      (event_id : String) (now sent received_at : ℕ) (job : Job) (s : State) (w : World)
      → let payload = emitted_payload req event_id (ts_or_now req.ts now) now in
        (loads (dumps payload) ≡ ok payload)
        → settings.slack_mock_enabled ≡ true
        → req.bad_signature ≡ false
        → req.subtype ≡ none
        → shifted (now / 1000000) req.timestamp_offset_seconds ≡ (false, sent)
        → gap received_at (sent * 1000000) ≤ tolerance_seconds * 1000000
        → active_realtime_job w ≡ some job
        → Passed job
            (Asked req (ts_or_now req.ts now))
            w
            (slack_events hmac_sha256 loads settings (emit req event_id now received_at s).0 w)
  unfolding emit post_signed emitted_payload emitted_event signed_text str sign
  emit-Passed loads settings req event_id now sent received_at job s w read trusted honest plain at
        near live =
      let ts = ts_or_now req.ts now in
      let payload = emitted_payload req event_id ts now in
      let (value, digits) = show-Reads sent in
      let signed =
        signed-verify hmac_sha256 mock_slack_signing_secret (show sent)
          (sign hmac_sha256 mock_slack_signing_secret (show sent) (dumps payload)) (dumps payload)
          received_at (digits, rw value near, refl) in
      let (m, (id, channel, user, body, message_ts, thread), passed) =
        slack_events_passes hmac_sha256 loads settings (emit req event_id now received_at s).0
          payload job (text req.channel) (text ts) w (rw trusted refl)
          (rw (honest, at, trusted) signed) read refl (rw plain refl) live refl refl in
      (m, (id, channel, user, body, message_ts), passed)
