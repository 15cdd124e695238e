-- ===== src/Tests/SlackApi.antt =====
-- The Web API client of Slack and the endpoint for its events.
use glynac_ingestion_platfor.Common.{
  ℕ, ◌≤◌, String, ◌<>◌, ◌≡◌, refl, true, false, Option, none, some, List, [], ◌∷◌, ◌++◌,
  if◌then◌else◌, arith, str_eq,
}
use glynac_ingestion_platfor.Common.Text.{cons_filled}
use glynac_ingestion_platfor.Errors.{Result, ok}
use glynac_ingestion_platfor.Json.{JsonObject, text}
use glynac_ingestion_platfor.Models.{Job, running}
use glynac_ingestion_platfor.World.{World}
use glynac_ingestion_platfor.Slack.Client.{
  Answer, Parameters, SlackMessage, call, paged, read_answer,
}
use glynac_ingestion_platfor.Slack.Client.Paging.{Chain, page_at, last, more, paged_collects}
use glynac_ingestion_platfor.Slack.Events.{signing_secret, sign, matches, verify}
use glynac_ingestion_platfor.Time.{isdigit, digits_value}
use glynac_ingestion_platfor.Slack.Realtime.{active_realtime_job}
use glynac_ingestion_platfor.Routers.SlackEvents.{Delivery, Payload, slack_events}
use glynac_ingestion_platfor.Routers.SlackEvents.Kept.{Passed, slack_events_passes, Carries}
use glynac_ingestion_platfor.Mocks.Slack as MockSlack
use glynac_ingestion_platfor.Mocks.Slack.Pages.{mock_history, messages_of, mock_history-Chain}
use glynac_ingestion_platfor.Mocks.Slack.Emit.{
  EmitRequest, emit, emitted_payload, ts_or_now, shifted, Asked, emit-Passed,
}
use glynac_ingestion_platfor.Tests.Base.{job_with, world_with, deployed}

abbrev no_date : String → Option ℕ
no_date s = none

abbrev member : String → SlackMessage
member id = record { fields = ("id", text id) ∷ ("name", text id) ∷ []; files = []; reactions = [] }

abbrev answer : List SlackMessage → Option String → Answer
answer items next_cursor = record {
  status = 200;
  retry_after = none;
  body_text = "";
  error = none;
  items = items;
  next_cursor = next_cursor;
}

-- Two pages of users.
abbrev by_cursor : Option String → Answer
by_cursor none = answer (member "U1" ∷ member "U2" ∷ []) (some "next")
by_cursor (some cursor) = answer (member "U3" ∷ []) (some "")

abbrev cursor_in : Parameters → Option String
cursor_in [] = none
cursor_in ((key, value) ∷ params) = if str_eq key "cursor" then value else cursor_in params

abbrev server : String → Parameters → Answer
server method params = by_cursor (cursor_in params)

two_pages :
    Chain
      (page_at no_date server "users.list")
      none
      ((member "U1" ∷ member "U2" ∷ []) ++ member "U3" ∷ [])
      2
unfolding call read_answer
two_pages =
    more (answer (member "U1" ∷ member "U2" ∷ []) (some "next")) "next" refl refl
      (last (answer (member "U3" ∷ []) (some "")) refl refl)

paged_collects_example :
    paged no_date server 5 "users.list" [] none
    ≡ some (ok ([] ++ (member "U1" ∷ member "U2" ∷ []) ++ member "U3" ∷ []))
paged_collects_example =
    paged_collects no_date server "users.list" 5 2 []
      ((member "U1" ∷ member "U2" ∷ []) ++ member "U3" ∷ []) none two_pages (omega arith)

abbrev limited : Answer
limited = record (answer [] none) { status = 429; retry_after = some "7" }

-- A digest that can be computed here.
abbrev mac : String → String → String
mac key body = key <> "/" <> body

abbrev plain : JsonObject
plain =
    ("type", text "message")
    ∷ ("channel", text "C1")
    ∷ ("user", text "U1")
    ∷ ("text", text "hi")
    ∷ ("ts", text "1.5")
    ∷ []

abbrev payload : Payload
payload = record { fields = ("type", text "event_callback") ∷ []; event = plain }

abbrev loads : String → Result Payload
loads body = ok payload

abbrev delivery : Delivery
delivery = record {
  timestamp = some "1700000000";
  signature = some "v0=mock-signing-secret/v0:1700000000:{}";
  body = "{}";
  received_at = 1_700_000_001_000_000;
}

abbrev stream : Job
stream = record (job_with 1 running) { service = "slack"; object_name = some "realtime" }

abbrev live : World
live = world_with (stream ∷ [])

signed :
    verify mac
      (signing_secret deployed)
      delivery.timestamp
      delivery.signature
      delivery.body
      delivery.received_at
    ≡ true
unfolding verify matches sign isdigit digits_value
signed = refl

stream_found : active_realtime_job live ≡ some stream
unfolding active_realtime_job
stream_found = refl

slack_events_passes_example :
    Passed stream
      (Carries plain (text "C1") (text "1.5"))
      live
      (slack_events mac loads deployed delivery live)
slack_events_passes_example =
    slack_events_passes mac loads deployed delivery payload stream (text "C1") (text "1.5") live
      refl signed refl refl refl stream_found refl refl

abbrev forged : Delivery
forged = record delivery { signature = some "v0=guess" }

-- Stand-ins for base64.
abbrev same : String → String
same s = s

abbrev three : MockSlack.State
three = record {
  messages_per_channel = 3;
  fail_with_429 = 0;
  fail_with_500 = 0;
  requests_seen = [];
}

mock_history-Chain_example :
    (n : ℕ) × Chain
      (mock_history same some (λ s. refl) cons_filled no_date three "C001" 2)
      none
      (messages_of same some (λ s. refl) cons_filled no_date three "C001" 2 (2 ∷ 1 ∷ 0 ∷ []))
      n
    × (n ≤ 4)
mock_history-Chain_example =
    mock_history-Chain same some (λ s. refl) cons_filled no_date three "C001" 2 refl refl refl
      (omega arith)

abbrev wanted_event : EmitRequest
wanted_event = record {
  channel = "C001";
  user = "U001";
  body = "Live message";
  ts = some "1700000000.5";
  subtype = none;
  bad_signature = false;
  timestamp_offset_seconds = (true, 60);
}

-- The only payload that is written here is read back.
abbrev sent_payload : Payload
sent_payload = emitted_payload wanted_event "Ev1" "1700000000.5" 1_700_000_000_000_000

abbrev load_sent : String → Result Payload
load_sent body = ok sent_payload

abbrev dump_sent : Payload → String
dump_sent p = "{}"

emit-Passed_example : Passed stream (Asked mac dump_sent wanted_event "1700000000.5") live (
    slack_events mac load_sent deployed
      (emit mac dump_sent wanted_event "Ev1" 1_700_000_000_000_000 1_700_000_001_000_000 three).0
      live)
unfolding ts_or_now shifted
emit-Passed_example =
    emit-Passed mac dump_sent load_sent deployed wanted_event "Ev1" 1_700_000_000_000_000
      1_699_999_940 1_700_000_001_000_000 stream three live refl refl refl refl refl (omega arith)
      stream_found
