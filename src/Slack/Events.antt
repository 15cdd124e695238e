-- ===== src/Slack/Events.antt =====
-- app/slack/events.py: the signature of a request that Slack sends. HMAC-SHA256 (Python's hmac) is a
-- parameter, its digest a hexadecimal text; texts stand for bytes. The clock is in microseconds.
pub mod Genuine
use glynac_ingestion_platfor.Common.{
  ℕ, ◌*◌, String, ◌<>◌, Bool, false, ◌||◌, not, Option, none, some, if◌then◌else◌, str_eq, ltb,
}
use glynac_ingestion_platfor.Common.Text.{codes}
use glynac_ingestion_platfor.Settings.{Settings}
use glynac_ingestion_platfor.Time.{isdigit, digits_value}
use glynac_ingestion_platfor.Security.{gap}

-- MOCK_SLACK_SIGNING_SECRET
abbrev pub mock_slack_signing_secret : String
mock_slack_signing_secret = "mock-signing-secret"

-- TOLERANCE_SECONDS
abbrev pub tolerance_seconds : ℕ
tolerance_seconds = 300

-- `signing_secret`
abbrev pub signing_secret : Settings → String
signing_secret s =
    if s.slack_mock_enabled then mock_slack_signing_secret else s.slack_signing_secret

module _ (hmac_sha256 : String → String → String) where
  -- `sign`
  unfoldable pub sign : String → String → String → String
  sign secret timestamp body = "v0=" <> hmac_sha256 secret ("v0:" <> timestamp <> ":" <> body)

  -- The tests of a timestamp and a signature that are there.
  unfoldable pub matches : String → String → String → String → ℕ → Bool
  unfolding sign
  matches secret timestamp signature body now =
      if str_eq timestamp "" || str_eq signature "" || not (isdigit (codes timestamp))
      then false
      else if ltb (tolerance_seconds * 1000000)
          (gap now (digits_value 0 (codes timestamp) * 1000000))
      then false
      else str_eq (sign secret timestamp body) signature

  -- `verify`, at the time `now`
  unfoldable pub verify : String → Option String → Option String → String → ℕ → Bool
  verify secret none signature body now = false
  verify secret (some timestamp) none body now = false
  verify secret (some timestamp) (some signature) body now =
      matches secret timestamp signature body now
