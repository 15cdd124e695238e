-- ===== src/Settings.antt =====
-- app/config.py: the settings that the modelled code reads. Durations that the source takes in
-- seconds as floats are microseconds; those that it takes as whole seconds are seconds.
use glynac_ingestion_platfor.Common.{ℕ, ◌*◌, String, Bool, true}

-- class Settings
pub record Settings : Type 0 where
  pub hmac_secret : String
  pub hmac_client_id : String
  pub signature_max_age_seconds : ℕ
  pub session_ttl_seconds : ℕ
  pub ui_password : String
  pub rate_limit_max_wait : ℕ
  pub rate_limit_total_wait : ℕ
  pub heartbeat_interval : ℕ
  pub heartbeat_timeout : ℕ
  pub hubspot_incremental_overlap_seconds : ℕ
  pub slack_mock_enabled : Bool
  pub slack_signing_secret : String

abbrev pub second : ℕ
second = 1000000

-- The values that stand in app/config.py for an empty environment.
abbrev pub defaults : Settings
defaults = record {
  hmac_secret = "";
  hmac_client_id = "glynac-client";
  signature_max_age_seconds = 300;
  session_ttl_seconds = 28800;
  ui_password = "";
  rate_limit_max_wait = 300 * second;
  rate_limit_total_wait = 900 * second;
  heartbeat_interval = 5 * second;
  heartbeat_timeout = 30 * second;
  hubspot_incremental_overlap_seconds = 60;
  slack_mock_enabled = true;
  slack_signing_secret = "";
}
