-- ===== src/Errors.antt =====
-- app/errors.py and the exceptions that the components raise, as one data type of values.
pub mod RetryAfter
use glynac_ingestion_platfor.Common.{ℕ, String, Option, Bool, true, false}

-- One constructor for each class of exception that a caller tells apart. `api_error` stands for the
-- permanent client errors (SalesforceError, HubSpotError, SlackError and their subclasses),
-- `connection_error` for the ConnectionError, Timeout and TransportError of the HTTP libraries,
-- `stale_data_error` and `integrity_error` for SQLAlchemy's exceptions of those names.
pub data Exception : Type 0 where
  http_exception : ℕ → String → Exception
  infrastructure_unavailable configuration_error transient_error : String → Exception
  api_error connection_error value_error stale_data_error integrity_error : String → Exception
  key_error file_not_found_error : String → Exception
  rate_limit_error : String → Option ℕ → Exception

-- `str(exc)`
abbrev pub message : Exception → String
message (http_exception code text) = text
message (infrastructure_unavailable text) = text
message (configuration_error text) = text
message (transient_error text) = text
message (api_error text) = text
message (connection_error text) = text
message (value_error text) = text
message (stale_data_error text) = text
message (integrity_error text) = text
message (key_error text) = text
message (file_not_found_error text) = text
message (rate_limit_error text _) = text

-- A call that may raise.
pub data Result {ℓ} (A : Type ℓ) : Type ℓ where
  ok : A → Result A
  err : Exception → Result A

abbrev pub is_ok {ℓ} : {A : Type ℓ} → Result A → Bool
is_ok (ok _) = true
is_ok (err _) = false
