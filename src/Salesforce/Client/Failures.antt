-- ===== src/Salesforce/Client/Failures.antt =====
-- Which failed requests of app/salesforce/real_client.py are tried again.
use glynac_ingestion_platfor.Common.{
  ℕ, String, ◌≡◌, ◌<◌, ◌≤◌, ◌||◌, Option, inl, inr, ◌==◌, leb, ltb, arith, Bool-cases,
}
use glynac_ingestion_platfor.Errors.{Result, ok, err}
use glynac_ingestion_platfor.Retry.{is_transient}
use glynac_ingestion_platfor.Salesforce.Client.{Response, status_error, raise_for_status}

-- What a checked response has to mean.
abbrev pub Sorted : Response → Result (Unit {0}) → Type 0
Sorted resp (ok _) = resp.status < 400
Sorted resp (err e) =
    (400 ≤ resp.status) × (is_transient e ≡ (resp.status == 429 || leb 500 resp.status))

-- A response below 400 is accepted; any other raises, and the retries try it again exactly when it is
-- a 429 or a server error: a bad token, a bad request and a missing object fail at once.
pub raise_for_status-Sorted :
    (parse_date : String → Option ℕ) (what : String) (resp : Response)
    → Sorted resp (raise_for_status parse_date what resp)
unfolding raise_for_status status_error is_transient
raise_for_status-Sorted parse_date what resp = elim (Bool-cases (ltb resp.status 400)) [
  | inl fine ↦ rw fine (ground (arith, fine))
  | inr bad ↦ rw bad (ground (arith, bad), ground (arith, bad))
]
