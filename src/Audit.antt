-- ===== src/Audit.antt =====
-- app/audit.py
use glynac_ingestion_platfor.Common.{ℕ, String, Option, some, [], ◌∷◌, ◌++◌}
use glynac_ingestion_platfor.Json.{JsonObject}
use glynac_ingestion_platfor.World.{Action, modify, ◌>>◌}

-- `log_audit`
unfoldable pub log_audit : ℕ → String → Option String → Action (Unit {0})
log_audit job_id event detail = modify λ w. record w {
  audit =
      w.audit
      ++ record { job_id = job_id; event = event; detail = detail; created_at = w.now } ∷ [];
}

-- `send_to_dead_letter`
unfoldable pub send_to_dead_letter : ℕ → JsonObject → String → Action (Unit {0})
send_to_dead_letter job_id letter reason = do
  modify λ w. record w {
    dead_letters =
        w.dead_letters
        ++ record { job_id = job_id; letter = letter; reason = reason; created_at = w.now } ∷ [];
  }
  log_audit job_id "DEAD_LETTER" (some reason)
