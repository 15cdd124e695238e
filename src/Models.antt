-- ===== src/Models.antt =====
-- app/models.py: the tables of the SQLite database, a record for each row. Times are microseconds
-- since the epoch. A uuid is the 128-bit number that it writes in hexadecimal. A JSON column is the
-- value that its text denotes.
use glynac_ingestion_platfor.Common.{ℕ, String, Bool, Option}
use glynac_ingestion_platfor.Json.{JsonObject}

-- class JobStatus
pub data JobStatus : Type 0 where
  pending running paused completed failed cancelled : JobStatus

-- The values of the `control` column: PAUSE and CANCEL.
pub data Control : Type 0 where
  pause cancel : Control

-- What the `cursor` column holds: the text of a JSON object, or any other text.
pub data CursorText : Type 0 where
  json : JsonObject → CursorText
  raw : String → CursorText

-- class Job
pub record Job : Type 0 where
  pub id : ℕ
  pub service : String
  pub object_name : Option String
  pub org_id : Option String
  pub status : JobStatus
  pub cursor : Option CursorText
  pub row_count : ℕ
  pub retry_count : ℕ
  pub error : Option String
  pub control : Option Control
  pub owner : Option ℕ
  pub heartbeat_at : Option ℕ
  pub created_at : ℕ
  pub updated_at : ℕ

-- class AuditLog
pub record AuditLog : Type 0 where
  pub job_id : ℕ
  pub event : String
  pub detail : Option String
  pub created_at : ℕ

-- class DeadLetter
pub record DeadLetter : Type 0 where
  pub job_id : ℕ
  pub letter : JsonObject
  pub reason : String
  pub created_at : ℕ

-- class ChannelCheckpoint
pub record ChannelCheckpoint : Type 0 where
  pub job_id : ℕ
  pub channel_id : String
  pub cursor : Option String
  pub completed : Bool
  pub message_ts : Option String
  pub mode : String

-- class SyncState
pub record SyncState : Type 0 where
  pub service : String
  pub org_id : String
  pub object_name : String
  pub high_water_mark : String
  pub updated_at : ℕ

-- class RealtimeBacklog
pub record RealtimeBacklog : Type 0 where
  pub org_id : String
  pub message_id : String
  pub payload : JsonObject
  pub received_at : ℕ

-- class RealtimeMark
pub record RealtimeMark : Type 0 where
  pub org_id : String
  pub channel_id : String
  pub message_ts : String

-- class RealtimeSeen
pub record RealtimeSeen : Type 0 where
  pub org_id : String
  pub message_id : String

-- class UsedNonce
pub record UsedNonce : Type 0 where
  pub client_id : String
  pub nonce : String
  pub seen_at : ℕ
