-- ===== src/World.antt =====
-- The state that the components share, and the calls that read and write it. A database session
-- commits after each write, so a write is a change of the state. `now` is the clock. `faults` is
-- what the external calls (object storage, ClickHouse) will answer: each call takes one entry,
-- `some e` makes it raise `e`, and when the list is empty every call succeeds.
pub mod Rows
pub mod Frame
pub mod Returns
use glynac_ingestion_platfor.Common.{
  ℕ, String, Bool, Option, none, some, List, [], ◌∷◌, ◌==◌, find, update_where,
}
use glynac_ingestion_platfor.Errors.{Exception, Result, ok, err}
use glynac_ingestion_platfor.Json.{JsonObject}
use glynac_ingestion_platfor.Models.{
  Job, AuditLog, DeadLetter, ChannelCheckpoint, SyncState, RealtimeBacklog, RealtimeMark,
  RealtimeSeen, UsedNonce,
}

-- A column of a table and its type.
abbrev pub SchemaField : Type 0
SchemaField = String × String

-- The work that a router or the recovery hands to a background thread.
pub data Task : Type 0 where
  run_salesforce : ℕ → Option String → String → Task
  run_hubspot : ℕ → Option String → String → Option String → Bool → Task
  run_backfill : ℕ → String → ℕ → Task
  run_realtime : ℕ → Task
  ingest_event : ℕ → JsonObject → String → Task

pub record World : Type 0 where
  pub now : ℕ
  pub jobs : List Job
  pub audit : List AuditLog
  pub dead_letters : List DeadLetter
  pub checkpoints : List ChannelCheckpoint
  pub sync_states : List SyncState
  pub backlog : List RealtimeBacklog
  pub marks : List RealtimeMark
  pub seen : List RealtimeSeen
  pub nonces : List UsedNonce
  pub files : List (String × List JsonObject)
  pub tables : List (String × List JsonObject)
  pub tables_created : List String
  pub views_created : List String
  pub table_schemas : List (String × List SchemaField)
  pub slack_tables_ready : Bool
  pub pause_events : List ℕ
  pub cancel_events : List ℕ
  pub tasks : List Task
  pub faults : List (Option Exception)

-- A call: what was written before a raise stays written.
abbrev pub Action {ℓ} : Type ℓ → Type ℓ
Action A = World → Result A × World

module _ {ℓ} {A : Type ℓ} where
  unfoldable pub pure : A → Action A
  pure a w = (ok a, w)

  unfoldable pub raise : Exception → Action A
  raise e w = (err e, w)

  unfoldable pub gets : (World → A) → Action A
  gets f w = (ok (f w), w)

  unfoldable pub lift : Result A → Action A
  lift r w = (r, w)

unfoldable pub modify : (World → World) → Action (Unit {0})
modify f w = (ok tt, f w)

-- What follows a call: the next one, or nothing when it raised.
abbrev pub continue {ℓ κ} : {A : Type ℓ} {B : Type κ} → Result A → (A → Action B) → Action B
continue (ok a) f w = f a w
continue (err e) f w = (err e, w)

-- To open this is to open the small actions above too.
infixl 5 ◌>>=◌ ◌>>◌
unfoldable pub ◌>>=◌ {ℓ κ} : {A : Type ℓ} {B : Type κ} → Action A → (A → Action B) → Action B
unfolding pure raise gets lift modify
◌>>=◌ m f w = let (r, w') = m w in continue r f w'

abbrev pub ◌>>◌ {ℓ κ} : {A : Type ℓ} {B : Type κ} → Action A → Action B → Action B
m >> k = m >>= λ _. k

abbrev pub handled {ℓ} : {A : Type ℓ} → Result A → (Exception → Action A) → Action A
handled (ok a) handler w = (ok a, w)
handled (err e) handler w = handler e w

-- `try: m except Exception as exc: handler(exc)`
unfoldable pub catch {ℓ} : {A : Type ℓ} → Action A → (Exception → Action A) → Action A
catch m handler w = let (r, w') = m w in handled r handler w'

-- Nothing to do.
abbrev pub skip : Action (Unit {0})
skip = pure tt

-- An external call: it takes one entry of `faults`.
unfoldable pub external : Action (Unit {0})
external w = elim w.faults [
  | [] ↦ (ok tt, w)
  | none ∷ rest ↦ (ok tt, record w { faults = rest })
  | some e ∷ rest ↦ (err e, record w { faults = rest })
]

abbrev pub has_id : ℕ → Job → Bool
has_id job_id j = j.id == job_id

-- `db.query(Job).filter(Job.id == job_id).first()`
abbrev pub find_job : ℕ → World → Option Job
find_job job_id w = find (has_id job_id) w.jobs

-- An UPDATE of the row with this id. `onupdate` stamps `updated_at`.
abbrev pub touch : ℕ → (Job → Job) → Job → Job
touch now f j = record (f j) { updated_at = now }

abbrev pub modify_job : ℕ → (Job → Job) → World → World
modify_job job_id f w = record w { jobs = update_where (has_id job_id) (touch w.now f) w.jobs }

-- `db.add(job); db.commit(); db.refresh(job)` for a changed row: SQLAlchemy writes the changed
-- columns of the row with this id, and raises if the row is gone. The result is the row as it now is.
unfoldable pub save_job : ℕ → (Job → Job) → Action Job
save_job job_id f w = elim (find_job job_id w) [
  | none ↦ (
    err (
        Exception.stale_data_error
          "UPDATE statement on table 'jobs' expected to update 1 row(s); 0 were matched."),
    w,
  )
  | some j ↦ (ok (touch w.now f j), modify_job job_id f w)
]
