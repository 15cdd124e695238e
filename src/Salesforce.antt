-- ===== src/Salesforce.antt =====
-- app/salesforce/schemas.py and app/salesforce/ingest.py: a run of a Salesforce job. The Bulk API is
-- a parameter: what its calls return behind the retries. `poll n` is the answer to the n-th
-- question for the state of the bulk job.
pub mod Stop
pub mod Client
pub mod Mapper
use glynac_ingestion_platfor.Common.{
  ℕ, zero, suc, ◌+◌, String, ◌<>◌, Bool, true, false, ◌||◌, Option, none, some, List, [], ◌∷◌,
  if◌then◌else◌, str_eq, length,
}
use glynac_ingestion_platfor.Common.Text.{show}
use glynac_ingestion_platfor.Common.Maps.{lookup}
use glynac_ingestion_platfor.Errors.{
  Exception, message, rate_limit_error, Result, ok, err, key_error,
}
use glynac_ingestion_platfor.Json.{JsonObject, text}
use glynac_ingestion_platfor.Models.{
  Job, JobStatus, running, paused, completed, failed, cancelled, CursorText, Control, pause, cancel,
}
use glynac_ingestion_platfor.World.{
  Action, SchemaField, pure, gets, lift, ◌>>=◌, ◌>>◌, catch, skip, save_job,
}
use glynac_ingestion_platfor.Time.{date_text}
use glynac_ingestion_platfor.Audit.{log_audit, send_to_dead_letter}
use glynac_ingestion_platfor.Control.{claim_job, clear_control, get_control, is_running}
use glynac_ingestion_platfor.Jobs.{get_job_or_404, transition, update_checkpoint, cursor_text}
use glynac_ingestion_platfor.Storage.{put_object}
use glynac_ingestion_platfor.Sink.{
  ensure_table, ensure_view, ensure_analytical_views, load_from_storage,
}
use glynac_ingestion_platfor.Hubspot.{validate_records}

-- SALESFORCE_SCHEMAS
unfoldable pub salesforce_schemas : List (String × List SchemaField)
salesforce_schemas =
    (
      "Accounts",
      ("id", "string")
          ∷ ("organisation_id", "string")
          ∷ ("name", "string")
          ∷ ("industry", "string")
          ∷ ("annual_revenue", "float")
          ∷ ("billing_city", "string")
          ∷ ("billing_country", "string")
          ∷ ("created_date", "datetime")
          ∷ [],
    )
    ∷ (
      "Contacts",
      ("id", "string")
          ∷ ("organisation_id", "string")
          ∷ ("first_name", "string")
          ∷ ("last_name", "string")
          ∷ ("email", "string")
          ∷ ("phone", "string")
          ∷ ("account_id", "string")
          ∷ ("created_date", "datetime")
          ∷ [],
    )
    ∷ (
      "Opportunities",
      ("id", "string")
          ∷ ("organisation_id", "string")
          ∷ ("name", "string")
          ∷ ("stage_name", "string")
          ∷ ("amount", "float")
          ∷ ("probability", "float")
          ∷ ("account_id", "string")
          ∷ ("close_date", "datetime")
          ∷ [],
    )
    ∷ (
      "Leads",
      ("id", "string")
          ∷ ("organisation_id", "string")
          ∷ ("first_name", "string")
          ∷ ("last_name", "string")
          ∷ ("company", "string")
          ∷ ("status", "string")
          ∷ ("email", "string")
          ∷ ("lead_source", "string")
          ∷ [],
    )
    ∷ (
      "Tasks",
      ("id", "string")
          ∷ ("organisation_id", "string")
          ∷ ("subject", "string")
          ∷ ("status", "string")
          ∷ ("priority", "string")
          ∷ ("who_id", "string")
          ∷ ("activity_date", "datetime")
          ∷ [],
    )
    ∷ (
      "Cases",
      ("id", "string")
          ∷ ("organisation_id", "string")
          ∷ ("case_number", "string")
          ∷ ("subject", "string")
          ∷ ("status", "string")
          ∷ ("priority", "string")
          ∷ ("origin", "string")
          ∷ ("account_id", "string")
          ∷ [],
    )
    ∷ (
      "Products",
      ("id", "string")
          ∷ ("organisation_id", "string")
          ∷ ("name", "string")
          ∷ ("product_code", "string")
          ∷ ("family", "string")
          ∷ ("is_active", "bool")
          ∷ [],
    )
    ∷ (
      "PricebookEntries",
      ("id", "string")
          ∷ ("organisation_id", "string")
          ∷ ("product_id", "string")
          ∷ ("pricebook_id", "string")
          ∷ ("unit_price", "float")
          ∷ ("is_active", "bool")
          ∷ [],
    )
    ∷ (
      "Contracts",
      ("id", "string")
          ∷ ("organisation_id", "string")
          ∷ ("account_id", "string")
          ∷ ("status", "string")
          ∷ ("contract_term_months", "int")
          ∷ ("start_date", "datetime")
          ∷ [],
    )
    ∷ (
      "Assets",
      ("id", "string")
          ∷ ("organisation_id", "string")
          ∷ ("name", "string")
          ∷ ("account_id", "string")
          ∷ ("serial_number", "string")
          ∷ ("status", "string")
          ∷ ("install_date", "datetime")
          ∷ [],
    )
    ∷ []

-- `validate_records` of app/salesforce/schemas.py, which is written as the one for HubSpot.
abbrev pub validate : List JsonObject → List JsonObject × List (JsonObject × String)
validate records = validate_records records

-- `f"{job.cursor}"`
abbrev pub shown_cursor : Option CursorText → String
shown_cursor none = "None"
shown_cursor (some c) = cursor_text c

-- A request of the operator, which ends the run.
unfoldable pub honour : ℕ → JobStatus → String → Action Bool
honour job_id status detail = do
  job ← get_job_or_404 job_id
  transition job status (some detail)
  clear_control job_id
  pure true

abbrev is_stopped : JobStatus → Bool
is_stopped cancelled = true
is_stopped paused = true
is_stopped _ = false

-- The test of the stored request.
unfoldable pub on_control : ℕ → Job → Option Control → Action Bool
on_control job_id job none = pure false
on_control job_id job (some cancel) = honour job_id cancelled "cancelled by operator"
on_control job_id job (some pause) =
    honour job_id paused ("paused by operator; checkpoint=" <> shown_cursor job.cursor)

-- `_stop_requested`
unfoldable pub stop_requested : ℕ → Action Bool
stop_requested job_id = do
  job ← get_job_or_404 job_id
  control ← gets (get_control job_id)
  if is_stopped job.status then pure true else on_control job_id job control

abbrev pub stage : String → String → CursorText
stage bulk_job_id name =
    CursorText.json (("bulk_job_id", text bulk_job_id) ∷ ("stage", text name) ∷ [])

abbrev pub stage_at : String → String → String → CursorText
stage_at bulk_job_id name path =
    CursorText.json
      (("bulk_job_id", text bulk_job_id) ∷ ("stage", text name) ∷ ("path", text path) ∷ [])

-- `state in ("JobComplete", "Completed")`
abbrev pub is_complete : String → Bool
is_complete state = str_eq state "JobComplete" || str_eq state "Completed"

-- How the polling ends.
pub data Polled : Type 0 where
  out_of_fuel stop ready : Polled

unfoldable pub dead_letters : ℕ → List (JsonObject × String) → Action (Unit {0})
dead_letters job_id [] = skip
dead_letters job_id ((bad_record, reason) ∷ invalid) = do
  send_to_dead_letter job_id bad_record reason
  dead_letters job_id invalid

abbrev pub schema_of : String → Result (List SchemaField)
schema_of object_name = elim (lookup object_name salesforce_schemas) [
  | none ↦ err (key_error object_name)
  | some schema ↦ ok schema
]

abbrev event_of : Exception → String
event_of (rate_limit_error _ _) = "RATE_LIMITED"
event_of _ = "ERROR"

-- The `except` clause.
unfoldable pub fail_job : ℕ → Exception → Action (Unit {0})
fail_job job_id exc = do
  job ← get_job_or_404 job_id
  save_job job_id (λ j. record j { retry_count = job.retry_count + 1 })
  log_audit job_id (event_of exc) (some (message exc))
  catch (transition job failed (some (message exc)) >> skip) (λ _. skip)

module _ (boot_id fuel : ℕ) (authenticate : Result (Unit {0}))
    (create_bulk_job : String → Result (String × String)) (poll : ℕ → Result String)
    (get_results : String → String → String → Result (List JsonObject)) where
  -- The `while` loop over the states of the bulk job, on fuel.
  unfoldable pub poll_loop : ℕ → ℕ → ℕ → String → String → Action Polled
  poll_loop zero n job_id bulk_job_id state = pure out_of_fuel
  poll_loop (suc more) n job_id bulk_job_id state = if is_complete state then pure ready else (do
    state ← lift (poll n)
    job ← get_job_or_404 job_id
    update_checkpoint job (stage bulk_job_id state) 0
    halt ← stop_requested job_id
    if halt then pure stop else poll_loop more (n + 1) job_id bulk_job_id state)

  -- From the results to the last transition.
  unfoldable pub land_and_load : Job → String → String → String → Action (Unit {0})
  land_and_load job bulk_job_id object_name org_id = do
    records ← lift (get_results bulk_job_id object_name org_id)
    dead_letters job.id (validate records).1
    let path : String =
        "salesforce/"
        <> object_name
        <> "/"
        <> org_id
        <> "/"
        <> date_text job.created_at
        <> "/part-0001.json"
    put_object path (validate records).0
    row ← get_job_or_404 job.id
    update_checkpoint row (stage_at bulk_job_id "landed" path) 0
    halt ← stop_requested job.id
    if halt then skip else (do
      schema ← lift (schema_of object_name)
      ensure_table object_name schema "salesforce"
      load_from_storage object_name schema (path ∷ []) "salesforce" []
          ("id" ∷ "organisation_id" ∷ []) ("id" ∷ [])
      ensure_view object_name "salesforce"
      ensure_analytical_views
      row ← get_job_or_404 job.id
      job ← update_checkpoint row (stage_at bulk_job_id "loaded" path) (length (validate records).0)
      transition job completed (
          some (
            "landed "
            <> show (length (validate records).0)
            <> " rows at "
            <> path
            <> ", "
            <> show (length (validate records).1)
            <> " sent to dead-letter"))
      skip)

  -- What follows the polling.
  unfoldable pub after_poll : Job → String → String → String → Polled → Action Bool
  after_poll job bulk_job_id object_name org_id out_of_fuel = pure false
  after_poll job bulk_job_id object_name org_id stop = pure true
  after_poll job bulk_job_id object_name org_id ready = do
    halt ← stop_requested job.id
    if halt then pure true else (land_and_load job bulk_job_id object_name org_id >> pure true)

  -- The stages after the claim.
  unfoldable pub run_stages : Job → String → String → Action Bool
  run_stages job object_name org_id = do
    halt ← stop_requested job.id
    if halt then pure true else (do
      lift authenticate
      (bulk_job_id, state) ← lift (create_bulk_job object_name)
      row ← get_job_or_404 job.id
      update_checkpoint row (stage bulk_job_id "created") 0
      polled ← poll_loop fuel 0 job.id bulk_job_id state
      after_poll job bulk_job_id object_name org_id polled)

  -- `run_salesforce_ingestion`: the result is False when the fuel of the polling ran out.
  unfoldable pub run_salesforce_ingestion : ℕ → String → String → Action Bool
  run_salesforce_ingestion job_id object_name org_id =
      catch
        (do
          job ← get_job_or_404 job_id
          job ← if is_running job.status then pure job else transition job running none
          claim_job boot_id job_id
          run_stages job object_name org_id)
        (λ exc. fail_job job_id exc >> pure true)
