-- ===== src/Hubspot/Ingest.antt =====
-- app/hubspot/ingest.py: a run of a HubSpot job, from the claim to the last transition.
use glynac_ingestion_platfor.Common.{
  ℕ, ◌+◌, ◌/◌, String, ◌<>◌, Bool, true, false, ◌||◌, not, Option, none, some, List, [], ◌∷◌,
  if◌then◌else◌, length,
}
use glynac_ingestion_platfor.Common.Text.{show}
use glynac_ingestion_platfor.Common.Maps.{lookup}
use glynac_ingestion_platfor.Errors.{Exception, message, Result, ok, err, key_error}
use glynac_ingestion_platfor.Json.{Json, JsonObject, null, text, bool, get, has_key, put, is_falsy}
use glynac_ingestion_platfor.Models.{
  Job, JobStatus, running, paused, completed, failed, cancelled, CursorText,
}
use glynac_ingestion_platfor.World.{
  World, Action, SchemaField, pure, gets, lift, ◌>>=◌, ◌>>◌, catch, skip, save_job,
}
use glynac_ingestion_platfor.Settings.{Settings}
use glynac_ingestion_platfor.Time.{date_of_days}
use glynac_ingestion_platfor.Audit.{log_audit, send_to_dead_letter}
use glynac_ingestion_platfor.Control.{claim_job, is_running}
use glynac_ingestion_platfor.Jobs.{get_job_or_404, transition, update_checkpoint}
use glynac_ingestion_platfor.SyncState.{
  Key, get_high_water, advance_high_water, newest, with_overlap, empty,
}
use glynac_ingestion_platfor.Sink.{
  ensure_table, ensure_view, ensure_analytical_views, load_from_storage,
}
use glynac_ingestion_platfor.Hubspot.{hubspot_schemas, supports_incremental}
use glynac_ingestion_platfor.Hubspot.Pipeline.{
  Page, Progress, no_progress, base_path, run_hubspot_sync, clear_pause_signal, text_of,
}

-- `_load_cursor`
unfoldable pub load_cursor : Job → JsonObject
load_cursor job = elim job.cursor [
  | none ↦ []
  | some (CursorText.json d) ↦ d
  | some (CursorText.raw s) ↦ []
]

abbrev pub json_text : Option String → Json
json_text none = null
json_text (some s) = text s

abbrev hubspot_key : String → String → Key
hubspot_key org_id object_name = record {
  service = "hubspot";
  org_id = org_id;
  object_name = object_name;
}

-- `_choose_mode`: full, or incremental with the overlap of the high-water mark.
unfoldable pub choose_mode :
    Settings → String → String → Bool → World → Result (String × Option String)
choose_mode s object_name org_id full_refresh w =
    let high_water = get_high_water (hubspot_key org_id object_name) w in
    if full_refresh || not (supports_incremental object_name) || empty high_water
    then ok ("full", none)
    else elim high_water [
      | none ↦ ok ("full", none)
      | some mark ↦ elim (with_overlap mark s.hubspot_incremental_overlap_seconds) [
        | err e ↦ err e
        | ok since ↦ ok ("incremental", some since)
      ]
    ]

-- The text of a checkpoint.
abbrev pub checkpoint : String → Option String → Option String → Bool → Option String → JsonObject
checkpoint mode since resume_cursor done max_updated =
    ("mode", text mode)
    ∷ ("since", json_text since)
    ∷ ("resume_cursor", json_text resume_cursor)
    ∷ ("completed", bool done)
    ∷ ("max_updated_at", json_text max_updated)
    ∷ []

-- The variables of a run: the decision, the checkpoint that was found, and the job's row.
pub record Decision : Type 0 where
  pub mode : String
  pub since : Option String
  pub saved : JsonObject
  pub job : Job

abbrev mode_of : JsonObject → String
mode_of saved = elim (text_of (get "mode" saved)) [ none ↦ "" | some mode ↦ mode ]

-- The decision of the first start is kept in the checkpoint; an older checkpoint without one is
-- finished as a full run.
unfoldable pub decide :
    Settings → String → String → Option String → Bool → Job → JsonObject → Action Decision
decide s object_name org_id start_after full_refresh job [] = do
  decision ← gets (choose_mode s object_name org_id full_refresh)
  (mode, since) ← lift decision
  job ← update_checkpoint job (CursorText.json (checkpoint mode since start_after false none)) 0
  pure (record {
    mode = mode;
    since = since;
    saved = checkpoint mode since start_after false none;
    job = job;
  })
decide s object_name org_id start_after full_refresh job (f ∷ saved) =
    if has_key "mode" (f ∷ saved)
    then pure (record {
      mode = mode_of (f ∷ saved);
      since = text_of (get "since" (f ∷ saved));
      saved = f ∷ saved;
      job = job;
    })
    else pure (record {
      mode = "full";
      since = none;
      saved = put "since" null (put "mode" (text "full") (f ∷ saved));
      job = job;
    })

-- `state`, and the job's row, which each checkpoint writes.
pub record State : Type 0 where
  pub table_ready : Bool
  pub dead : ℕ
  pub max_updated : Option String
  pub job : Job

abbrev pub schema_of : String → Result (List SchemaField)
schema_of object_name = elim (lookup object_name hubspot_schemas) [
  | none ↦ err (key_error object_name)
  | some schema ↦ ok schema
]

unfoldable pub dead_letters : ℕ → List (JsonObject × String) → Action (Unit {0})
dead_letters job_id [] = skip
dead_letters job_id ((bad_record, reason) ∷ invalid) = do
  send_to_dead_letter job_id bad_record reason
  dead_letters job_id invalid

-- `if landed:` of `on_page`
unfoldable pub load_landed : String → Bool → List String → Action Bool
load_landed object_name table_ready [] = pure table_ready
load_landed object_name table_ready (path ∷ landed) = do
  schema ← lift (schema_of object_name)
  if table_ready then skip else ensure_table object_name schema "hubspot"
  load_from_storage object_name schema (path ∷ landed) "hubspot" [] ("id" ∷ "organisation_id" ∷ [])
      ("id" ∷ [])
  pure true

abbrev is_last : Option String → Bool
is_last none = true
is_last (some _) = false

-- `on_page`
unfoldable pub on_page :
    String
    → String
    → Option String
    → State
    → Option String
    → List (JsonObject × String)
    → List String
    → ℕ
    → Option String
    → Action State
on_page object_name mode since state next_cursor invalid landed valid_count page_max = do
  dead_letters state.job.id invalid
  ready ← load_landed object_name state.table_ready landed
  max_updated ← lift (newest state.max_updated page_max)
  job ←
      update_checkpoint state.job
        (CursorText.json (checkpoint mode since next_cursor (is_last next_cursor) max_updated))
        valid_count
  pure (record {
    table_ready = ready;
    dead = state.dead + length invalid;
    max_updated = max_updated;
    job = job;
  })

-- (`created.year`, `created.month`)
abbrev partition : Job → ℕ × ℕ
partition job = let d = date_of_days (job.created_at / 86400000000) in (d.year, d.month)

abbrev pub is_done : JsonObject → Bool
is_done saved = not (is_falsy (get "completed" saved))

abbrev first_state : Decision → State
first_state d = record {
  table_ready = false;
  dead = 0;
  max_updated = text_of (get "max_updated_at" d.saved);
  job = d.job;
}

abbrev or_none : Option String → String
or_none none = "None"
or_none (some s) = s

abbrev is_cancelled : JobStatus → Bool
is_cancelled cancelled = true
is_cancelled _ = false

-- The last transition.
unfoldable pub finish : String → String → Decision → Progress × State → Action (Unit {0})
finish object_name org_id d (progress, state) = do
  job ← get_job_or_404 d.job.id
  if is_cancelled job.status then skip else (do
    if state.table_ready || is_done d.saved
        then (ensure_view object_name "hubspot" >> ensure_analytical_views)
        else skip
    if progress.is_stopped
        then (do
          transition job paused (some ("paused; resume_cursor=" <> or_none progress.resume_cursor))
          skip)
        else (do
          advance_high_water (hubspot_key org_id object_name) state.max_updated
          transition job completed (
              some (
                d.mode
                <> " sync: "
                <> show job.row_count
                <> " rows landed in "
                <> show progress.pages
                <> " pages, "
                <> show state.dead
                <> " dead-lettered"))
          skip))

-- The `except` clause: the job ends in FAILED, with the reason.
unfoldable pub fail_job : ℕ → Exception → Action (Unit {0})
fail_job job_id exc = do
  job ← get_job_or_404 job_id
  save_job job_id (λ j. record j { retry_count = job.retry_count + 1 })
  log_audit job_id "ERROR" (some (message exc))
  catch (transition job failed (some (message exc)) >> skip) (λ _. skip)

abbrev pub start_detail : Option String → String
start_detail start_after = if empty start_after then "started" else "resumed"

module _ (s : Settings) (boot_id fuel : ℕ) (authenticate : Result (Unit {0}))
    (fetch_page : String → Option String → String → Option String → Result Page)
    (label : ℕ → String) where
  -- The pages, unless an earlier run of the job has done them all.
  unfoldable pub sync_or_done :
      String → String → Decision → Option String → Action (Option (Progress × State))
  sync_or_done object_name org_id d start_after =
      if is_done d.saved
      then pure (some (record (no_progress none) { completed = true }, first_state d))
      else run_hubspot_sync (λ after. fetch_page object_name after org_id d.since)
          (base_path org_id object_name (partition d.job) (label d.job.id))
          (on_page object_name d.mode d.since) d.job.id fuel (no_progress start_after) start_after
          (first_state d)

  unfoldable pub finish_if_ended :
      String → String → Decision → Option (Progress × State) → Action Bool
  finish_if_ended object_name org_id d none = pure false
  finish_if_ended object_name org_id d (some r) = finish object_name org_id d r >> pure true

  -- `run_hubspot_ingestion`: `label` is `job.id[:8]`. The result is False when the fuel ran out.
  unfoldable pub run_hubspot_ingestion : ℕ → String → String → Option String → Bool → Action Bool
  run_hubspot_ingestion job_id object_name org_id start_after full_refresh =
      catch
        (do
          job ← get_job_or_404 job_id
          lift authenticate
          job ←
              if is_running job.status
              then pure job
              else transition job running (some (start_detail start_after))
          claim_job boot_id job_id
          clear_pause_signal job_id
          d ← decide s object_name org_id start_after full_refresh job (load_cursor job)
          r ← sync_or_done object_name org_id d start_after
          finish_if_ended object_name org_id d r)
        (λ exc. fail_job job_id exc >> pure true)
