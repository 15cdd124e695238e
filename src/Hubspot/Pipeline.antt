-- ===== src/Hubspot/Pipeline.antt =====
-- app/hubspot/pipeline.py: the loop over the pages. The client is a parameter: `fetch_page` is what
-- `_fetch_page_with_retry` returns or raises. A page lands by the pyarrow writer.
use glynac_ingestion_platfor.Common.{
  ℕ, zero, suc, ◌+◌, String, ◌<>◌, Bool, true, false, Option, none, some, List, [], ◌∷◌,
  if◌then◌else◌, map, length, str_eq,
}
use glynac_ingestion_platfor.Common.Text.{lower, show}
use glynac_ingestion_platfor.Errors.{Result, ok, err}
use glynac_ingestion_platfor.Json.{Json, JsonObject, text, get}
use glynac_ingestion_platfor.Models.{Control, pause}
use glynac_ingestion_platfor.World.{World, Action, pure, gets, lift, ◌>>=◌, ◌>>◌}
use glynac_ingestion_platfor.Time.{pad2}
use glynac_ingestion_platfor.SyncState.{newest}
use glynac_ingestion_platfor.Control.{set_control, get_control, clear_control}
use glynac_ingestion_platfor.Storage.{put_object}
use glynac_ingestion_platfor.Hubspot.{validate_records, normalise}

-- `signal_pause`
unfoldable pub signal_pause : ℕ → Action (Unit {0})
signal_pause job_id = set_control job_id (some pause)

-- `clear_pause_signal`
unfoldable pub clear_pause_signal : ℕ → Action (Unit {0})
clear_pause_signal job_id = clear_control job_id

abbrev is_request : Option Control → Bool
is_request none = false
is_request (some _) = true

-- `is_paused`
unfoldable pub is_paused : ℕ → World → Bool
is_paused job_id w = is_request (get_control job_id w)

-- What `client.fetch_page` returns.
pub record Page : Type 0 where
  pub results : List JsonObject
  pub next_after : Option String

abbrev pub text_of : Json → Option String
text_of (text s) = some s
text_of _ = none

-- The newest `updated_at` of a page.
unfoldable pub newest_of : Option String → List JsonObject → Result (Option String)
newest_of page_max [] = ok page_max
newest_of page_max (r ∷ results) = elim (newest page_max (text_of (get "updated_at" r))) [
  | err e ↦ err e
  | ok page_max ↦ newest_of page_max results
]

-- `_land_page_pyarrow`
unfoldable pub land_page : String → List JsonObject → Action (List String)
land_page base_path [] = pure ((base_path <> ".parquet") ∷ [])
land_page base_path (row ∷ rows) = do
  put_object (base_path <> ".parquet") (row ∷ rows)
  pure ((base_path <> ".parquet") ∷ [])

-- `f"part-{tag}{current or '0'}"` and the directories above it.
unfoldable pub base_path : String → String → ℕ × ℕ → String → Option String → String
base_path org_id object_name (year, month) run_label current =
    "hubspot/"
    <> org_id
    <> "/"
    <> lower object_name
    <> "/"
    <> "year="
    <> show year
    <> "/month="
    <> pad2 month
    <> "/part-"
    <> (if str_eq run_label "" then "" else run_label <> "-")
    <> (elim current [ none ↦ "0" | some after ↦ if str_eq after "" then "0" else after ])

-- `progress`
pub record Progress : Type 0 where
  pub rows_yielded : ℕ
  pub pages : ℕ
  pub resume_cursor : Option String
  pub is_stopped : Bool
  pub completed : Bool

abbrev pub no_progress : Option String → Progress
no_progress start_after = record {
  rows_yielded = 0;
  pages = 0;
  resume_cursor = start_after;
  is_stopped = false;
  completed = false;
}

-- After a page: its rows, and the cursor of the next one.
abbrev pub counted : ℕ → Option String → Progress → Progress
counted n none progress = record progress {
  rows_yielded = progress.rows_yielded + n;
  pages = progress.pages + 1;
  completed = true;
  resume_cursor = none;
}
counted n (some after) progress = record progress {
  rows_yielded = progress.rows_yielded + n;
  pages = progress.pages + 1;
  resume_cursor = some after;
}

-- The parameters of a run. `S` is what `on_page` keeps from page to page.
module _ {S : Type 0} (fetch_page : Option String → Result Page) (base : Option String → String)
    (on_page : S
      → Option String
      → List (JsonObject × String)
      → List String
      → ℕ
      → Option String
      → Action S)
    (job_id : ℕ) where
  -- `if landable:`
  unfoldable pub land : Option String → List JsonObject → Action (List String)
  land current [] = pure []
  land current (row ∷ rows) = land_page (base current) (row ∷ rows)

  -- One page: it is fetched, it lands, and it is handed to `on_page`.
  unfoldable pub sync_page : Option String → S → Action (Page × S)
  sync_page current σ = do
    page ← lift (fetch_page current)
    page_max ← lift (newest_of none page.results)
    landed ← land current (map normalise (validate_records page.results).0)
    σ' ←
        on_page σ page.next_after (validate_records page.results).1 landed
          (length (validate_records page.results).0) page_max
    pure (page, σ')

  -- What follows a page: the next one, or the end.
  unfoldable pub next_page :
      (Progress → Option String → S → Action (Option (Progress × S)))
      → Progress
      → Page × S
      → Action (Option (Progress × S))
  next_page again progress (page, σ) = elim page.next_after [
    | none ↦ pure (some (counted (length page.results) none progress, σ))
    | some after ↦ again (counted (length page.results) (some after) progress) (some after) σ
  ]

  -- `run_hubspot_sync`: the loop, on fuel. The result is `none` when the fuel ran out.
  unfoldable pub run_hubspot_sync :
      ℕ → Progress → Option String → S → Action (Option (Progress × S))
  run_hubspot_sync zero progress current σ = pure none
  run_hubspot_sync (suc fuel) progress current σ = do
    stop ← gets (is_paused job_id)
    if stop
        then pure (some (record progress { is_stopped = true; resume_cursor = current }, σ))
        else (do r ← sync_page current σ; next_page (run_hubspot_sync fuel) progress r)
