-- ===== src/Hubspot/Paging.antt =====
-- The loop over the pages comes to an end, and a stopped run can be resumed where it was stopped.
use glynac_ingestion_platfor.Common.{
  ℕ, suc, ◌+◌, String, ◌≡◌, ◌⊎◌, inl, inr, true, false, Option, none, some, List, [], ◌∷◌,
  Bool-cases,
}
use glynac_ingestion_platfor.Errors.{Exception, Result, ok, err}
use glynac_ingestion_platfor.Json.{JsonObject, get, is_falsy}
use glynac_ingestion_platfor.World.{World, Action}
use glynac_ingestion_platfor.World.Returns.{Returns}
use glynac_ingestion_platfor.Hubspot.{validate_records}
use glynac_ingestion_platfor.Hubspot.Pipeline.{Page, Progress, run_hubspot_sync}

module _ {S : Type 0} (fetch_page : Option String → Result Page) (base : Option String → String)
    (on_page : S
      → Option String
      → List (JsonObject × String)
      → List String
      → ℕ
      → Option String
      → Action S)
    (job_id : ℕ) where
  -- The server has `n` more pages from a cursor on.
  pub data Pages : Option String → ℕ → Type 0 where
    last :
        {c : Option String} (page : Page)
        → fetch_page c ≡ ok page
        → page.next_after ≡ none
        → Pages c 1
    more :
        {c : Option String} {n : ℕ} (page : Page) (after : String)
        → fetch_page c ≡ ok page
        → page.next_after ≡ some after
        → Pages (some after) n
        → Pages c (suc n)

  -- How a run over `n` pages ends, from the progress that it started with.
  pub data Ending (n : ℕ) (before : Progress) : Result (Option (Progress × S)) → Type 0 where
    raised : (e : Exception) → Ending n before (err e)
    finished :
        (p : Progress) (σ : S)
        → p.completed ≡ true
        → p.resume_cursor ≡ none
        → p.pages ≡ before.pages + n
        → Ending n before (ok (some (p, σ)))
    stopped :
        (p : Progress) (σ : S) (handed rest : ℕ)
        → p.is_stopped ≡ true
        → n ≡ handed + rest
        → p.pages ≡ before.pages + handed
        → Pages p.resume_cursor rest
        → Ending n before (ok (some (p, σ)))

  abbrev sync : ℕ → Progress → Option String → S → Action (Option (Progress × S))
  sync = run_hubspot_sync fetch_page base on_page job_id

-- Each record goes to one side, in order: to the valid ones as it is, when both fields are there, and else
-- to the others, with the reason.
pub data Split : List JsonObject → List JsonObject → List (JsonObject × String) → Type 0 where
  nothing : Split [] [] []
  valid :
      {records good : List JsonObject} {bad : List (JsonObject × String)} (r : JsonObject)
      → is_falsy (get "id" r) ≡ false
      → is_falsy (get "organisation_id" r) ≡ false
      → Split records good bad
      → Split (r ∷ records) (r ∷ good) bad
  invalid :
      {records good : List JsonObject} {bad : List (JsonObject × String)} (r : JsonObject)
      → (is_falsy (get "id" r) ≡ true) ⊎ (is_falsy (get "organisation_id" r) ≡ true)
      → Split records good bad
      → Split (r ∷ records) good ((r, "missing required field: id or organisation_id") ∷ bad)

-- The check of the required fields loses no record and changes none: each record that has an id and an
-- organisation is among the valid ones, each other one is rejected with the reason, and both sides
-- keep the order.
pub validate_records-Split :
    (records : List JsonObject)
    → Split records (validate_records records).0 (validate_records records).1
unfolding validate_records
validate_records-Split [] = nothing
validate_records-Split (r ∷ records) =
    let rest = validate_records-Split records in
    elim (Bool-cases (is_falsy (get "id" r))) [
      | inl e ↦ rw e (invalid r (inl e) rest)
      | inr e ↦ elim (Bool-cases (is_falsy (get "organisation_id" r))) [
        | inl o ↦ rw (e, o) (invalid r (inr o) rest)
        | inr o ↦ rw (e, o) (valid r e o rest)
      ]
    ]
