-- ===== src/Salesforce/Stop.antt =====
-- A stored request stops a run between two stages.
use glynac_ingestion_platfor.Common.{
  ℕ, String, ◌≡◌, refl, ◌∙◌, ap, sym, true, false, Bool, Option, none, some, arith,
}
use glynac_ingestion_platfor.Errors.{Result, ok}
use glynac_ingestion_platfor.Models.{
  Job, JobStatus, running, paused, cancelled, Control, pause, cancel,
}
use glynac_ingestion_platfor.World.{World, pure, ◌>>=◌, find_job, touch}
use glynac_ingestion_platfor.World.Rows.{find_job-modify_job, find_job-id}
use glynac_ingestion_platfor.Control.{set_control, get_control, clear_control}
use glynac_ingestion_platfor.Jobs.{allowed}
use glynac_ingestion_platfor.Jobs.Transitions.{
  get_job_found, moved_world, Moved-moved_world, transition-allowed,
}
use glynac_ingestion_platfor.Salesforce.{honour, on_control, stop_requested}

-- The job has ended in a status, and its request is cleared.
abbrev pub EndedAs : ℕ → JobStatus → Result Bool → World → Type 0
EndedAs k status r w' =
    (r ≡ ok true)
    × ((j : Job) × (find_job k w' ≡ some j) × (j.status ≡ status) × (j.control ≡ none))

honour-EndedAs :
    (k : ℕ) (status : JobStatus) (detail : String) (w : World) (job : Job)
    → find_job k w ≡ some job
    → allowed job.status status ≡ true
    → EndedAs k status (honour k status detail w).0 (honour k status detail w).1
unfolding honour clear_control set_control ◌>>=◌
honour-EndedAs k status detail w job found good =
    let same : job.id ≡ k = find_job-id k w job found in
    let here : find_job job.id w ≡ some job = ap (λ i. find_job i w) same ∙ found in
    let eq = transition-allowed job status (some detail) w job here good in
    let (j, row, st) = (Moved-moved_world job status (some detail) w).row job here in
    let u = moved_world job status (some detail) w in
    let cleared = find_job-modify_job (λ j. record j { control = none }) (λ j. refl) u k in
    let row' : find_job k u ≡ some j = ap (λ i. find_job i u) (sym same) ∙ row in
    rw (get_job_found k w job found, eq)
      (refl, (touch u.now (λ j. record j { control = none }) j, cc (cleared, row'), st, refl))

-- What a run does about the request that is stored for its job.
abbrev pub Obeyed : ℕ → World → Option Control → Result Bool → World → Type 0
Obeyed k w none r w' = (r ≡ ok false) × (w' ≡ w)
Obeyed k w (some pause) r w' = EndedAs k paused r w'
Obeyed k w (some cancel) r w' = EndedAs k cancelled r w'

on_control-Obeyed :
    (k : ℕ) (w : World) (job : Job) (control : Option Control)
    → find_job k w ≡ some job
    → job.status ≡ running
    → Obeyed k w control (on_control k job control w).0 (on_control k job control w).1
unfolding on_control pure allowed
on_control-Obeyed k w job none found live = (refl, refl)
on_control-Obeyed k w job (some pause) found live =
    honour-EndedAs k paused _ w job found (rw live refl)
on_control-Obeyed k w job (some cancel) found live =
    honour-EndedAs k cancelled _ w job found (rw live refl)

-- Between two stages of a running job: with no request the run goes on and nothing changes; a stored
-- PAUSE or CANCEL stops the run, moves the job to PAUSED or CANCELLED, and is cleared.
pub stop_requested_obeys :
    (k : ℕ) (w : World) (job : Job)
    → find_job k w ≡ some job
    → job.status ≡ running
    → Obeyed k w job.control (stop_requested k w).0 (stop_requested k w).1
unfolding stop_requested ◌>>=◌ on_control
stop_requested_obeys k w job found live =
    let control_found : get_control k w ≡ job.control = ground arith in
    rw (get_job_found k w job found, control_found, live)
      (on_control-Obeyed k w job job.control found live)
