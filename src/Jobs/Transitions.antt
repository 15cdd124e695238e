-- ===== src/Jobs/Transitions.antt =====
-- The state machine of `transition`: which moves it makes, and what it writes.
use glynac_ingestion_platfor.Common.{
  ℕ, suc, String, ◌<>◌, ◌≡◌, refl, sym, ◌∙◌, ◌≢◌, ◌⊎◌, true, false, inl, inr, Bool-cases,
  Option-cases, ap, Option, some, arith, length, length-append,
}
use glynac_ingestion_platfor.Common.Text.{strip}
use glynac_ingestion_platfor.Errors.{ok, is_ok}
use glynac_ingestion_platfor.Models.{
  Job, JobStatus, pending, running, paused, completed, failed, cancelled,
}
use glynac_ingestion_platfor.World.{
  World, pure, save_job, raise, modify, ◌>>=◌, find_job, touch, modify_job,
}
use glynac_ingestion_platfor.World.Rows.{
  KeepsId, find_job-modify_job, find_job-modify_job_ne, find_job-id,
}
use glynac_ingestion_platfor.Audit.{log_audit}
use glynac_ingestion_platfor.Jobs.{get_job_or_404, allowed, transition, set_status, value, or_empty}

-- The moves of a job's life.
pub data Edge : JobStatus → JobStatus → Type 0 where
  start : Edge pending running
  abandon : Edge pending cancelled
  fail_early : Edge pending failed
  suspend : Edge running paused
  finish : Edge running completed
  fail : Edge running failed
  stop : Edge running cancelled
  resume : Edge paused running
  stop_paused : Edge paused cancelled
  retry : Edge failed running
  give_up : Edge failed cancelled

pub set_status-KeepsId :
    (new : JobStatus) (detail : Option String) → KeepsId (set_status new detail)
unfolding set_status
set_status-KeepsId pending detail j = refl
set_status-KeepsId _ detail j = refl

-- `allowed` decides the moves.
pub allowed-Edge : (old new : JobStatus) → allowed old new ≡ true → Edge old new
unfolding allowed
allowed-Edge pending pending h = cc
allowed-Edge pending running h = start
allowed-Edge pending paused h = cc
allowed-Edge pending completed h = cc
allowed-Edge pending failed h = fail_early
allowed-Edge pending cancelled h = abandon
allowed-Edge running pending h = cc
allowed-Edge running running h = cc
allowed-Edge running paused h = suspend
allowed-Edge running completed h = finish
allowed-Edge running failed h = fail
allowed-Edge running cancelled h = stop
allowed-Edge paused running h = resume
allowed-Edge paused cancelled h = stop_paused
allowed-Edge paused pending h = cc
allowed-Edge paused paused h = cc
allowed-Edge paused completed h = cc
allowed-Edge paused failed h = cc
allowed-Edge failed running h = retry
allowed-Edge failed cancelled h = give_up
allowed-Edge failed pending h = cc
allowed-Edge failed paused h = cc
allowed-Edge failed completed h = cc
allowed-Edge failed failed h = cc
allowed-Edge completed pending h = cc
allowed-Edge completed new h = cc
allowed-Edge cancelled pending h = cc
allowed-Edge cancelled new h = cc

pub Edge-allowed : {old new : JobStatus} → Edge old new → allowed old new ≡ true
unfolding allowed
Edge-allowed start = refl
Edge-allowed _ = refl

pub status-set_status :
    (new : JobStatus) (detail : Option String) (j : Job) → (set_status new detail j).status ≡ new
unfolding set_status
status-set_status pending detail j = refl
status-set_status _ detail j = refl

pub get_job_found :
    (k : ℕ) (w : World) (job : Job) → find_job k w ≡ some job → get_job_or_404 k w ≡ (ok job, w)
unfolding get_job_or_404 pure
get_job_found k w job found = ground arith

-- What a move leaves in the store: the job's own row has the new status, every other row is what
-- it was, and the audit trail is longer by one entry.
pub record Moved (k : ℕ) (new : JobStatus) (w w' : World) : Type 0 where
  pub row :
      (j : Job) → find_job k w ≡ some j → (j' : Job) × (find_job k w' ≡ some j') × (j'.status ≡ new)
  pub others : (i : ℕ) → i ≢ k → find_job i w' ≡ find_job i w
  pub logged : length w'.audit ≡ suc (length w.audit)

-- The state after an allowed transition of a row that exists.
unfoldable pub moved_world : Job → JobStatus → Option String → World → World
unfolding log_audit
moved_world job new detail w =
    (log_audit job.id "STATUS_CHANGE"
      (some (strip (value job.status <> " -> " <> value new <> ". " <> or_empty detail)))
      (modify_job job.id (set_status new detail) w)).1

pub transition-allowed :
    (job : Job) (new : JobStatus) (detail : Option String) (w : World) (j : Job)
    → find_job job.id w ≡ some j
    → allowed job.status new ≡ true
    → transition job new detail w
      ≡ (ok (touch w.now (set_status new detail) j), moved_world job new detail w)
unfolding transition moved_world save_job ◌>>=◌
transition-allowed job new detail w j h a = ground arith

pub Moved-moved_world :
    (job : Job) (new : JobStatus) (detail : Option String) (w : World)
    → Moved job.id new w (moved_world job new detail w)
unfolding moved_world modify
Moved-moved_world job new detail w = record {
  row = λ j h. (
    touch w.now (set_status new detail) j,
    cc (find_job-modify_job (set_status new detail) (set_status-KeepsId new detail) w job.id),
    status-set_status new detail j,
  );
  others = λ i ne.
      find_job-modify_job_ne (set_status new detail) (set_status-KeepsId new detail) w job.id i ne;
  logged = omega (arith, length-append {0} w.audit);
}

pub transition-refused :
    (job : Job) (new : JobStatus) (detail : Option String) (w : World)
    → allowed job.status new ≡ false
    → (transition job new detail w).1 ≡ w
unfolding transition raise
transition-refused job new detail w bad = rw bad

-- A transition along an edge, of a row that the caller has just read: it succeeds, the row takes the
-- new status, every other row is what it was, and one audit entry is added.
pub transition_moves :
    (job : Job) (new : JobStatus) (detail : Option String) (w : World) (other : ℕ)
    → find_job job.id w ≡ some job
    → Edge job.status new
    → other ≢ job.id
    → let (r, w') = transition job new detail w in
      (is_ok r ≡ true)
      × ((j : Job) × (find_job job.id w' ≡ some j) × (j.status ≡ new))
      × (find_job other w' ≡ find_job other w)
      × (length w'.audit ≡ suc (length w.audit))
transition_moves job new detail w other h e ne =
    let eq = transition-allowed job new detail w job h (Edge-allowed e) in
    let m = Moved-moved_world job new detail w in
    (rw eq, rw eq (m.row job h), rw eq (m.others other ne), rw eq m.logged)

-- A transition along an edge, of the row with id `k` that the caller has just read.
pub transition_found :
    (k : ℕ) (job : Job) (new : JobStatus) (detail : Option String) (w : World)
    → find_job k w ≡ some job
    → Edge job.status new
    → (transition job new detail w
        ≡ (ok (touch w.now (set_status new detail) job), moved_world job new detail w))
      × ((j : Job) × (find_job k (moved_world job new detail w) ≡ some j) × (j.status ≡ new))
transition_found k job new detail w found e =
    let same : job.id ≡ k = find_job-id k w job found in
    let here : find_job job.id w ≡ some job = ap (λ i. find_job i w) same ∙ found in
    let (j, row, st) = (Moved-moved_world job new detail w).row job here in
    (
      transition-allowed job new detail w job here (Edge-allowed e),
      (j, ap (λ i. find_job i (moved_world job new detail w)) (sym same) ∙ row, st),
    )

-- The `jobs` table after a transition: the row's change, or nothing.
pub jobs-transition :
    (job : Job) (new : JobStatus) (detail : Option String) (w : World)
    → ((transition job new detail w).1.jobs ≡ w.jobs)
      ⊎ ((transition job new detail w).1.jobs ≡ (modify_job job.id (set_status new detail) w).jobs)
unfolding transition moved_world save_job modify raise ◌>>=◌
jobs-transition job new detail w = elim (Bool-cases (allowed job.status new)) [
  | inr bad ↦ inl (ap (λ w'. w'.jobs) (transition-refused job new detail w bad))
  | inl good ↦ elim (Option-cases (find_job job.id w)) [
    | inl gone ↦ inl (ground arith)
    | inr (j, found) ↦ inr (ap (λ c. c.1.jobs) (transition-allowed job new detail w j found good))
  ]
]
