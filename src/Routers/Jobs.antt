-- ===== src/Routers/Jobs.antt =====
-- app/routers/jobs.py: the endpoints under /api/jobs.
pub mod History
use glynac_ingestion_platfor.Common.{
  ℕ, ◌+◌, String, Bool, true, false, not, Option, none, some, List, [], ◌∷◌, filter, str_eq, ◌==◌,
  length, if◌then◌else◌, leb,
}
use glynac_ingestion_platfor.Models.{Job, paused, running, cancelled, AuditLog, DeadLetter}
use glynac_ingestion_platfor.World.{Action, gets, modify, ◌>>=◌, ◌>>◌, has_id}
use glynac_ingestion_platfor.Jobs.{get_job_or_404, transition, value}

-- Sorts rows by a key, the newest first; rows with equal keys keep their order.
insert_desc : Job → List Job → List Job
insert_desc j [] = j ∷ []
insert_desc j (k ∷ ks) = elim (leb k.created_at j.created_at) [
  | true ↦ j ∷ k ∷ ks
  | false ↦ k ∷ insert_desc j ks
]

unfoldable pub newest_first : List Job → List Job
unfolding insert_desc
newest_first [] = []
newest_first (j ∷ js) = insert_desc j (newest_first js)

abbrev in_service : Option String → Job → Bool
in_service none j = true
in_service (some s) j = if str_eq s "" then true else str_eq j.service s

-- `list_jobs`
pub list_jobs : Option String → Action (List Job)
unfolding newest_first
list_jobs service = gets (λ w. newest_first (filter (in_service service) w.jobs))

-- `d[key] = d.get(key, 0) + 1`
unfoldable pub bump : String → List (String × ℕ) → List (String × ℕ)
bump key [] = (key, 1) ∷ []
bump key ((k, n) ∷ d) = if str_eq k key then (k, n + 1) ∷ d else (k, n) ∷ bump key d

pub record Stats : Type 0 where
  pub total_jobs : ℕ
  pub total_rows_extracted : ℕ
  pub by_service : List (String × ℕ)
  pub by_status : List (String × ℕ)

-- The loop of `get_jobs_stats`.
stats_loop : List Job → Stats → Stats
unfolding bump value
stats_loop [] s = s
stats_loop (j ∷ js) s = stats_loop js (record s {
  total_rows_extracted = s.total_rows_extracted + j.row_count;
  by_service = bump j.service s.by_service;
  by_status = bump (value j.status) s.by_status;
})

-- `get_jobs_stats`
unfoldable pub get_jobs_stats : Action Stats
unfolding stats_loop
get_jobs_stats = gets λ w. stats_loop w.jobs (record {
  total_jobs = length w.jobs;
  total_rows_extracted = 0;
  by_service = [];
  by_status = [];
})

-- `get_status`
pub get_status : ℕ → Action Job
get_status job_id = get_job_or_404 job_id

-- `get_audit_trail`: entries are kept in the order of their creation.
pub get_audit_trail : ℕ → Action (List AuditLog)
get_audit_trail job_id = do
  get_job_or_404 job_id
  gets (λ w. filter (λ (e : AuditLog). e.job_id == job_id) w.audit)

-- `get_dead_letters`
pub get_dead_letters : ℕ → Action (List DeadLetter)
get_dead_letters job_id = do
  get_job_or_404 job_id
  gets (λ w. filter (λ (d : DeadLetter). d.job_id == job_id) w.dead_letters)

-- `pause_job`
unfoldable pub pause_job : ℕ → Action Job
pause_job job_id = do job ← get_job_or_404 job_id; transition job paused none

-- `resume_job`
unfoldable pub resume_job : ℕ → Action Job
resume_job job_id = do
  job ← get_job_or_404 job_id
  transition job running (some "resumed from checkpoint")

-- `cancel_job`
unfoldable pub cancel_job : ℕ → Action Job
cancel_job job_id = do job ← get_job_or_404 job_id; transition job cancelled none

-- `remove_job`: the relationships of `Job` delete its audit entries and dead letters too.
unfoldable pub remove_job : ℕ → Action (Unit {0})
remove_job job_id = do
  get_job_or_404 job_id
  modify λ w. record w {
    jobs = filter (λ j. not (has_id job_id j)) w.jobs;
    audit = filter (λ (e : AuditLog). not (e.job_id == job_id)) w.audit;
    dead_letters = filter (λ (d : DeadLetter). not (d.job_id == job_id)) w.dead_letters;
  }
