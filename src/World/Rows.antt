-- ===== src/World/Rows.antt =====
-- Reading a job's row after a write to the `jobs` table.
use glynac_ingestion_platfor.Common.{
  ℕ, ◌≡◌, ap, ◌≢◌, some, arith, ◌==◌, after, find-update_where, find-update_where_ne, find_sound,
  ==_iff,
}
use glynac_ingestion_platfor.Models.{Job}
use glynac_ingestion_platfor.World.{World, has_id, find_job, touch, modify_job}

-- A change of columns other than the id.
abbrev pub KeepsId : (Job → Job) → Type 0
KeepsId f = (j : Job) → (f j).id ≡ j.id

module _ (f : Job → Job) (keep : KeepsId f) (w : World) where
  pub find_job-modify_job :
      (k : ℕ) → find_job k (modify_job k f w) ≡ after (has_id k) (touch w.now f) (find_job k w)
  find_job-modify_job k =
      find-update_where (has_id k) (touch w.now f) (λ j. ap (λ i. i == k) (keep j)) w.jobs

  pub find_job-modify_job_ne : (k i : ℕ) → i ≢ k → find_job i (modify_job k f w) ≡ find_job i w
  find_job-modify_job_ne k i ne =
      find-update_where_ne (has_id k) (touch w.now f) (has_id i) (λ j h. ground (arith, keep j))
        w.jobs

pub find_job-id : (k : ℕ) (w : World) (j : Job) → find_job k w ≡ some j → j.id ≡ k
find_job-id k w j h = (==_iff j.id k).0 (find_sound (has_id k) w.jobs j h)
