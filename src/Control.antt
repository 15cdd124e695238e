-- ===== src/Control.antt =====
-- app/control.py: the requests and the ownership that are stored in the `jobs` table.
use glynac_ingestion_platfor.Common.{
  ℕ, Bool, ◌&&◌, true, false, Option, none, some, ◌==◌, count, update_where,
}
use glynac_ingestion_platfor.Errors.{ok}
use glynac_ingestion_platfor.Models.{Job, JobStatus, running, Control}
use glynac_ingestion_platfor.World.{World, Action, modify, find_job, modify_job}

-- `set_control`: nothing happens when the job is gone.
unfoldable pub set_control : ℕ → Option Control → Action (Unit {0})
set_control job_id value = modify (modify_job job_id (λ j. record j { control = value }))

-- `get_control`
abbrev pub get_control : ℕ → World → Option Control
get_control job_id w = elim (find_job job_id w) [ none ↦ none | some j ↦ j.control ]

-- `clear_control`
unfoldable pub clear_control : ℕ → Action (Unit {0})
clear_control job_id = set_control job_id none

-- `claim_job`, in the process `boot_id`.
unfoldable pub claim_job : ℕ → ℕ → Action (Unit {0})
claim_job boot_id job_id =
    modify
      λ w. modify_job job_id (λ j. record j { owner = some boot_id; heartbeat_at = some w.now }) w

abbrev pub is_running : JobStatus → Bool
is_running running = true
is_running _ = false

abbrev pub owned_by : ℕ → Job → Bool
owned_by boot_id j = elim j.owner [ none ↦ false | some o ↦ o == boot_id ]

abbrev pub beats : ℕ → Job → Bool
beats boot_id j = owned_by boot_id j && is_running j.status

-- `heartbeat_once`: a stamp on each RUNNING job of this process. `updated_at` stays.
unfoldable pub heartbeat_once : ℕ → Action ℕ
heartbeat_once boot_id w = (
  ok (count (beats boot_id) w.jobs),
  record w {
    jobs = update_where (beats boot_id) (λ j. record j { heartbeat_at = some w.now }) w.jobs;
  },
)
