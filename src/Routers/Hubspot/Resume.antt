-- ===== src/Routers/Hubspot/Resume.antt =====
-- What resuming a HubSpot job does.
use glynac_ingestion_platfor.Common.{
  ℕ, String, ◌<>◌, ◌≡◌, refl, ◌∙◌, ap, true, Option, some, [], ◌∷◌, ◌++◌,
}
use glynac_ingestion_platfor.Errors.{ok}
use glynac_ingestion_platfor.Json.{JsonObject, get}
use glynac_ingestion_platfor.Models.{
  Job, JobStatus, pending, paused, failed, completed, cancelled, running,
}
use glynac_ingestion_platfor.World.{World, ◌>>=◌, find_job, touch}
use glynac_ingestion_platfor.World.Rows.{find_job-id, find_job-modify_job}
use glynac_ingestion_platfor.Audit.{log_audit}
use glynac_ingestion_platfor.Jobs.{allowed, set_status}
use glynac_ingestion_platfor.Jobs.Transitions.{
  get_job_found, moved_world, set_status-KeepsId, transition-allowed,
}
use glynac_ingestion_platfor.Hubspot.Pipeline.{text_of}
use glynac_ingestion_platfor.Routers.Hubspot.{
  resume_job, can_resume, cursor_data, resume_task, or_none,
}

can_resume-allowed : (s : JobStatus) → can_resume s ≡ true → allowed s running ≡ true
unfolding allowed
can_resume-allowed pending h = cc
can_resume-allowed running h = cc
can_resume-allowed paused h = refl
can_resume-allowed failed h = refl
can_resume-allowed completed h = cc
can_resume-allowed cancelled h = cc

-- A HubSpot job that is PAUSED or FAILED, with a checkpoint that can be read: resuming it succeeds,
-- the job is RUNNING, and exactly one task is handed to the background, which runs this job's object
-- and organisation from the cursor of the checkpoint.
pub resume_job_resumes :
    (k : ℕ) (w : World) (job : Job) (d : JsonObject)
    → find_job k w ≡ some job
    → can_resume job.status ≡ true
    → cursor_data job ≡ ok d
    → let (r, w') = resume_job k w in
      ((j : Job) × (r ≡ ok j) × (find_job k w' ≡ some j) × (j.status ≡ running))
      × (w'.tasks ≡ w.tasks ++ resume_task job (text_of (get "resume_cursor" d)) ∷ [])
unfolding resume_job moved_world log_audit set_status ◌>>=◌
resume_job_resumes k w job d found ready saved =
    let detail : Option String =
      some ("resume requested from cursor=" <> or_none (text_of (get "resume_cursor" d))) in
    let same : job.id ≡ k = find_job-id k w job found in
    let here : find_job job.id w ≡ some job = ap (λ i. find_job i w) same ∙ found in
    let eq =
      transition-allowed job running detail w job here (can_resume-allowed job.status ready) in
    let row =
      find_job-modify_job (set_status running detail) (set_status-KeepsId running detail) w
        job.id in
    rw (get_job_found k w job found, ready, saved, eq)
      ((touch w.now (set_status running detail) job, refl, rw⁻¹ same (cc (row, here)), refl), refl)
