-- ===== src/Slack/Backfill/Verdict.antt =====
-- How a run of the backfill ends.
use glynac_ingestion_platfor.Common.{
  ℕ, String, ◌≡◌, refl, Bool, true, false, Option, none, some, List, [], ◌∷◌,
}
use glynac_ingestion_platfor.Errors.{Result, ok}
use glynac_ingestion_platfor.Models.{Job, JobStatus, running, paused, completed, failed, cancelled}
use glynac_ingestion_platfor.World.{World, pure, gets, skip, ◌>>=◌, ◌>>◌, find_job}
use glynac_ingestion_platfor.Jobs.Transitions.{Edge, suspend, fail, stop, transition_found}
use glynac_ingestion_platfor.Jobs.{transition}
use glynac_ingestion_platfor.Slack.{cancel_requested, pause_requested}
use glynac_ingestion_platfor.Slack.Backfill.Run.{conclude, finish}

-- A request to cancel goes first, then one to pause, then a channel that failed.
abbrev pub verdict : List (String × String) → Bool → Bool → JobStatus
verdict down true _ = cancelled
verdict down false true = paused
verdict [] false false = completed
verdict (f ∷ fs) false false = failed

-- The call returned, and the job has a status.
abbrev pub EndedIn : ℕ → JobStatus → Result (Unit {0}) × World → Type 0
EndedIn k status (r, w') =
    (r ≡ ok tt) × ((j : Job) × (find_job k w' ≡ some j) × (j.status ≡ status))

module _ (k : ℕ) (w : World) (job : Job) (found : find_job k w ≡ some job)
    (live : job.status ≡ running) where
  moves :
      (new : JobStatus) (detail : Option String)
      → Edge running new
      → EndedIn k new ((transition job new detail >> skip) w)
  unfolding ◌>>=◌ pure
  moves new detail e =
      let (eq, row) = transition_found k job new detail w found (rw live e) in rw eq (refl, row)

  conclude_ends :
      (down : List (String × String)) (n : ℕ) (cancelling pausing : Bool)
      → EndedIn k (verdict down cancelling pausing) (conclude down n job cancelling pausing w)
  unfolding conclude
  conclude_ends down n true pausing = moves cancelled none stop
  conclude_ends down n false true = simp live (moves paused none suspend)
  conclude_ends [] n false false = moves completed _ Edge.finish
  conclude_ends (f ∷ fs) n false false = moves failed _ fail

-- The end of a backfill whose job is RUNNING: it never raises, and the job becomes CANCELLED where a
-- request to cancel stands, else PAUSED where a request to pause stands, else FAILED where a channel
-- has failed, and COMPLETED only where none of this is so.
pub finish_ends :
    (k : ℕ) (w : World) (job : Job) (down : List (String × String)) (n : ℕ)
    → find_job k w ≡ some job
    → job.status ≡ running
    → EndedIn k (verdict down (cancel_requested k w) (pause_requested k w)) (finish k down n w)
unfolding finish gets ◌>>=◌
finish_ends k w job down n found live =
    rw found (conclude_ends k w job found live down n (cancel_requested k w) (pause_requested k w))
