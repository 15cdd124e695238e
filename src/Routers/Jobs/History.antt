-- ===== src/Routers/Jobs/History.antt =====
-- The life of a job under the operations on the `jobs` table: the endpoints of app/routers/jobs.py, the
-- transitions of the runs and of the recovery, the checkpoints, the requests, the claims, the
-- heartbeats and the takeovers. A transition reads the row and writes it in one step; a copy of the
-- row that is older than another process's write is not modelled here.
use glynac_ingestion_platfor.Common.{
  ℕ, ◌+◌, ◌⊎◌, String, ◌≡◌, refl, ◌∙◌, ap, ◌≢◌, inl, inr, true, false, Option, none, some, List, [],
  ◌∷◌, arith, Bool-cases, Option-cases, ◌==◌, find-append_old, find-update_where_if, find,
  if◌then◌else◌, ==_iff, Bool, not, any, filter,
}
use glynac_ingestion_platfor.Models.{
  Job, JobStatus, completed, cancelled, paused, running, Control, CursorText,
}
use glynac_ingestion_platfor.World.{
  World, modify, ◌>>=◌, find_job, has_id, modify_job, save_job, touch,
}
use glynac_ingestion_platfor.World.Rows.{
  KeepsId, find_job-modify_job, find_job-modify_job_ne, find_job-id,
}
use glynac_ingestion_platfor.Audit.{log_audit}
use glynac_ingestion_platfor.Control.{set_control, claim_job, heartbeat_once, beats}
use glynac_ingestion_platfor.Jobs.{
  allowed, transition, create_job, update_checkpoint, get_job_or_404,
}
use glynac_ingestion_platfor.Jobs.Transitions.{
  Edge, allowed-Edge, transition-allowed, transition-refused, moved_world, Moved-moved_world,
}
use glynac_ingestion_platfor.Routers.Jobs.{pause_job, resume_job, cancel_job, remove_job}
use glynac_ingestion_platfor.Recovery.{claims, take_over}

-- An operation on the table, by whichever thread. `move` is a transition to any status, of the row that was
-- just read; `take` is the attempt of a process to take an orphan over; `remove` is DELETE.
pub data Op : Type 0 where
  pause resume cancel : ℕ → Op
  checkpoint : Job → CursorText → ℕ → Op
  control : ℕ → Option Control → Op
  claim : ℕ → ℕ → Op
  heartbeat : ℕ → Op
  create : ℕ → String → Option String → Option String → Op
  move : ℕ → JobStatus → Option String → Op
  take : ℕ → ℕ → ℕ → Op
  remove : ℕ → Op

unfoldable pub step : Op → World → World
step (pause k) w = (pause_job k w).1
step (resume k) w = (resume_job k w).1
step (cancel k) w = (cancel_job k w).1
step (checkpoint job cursor delta) w = (update_checkpoint job cursor delta w).1
step (control k value) w = (set_control k value w).1
step (claim boot_id k) w = (claim_job boot_id k w).1
step (heartbeat boot_id) w = (heartbeat_once boot_id w).1
step (create k service object_name org_id) w = (create_job k service object_name org_id w).1
step (move k new detail) w = (◌>>=◌ (get_job_or_404 k) (λ job. transition job new detail) w).1
step (take boot_id k cutoff) w = (take_over boot_id k cutoff w).1
step (remove k) w = (remove_job k w).1

-- Whether an operation deletes this job.
abbrev pub deletes : ℕ → Op → Bool
deletes k (remove i) = i == k
deletes k _ = false

pub run : List Op → World → World
run [] w = w
run (op ∷ ops) w = run ops (step op w)

-- Zero or more moves of the state machine.
pub data Life (s : JobStatus) : JobStatus → Type 0 where
  same : Life s s
  then_edge : {t u : JobStatus} → Life s t → Edge t u → Life s u

Life-trans : {s t u : JobStatus} → Life s t → Life t u → Life s u
Life-trans p same = p
Life-trans p (then_edge q e) = then_edge (Life-trans p q) e

-- A row is still there, and its status has followed the state machine.
abbrev pub Follows : ℕ → World → World → Type 0
Follows k w w' =
    (j : Job)
    → find_job k w ≡ some j
    → (j' : Job) × (find_job k w' ≡ some j') × Life j.status j'.status

Follows-refl : (k : ℕ) (w : World) → Follows k w w
Follows-refl k w j h = (j, h, same)

Follows-trans : (k : ℕ) (u v w : World) → Follows k u v → Follows k v w → Follows k u w
Follows-trans k u v w p q j h =
    let (j₁, h₁, l₁) = p j h in let (j₂, h₂, l₂) = q j₁ h₁ in (j₂, h₂, Life-trans l₁ l₂)

-- A write of columns other than id and status.
modify_job-Follows :
    (k i : ℕ) (f : Job → Job) (w : World)
    → KeepsId f
    → ((j : Job) → (f j).status ≡ j.status)
    → Follows k w (modify_job i f w)
modify_job-Follows k i f w keep still j h = elim (Bool-cases (k == i)) [
  | inl own ↦
      let e : k ≡ i = (==_iff k i).0 own in
      (
        touch w.now f j,
        rw e (cc (find_job-modify_job f keep w i, ap (λ n. find_job n w) e)),
        rw (still j) same,
      )
  | inr other ↦ (j, find_job-modify_job_ne f keep w i k (ground arith) ∙ h, same)
]

moved_world-Follows :
    (k : ℕ) (new : JobStatus) (detail : Option String) (w : World) (job : Job)
    → find_job job.id w ≡ some job
    → allowed job.status new ≡ true
    → Follows k w (moved_world job new detail w)
moved_world-Follows k new detail w job h good j hj = elim (Bool-cases (k == job.id)) [
  | inl own ↦
      let e : k ≡ job.id = (==_iff k job.id).0 own in
      let st : j.status ≡ job.status = grind (arith, e, h, hj) in
      let (j', found, new_status) = (Moved-moved_world job new detail w).row job h in
      (j', rw e found, rw (st, new_status) (then_edge same (allowed-Edge job.status new good)))
  | inr other ↦ (j, (Moved-moved_world job new detail w).others k (ground arith) ∙ hj, same)
]

transition-Follows :
    (k i : ℕ) (new : JobStatus) (detail : Option String) (w : World) (job : Job)
    → find_job i w ≡ some job
    → Follows k w (transition job new detail w).1
transition-Follows k i new detail w job h = elim (Bool-cases (allowed job.status new)) [
  | inl good ↦
      let h' : find_job job.id w ≡ some job = ap (λ n. find_job n w) (find_job-id i w job h) ∙ h in
      rw (transition-allowed job new detail w job h' good)
        (moved_world-Follows k new detail w job h' good)
  | inr bad ↦ rw (transition-refused job new detail w bad) (Follows-refl k w)
]

find_job-without :
    (k i : ℕ)
    → (i == k) ≡ false
    → (js : List Job) (j : Job) → find (has_id k) js ≡ some j
    → find (has_id k) (filter (λ j. not (has_id i j)) js) ≡ some j
find_job-without k i other [] j h = h
find_job-without k i other (x ∷ xs) j h = ground (arith, other, h, find_job-without k i other xs j)

module _ (k : ℕ) (w : World) where
  request-Follows :
      (i : ℕ) (new : JobStatus) (detail : Option String)
      → Follows k w ((get_job_or_404 i >>= λ job. transition job new detail) w).1
  unfolding get_job_or_404 ◌>>=◌
  request-Follows i new detail = elim (Option-cases (find_job i w)) [
    | inl gone ↦
        let eq : (◌>>=◌ {B = Job} (get_job_or_404 i) (λ job. transition job new detail) w).1 ≡ w =
          ground arith in
        rw eq (Follows-refl k w)
    | inr (job, found) ↦
        let eq : (◌>>=◌ {B = Job} (get_job_or_404 i) (λ job. transition job new detail) w).1
            ≡ (transition job new detail w).1 =
          ground arith in
        rw eq (transition-Follows k i new detail w job found)
  ]

  checkpoint-Follows :
      (job : Job) (cursor : CursorText) (delta : ℕ)
      → Follows k w (update_checkpoint job cursor delta w).1
  unfolding update_checkpoint save_job ◌>>=◌ log_audit
  checkpoint-Follows job cursor delta j h = elim (Option-cases (find_job job.id w)) [
    | inl gone ↦
        let eq : (update_checkpoint job cursor delta w).1.jobs ≡ w.jobs = ground arith in
        (j, ap (find (has_id k)) eq ∙ h, same)
    | inr (old, found) ↦
        let f : Job → Job =
          λ j. record j { cursor = some cursor; row_count = job.row_count + delta } in
        let eq : (update_checkpoint job cursor delta w).1.jobs ≡ (modify_job job.id f w).jobs =
          ground arith in
        let (j', found', l) = modify_job-Follows k job.id f w (λ j. refl) (λ j. refl) j h in
        (j', ap (find (has_id k)) eq ∙ found', l)
  ]

  heartbeat-Follows : (boot_id : ℕ) → Follows k w (heartbeat_once boot_id w).1
  unfolding heartbeat_once
  heartbeat-Follows boot_id j h =
      let f : Job → Job = λ j. record j { heartbeat_at = some w.now } in
      (
        (if beats boot_id j then f j else j),
        cc (find-update_where_if (beats boot_id) f (has_id k) (λ j. refl) w.jobs),
        (elim (beats boot_id j) as (λ b. Life j.status (if b then f j else j).status) [
          | true ↦ same
          | false ↦ same
        ]),
      )

  create-Follows :
      (i : ℕ) (service : String) (object_name org_id : Option String)
      → Follows k w (create_job i service object_name org_id w).1
  unfolding create_job log_audit ◌>>=◌
  create-Follows i service object_name org_id j h =
      (j, find-append_old (has_id k) w.jobs _ j h, same)

  take-Follows : (boot_id i cutoff : ℕ) → Follows k w (take_over boot_id i cutoff w).1
  unfolding take_over
  take-Follows boot_id i cutoff j h =
      let mine : Job → Bool = claims boot_id i cutoff in
      let f : Job → Job = λ j. record j { owner = some boot_id; heartbeat_at = some w.now } in
      (
        (if mine j then f j else j),
        cc (find-update_where_if mine f (has_id k) (λ j. refl) w.jobs),
        (elim (mine j) as (λ b. Life j.status (if b then f j else j).status) [
          | true ↦ same
          | false ↦ same
        ]),
      )

  remove-Follows : (i : ℕ) → (i == k) ≡ false → Follows k w (remove_job i w).1
  unfolding remove_job get_job_or_404 ◌>>=◌ modify
  remove-Follows i other j h = elim (Option-cases (find_job i w)) [
    | inl gone ↦
        let eq : (remove_job i w).1.jobs ≡ w.jobs = ground arith in
        (j, ap (find (has_id k)) eq ∙ h, same)
    | inr (old, found) ↦
        let eq : (remove_job i w).1.jobs ≡ filter (λ j. not (has_id i j)) w.jobs = ground arith in
        (j, ap (find (has_id k)) eq ∙ find_job-without k i other w.jobs j h, same)
  ]

  step-Follows : (op : Op) → deletes k op ≡ false → Follows k w (step op w)
  unfolding step pause_job resume_job cancel_job set_control claim_job modify
  step-Follows (pause i) _ = request-Follows i paused none
  step-Follows (resume i) _ = request-Follows i running (some "resumed from checkpoint")
  step-Follows (cancel i) _ = request-Follows i cancelled none
  step-Follows (checkpoint job cursor delta) _ = checkpoint-Follows job cursor delta
  step-Follows (control i value) _ =
      modify_job-Follows k i (λ j. record j { control = value }) w (λ j. refl) (λ j. refl)
  step-Follows (claim boot_id i) _ =
      modify_job-Follows k i (λ j. record j { owner = some boot_id; heartbeat_at = some w.now }) w
        (λ j. refl) (λ j. refl)
  step-Follows (heartbeat boot_id) _ = heartbeat-Follows boot_id
  step-Follows (create i service object_name org_id) _ = create-Follows i service object_name org_id
  step-Follows (move i new detail) _ = request-Follows i new detail
  step-Follows (take boot_id i cutoff) _ = take-Follows boot_id i cutoff
  step-Follows (remove i) other = remove-Follows i other

run-Follows :
    (ops : List Op) (k : ℕ) (w : World) → any (deletes k) ops ≡ false → Follows k w (run ops w)
unfolding run
run-Follows [] k w _ = Follows-refl k w
run-Follows (op ∷ ops) k w h =
    Follows-trans k w (step op w) (run ops (step op w)) (step-Follows k w op (ground (arith, h)))
      (run-Follows ops k (step op w) (ground (arith, h)))

-- These operations, in whatever order (requests to pause, resume and cancel any job, transitions of runs and
-- of the recovery to any status, checkpoints, claims, heartbeats, takeovers, new jobs, deletions of
-- other jobs): a job that was in the table and is not deleted stays in it, and its status moves along the
-- edges of the state machine only.
pub run_follows_machine :
    (ops : List Op) (k : ℕ) (w : World) (j : Job)
    → any (deletes k) ops ≡ false
    → find_job k w ≡ some j
    → (j' : Job) × (find_job k (run ops w) ≡ some j') × Life j.status j'.status
run_follows_machine ops k w j spared = run-Follows ops k w spared j

-- No edge leaves COMPLETED or CANCELLED.
no_edge : {s t : JobStatus} → Edge s t → (s ≢ completed) × (s ≢ cancelled)
no_edge Edge.start = (λ h. cc, λ h. cc)
no_edge _ = (λ h. cc, λ h. cc)

Life-terminal : {s t : JobStatus} → Life s t → (s ≡ completed) ⊎ (s ≡ cancelled) → t ≡ s
Life-terminal same h = refl
Life-terminal (then_edge l e) h = absurd (grind (arith, Life-terminal l h, no_edge e, h))

-- A job that is COMPLETED or CANCELLED and is not deleted keeps that status, whichever of these operations
-- run, in whatever order; the transitions of runs to any status are among them.
pub run_keeps_terminal :
    (ops : List Op) (k : ℕ) (w : World) (j : Job)
    → any (deletes k) ops ≡ false
    → find_job k w ≡ some j
    → (j.status ≡ completed) ⊎ (j.status ≡ cancelled)
    → (j' : Job) × (find_job k (run ops w) ≡ some j') × (j'.status ≡ j.status)
run_keeps_terminal ops k w j spared h t =
    let (j', found, l) = run_follows_machine ops k w j spared h in (j', found, Life-terminal l t)
