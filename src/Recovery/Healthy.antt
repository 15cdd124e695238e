-- ===== src/Recovery/Healthy.antt =====
-- The sweep leaves alone the jobs of an owner that keeps beating.
use glynac_ingestion_platfor.Common.{
  ℕ, ◌+◌, ◌-◌, ◌*◌, ◌≤◌, ◌≡◌, refl, sym, ◌∙◌, ap, ◌≢◌, inl, inr, false, Option, none, some, List,
  [], ◌∷◌, ◌++◌, arith, String, ◌==◌, count, find, map, filter, count-update_where_apart,
  update_where-none, find-update_where_ne, count_none, ==_iff, Bool-cases, Option-cases,
}
use glynac_ingestion_platfor.Errors.{ok}
use glynac_ingestion_platfor.Models.{Job, JobStatus, paused, cancelled, Control}
use glynac_ingestion_platfor.World.{
  World, Task, has_id, find_job, modify_job, modify, Action, touch, ◌>>=◌,
}
use glynac_ingestion_platfor.World.Frame.{
  Preorder, Respects, Respects-pure, Respects-if, respects_rules,
}
use glynac_ingestion_platfor.World.Rows.{KeepsId, find_job-modify_job_ne, find_job-id}
use glynac_ingestion_platfor.Settings.{Settings}
use glynac_ingestion_platfor.Audit.{log_audit}
use glynac_ingestion_platfor.Control.{clear_control, set_control, is_running}
use glynac_ingestion_platfor.Jobs.{transition, set_status}
use glynac_ingestion_platfor.Jobs.Transitions.{jobs-transition, set_status-KeepsId}
use glynac_ingestion_platfor.Recovery.{
  validate_heartbeat_settings, orphan_filter, claims, take_over, one_job, attempt, after_control,
  resume_or_stop, stop_as, relaunch, recover_each, recover_interrupted_jobs,
}

module _ (boot_id cutoff k : ℕ) where
  -- The row of job `k` is what it was, and as many rows are open to a claim of `k` as were.
  record Spared (w w' : World) : Type 0 where
    row : find_job k w' ≡ find_job k w
    open_rows : count (claims boot_id k cutoff) w'.jobs ≡ count (claims boot_id k cutoff) w.jobs

  Spared-preorder : Preorder Spared
  Spared-preorder = record {
    same = λ w. record { row = refl; open_rows = refl };
    then_ = λ u v w p q. record { row = q.row ∙ p.row; open_rows = q.open_rows ∙ p.open_rows };
  }

  -- A change of the rows of another job.
  Spared-modify_job :
      (i : ℕ) (f : Job → Job) (w : World) → i ≢ k → KeepsId f → Spared w (modify_job i f w)
  Spared-modify_job i f w ne keep = record {
    row = find_job-modify_job_ne f keep w i k (λ e. ne (sym e));
    open_rows =
        count-update_where_apart (claims boot_id k cutoff) (has_id i) (touch w.now f)
          (λ j h. ground (arith, keep j)) w.jobs;
  }

  Spared-jobs : (w w' v : World) → w'.jobs ≡ v.jobs → Spared w v → Spared w w'
  Spared-jobs w w' v e s = record {
    row = ap (find (has_id k)) e ∙ s.row;
    open_rows = ap (count (claims boot_id k cutoff)) e ∙ s.open_rows;
  }

  Spared-transition :
      (job : Job) (new : JobStatus) (detail : Option String)
      → job.id ≢ k
      → Respects Spared (transition job new detail)
  Spared-transition job new detail ne = record {
    at = λ w. elim (jobs-transition job new detail w) [
      | inl e ↦ Spared-jobs w _ w e (Spared-preorder.same w)
      | inr e ↦
          Spared-jobs w _ (modify_job job.id (set_status new detail) w) e
            (Spared-modify_job job.id (set_status new detail) w ne (set_status-KeepsId new detail))
    ];
  }

  -- An action that does not write the `jobs` table.
  Spared-modify :
      (f : World → World) → ((w : World) → (f w).jobs ≡ w.jobs) → Respects Spared (modify f)
  unfolding modify
  Spared-modify f keep = record {
    at = λ w. Spared-jobs w (f w) w (keep w) (Spared-preorder.same w);
  }

  Spared-log_audit :
      (i : ℕ) (event : String) (detail : Option String) → Respects Spared (log_audit i event detail)
  unfolding log_audit modify
  Spared-log_audit i event detail = Spared-modify _ (λ w. refl)

  Spared-clear_control : (i : ℕ) → i ≢ k → Respects Spared (clear_control i)
  unfolding clear_control set_control modify
  Spared-clear_control i ne = record {
    at = λ w. Spared-modify_job i (λ j. record j { control = none }) w ne (λ j. refl);
  }

  Spared-dispatch :
      (task : Task) → Respects Spared (modify (λ w. record w { tasks = w.tasks ++ task ∷ [] }))
  Spared-dispatch task = Spared-modify (λ w. record w { tasks = w.tasks ++ task ∷ [] }) (λ w. refl)

  Spared-stop_as :
      (job : Job) (status : JobStatus) (detail : String)
      → job.id ≢ k
      → Respects Spared (stop_as job status detail)
  unfolding stop_as
  Spared-stop_as job status detail ne =
      search (respects_rules, Spared-preorder, Spared-clear_control, Spared-transition)

  Spared-relaunch : (job : Job) (previous : String) → Respects Spared (relaunch job previous)
  unfolding relaunch
  Spared-relaunch job previous =
      search (respects_rules, Spared-preorder, Spared-log_audit, Spared-dispatch)

  Spared-resume_or_stop :
      (job : Job) (previous : String) → job.id ≢ k → Respects Spared (resume_or_stop job previous)
  unfolding resume_or_stop
  Spared-resume_or_stop job previous ne = by_control job.control
    where
      by_control : (c : Option Control) → Respects Spared (after_control job previous c)
      by_control none = Spared-relaunch job previous
      by_control (some Control.cancel) = Spared-stop_as job cancelled _ ne
      by_control (some Control.pause) =
          Respects-if Spared-preorder (is_running job.status) _ _ (Spared-stop_as job paused _ ne)
            (Spared-relaunch job previous)

  -- An attempt on another job changes nothing of this one; an attempt on this one fails, where no
  -- row of it is open to a claim.
  Spared-take_over :
      (i : ℕ) (w : World)
      → count (claims boot_id k cutoff) w.jobs ≡ 0
      → Spared w (take_over boot_id i cutoff w).1
  unfolding take_over orphan_filter
  Spared-take_over i w closed = elim (Bool-cases (i == k)) [
    | inl own ↦
        let e : i ≡ k = (==_iff i k).0 own in
        rw e (
          Spared-jobs w _ w (update_where-none (claims boot_id k cutoff) _ w.jobs closed)
            (Spared-preorder.same w))
    | inr other ↦ record {
      row =
          find-update_where_ne (claims boot_id i cutoff) _ (has_id k) (λ j h. ground arith) w.jobs;
      open_rows =
          count-update_where_apart (claims boot_id k cutoff) (claims boot_id i cutoff) _
            (λ j h. ground arith) w.jobs;
    }
  ]

  take_over-closed :
      (w : World)
      → count (claims boot_id k cutoff) w.jobs ≡ 0
      → (take_over boot_id k cutoff w).0 ≡ ok false
  unfolding take_over
  take_over-closed w closed = rw closed

  -- Where no row of the job is open to a claim, the job is spared.
  abbrev Kept : World → World → Type 0
  Kept w w' = count (claims boot_id k cutoff) w.jobs ≡ 0 → Spared w w'

  Kept-preorder : Preorder Kept
  Kept-preorder = record {
    same = λ w _. Spared-preorder.same w;
    then_ = λ u v w p q closed.
        let first : Spared u v = p closed in
        Spared-preorder.then_ u v w first (q (first.open_rows ∙ closed));
  }

  Kept-of_Spared {ℓ} : {A : Type ℓ} (m : Action A) → Respects Spared m → Respects Kept m
  Kept-of_Spared m h = record { at = λ w _. h.at w }

  abbrev run_one : ℕ → String → Action (List ℕ)
  run_one i label = one_job i >>= λ job. resume_or_stop job label

  Kept-run_one : (i : ℕ) (label : String) → i ≢ k → Respects Kept (run_one i label)
  unfolding one_job ◌>>=◌
  Kept-run_one i label ne = record {
    at = λ w _. elim (Option-cases (find_job i w)) [
      | inl gone ↦
          let eq : (run_one i label w).1 ≡ w = ground arith in rw eq (Spared-preorder.same w)
      | inr (job, found) ↦
          let eq : (run_one i label w).1 ≡ (resume_or_stop job label w).1 = ground arith in
          rw eq
            ((Spared-resume_or_stop job label (λ e. ne (sym (find_job-id i w job found) ∙ e))).at w)
    ];
  }

  Kept-take_over : (i : ℕ) → Respects Kept (take_over boot_id i cutoff)
  Kept-take_over i = record { at = λ w closed. Spared-take_over i w closed }

  Kept-attempt_own : Respects Kept (attempt boot_id cutoff k)
  unfolding attempt ◌>>=◌
  Kept-attempt_own = record {
    at = λ w closed.
        let eq : (attempt boot_id cutoff k w).1 ≡ (take_over boot_id k cutoff w).1 =
          ground (arith, take_over-closed w closed) in
        rw eq (Spared-take_over k w closed);
  }

  Kept-attempt_other : (i : ℕ) → i ≢ k → Respects Kept (attempt boot_id cutoff i)
  unfolding attempt
  Kept-attempt_other i ne = search (respects_rules, Kept-preorder, Kept-take_over, Kept-run_one)

  Kept-attempt : (i : ℕ) → Respects Kept (attempt boot_id cutoff i)
  Kept-attempt i = elim (Bool-cases (i == k)) [
    | inl own ↦ let e : i ≡ k = (==_iff i k).0 own in rw e Kept-attempt_own
    | inr other ↦ Kept-attempt_other i (ground arith)
  ]

  Kept-recover_each : (ids : List ℕ) → Respects Kept (recover_each boot_id cutoff ids)
  unfolding recover_each
  Kept-recover_each [] = Respects-pure Kept-preorder []
  Kept-recover_each (i ∷ ids) =
      search (respects_rules, Kept-preorder, Kept-attempt i, Kept-recover_each ids)

-- A row that is not open to a claim is the only one of its id.
closed_of_unique :
    (boot_id cutoff k : ℕ) (xs : List Job) (j : Job)
    → count (has_id k) xs ≤ 1
    → find (has_id k) xs ≡ some j
    → orphan_filter boot_id cutoff j ≡ false
    → count (claims boot_id k cutoff) xs ≡ 0
closed_of_unique boot_id cutoff k [] j unique found live = refl
closed_of_unique boot_id cutoff k (x ∷ xs) j unique found live = ground (
  arith,
  closed_of_unique boot_id cutoff k xs j,
  count_none (has_id k) (claims boot_id k cutoff) (λ y h. ground arith) xs,
)

recent-live :
    (s : Settings) (boot_id now t : ℕ) (j : Job)
    → validate_heartbeat_settings s ≡ ok tt
    → j.heartbeat_at ≡ some t
    → now ≤ t + 3 * s.heartbeat_interval
    → orphan_filter boot_id (now - s.heartbeat_timeout) j ≡ false
unfolding validate_heartbeat_settings orphan_filter
recent-live s boot_id now t j valid beat recent = ground arith

-- With settings that the startup check accepts, a job whose owner has stamped it within the last
-- three heartbeat intervals (so it may have missed two beats) is left alone by the sweep of every
-- process: its row is what it was. (Ids are a primary key: at most one row has the id.)
pub healthy_job_left_alone :
    (s : Settings) (boot_id k t : ℕ) (w : World) (j : Job)
    → validate_heartbeat_settings s ≡ ok tt
    → count (has_id k) w.jobs ≤ 1
    → find_job k w ≡ some j
    → j.heartbeat_at ≡ some t
    → w.now ≤ t + 3 * s.heartbeat_interval
    → find_job k (recover_interrupted_jobs s boot_id w).1 ≡ some j
unfolding recover_interrupted_jobs ◌>>=◌
healthy_job_left_alone s boot_id k t w j valid unique found beat recent =
    let cutoff : ℕ = w.now - s.heartbeat_timeout in
    let closed =
      closed_of_unique boot_id cutoff k w.jobs j unique found
        (recent-live s boot_id w.now t j valid beat recent) in
    ((Kept-recover_each boot_id cutoff k
        (map (λ j. j.id) (filter (orphan_filter boot_id cutoff) w.jobs))).at
      w closed).row
    ∙ found
