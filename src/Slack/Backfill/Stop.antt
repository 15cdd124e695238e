-- ===== src/Slack/Backfill/Stop.antt =====
-- A request to cancel stops every worker of the backfill.
use glynac_ingestion_platfor.Common.{
  ℕ, zero, suc, String, ◌≡◌, refl, ap, ◌∙◌, true, ◌||◌, Option, List, [], ◌∷◌, map,
}
use glynac_ingestion_platfor.Errors.{Result}
use glynac_ingestion_platfor.World.{World}
use glynac_ingestion_platfor.Slack.{cancel_requested, pause_requested}
use glynac_ingestion_platfor.Slack.Client.{HistoryPage}
use glynac_ingestion_platfor.Slack.Backfill.{
  Worker, Standing, working, finished, broken, page, work, take_turn, turn_of, step, run_pool,
}

module _ (sha1 : String → String) (fetch_page : String → Option String → Result HistoryPage)
    (job_id : ℕ) (org_id partition_date : String) where
  take_turn_stopped :
      (s : Standing) (v : Worker) (w : World)
      → (cancel_requested job_id w || pause_requested job_id w) ≡ true
      → (take_turn sha1 fetch_page job_id org_id partition_date s v w).1 ≡ w
  unfolding take_turn work
  take_turn_stopped working v w asked = rw asked refl
  take_turn_stopped finished v w asked = refl
  take_turn_stopped (broken e) v w asked = refl

  turn_of_stopped :
      (i : ℕ) (vs : List Worker) (w : World)
      → (cancel_requested job_id w || pause_requested job_id w) ≡ true
      → (turn_of sha1 fetch_page job_id org_id partition_date i vs w).1 ≡ w
  unfolding turn_of
  turn_of_stopped i [] w asked = refl
  turn_of_stopped zero (v ∷ vs) w asked = take_turn_stopped v.standing v w asked
  turn_of_stopped (suc i) (v ∷ vs) w asked = turn_of_stopped i vs w asked

  -- While a request to cancel or to pause stands, whatever turns the workers take, they fetch no page,
  -- write no file and no row, and save no checkpoint: nothing changes.
  pub run_pool_stops :
      (turns : List ℕ) (vs : List Worker) (w : World)
      → (cancel_requested job_id w || pause_requested job_id w) ≡ true
      → (run_pool sha1 fetch_page job_id org_id partition_date (map page turns) vs w).1 ≡ w
  unfolding run_pool step
  run_pool_stops [] vs w asked = refl
  run_pool_stops (i ∷ turns) vs w asked =
      let same = turn_of_stopped i vs w asked in
      run_pool_stops turns _ _
        (ap (λ u. cancel_requested job_id u || pause_requested job_id u) same ∙ asked)
      ∙ same
