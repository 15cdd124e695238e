-- ===== src/Slack/Backfill/Count.antt =====
-- The counter of the job while the workers of the backfill take their turns.
use glynac_ingestion_platfor.Common.{
  ℕ, zero, suc, ◌+◌, String, ◌≡◌, refl, sym, ap, ◌∙◌, ◌||◌, Option, none, some, List, [], ◌∷◌, find,
  length, arith, inl, inr, Bool-cases, after,
}
use glynac_ingestion_platfor.Errors.{Exception, Result, ok, err}
use glynac_ingestion_platfor.Json.{JsonObject}
use glynac_ingestion_platfor.Models.{Job, Control, pause, cancel}
use glynac_ingestion_platfor.World.{World, pure, modify, ◌>>=◌, has_id, find_job, touch, modify_job}
use glynac_ingestion_platfor.World.Rows.{KeepsId, find_job-modify_job}
use glynac_ingestion_platfor.World.Frame.{Respects, Respects-pure, Respects-gets, Respects-lift}
use glynac_ingestion_platfor.Control.{set_control}
use glynac_ingestion_platfor.Slack.{
  request_pause, request_cancel, cancel_requested, pause_requested, Message,
}
use glynac_ingestion_platfor.Slack.Client.{SlackMessage, HistoryPage}
use glynac_ingestion_platfor.Slack.Realtime.Effects.{
  Quiet, Quiet-preorder, both, after-Quiet, Quiet-write_parquet, Quiet-load,
}
use glynac_ingestion_platfor.Slack.Backfill.{
  land_rows, land_page, save_page, backfill_page, Worker, Standing, working, finished, broken, Turn,
  page, advanced, work, take_turn, turn_of, step, run_pool,
}

abbrev counter : Option Job → Option ℕ
counter none = none
counter (some j) = some j.row_count

-- The counter in the row of a job.
abbrev pub counted : ℕ → World → Option ℕ
counted job_id w = counter (find_job job_id w)

abbrev pub plus : ℕ → Option ℕ → Option ℕ
plus n none = none
plus n (some m) = some (n + m)

-- What all the workers have written.
abbrev pub written : List Worker → ℕ
written [] = 0
written (v ∷ vs) = v.rows_written + written vs

abbrev gain : Result (HistoryPage × ℕ) → ℕ
gain (err e) = 0
gain (ok (response, n)) = n

plus-plus : (m n : ℕ) (c : Option ℕ) → plus m (plus n c) ≡ plus (m + n) c
plus-plus m n none = refl
plus-plus m n (some c) = ap some (omega arith)

plus_zero : (c : Option ℕ) → plus 0 c ≡ c
plus_zero none = refl
plus_zero (some c) = ap some (omega arith)

plus-cancel : (k : ℕ) (c d : Option ℕ) → plus k c ≡ plus k d → c ≡ d
plus-cancel k none none e = refl
plus-cancel k none (some d) e = ground (arith, e)
plus-cancel k (some c) none e = ground (arith, e)
plus-cancel k (some c) (some d) e = ap some (ground (arith, e))

plus-swap : (m n : ℕ) (c : Option ℕ) → plus m (plus n c) ≡ plus n (plus m c)
plus-swap m n none = refl
plus-swap m n (some c) = ap some (omega arith)

plus-beside : (k m n : ℕ) (c d : Option ℕ) → plus m c ≡ plus n d → plus (m + k) c ≡ plus (n + k) d
plus-beside k m n c d e =
    sym (plus-plus m k c) ∙ plus-swap m k c ∙ ap (plus k) e ∙ plus-swap k n d ∙ plus-plus n k d

plus_trans :
    (u v z : ℕ) (a b c : Option ℕ) → plus u b ≡ plus v a → plus v c ≡ plus z b → plus u c ≡ plus z a
plus_trans u v z a b c first then_ =
    plus-cancel v _ _
      (plus-swap v u c ∙ ap (plus u) then_ ∙ plus-swap u z b ∙ ap (plus z) first ∙ plus-swap z v a)

-- A change of the job's row.
counter-after :
    (job_id n : ℕ) (f : Job → Job)
    → ((j : Job) → (f j).row_count ≡ n + j.row_count)
    → (now : ℕ) (found : Option Job)
    → counter (after (has_id job_id) (touch now f) found) ≡ plus n (counter found)
counter-after job_id n f grows now none = refl
counter-after job_id n f grows now (some j) = ap some (grows j)

counted-modify_job :
    (job_id n : ℕ) (f : Job → Job)
    → KeepsId f
    → ((j : Job) → (f j).row_count ≡ n + j.row_count)
    → (w : World) → counted job_id (modify_job job_id f w) ≡ plus n (counted job_id w)
counted-modify_job job_id n f keep grows w =
    ap counter (find_job-modify_job f keep w job_id)
    ∙ counter-after job_id n f grows w.now (find_job job_id w)

-- The result of a page says by how much the counter grew.
abbrev Tallied : ℕ → World → Result (HistoryPage × ℕ) × World → Type 0
Tallied job_id w (r, w') = counted job_id w' ≡ plus (gain r) (counted job_id w)

same_count : (job_id : ℕ) (w w' : World) → Quiet w w' → counted job_id w' ≡ counted job_id w
same_count job_id w w' q = ap (λ jobs. counter (find (has_id job_id) jobs)) q.same_jobs

Quiet-land_rows : (path : String) (rows : List JsonObject) → Respects Quiet (land_rows path rows)
unfolding land_rows
Quiet-land_rows path [] = Respects-pure Quiet-preorder []
Quiet-land_rows path (row ∷ rows) =
    both (Quiet-write_parquet path (row ∷ rows)) (λ _. Respects-pure Quiet-preorder _)

module _ (sha1 : String → String) (fetch_page : String → Option String → Result HistoryPage)
    (job_id : ℕ) (org_id partition_date : String) where
  Quiet-land_page :
      (channel_id label : String) (rows : List Message) (messages : List SlackMessage)
      → Respects Quiet
          (land_page sha1 fetch_page job_id org_id partition_date channel_id label rows messages)
  unfolding land_page
  Quiet-land_page channel_id label rows messages = both (Quiet-land_rows _ _) λ msg_paths.
      both (Respects-lift Quiet-preorder _) λ files.
        both (Respects-lift Quiet-preorder _) λ reactions.
          both (Quiet-land_rows _ files) λ file_paths.
            both (Quiet-land_rows _ reactions) λ reaction_paths.
              both (Quiet-load _ msg_paths [])
                λ _. both (Quiet-load _ file_paths []) λ _. Quiet-load _ reaction_paths []

  -- What holds of the last call of a page, and does not see quiet changes, holds of the whole page.
  module _ (P : World → Result (HistoryPage × ℕ) × World → Type 0)
      (earlier : (w w' : World) (c : Result (HistoryPage × ℕ) × World)
        → Quiet w w'
        → P w' c
        → P w c)
      (raised : (w w' : World) (e : Exception) → Quiet w w' → P w (err e, w')) where
    pub by-save_page :
        (channel_id : String) (cursor : Option String)
        → ((response : HistoryPage) (rows : List Message) (w : World)
            → P w (
                (save_page job_id channel_id response rows >>= λ _. pure (response, length rows))
                  w))
        → (w : World)
        → P w (backfill_page sha1 fetch_page job_id org_id partition_date channel_id cursor w)
    unfolding backfill_page
    by-save_page channel_id cursor saved =
        after-Quiet P earlier raised _ _ (Respects-lift Quiet-preorder _) λ response.
          after-Quiet P earlier raised _ _ (Respects-gets Quiet-preorder _) λ now.
            after-Quiet P earlier raised _ _ (Respects-lift Quiet-preorder _) λ rows.
              after-Quiet P earlier raised _ _ (Quiet-land_page channel_id _ rows response.messages)
                λ _. saved response rows

  -- The counter is written by the last call of a page, with the number of its rows.
  Tallied-save :
      (channel_id : String) (response : HistoryPage) (rows : List Message) (w : World)
      → Tallied job_id w
          ((save_page job_id channel_id response rows >>= λ _. pure (response, length rows)) w)
  unfolding save_page modify ◌>>=◌ pure
  Tallied-save channel_id response rows w =
      counted-modify_job job_id (length rows)
        (λ j. record j { row_count = j.row_count + length rows }) (λ j. refl) (λ j. omega arith) w

  Tallied-backfill_page :
      (channel_id : String) (cursor : Option String) (w : World)
      → Tallied job_id w
          (backfill_page sha1 fetch_page job_id org_id partition_date channel_id cursor w)
  Tallied-backfill_page channel_id cursor =
      by-save_page (Tallied job_id)
        (λ w w' c q e. e ∙ ap (plus (gain c.0)) (same_count job_id w w' q))
        (λ w w' e q. same_count job_id w w' q ∙ sym (plus_zero (counted job_id w))) channel_id
        cursor (Tallied-save channel_id)

  -- The worker's counter grows by what the job's counter grows by.
  abbrev Moved : Worker → World → Worker × World → Type 0
  Moved v w (v', w') =
      plus v.rows_written (counted job_id w') ≡ plus v'.rows_written (counted job_id w)

  advanced_moves :
      (v : Worker) (w : World) (c : Result (HistoryPage × ℕ) × World)
      → counted job_id c.1 ≡ plus (gain c.0) (counted job_id w)
      → Moved v w (advanced sha1 fetch_page job_id org_id partition_date v c.0, c.1)
  advanced_moves v w (ok (response, n), w') e =
      ap (plus v.rows_written) e ∙ plus-plus v.rows_written n (counted job_id w)
  advanced_moves v w (err e, w') h = ap (plus v.rows_written) (h ∙ plus_zero (counted job_id w))

  work_moves :
      (v : Worker) (w : World) → Moved v w (work sha1 fetch_page job_id org_id partition_date v w)
  unfolding work
  work_moves v w = elim (Bool-cases (cancel_requested job_id w || pause_requested job_id w)) [
    | inl asked ↦ rw asked refl
    | inr free ↦ rw free (
        advanced_moves v w
          (backfill_page sha1 fetch_page job_id org_id partition_date v.channel_id v.cursor w)
          (Tallied-backfill_page v.channel_id v.cursor w))
  ]

  take_turn_moves :
      (s : Standing) (v : Worker) (w : World)
      → Moved v w (take_turn sha1 fetch_page job_id org_id partition_date s v w)
  unfolding take_turn
  take_turn_moves working v w = work_moves v w
  take_turn_moves finished v w = refl
  take_turn_moves (broken e) v w = refl

  abbrev AllMoved : List Worker → World → List Worker × World → Type 0
  AllMoved vs w (vs', w') =
      plus (written vs) (counted job_id w') ≡ plus (written vs') (counted job_id w)

  turn_of_moves :
      (i : ℕ) (vs : List Worker) (w : World)
      → AllMoved vs w (turn_of sha1 fetch_page job_id org_id partition_date i vs w)
  unfolding turn_of
  turn_of_moves i [] w = refl
  turn_of_moves zero (v ∷ vs) w = plus-beside (written vs) _ _ _ _ (take_turn_moves v.standing v w)
  turn_of_moves (suc i) (v ∷ vs) w =
      sym (plus-plus v.rows_written _ _)
      ∙ ap (plus v.rows_written) (turn_of_moves i vs w)
      ∙ plus-plus v.rows_written _ _

  asked :
      (vs : List Worker) (control : Control) (w : World)
      → plus (written vs) (counted job_id (set_control job_id (some control) w).1)
        ≡ plus (written vs) (counted job_id w)
  unfolding set_control modify
  asked vs control w = ap (plus (written vs)) (
      counted-modify_job job_id 0 (λ j. record j { control = some control }) (λ j. refl)
        (λ j. omega arith) w
      ∙ plus_zero (counted job_id w))

  step_moves :
      (t : Turn) (vs : List Worker) (w : World)
      → AllMoved vs w (step sha1 fetch_page job_id org_id partition_date t vs w)
  unfolding step request_pause request_cancel modify ◌>>=◌
  step_moves (page i) vs w = turn_of_moves i vs w
  step_moves Turn.pause vs w = asked vs pause _
  step_moves Turn.cancel vs w = asked vs cancel _

  -- However the workers take their turns, whatever their pages bring and whichever of them fail, and
  -- whether a request to pause or to cancel arrives, the counter in the job's row grows by exactly
  -- what the workers have written: no update is lost, and none is made twice.
  pub run_pool_counts :
      (ts : List Turn) (vs : List Worker) (w : World)
      → plus
          (written vs)
          (counted job_id (run_pool sha1 fetch_page job_id org_id partition_date ts vs w).1)
        ≡ plus
            (written (run_pool sha1 fetch_page job_id org_id partition_date ts vs w).0)
            (counted job_id w)
  unfolding run_pool
  run_pool_counts [] vs w = refl
  run_pool_counts (t ∷ ts) vs w =
      plus_trans _ _ _ _ _ _ (step_moves t vs w) (run_pool_counts ts _ _)
