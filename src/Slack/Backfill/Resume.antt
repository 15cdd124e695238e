-- ===== src/Slack/Backfill/Resume.antt =====
-- Where a run that follows a crash would start each channel.
use glynac_ingestion_platfor.Common.{
  ℕ, zero, suc, String, ◌≡◌, ◌≢◌, ◌⊎◌, inl, inr, refl, sym, ap, ◌∙◌, Bool, true, false, ◌||◌, not,
  Option, none, some, List, [], ◌∷◌, if◌then◌else◌, map, find, All, arith, str_eq, eq_iff, eq_refl,
  ==_refl, Bool-cases, find-upsert, find-upsert_ne,
}
use glynac_ingestion_platfor.Errors.{Result, ok, err}
use glynac_ingestion_platfor.Json.{Json, JsonObject, item, str}
use glynac_ingestion_platfor.Models.{Control, pause, cancel, ChannelCheckpoint}
use glynac_ingestion_platfor.World.{World, pure, modify, ◌>>=◌}
use glynac_ingestion_platfor.World.Returns.{Returns, Returns-then, Returns-read, Returns-pure}
use glynac_ingestion_platfor.Slack.{
  request_pause, request_cancel, cancel_requested, pause_requested, Message,
}
use glynac_ingestion_platfor.Control.{set_control}
use glynac_ingestion_platfor.Slack.Client.{HistoryPage}
use glynac_ingestion_platfor.Slack.Realtime.Effects.{Quiet}
use glynac_ingestion_platfor.Slack.Backfill.{
  is_checkpoint, checked, new_checkpoint, save_page, backfill_page, Worker, Standing, working,
  finished, broken, Turn, page, advanced, work, take_turn, turn_of, step, run_pool,
}
use glynac_ingestion_platfor.Slack.Backfill.Count.{by-save_page}
use glynac_ingestion_platfor.Slack.Backfill.Run.{
  start_at, start_of, with_worker, add_worker, work_items,
}

-- Where a channel stands after a page.
abbrev pub start_after : HistoryPage → Option (Option String)
start_after response = if response.has_more then some response.next_cursor else none

other_text : (a b : String) → b ≢ a → str_eq a b ≡ false
other_text a b ne = elim (Bool-cases (str_eq a b)) [
  | inl same ↦ absurd (ne (sym ((eq_iff a b).0 same)))
  | inr apart ↦ apart
]

unless_not : {A : Type 0} (b : Bool) (x y : A) → (if not b then x else y) ≡ (if b then y else x)
unless_not true x y = refl
unless_not false x y = refl

module _ (job_id : ℕ) (channel_id : String) (response : HistoryPage) (rows : List Message)
    (w : World) where
  start_of-save_page :
      start_of job_id channel_id (save_page job_id channel_id response rows w).1
      ≡ start_after response
  unfolding start_of save_page modify
  start_of-save_page =
      ap start_at (
        find-upsert (is_checkpoint job_id channel_id) (checked response rows)
          (new_checkpoint job_id channel_id) w.checkpoints (λ c. refl)
          (rw (==_refl job_id, eq_refl channel_id) refl))
      ∙ unless_not response.has_more none (some response.next_cursor)

  start_of-save_page_ne :
      (other : String)
      → other ≢ channel_id
      → start_of job_id other (save_page job_id channel_id response rows w).1
        ≡ start_of job_id other w
  unfolding start_of save_page modify
  start_of-save_page_ne other ne = ap start_at (
      find-upsert_ne (is_checkpoint job_id channel_id) (is_checkpoint job_id other)
        (checked response rows) (new_checkpoint job_id channel_id) w.checkpoints
        (λ c h. (apart c h, apart c h)) (rw (other_text channel_id other ne) (ground arith)))
    where
      apart :
          (c : ChannelCheckpoint)
          → is_checkpoint job_id channel_id c ≡ true
          → is_checkpoint job_id other c ≡ false
      apart c h =
          let there : str_eq c.channel_id channel_id ≡ true = ground (arith, h) in
          rw ((eq_iff c.channel_id channel_id).0 there, other_text channel_id other ne)
            (ground arith)

-- What a page does to the starts of the channels.
abbrev Starts : ℕ → String → World → Result (HistoryPage × ℕ) × World → Type 0
Starts job_id channel_id w (r, w') =
    ((other : String) → other ≢ channel_id → start_of job_id other w' ≡ start_of job_id other w)
    × (start_of job_id channel_id w'
        ≡ elim r [ err e ↦ start_of job_id channel_id w | ok (response, n) ↦ start_after response ])

same_start :
    (job_id : ℕ) (channel_id : String) (w w' : World)
    → Quiet w w'
    → start_of job_id channel_id w' ≡ start_of job_id channel_id w
unfolding start_of
same_start job_id channel_id w w' q =
    ap (λ cs. start_at (find (is_checkpoint job_id channel_id) cs)) q.same_checkpoints

Starts-earlier :
    (job_id : ℕ) (channel_id : String) (w w' : World) (c : Result (HistoryPage × ℕ) × World)
    → Quiet w w'
    → Starts job_id channel_id w' c
    → Starts job_id channel_id w c
Starts-earlier job_id channel_id w w' (ok (response, n), u) q h =
    (λ other ne. h.0 other ne ∙ same_start job_id other w w' q, h.1)
Starts-earlier job_id channel_id w w' (err e, u) q h = (
  λ other ne. h.0 other ne ∙ same_start job_id other w w' q,
  h.1 ∙ same_start job_id channel_id w w' q,
)

-- The server has answered a page of this channel that no other follows.
abbrev pub Ended : (String → Option String → Result HistoryPage) → String → Type 0
Ended fetch_page channel_id =
    (cursor : Option String) × (response : HistoryPage) × (fetch_page channel_id cursor
      ≡ ok response)
    × (response.has_more ≡ false)

-- A run that follows would start the worker's channel where the worker stands, or has nothing to do
-- for it because the last page of its history was read.
abbrev pub Resumable : (String → Option String → Result HistoryPage) → ℕ → World → Worker → Type 0
Resumable fetch_page job_id w v =
    (start_of job_id v.channel_id w ≡ some v.cursor)
    ⊎ ((v.standing ≡ finished)
        × (start_of job_id v.channel_id w ≡ none)
        × Ended fetch_page v.channel_id)

abbrev pub channels_of : List Worker → List String
channels_of vs = map (λ (v : Worker). v.channel_id) vs

-- No two of the channels are the same.
abbrev pub Distinct : List String → Type 0
Distinct [] = Unit
Distinct (c ∷ cs) = All (λ d. d ≢ c) cs × Distinct cs

module _ (sha1 : String → String) (fetch_page : String → Option String → Result HistoryPage)
    (job_id : ℕ) (org_id partition_date : String) where
  Starts-backfill_page :
      (channel_id : String) (cursor : Option String) (w : World)
      → Starts job_id channel_id w
          (backfill_page sha1 fetch_page job_id org_id partition_date channel_id cursor w)
  unfolding modify ◌>>=◌ pure save_page
  Starts-backfill_page channel_id cursor =
      by-save_page sha1 fetch_page job_id org_id partition_date (Starts job_id channel_id)
        (Starts-earlier job_id channel_id)
        (λ w w' e q.
          (λ other ne. same_start job_id other w w' q, same_start job_id channel_id w w' q))
        channel_id cursor
        (λ response rows w. (
          start_of-save_page_ne job_id channel_id response rows w,
          start_of-save_page job_id channel_id response rows w,
        ))

  abbrev Acted : Worker → World → Worker × World → Type 0
  Acted v w (v', w') =
      (v'.channel_id ≡ v.channel_id)
      × ((other : String)
          → other ≢ v.channel_id
          → start_of job_id other w' ≡ start_of job_id other w)
      × (Resumable fetch_page job_id w v → Resumable fetch_page job_id w' v')

  -- A page that was done is the one that the server answered.
  backfill_page-read :
      (channel_id : String) (cursor : Option String)
      → Returns
          (λ (r : HistoryPage × ℕ). fetch_page channel_id cursor ≡ ok r.0)
          (backfill_page sha1 fetch_page job_id org_id partition_date channel_id cursor)
  unfolding backfill_page
  backfill_page-read channel_id cursor = Returns-read _ _ _ λ response e. Returns-then _ _ _ λ now.
      Returns-then _ _ _ λ rows. Returns-then _ _ _ λ _. Returns-then _ _ _ λ _. Returns-pure _ _ e

  advanced-Acted :
      (v : Worker) (w : World) (c : Result (HistoryPage × ℕ) × World)
      → v.standing ≡ working
      → ((r : HistoryPage × ℕ) → c.0 ≡ ok r → fetch_page v.channel_id v.cursor ≡ ok r.0)
      → Starts job_id v.channel_id w c
      → Acted v w (advanced sha1 fetch_page job_id org_id partition_date v c.0, c.1)
  advanced-Acted v w (err e, w') busy read (others, own) = (
    refl,
    others,
    λ h. elim h [
      | inl at_cursor ↦ inl (own ∙ at_cursor)
      | inr (over, gone, ended) ↦ cc (busy, over)
    ],
  )
  advanced-Acted v w (ok (response, n), w') busy read (others, own) =
      (refl, others, λ h. moved response own (read (response, n) refl))
    where
      moved :
          (response : HistoryPage)
          → start_of job_id v.channel_id w' ≡ start_after response
          → fetch_page v.channel_id v.cursor ≡ ok response
          → Resumable fetch_page job_id w'
              (advanced sha1 fetch_page job_id org_id partition_date v (ok (response, n)))
      moved response own answered = elim (Bool-cases response.has_more) [
        | inl more ↦ inl (own ∙ rw more refl)
        | inr last ↦ inr (rw last refl, own ∙ rw last refl, (v.cursor, response, answered, last))
      ]

  work-Acted :
      (v : Worker) (w : World)
      → v.standing ≡ working
      → Acted v w (work sha1 fetch_page job_id org_id partition_date v w)
  unfolding work
  work-Acted v w busy = elim (Bool-cases (cancel_requested job_id w || pause_requested job_id w)) [
    | inl asked ↦ rw asked (
      refl,
      λ other ne. refl,
      λ h. elim h [ inl here ↦ inl here | inr (over, gone, ended) ↦ inr (refl, gone, ended) ],
    )
    | inr free ↦ rw free (
        advanced-Acted v w
          (backfill_page sha1 fetch_page job_id org_id partition_date v.channel_id v.cursor w) busy
          (λ r e. (backfill_page-read v.channel_id v.cursor).at w r e)
          (Starts-backfill_page v.channel_id v.cursor w))
  ]

  take_turn-Acted :
      (v : Worker) (w : World)
      → Acted v w (take_turn sha1 fetch_page job_id org_id partition_date v.standing v w)
  unfolding take_turn
  take_turn-Acted v w = go v.standing refl
    where
      go :
          (s : Standing)
          → v.standing ≡ s
          → Acted v w (take_turn sha1 fetch_page job_id org_id partition_date s v w)
      go working busy = work-Acted v w busy
      go finished h = (refl, λ other ne. refl, λ r. r)
      go (broken e) h = (refl, λ other ne. refl, λ r. r)

  abbrev Stepped : List Worker → World → List Worker × World → Type 0
  Stepped vs w (vs', w') =
      (channels_of vs' ≡ channels_of vs)
      × ((other : String)
          → All (λ d. d ≢ other) (channels_of vs)
          → start_of job_id other w' ≡ start_of job_id other w)
      × (Distinct (channels_of vs)
          → All (Resumable fetch_page job_id w) vs
          → All (Resumable fetch_page job_id w') vs')

  Resumable-same :
      (w w' : World) (v : Worker)
      → start_of job_id v.channel_id w' ≡ start_of job_id v.channel_id w
      → Resumable fetch_page job_id w v
      → Resumable fetch_page job_id w' v
  Resumable-same w w' v e (inl here) = inl (e ∙ here)
  Resumable-same w w' v e (inr (over, gone, ended)) = inr (over, e ∙ gone, ended)

  others_same :
      (c : String) (w w' : World)
      → ((other : String) → other ≢ c → start_of job_id other w' ≡ start_of job_id other w)
      → (vs : List Worker) → All (λ d. d ≢ c) (channels_of vs)
      → All (Resumable fetch_page job_id w) vs
      → All (Resumable fetch_page job_id w') vs
  others_same c w w' same [] apart h = h
  others_same c w w' same (v ∷ vs) (ne, apart) (here, h) =
      (Resumable-same w w' v (same v.channel_id ne) here, others_same c w w' same vs apart h)

  turn_of_stepped :
      (i : ℕ) (vs : List Worker) (w : World)
      → Stepped vs w (turn_of sha1 fetch_page job_id org_id partition_date i vs w)
  unfolding turn_of
  turn_of_stepped i [] w = (refl, λ other apart. refl, λ d h. h)
  turn_of_stepped zero (v ∷ vs) w =
      let (same, others, own) = take_turn-Acted v w in
      (
        ap (λ c. c ∷ channels_of vs) same,
        λ other apart. others other (λ e. apart.0 (sym e)),
        λ d h. (own h.0, others_same v.channel_id w _ others vs d.0 h.1),
      )
  turn_of_stepped (suc i) (v ∷ vs) w =
      let (same, others, own) = turn_of_stepped i vs w in
      (
        ap (λ cs. v.channel_id ∷ cs) same,
        λ other apart. others other apart.1,
        λ d h. (Resumable-same w _ v (others v.channel_id d.0) h.0, own d.1 h.1),
      )

  asked :
      (vs : List Worker) (control : Control) (w w' : World)
      → w'.checkpoints ≡ w.checkpoints
      → Stepped vs w (vs, w')
  unfolding start_of
  asked vs control w w' e = (refl, λ other apart. same other, λ d h. all vs h)
    where
      same : (other : String) → start_of job_id other w' ≡ start_of job_id other w
      same other = ap (λ cs. start_at (find (is_checkpoint job_id other) cs)) e

      all :
          (vs : List Worker)
          → All (Resumable fetch_page job_id w) vs
          → All (Resumable fetch_page job_id w') vs
      all [] h = h
      all (v ∷ vs) (here, h) = (Resumable-same w w' v (same v.channel_id) here, all vs h)

  step_stepped :
      (t : Turn) (vs : List Worker) (w : World)
      → Stepped vs w (step sha1 fetch_page job_id org_id partition_date t vs w)
  unfolding step request_pause request_cancel set_control modify ◌>>=◌
  step_stepped (page i) vs w = turn_of_stepped i vs w
  step_stepped Turn.pause vs w = asked vs pause w _ refl
  step_stepped Turn.cancel vs w = asked vs cancel w _ refl

  run_pool_stepped :
      (ts : List Turn) (vs : List Worker) (w : World)
      → Stepped vs w (run_pool sha1 fetch_page job_id org_id partition_date ts vs w)
  unfolding run_pool
  run_pool_stepped [] vs w = (refl, λ other apart. refl, λ d h. h)
  run_pool_stepped (t ∷ ts) vs w =
      let (same, others, own) = step_stepped t vs w in
      let (same', others', own') = run_pool_stepped ts _ _ in
      (
        same' ∙ same,
        λ other apart. others' other (rw same apart) ∙ others other apart,
        λ d h. own' (rw same d) (own d h),
      )

  -- The workers of a result, if it is one.
  abbrev Ready : World → Result (List Worker) → Type 0
  Ready w (err e) = Unit
  Ready w (ok vs) = All (Resumable fetch_page job_id w) vs

  with_worker-All :
      (w : World) (c : String) (start : Option (Option String)) (rest : List Worker)
      → start_of job_id c w ≡ start
      → All (Resumable fetch_page job_id w) rest
      → All (Resumable fetch_page job_id w) (with_worker c start rest)
  with_worker-All w c none rest here h = h
  with_worker-All w c (some cursor) rest here h = (inl here, h)

  add_worker-Ready :
      (w : World) (id : Result Json) (rest : Result (List Worker))
      → Ready w rest
      → Ready w (add_worker job_id w id rest)
  add_worker-Ready w (err e) rest h = tt
  add_worker-Ready w (ok id) (err e) h = tt
  add_worker-Ready w (ok id) (ok rest) h = with_worker-All w (str id) _ rest refl h

  work_items-Ready :
      (w : World) (channels : List JsonObject) → Ready w (work_items job_id w channels)
  unfolding work_items
  work_items-Ready w [] = tt
  work_items-Ready w (channel ∷ channels) =
      add_worker-Ready w (item "id" channel) _ (work_items-Ready w channels)

  -- Channels that are all different, after any turns of their workers, with any answers: the next run,
  -- which a crash or a pause can make necessary at that moment, starts each channel exactly where its
  -- worker stands, and leaves out only those of whose history the server has answered the last page.
  pub resume_continues :
      (ts : List Turn) (w : World) (channels : List JsonObject) (vs : List Worker)
      → work_items job_id w channels ≡ ok vs
      → Distinct (channels_of vs)
      → let (vs', w') = run_pool sha1 fetch_page job_id org_id partition_date ts vs w in
        All (Resumable fetch_page job_id w') vs'
  resume_continues ts w channels vs e apart =
      (run_pool_stepped ts vs w).2 apart (rw e at (work_items-Ready w channels))
