-- ===== src/Slack/Realtime/Once.antt =====
-- Every message is counted once, however often it is delivered.
use glynac_ingestion_platfor.Common.{
  ℕ, zero, suc, ◌+◌, ◌≤◌, String, ◌≡◌, refl, sym, inl, inr, Bool, true, false, Option, none, some,
  List, [], ◌∷◌, ◌++◌, arith, str_eq, eq_iff, length, length-append, count, any, if◌then◌else◌,
  Bool-cases, erase_first,
}
use glynac_ingestion_platfor.Errors.{Exception}
use glynac_ingestion_platfor.Json.{JsonObject}
use glynac_ingestion_platfor.Models.{Job, RealtimeSeen, RealtimeBacklog}
use glynac_ingestion_platfor.World.{World, Action, modify, find_job, touch}
use glynac_ingestion_platfor.World.Rows.{find_job-modify_job}
use glynac_ingestion_platfor.World.Frame.{
  Preorder, Respects, Respects-pure, Respects-bind, Respects-gets, Respects-catch,
}
use glynac_ingestion_platfor.Slack.Realtime.{
  has_seen, count_once, count_new, buffer_event, keep_event, ingest_realtime_event,
  ingest_or_buffer, drain_turn, drain_backlog, of_org,
}
use glynac_ingestion_platfor.Slack.Realtime.Effects.{Quiet-log_audit, Respects-ingest}

-- No message is recorded as seen twice.
abbrev pub SeenOnce : World → Type 0
SeenOnce w = (org_id message_id : String) → count (has_seen org_id message_id) w.seen ≤ 1

-- Job `k` is still there, and its count has grown by the number of messages that are new in `seen`.
pub record Counted (k : ℕ) (w w' : World) : Type 0 where
  pub grown :
      (j : Job)
      → find_job k w ≡ some j
      → (j' : Job) × (find_job k w' ≡ some j')
        × (j'.row_count + length w.seen ≡ j.row_count + length w'.seen)
  pub once : SeenOnce w → SeenOnce w'

any-count : {A : Type 0} (p : A → Bool) (xs : List A) → any p xs ≡ false → count p xs ≡ 0
any-count p [] h = refl
any-count p (x ∷ xs) h = ground (arith, any-count p xs)

count-append_one :
    {A : Type 0} (p : A → Bool) (xs : List A) (y : A)
    → count p (xs ++ y ∷ []) ≡ count p xs + (if p y then 1 else 0)
count-append_one p [] y = ground arith
count-append_one p (x ∷ xs) y = ground (arith, count-append_one p xs y)

seen_after :
    (k : ℕ) (org_id message_id : String) (w : World)
    → any (has_seen org_id message_id) w.seen ≡ false
    → SeenOnce w
    → SeenOnce (count_new k org_id message_id w)
seen_after k org_id message_id w fresh one o m =
    let y : RealtimeSeen = record { org_id = org_id; message_id = message_id } in
    let e = count-append_one (has_seen o m) w.seen y in
    elim (Bool-cases (has_seen o m y)) [
      | inr other ↦ ground (arith, e, one o m)
      | inl same ↦
          let eo : str_eq org_id o ≡ true = ground arith in
          let em : str_eq message_id m ≡ true = ground arith in
          let p : org_id ≡ o = (eq_iff org_id o).0 eo in
          let q : message_id ≡ m = (eq_iff message_id m).0 em in
          let none_yet : count (has_seen o m) w.seen ≡ 0 =
            rw (sym p, sym q) (any-count (has_seen org_id message_id) w.seen fresh) in
          ground (arith, e, none_yet)
    ]

module _ (k : ℕ) where
  Counted-same : (w : World) → Counted k w w
  Counted-same w = record { grown = λ j h. (j, h, refl); once = λ u. u }

  pub Counted-preorder : Preorder (Counted k)
  Counted-preorder = record {
    same = Counted-same;
    then_ = λ u v w p q. record {
      grown = λ j h.
          let (j₁, h₁, e₁) = p.grown j h in
          let (j₂, h₂, e₂) = q.grown j₁ h₁ in (j₂, h₂, omega (arith, e₁, e₂));
      once = λ o. q.once (p.once o);
    };
  }

  Counted-apart : (w w' : World) → w'.jobs ≡ w.jobs → w'.seen ≡ w.seen → Counted k w w'
  Counted-apart w w' same_jobs same_seen = record {
    grown = λ j h. (j, rw same_jobs h, rw same_seen refl);
    once = λ o. rw same_seen o;
  }

  Counted-count_once :
      (org_id message_id : String) → Respects (Counted k) (count_once k org_id message_id)
  unfolding count_once
  Counted-count_once org_id message_id = record {
    at = λ w. elim (Bool-cases (any (has_seen org_id message_id) w.seen)) [
      | inl seen ↦ rw seen (Counted-same w)
      | inr fresh ↦ rw fresh (record {
        grown = λ j h. (
          touch w.now (λ j. record j { row_count = j.row_count + 1 }) j,
          grind (
            arith,
            find_job-modify_job (λ j. record j { row_count = j.row_count + 1 }) (λ j. refl) w k,
            h,
          ),
          omega (
            arith,
            length-append w.seen (record { org_id = org_id; message_id = message_id } ∷ []),
          ),
        );
        once = seen_after k org_id message_id w fresh;
      })
    ];
  }

  pub Counted-ingest :
      (event : JsonObject) (org_id : String)
      → Respects (Counted k) (ingest_realtime_event k event org_id)
  Counted-ingest =
      Respects-ingest Counted-preorder k (λ w w' q. Counted-apart w w' q.same_jobs q.same_seen)
        Counted-count_once

  Counted-buffer_event :
      (org_id : String) (event : JsonObject) → Respects (Counted k) (buffer_event org_id event)
  unfolding buffer_event
  Counted-buffer_event org_id event = record {
    at = λ w. Counted-apart w _ (ground arith) (ground arith);
  }

  Counted-keep_event :
      (event : JsonObject) (org_id : String) (exc : Exception)
      → Respects (Counted k) (keep_event k event org_id exc)
  unfolding keep_event
  Counted-keep_event event org_id exc =
      Respects-bind Counted-preorder _ _ (Counted-buffer_event org_id event) λ _.
        Respects-bind Counted-preorder _ _
          (record {
            at = λ w.
                Counted-apart w _ ((Quiet-log_audit k _ _).at w).same_jobs
                  ((Quiet-log_audit k _ _).at w).same_seen;
          })
          λ _. Respects-pure Counted-preorder _

  Counted-ingest_or_buffer :
      (event : JsonObject) (org_id : String)
      → Respects (Counted k) (ingest_or_buffer k event org_id)
  unfolding ingest_or_buffer
  Counted-ingest_or_buffer event org_id =
      Respects-catch Counted-preorder _ _
        (Respects-bind Counted-preorder _ _ (Counted-ingest event org_id)
          (λ _. Respects-pure Counted-preorder _))
        (Counted-keep_event event org_id)

  Counted-erase :
      (org_id : String)
      → Respects
          (Counted k)
          (modify (λ w. record w { backlog = erase_first (of_org org_id) w.backlog }))
  unfolding modify
  Counted-erase org_id = record { at = λ w. Counted-apart w _ refl refl }

  Counted-drain_turn :
      (org_id : String) (drained : ℕ) (again : ℕ → Action (Option ℕ))
      → ((n : ℕ) → Respects (Counted k) (again n))
      → (row : Option RealtimeBacklog)
      → Respects (Counted k) (drain_turn k org_id drained again row)
  unfolding drain_turn
  Counted-drain_turn org_id drained again rest none = Respects-pure Counted-preorder _
  Counted-drain_turn org_id drained again rest (some r) =
      Respects-bind Counted-preorder _ _ (Counted-ingest r.payload org_id)
        λ _. Respects-bind Counted-preorder _ _ (Counted-erase org_id) λ _. rest (drained + 1)

  Counted-drain :
      (fuel : ℕ) (org_id : String) (drained : ℕ)
      → Respects (Counted k) (drain_backlog fuel k org_id drained)
  unfolding drain_backlog
  Counted-drain zero org_id drained = Respects-pure Counted-preorder none
  Counted-drain (suc fuel) org_id drained =
      Respects-bind Counted-preorder _ _ (Respects-gets Counted-preorder _) (
        Counted-drain_turn org_id drained (drain_backlog fuel k org_id) (Counted-drain fuel org_id))

-- What happens to the stream of a job: an event comes by the webhook, or the backlog is drained.
pub data StreamOp : Type 0 where
  arrive : JsonObject → String → StreamOp
  drain : ℕ → String → StreamOp

unfoldable pub stream_step : ℕ → StreamOp → World → World
stream_step k (arrive event org_id) w = (ingest_or_buffer k event org_id w).1
stream_step k (drain fuel org_id) w = (drain_backlog fuel k org_id 0 w).1

pub stream_run : ℕ → List StreamOp → World → World
stream_run k [] w = w
stream_run k (op ∷ ops) w = stream_run k ops (stream_step k op w)

Counted-stream_step : (k : ℕ) (op : StreamOp) (w : World) → Counted k w (stream_step k op w)
unfolding stream_step
Counted-stream_step k (arrive event org_id) w = (Counted-ingest_or_buffer k event org_id).at w
Counted-stream_step k (drain fuel org_id) w = (Counted-drain k fuel org_id 0).at w

-- Whatever events arrive at a real-time job, in whatever order and however often, and whenever the
-- backlog is drained, also where calls of the storage or of ClickHouse fail on the way: the job
-- stays in the table, its count of rows grows by exactly the number of messages that are newly
-- recorded as seen, and no message is ever recorded twice.
pub messages_counted_once :
    (k : ℕ) (ops : List StreamOp) (w : World) (j : Job)
    → find_job k w ≡ some j
    → SeenOnce w
    → let w' = stream_run k ops w in
      ((j' : Job) × (find_job k w' ≡ some j')
        × (j'.row_count + length w.seen ≡ j.row_count + length w'.seen))
      × SeenOnce w'
unfolding stream_run
messages_counted_once k [] w j found once = ((j, found, refl), once)
messages_counted_once k (op ∷ ops) w j found once =
    let step = Counted-stream_step k op w in
    let (j₁, found₁, e₁) = step.grown j found in
    let ((j₂, found₂, e₂), once₂) =
      messages_counted_once k ops (stream_step k op w) j₁ found₁ (step.once once) in
    ((j₂, found₂, omega (arith, e₁, e₂)), once₂)
