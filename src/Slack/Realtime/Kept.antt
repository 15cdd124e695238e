-- ===== src/Slack/Realtime/Kept.antt =====
-- No event is lost.
use glynac_ingestion_platfor.Common.{
  ℕ, String, ◌≡◌, refl, ◌⊎◌, inl, inr, Bool, true, List, [], ◌∷◌, arith, eq_refl, any, any-append,
  Bool-cases,
}
use glynac_ingestion_platfor.Errors.{Exception, Result, ok, err}
use glynac_ingestion_platfor.Json.{JsonObject, get, str, has_key}
use glynac_ingestion_platfor.World.{
  World, Action, pure, raise, lift, ◌>>=◌, ◌>>◌, catch, handled, continue, skip,
}
use glynac_ingestion_platfor.World.Frame.{
  Preorder, Respects, Respects-pure, Respects-catch, Respects-bind,
}
use glynac_ingestion_platfor.Slack.{Message, normalize_rows, new_message}
use glynac_ingestion_platfor.Slack.Realtime.{
  Outcome, buffered, Ingested, ingested, has_seen, count_once, advance_mark, ingest_row,
  ingest_rows, ingest_body, bury, ingest_realtime_event, done,
}
use glynac_ingestion_platfor.Slack.Realtime.Backlog.{Waits}
use glynac_ingestion_platfor.Slack.Realtime.Effects.{Quiet, Quiet-advance_mark}

module _ (org_id : String) (id : String) where
  abbrev pub IsSeen : World → Type 0
  IsSeen w = any (has_seen org_id id) w.seen ≡ true

  SeenKept : World → World → Type 0
  SeenKept w w' = IsSeen w → IsSeen w'

  -- When the call succeeds, the message has been recorded as seen.
  pub record Ensures {A : Type 0} (m : Action A) : Type 0 where
    pub at : (w : World) (a : A) → (m w).0 ≡ ok a → IsSeen (m w).1

  module _ {A B : Type 0} where
    Ensures-then : (m : Action A) (f : A → Action B) → ((a : A) → Ensures (f a)) → Ensures (m >>= f)
    unfolding ◌>>=◌
    Ensures-then m f hf = record { at = λ w b. go w b (m w) }
      where
        go :
            (w : World) (b : B) (c : Result A × World)
            → (continue c.0 f c.1).0 ≡ ok b
            → IsSeen (continue c.0 f c.1).1
        go w b (ok a, w') h = (hf a).at w' b h
        go w b (err e, w') h = cc

    Ensures-before :
        (m : Action A) (f : A → Action B)
        → Ensures m
        → ((a : A) (w : World) → IsSeen w → IsSeen (f a w).1)
        → Ensures (m >>= f)
    unfolding ◌>>=◌
    Ensures-before m f hm keep = record { at = λ w b. go w b (m w) (hm.at w) }
      where
        go :
            (w : World) (b : B) (c : Result A × World)
            → ((a : A) → c.0 ≡ ok a → IsSeen c.1)
            → (continue c.0 f c.1).0 ≡ ok b
            → IsSeen (continue c.0 f c.1).1
        go w b (ok a, w') hm h = keep a w' (hm a refl)
        go w b (err e, w') hm h = cc

    Ensures-lift :
        (r : Result A) (f : A → Action B)
        → ((a : A) → r ≡ ok a → Ensures (f a))
        → Ensures (lift r >>= f)
    unfolding ◌>>=◌
    Ensures-lift (ok a) f hf = record { at = λ w b h. (hf a refl).at w b h }
    Ensures-lift (err e) f hf = record { at = λ w b h. cc }

  module _ {A : Type 0} where
    Ensures-raise : (e : Exception) → Ensures (raise {A = A} e)
    unfolding raise
    Ensures-raise e = record { at = λ w a h. cc }

    Ensures-catch :
        (m : Action A) (h : Exception → Action A)
        → Ensures m
        → ((e : Exception) → Ensures (h e))
        → Ensures (catch m h)
    unfolding catch
    Ensures-catch m h hm hh = record { at = λ w a. go w a (m w) (hm.at w) }
      where
        go :
            (w : World) (a : A) (c : Result A × World)
            → ((a : A) → c.0 ≡ ok a → IsSeen c.1)
            → (handled c.0 h c.1).0 ≡ ok a
            → IsSeen (handled c.0 h c.1).1
        go w a (ok x, w') hm e = hm x refl
        go w a (err x, w') hm e = (hh x).at w' a e

  Ensures-count_once : (k : ℕ) → Ensures (count_once k org_id id)
  unfolding count_once
  Ensures-count_once k = record {
    at = λ w a h. elim (Bool-cases (any (has_seen org_id id) w.seen)) [
      | inl seen ↦ rw seen seen
      | inr fresh ↦ ground (
        arith,
        fresh,
        eq_refl org_id,
        eq_refl id,
        any-append (has_seen org_id id) w.seen (record { org_id = org_id; message_id = id } ∷ []),
      )
    ];
  }

  Ensures-bury : (k : ℕ) (event : JsonObject) (e : Exception) → Ensures (bury k event e)
  unfolding bury
  Ensures-bury k event e = Ensures-then _ _ λ job. Ensures-then _ _ λ _. Ensures-raise e

  IsSeen-by-Quiet : (w w' : World) → Quiet w w' → IsSeen w → IsSeen w'
  IsSeen-by-Quiet w w' q h = rw q.same_seen h

  SeenKept-preorder : Preorder SeenKept
  unfolding SeenKept
  SeenKept-preorder = record { same = λ w h. h; then_ = λ u v w p q h. q (p h) }

  marked : (row : Message) (duplicate : Bool) (path : String) → Action Ingested
  marked row duplicate path =
      catch (advance_mark org_id row.channel_id row.message_ts) (λ _. skip)
      >> pure (ingested duplicate row.message_id path)

  SeenKept-marked :
      (row : Message) (duplicate : Bool) (path : String)
      → Respects SeenKept (marked row duplicate path)
  unfolding SeenKept marked
  SeenKept-marked row duplicate path =
      Respects-bind SeenKept-preorder _ _
        (Respects-catch SeenKept-preorder _ _
          (record {
            at = λ w.
                IsSeen-by-Quiet w _
                  ((Quiet-advance_mark org_id row.channel_id row.message_ts).at w);
          })
          (λ _. Respects-pure SeenKept-preorder tt))
        (λ _. Respects-pure SeenKept-preorder _)

  Ensures-ingest_row :
      (k : ℕ) (row : Message) → row.message_id ≡ id → Ensures (ingest_row k org_id row)
  unfolding ingest_row SeenKept marked
  Ensures-ingest_row k row same = Ensures-then _ _ λ path. Ensures-then _ _ λ _.
      Ensures-then _ _ λ _.
        Ensures-before _ _ (rw same (Ensures-count_once k))
          (λ duplicate w h. (SeenKept-marked row duplicate path).at w h)

-- The one row of an event.
normalize_one :
    (now : ℕ) (source : String) (event : JsonObject) (rows : List Message)
    → normalize_rows now source [] (event ∷ []) ≡ ok rows
    → (row : Message) × (rows ≡ row ∷ []) × (row.message_id ≡ str (get "id" event))
unfolding normalize_rows
normalize_one now source event rows h =
    let row : Message =
      new_message now source event (str (get "id" event)) (get "channel_id" event)
        (get "message_ts" event) in
    elim (Bool-cases (has_key "id" event)) [
      | inr e ↦ ground arith
      | inl e ↦ elim (Bool-cases (has_key "channel_id" event)) [
        | inr f ↦ ground arith
        | inl f ↦ elim (Bool-cases (has_key "message_ts" event)) [
          | inr g ↦ ground arith
          | inl g ↦ (row, ground arith, refl)
        ]
      ]
    ]

Ensures-ingest_rows :
    (k : ℕ) (org_id id : String) (row : Message) (rows : List Message)
    → rows ≡ row ∷ []
    → row.message_id ≡ id
    → Ensures org_id id (ingest_rows k org_id rows)
unfolding ingest_rows
Ensures-ingest_rows k org_id id row rows e same = rw e (Ensures-ingest_row org_id id k row same)

pub Ensures-ingest :
    (k : ℕ) (event : JsonObject) (org_id : String)
    → Ensures org_id (str (get "id" event)) (ingest_realtime_event k event org_id)
unfolding ingest_realtime_event ingest_body
Ensures-ingest k event org_id =
    let id = str (get "id" event) in
    Ensures-catch org_id id _ _
      (Ensures-then org_id id _ _ λ now. Ensures-lift org_id id _ _ λ rows e.
        let (row, single, same) = normalize_one now "realtime" event rows e in
        Ensures-ingest_rows k org_id id row rows single same)
      (Ensures-bury org_id id k event)

-- What the webhook's path comes to: the event was ingested, and is on record as seen, or it waits in the
-- backlog.
abbrev pub Kept : String → JsonObject → World → Result Outcome × World → Type 0
Kept org_id event w (r, w') =
    ((a : Ingested) × (r ≡ ok (done a))
      × (any (has_seen org_id (str (get "id" event))) w'.seen ≡ true))
    ⊎ ((m : String) × (r ≡ ok (buffered m)) × Waits org_id event w w')
