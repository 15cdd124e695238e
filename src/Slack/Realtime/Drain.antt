-- ===== src/Slack/Realtime/Drain.antt =====
-- The backlog is drained to the end.
use mathlib.Core.List.{Memᴰ}
use mathlib.Core.Path.{subst}
use glynac_ingestion_platfor.Common.{
  ℕ, zero, suc, ◌+◌, ◌<◌, String, ◌≡◌, refl, ◌∙◌, sym, ap, ◌⊎◌, inl, inr, Bool, true, Option, none,
  some, List, [], ◌∷◌, arith, Option-cases, Bool-cases, find, count, erase_first, any, any-append,
  All, All-map, Memᴰ-All,
}
use glynac_ingestion_platfor.Errors.{Exception, Result, ok, err}
use glynac_ingestion_platfor.Json.{JsonObject, get, str}
use glynac_ingestion_platfor.Models.{RealtimeBacklog}
use glynac_ingestion_platfor.World.{World, Action, modify, ◌>>=◌, ◌>>◌, continue}
use glynac_ingestion_platfor.World.Frame.{Preorder, Respects}
use glynac_ingestion_platfor.Slack.Realtime.{
  Ingested, of_org, has_seen, count_once, ingest_realtime_event, drain_turn, drain_backlog,
}
use glynac_ingestion_platfor.Slack.Realtime.Backlog.{backlog-ingest}
use glynac_ingestion_platfor.Slack.Realtime.Kept.{IsSeen, Ensures-ingest}
use glynac_ingestion_platfor.Slack.Realtime.Effects.{Respects-ingest}

-- What is on record as seen stays there.
abbrev SeenStays : String → World → World → Type 0
SeenStays org_id w w' = (id : String) → IsSeen org_id id w → IsSeen org_id id w'

SeenStays-preorder : (org_id : String) → Preorder (SeenStays org_id)
SeenStays-preorder org_id = record { same = λ w id h. h; then_ = λ u v w p q id h. q id (p id h) }

SeenStays-count_once :
    (k : ℕ) (org_id org message_id : String)
    → Respects (SeenStays org_id) (count_once k org message_id)
unfolding count_once
SeenStays-count_once k org_id org message_id = record {
  at = λ w id h. elim (Bool-cases (any (has_seen org message_id) w.seen)) [
    | inl old ↦ rw old h
    | inr new ↦ rw new (
        ground (
          arith,
          h,
          any-append (has_seen org_id id) w.seen
              (record { org_id = org; message_id = message_id } ∷ []),
        ))
  ];
}

seen-ingest :
    (k : ℕ) (event : JsonObject) (org_id : String) (w : World)
    → SeenStays org_id w (ingest_realtime_event k event org_id w).1
seen-ingest k event org_id w =
    (Respects-ingest (SeenStays-preorder org_id) k (λ u v q id h. rw q.same_seen h)
        (SeenStays-count_once k org_id) event org_id).at
      w

count-find-none : {A : Type 0} (p : A → Bool) (xs : List A) → find p xs ≡ none → count p xs ≡ 0
count-find-none p [] h = refl
count-find-none p (x ∷ xs) h = ground (arith, count-find-none p xs)

count-erase_first :
    {A : Type 0} (p : A → Bool) (xs : List A) (x : A)
    → find p xs ≡ some x
    → count p xs ≡ suc (count p (erase_first p xs))
count-erase_first p [] x h = cc
count-erase_first p (y ∷ ys) x h = ground (arith, count-erase_first p ys x)

All-erase_first :
    {A : Type 0} (P : A → Type 0) (p : A → Bool) (xs : List A) (x : A)
    → find p xs ≡ some x
    → P x
    → All P (erase_first p xs)
    → All P xs
All-erase_first P p [] x h here rest = tt
All-erase_first P p (y ∷ ys) x h here rest = elim (Bool-cases (p y)) [
  | inl first ↦
      let e : y ≡ x = ground (arith, h, first) in
      let others : All P ys = rw first at rest in (subst P (sym e) here, others)
  | inr later ↦
      let others : P y × All P (erase_first p ys) = rw later at rest in
      (others.0, All-erase_first P p ys x (ground (arith, h, later)) here others.1)
]

-- A row of the organisation whose message is on record as seen.
abbrev pub Recorded : String → World → RealtimeBacklog → Type 0
Recorded org_id w r = of_org org_id r ≡ true → IsSeen org_id (str (get "id" r.payload)) w

-- A row of the organisation whose message is on record as seen, or that is still in the backlog.
abbrev pub Accounted : String → World → RealtimeBacklog → Type 0
Accounted org_id w r =
    of_org org_id r ≡ true → IsSeen org_id (str (get "id" r.payload)) w ⊎ Memᴰ r w.backlog

-- The first row that is left is the one whose ingestion raised this exception, and nothing came after it.
abbrev pub Failed : ℕ → String → Exception → World → Type 0
Failed k org_id e w =
    (r : RealtimeBacklog) × (find (of_org org_id) w.backlog ≡ some r)
    × (u : World) × (ingest_realtime_event k r.payload org_id u ≡ (err e, w))

-- What a drain of the backlog of `w` comes to.
pub record Drained (k : ℕ) (org_id : String) (drained : ℕ) (w : World)
    (c : Result (Option ℕ) × World) : Type 0 where
  pub stays : SeenStays org_id w c.1
  pub outcome :
      ((c.0 ≡ ok (some (drained + count (of_org org_id) w.backlog)))
        × (count (of_org org_id) c.1.backlog ≡ 0)
        × All (Recorded org_id c.1) w.backlog)
      ⊎ ((e : Exception) × (c.0 ≡ err e)
          × All (Accounted org_id c.1) w.backlog
          × Failed k org_id e c.1)

-- After the ingestion of the first row.
drain_rest :
    (k : ℕ) (org_id : String) (drained fuel : ℕ) (again : ℕ → Action (Option ℕ)) (w : World)
    (r : RealtimeBacklog)
    → find (of_org org_id) w.backlog ≡ some r
    → count (of_org org_id) w.backlog < suc fuel
    → ((n : ℕ) (u : World)
        → count (of_org org_id) u.backlog < fuel
        → Drained k org_id n u (again n u))
    → (c : Result Ingested × World) → ingest_realtime_event k r.payload org_id w ≡ c
    → c.1.backlog ≡ w.backlog
    → SeenStays org_id w c.1
    → ((a : Ingested) → c.0 ≡ ok a → IsSeen org_id (str (get "id" r.payload)) c.1)
    → Drained k org_id drained w (
        continue c.0
          (λ _.
            modify (λ u. record u { backlog = erase_first (of_org org_id) u.backlog })
            >> again (drained + 1))
          c.1)
unfolding ◌>>=◌
drain_rest k org_id drained fuel again w r found bound ih (err e, w') ran same stays recorded =
    record {
      stays = stays;
      outcome = inr (
        e,
        refl,
        All-map (λ x there mine. inr there) w.backlog
            (subst (λ rows. All (λ x. Memᴰ x rows) w.backlog) (sym same) (Memᴰ-All w.backlog)),
        (r, rw same found, w, ran),
      );
    }
drain_rest k org_id drained fuel again w r found bound ih (ok a, w') ran same stays recorded =
    let one = count-erase_first (of_org org_id) w.backlog r found in
    let u : World = record w' { backlog = erase_first (of_org org_id) w'.backlog } in
    let left : suc (count (of_org org_id) u.backlog) ≡ count (of_org org_id) w.backlog =
      rw same (sym one) in
    let d = ih (drained + 1) u (omega (arith, left, bound)) in
    let v : World = (again (drained + 1) u).1 in
    let here = d.stays (str (get "id" r.payload)) (recorded a refl) in
    let rest : u.backlog ≡ erase_first (of_org org_id) w.backlog =
      ap (erase_first (of_org org_id)) same in
    record {
      stays = λ id h. d.stays id (stays id h);
      outcome = elim d.outcome [
        | inl (done_, empty, all) ↦ inl (
          done_ ∙ ap (λ n. ok (some n)) (omega (arith, left)),
          empty,
          All-erase_first (Recorded org_id v) (of_org org_id) w.backlog r found (λ _. here)
              (subst (All (Recorded org_id v)) rest all),
        )
        | inr (e, raised, all, failed_) ↦ inr (
          e,
          raised,
          All-erase_first (Accounted org_id v) (of_org org_id) w.backlog r found (λ _. inl here)
              (subst (All (Accounted org_id v)) rest all),
          failed_,
        )
      ];
    }

Recorded-none_left :
    (org_id : String) (w : World) (rows : List RealtimeBacklog)
    → find (of_org org_id) rows ≡ none
    → All (Recorded org_id w) rows
Recorded-none_left org_id w [] h = tt
Recorded-none_left org_id w (r ∷ rows) h = elim (Bool-cases (of_org org_id r)) [
  | inl mine ↦ let clash : some r ≡ none = rw mine at h in cc clash
  | inr other ↦
      ((λ mine. cc (mine, other)), Recorded-none_left org_id w rows (ground (arith, h, other)))
]

-- With more turns than the organisation has buffered events, the drain comes to an end, and forgets nothing
-- that was seen. Either no event of the organisation is left, the number of those that were buffered is
-- the result, and every one of them is on record as seen; or an ingestion raised, its exception is the
-- result, the event that failed is the next one in the backlog, and each event that was buffered is on
-- record as seen or still in the backlog.
pub drain_backlog_ends :
    (fuel k : ℕ) (org_id : String) (drained : ℕ) (w : World)
    → count (of_org org_id) w.backlog < fuel
    → Drained k org_id drained w (drain_backlog fuel k org_id drained w)
unfolding drain_backlog drain_turn ◌>>=◌
drain_backlog_ends zero k org_id drained w bound = ground arith
drain_backlog_ends (suc fuel) k org_id drained w bound =
    elim (Option-cases (find (of_org org_id) w.backlog)) [
      | inl none_left ↦
          let zero_left = count-find-none (of_org org_id) w.backlog none_left in
          rw none_left (record {
            stays = λ id h. h;
            outcome = inl (
              ap (λ n. ok (some n)) (omega (arith, zero_left)),
              zero_left,
              Recorded-none_left org_id w w.backlog none_left,
            );
          })
      | inr (r, found) ↦ rw found (
          drain_rest k org_id drained fuel (drain_backlog fuel k org_id) w r found bound
            (λ n u b. drain_backlog_ends fuel k org_id n u b)
            (ingest_realtime_event k r.payload org_id w) refl (backlog-ingest k r.payload org_id w)
            (seen-ingest k r.payload org_id w)
            (λ a e. (Ensures-ingest k r.payload org_id).at w a e))
    ]
