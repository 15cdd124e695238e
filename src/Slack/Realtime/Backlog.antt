-- ===== src/Slack/Realtime/Backlog.antt =====
-- What the backlog holds of an event that was kept for later.
use mathlib.Core.List.{Memᴰ}
use glynac_ingestion_platfor.Common.{
  ℕ, String, ◌≡◌, refl, ◌∙◌, ◌⊎◌, inl, inr, true, List, [], ◌∷◌, All, arith, any, any-Memᴰ,
  Memᴰ-last, eq_iff, Bool-cases,
}
use glynac_ingestion_platfor.Json.{JsonObject, get, str}
use glynac_ingestion_platfor.Models.{RealtimeBacklog}
use glynac_ingestion_platfor.World.{World}
use glynac_ingestion_platfor.World.Frame.{Preorder, Respects}
use glynac_ingestion_platfor.Slack.Realtime.{
  is_buffered, buffer_event, count_once, ingest_realtime_event,
}
use glynac_ingestion_platfor.Slack.Realtime.Effects.{Respects-ingest}

-- The backlog, which an ingestion leaves alone.
abbrev SameBacklog : World → World → Type 0
SameBacklog w w' = w'.backlog ≡ w.backlog

SameBacklog-preorder : Preorder SameBacklog
SameBacklog-preorder = record { same = λ w. refl; then_ = λ u v w p q. q ∙ p }

SameBacklog-count_once :
    (k : ℕ) (org_id message_id : String) → Respects SameBacklog (count_once k org_id message_id)
unfolding count_once
SameBacklog-count_once k org_id message_id = record { at = λ w. ground arith }

pub backlog-ingest :
    (k : ℕ) (event : JsonObject) (org_id : String) (w : World)
    → (ingest_realtime_event k event org_id w).1.backlog ≡ w.backlog
backlog-ingest k event org_id w =
    (Respects-ingest SameBacklog-preorder k (λ u v q. q.same_backlog) (SameBacklog-count_once k)
        event org_id).at
      w

-- A payload has what an ingestion reads of an event.
abbrev pub SameFields : JsonObject → JsonObject → Type 0
SameFields event payload =
    All (λ key. get key payload ≡ get key event)
      ("id" ∷ "channel_id" ∷ "user_id" ∷ "text" ∷ "message_ts" ∷ "thread_ts" ∷ [])

-- A row of the backlog is this event's, under its organisation and its id: it holds the event's fields, or
-- it stood in the backlog of `w` before.
abbrev Keeps : String → JsonObject → List RealtimeBacklog → RealtimeBacklog → Type 0
Keeps org_id event before r =
    (r.org_id ≡ org_id)
    × (r.message_id ≡ str (get "id" event))
    × (SameFields event r.payload ⊎ Memᴰ r before)

-- The event waits in the backlog of the second world; `w` is the world before it was kept.
abbrev pub Waits : String → JsonObject → World → World → Type 0
Waits org_id event w w' = (r : RealtimeBacklog) × Memᴰ r w'.backlog × Keeps org_id event w.backlog r

is_buffered-ids :
    (org_id id : String) (r : RealtimeBacklog)
    → is_buffered org_id id r ≡ true
    → (r.org_id ≡ org_id) × (r.message_id ≡ id)
is_buffered-ids org_id id r h =
    ((eq_iff r.org_id org_id).0 (ground (arith, h)), (eq_iff r.message_id id).0 (ground (arith, h)))

-- An event that is buffered waits.
pub buffer_event-Waits :
    (org_id : String) (event : JsonObject) (w : World)
    → Waits org_id event w (buffer_event org_id event w).1
unfolding buffer_event
buffer_event-Waits org_id event w =
    let id = str (get "id" event) in
    elim (Bool-cases (any (is_buffered org_id id) w.backlog)) [
      | inl old ↦
          let (r, there, mine) = any-Memᴰ (is_buffered org_id id) w.backlog old in
          let (org, same) = is_buffered-ids org_id id r mine in
          rw old (r, there, (org, same, inr there))
      | inr new ↦ rw new (
        _,
        Memᴰ-last w.backlog _,
        (refl, refl, inl (refl, (refl, (refl, (refl, (refl, (refl, tt))))))),
      )
    ]
