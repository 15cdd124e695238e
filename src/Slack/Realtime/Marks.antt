-- ===== src/Slack/Realtime/Marks.antt =====
-- The high-water mark of a channel moves forward only.
use glynac_ingestion_platfor.Common.{
  ℕ, ◌≤◌, String, ◌≡◌, refl, true, Bool, ◌&&◌, some, List, [], ◌∷◌, arith, if◌then◌else◌, ltb, any,
  find, find_sound, find-update_where_if,
}
use glynac_ingestion_platfor.Common.Text.{codes}
use glynac_ingestion_platfor.Models.{RealtimeMark}
use glynac_ingestion_platfor.World.{World, ◌>>=◌}
use glynac_ingestion_platfor.Time.{number_prefix, whole, decimal}
use glynac_ingestion_platfor.Slack.{ts_value, cast_float}
use glynac_ingestion_platfor.Slack.Realtime.{has_mark, raise_mark, advance_mark}

find-any : {A : Type 0} (p : A → Bool) (xs : List A) (x : A) → find p xs ≡ some x → any p xs ≡ true
find-any p [] x h = cc
find-any p (y ∷ xs) x h = ground (arith, find-any p xs x)

whole-some : (r : ℕ × List ℕ) (t : ℕ) → whole r ≡ some t → r.0 ≡ t
whole-some (n, []) t h = cc
whole-some (n, c ∷ cs) t h = ground arith

decimal-prefix : (cs : List ℕ) (t : ℕ) → decimal cs ≡ some t → (number_prefix 0 cs).0 ≡ t
decimal-prefix [] t h = cc
decimal-prefix (c ∷ cs) t h = ground (arith, whole-some (number_prefix 0 (c ∷ cs)) t)

-- The two readings of a timestamp agree where the stricter one succeeds.
cast_float-ts_value : (ts : String) (t : ℕ) → ts_value ts ≡ some t → cast_float ts ≡ t
unfolding ts_value cast_float
cast_float-ts_value ts t h = decimal-prefix (codes ts) t h

-- A message of a channel that has a mark, with a timestamp that can be read: the mark is afterwards
-- at the message or later, and never earlier than it was.
pub advance_mark_forward :
    (org_id channel_id ts : String) (t : ℕ) (w : World) (old : RealtimeMark)
    → find (has_mark org_id channel_id) w.marks ≡ some old
    → ts_value ts ≡ some t
    → let w' = (advance_mark org_id channel_id ts w).1 in
      (new : RealtimeMark) × (find (has_mark org_id channel_id) w'.marks ≡ some new)
      × (cast_float old.message_ts ≤ cast_float new.message_ts)
      × (t ≤ cast_float new.message_ts)
unfolding advance_mark raise_mark ◌>>=◌
advance_mark_forward org_id channel_id ts t w old found readable =
    let here = find-any (has_mark org_id channel_id) w.marks old found in
    let own = find_sound (has_mark org_id channel_id) w.marks old found in
    let same = cast_float-ts_value ts t readable in
    let updated =
      find-update_where_if
        (λ (m : RealtimeMark). has_mark org_id channel_id m && ltb (cast_float m.message_ts) t)
        (λ m. record m { message_ts = ts }) (has_mark org_id channel_id) (λ x. refl) w.marks in
    (
      (if ltb (cast_float old.message_ts) t then record old { message_ts = ts } else old),
      ground (arith, here, own, updated, found, readable),
      ground (arith, same),
      ground (arith, same),
    )
