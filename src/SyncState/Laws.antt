-- ===== src/SyncState/Laws.antt =====
-- The mark moves forward only.
use glynac_ingestion_platfor.Common.{
  ℕ, String, ◌≡◌, refl, ◌∙◌, sym, inl, inr, true, false, Bool, ◌&&◌, Option, none, some, List, [],
  ◌∷◌, arith, str_eq, eq_refl, if◌then◌else◌, any, find, find-append_new, find_sound,
  find-update_where_if, Option-cases, ap,
}
use glynac_ingestion_platfor.Errors.{ok}
use glynac_ingestion_platfor.Models.{SyncState}
use glynac_ingestion_platfor.World.{World, ◌>>=◌}
use glynac_ingestion_platfor.SyncState.Order.{str_lt_irrefl, str_lt_trans, str_lt_total}
use glynac_ingestion_platfor.SyncState.{
  Key, has_key, get_high_water, str_lt, write_mark, advance_high_water, parse_ts, iso,
}

-- The mark after a run that has seen `new`: the stored one, unless it is older or there is none.
abbrev pub advanced : Option String → String → Option String
advanced none new = some new
advanced (some old) new = if str_lt old new then some new else some old

any-find : {A : Type 0} (p : A → Bool) (xs : List A) → find p xs ≡ none → any p xs ≡ false
any-find p [] h = refl
any-find p (x ∷ xs) h = ground (arith, any-find p xs)

find-any : {A : Type 0} (p : A → Bool) (xs : List A) (x : A) → find p xs ≡ some x → any p xs ≡ true
find-any p [] x h = cc
find-any p (y ∷ xs) x h = ground (arith, find-any p xs x)

abbrev new_row : Key → String → ℕ → SyncState
new_row k new now = record {
  service = k.service;
  org_id = k.org_id;
  object_name = k.object_name;
  high_water_mark = new;
  updated_at = now;
}

has_key-new_row : (k : Key) (new : String) (now : ℕ) → has_key k (new_row k new now) ≡ true
has_key-new_row k new now = simp eq_refl

get_high_water-write_mark :
    (k : Key) (new : String) (w : World)
    → get_high_water k (write_mark k new w) ≡ advanced (get_high_water k w) new
unfolding get_high_water write_mark
get_high_water-write_mark k new w = elim (Option-cases (find (has_key k) w.sync_states)) [
  | inl fresh ↦ ground (
    arith,
    any-find (has_key k) w.sync_states fresh,
    find-append_new (has_key k) w.sync_states (new_row k new w.now) fresh
        (has_key-new_row k new w.now),
  )
  | inr (r, found) ↦ ground (
    arith,
    find-any (has_key k) w.sync_states r found,
    find-update_where_if (λ (r : SyncState). has_key k r && str_lt r.high_water_mark new)
        (λ r. record r { high_water_mark = new; updated_at = w.now }) (has_key k) (λ x. refl)
        w.sync_states,
    find_sound (has_key k) w.sync_states r found,
  )
]

-- A run that has seen `value` leaves the later of the stored mark and this value, in the order of
-- the stored texts.
advance_high_water_lem :
    (k : Key) (value : String) (t : ℕ) (w : World)
    → str_eq value "" ≡ false
    → parse_ts value ≡ ok t
    → get_high_water k (advance_high_water k (some value) w).1
      ≡ advanced (get_high_water k w) (iso t)
unfolding advance_high_water ◌>>=◌
advance_high_water_lem k value t w full parsed =
    rw (full, parsed) (get_high_water-write_mark k (iso t) w)

-- The later of three marks does not depend on the order in which two of them come.
advanced_comm :
    (old : Option String) (a b : String) → advanced (advanced old a) b ≡ advanced (advanced old b) a
advanced_comm none a b = ground (arith, str_lt_total a b, str_lt_trans a b a, str_lt_irrefl a)
advanced_comm (some o) a b = ground (
  arith,
  str_lt_total a b,
  str_lt_trans a b a,
  str_lt_irrefl a,
  str_lt_trans o a b,
  str_lt_trans o b a,
)

-- Two runs that finish at the same moment leave one mark, whichever of them comes first.
pub advance_high_water_comm :
    (k : Key) (a b : String) (s t : ℕ) (w : World)
    → str_eq a "" ≡ false
    → str_eq b "" ≡ false
    → parse_ts a ≡ ok s
    → parse_ts b ≡ ok t
    → get_high_water k (advance_high_water k (some b) (advance_high_water k (some a) w).1).1
      ≡ get_high_water k (advance_high_water k (some a) (advance_high_water k (some b) w).1).1
advance_high_water_comm k a b s t w fa fb pa pb =
    let wa = (advance_high_water k (some a) w).1 in
    let wb = (advance_high_water k (some b) w).1 in
    advance_high_water_lem k b t wa fb pb
    ∙ ap (λ o. advanced o (iso t)) (advance_high_water_lem k a s w fa pa)
    ∙ advanced_comm (get_high_water k w) (iso s) (iso t)
    ∙ sym (
        advance_high_water_lem k a s wb fa pa
        ∙ ap (λ o. advanced o (iso s)) (advance_high_water_lem k b t w fb pb))

-- A run that has seen a timestamp that can be read never moves the stored mark backwards, and
-- leaves it at the run's own mark or later.
pub advance_high_water_forward :
    (k : Key) (value : String) (t : ℕ) (w : World) (old : String)
    → str_eq value "" ≡ false
    → parse_ts value ≡ ok t
    → get_high_water k w ≡ some old
    → (new : String) × (get_high_water k (advance_high_water k (some value) w).1 ≡ some new)
      × (str_lt new old ≡ false)
      × (str_lt new (iso t) ≡ false)
advance_high_water_forward k value t w old full parsed stored = (
  (if str_lt old (iso t) then iso t else old),
  grind (arith, advance_high_water_lem k value t w full parsed, stored),
  ground (arith, str_lt_irrefl old, str_lt_trans old (iso t) old),
  ground (arith, str_lt_irrefl (iso t)),
)
