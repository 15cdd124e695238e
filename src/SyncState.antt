-- ===== src/SyncState.antt =====
-- app/sync_state.py: the high-water marks of incremental loads. Marks are stored as ISO-8601 texts
-- and compared as texts by the database.
pub mod Order
pub mod Laws
use Prim.Native.Nat.{Ordering}
use Prim.Native.String.{compare}
use glynac_ingestion_platfor.Common.{
  ℕ, ◌-◌, ◌*◌, String, Bool, true, false, ◌&&◌, Option, none, some, [], ◌∷◌, ◌++◌, if◌then◌else◌,
  str_eq, leb, find, update_where, erase_first, any,
}
use glynac_ingestion_platfor.Common.Text.{strip, codes}
use glynac_ingestion_platfor.Errors.{Result, ok, err, value_error}
use glynac_ingestion_platfor.Models.{SyncState}
use glynac_ingestion_platfor.World.{World, Action, pure, lift, modify, ◌>>=◌, ◌>>◌}
use glynac_ingestion_platfor.Time.{isdigit, digits_value, from_iso, to_iso}

or_value_error : Option ℕ → Result ℕ
or_value_error none = err (value_error "Invalid isoformat string")
or_value_error (some t) = ok t

-- `parse_ts`: epoch milliseconds, or an ISO-8601 text; the instant in microseconds.
unfoldable pub parse_ts : String → Result ℕ
unfolding strip isdigit digits_value from_iso or_value_error
parse_ts value =
    let cs = codes (strip value) in
    if isdigit cs then ok (digits_value 0 cs * 1000) else or_value_error (from_iso cs)

-- `iso`
abbrev pub iso : ℕ → String
iso = to_iso

-- `not value`, for a text that may be None
abbrev pub empty : Option String → Bool
empty none = true
empty (some s) = str_eq s ""

-- `a if parse_ts(a) >= parse_ts(b) else b`
unfoldable pub later : String → String → Result (Option String)
later a b = elim (parse_ts a) [
  | err e ↦ err e
  | ok s ↦ elim (parse_ts b) [ err e ↦ err e | ok t ↦ ok (if leb t s then some a else some b) ]
]

-- `newest`: the later of two timestamps.
unfoldable pub newest : Option String → Option String → Result (Option String)
unfolding later
newest none b = ok b
newest (some a) b =
    if str_eq a ""
    then ok b
    else elim b [ none ↦ ok (some a) | some b ↦ if str_eq b "" then ok (some a) else later a b ]

-- The primary key of a mark.
pub record Key : Type 0 where
  pub service : String
  pub org_id : String
  pub object_name : String

abbrev pub has_key : Key → SyncState → Bool
has_key k r =
    str_eq r.service k.service && str_eq r.org_id k.org_id && str_eq r.object_name k.object_name

-- `get_high_water`
unfoldable pub get_high_water : Key → World → Option String
get_high_water k w = elim (find (has_key k) w.sync_states) [
  | none ↦ none
  | some r ↦ some r.high_water_mark
]

-- `<` of texts
unfoldable pub str_lt : String → String → Bool
str_lt a b = elim (compare a b) [ Ordering.lt ↦ true | _ ↦ false ]

-- The row is inserted, unless the key is taken: then it is updated where its mark is older.
unfoldable pub write_mark : Key → String → World → World
write_mark k new w =
    if any (has_key k) w.sync_states
    then record w {
      sync_states =
          update_where (λ r. has_key k r && str_lt r.high_water_mark new)
            (λ r. record r { high_water_mark = new; updated_at = w.now }) w.sync_states;
    }
    else record w {
      sync_states =
          w.sync_states
          ++ record {
            service = k.service;
            org_id = k.org_id;
            object_name = k.object_name;
            high_water_mark = new;
            updated_at = w.now;
          }
            ∷ [];
    }

-- `advance_high_water`
unfoldable pub advance_high_water : Key → Option String → Action (Unit {0})
advance_high_water k none = pure tt
advance_high_water k (some value) =
    if str_eq value ""
    then pure tt
    else (do t ← lift (parse_ts value); modify (write_mark k (iso t)))

-- `reset_high_water`
unfoldable pub reset_high_water : Key → Action Bool
reset_high_water k w =
    if any (has_key k) w.sync_states
    then (ok true, record w { sync_states = erase_first (has_key k) w.sync_states })
    else (ok false, w)

-- `with_overlap`
unfoldable pub with_overlap : String → ℕ → Result String
with_overlap high_water seconds = elim (parse_ts high_water) [
  | err e ↦ err e
  | ok t ↦ ok (iso (t - seconds * 1000000))
]
