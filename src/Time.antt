-- ===== src/Time.antt =====
-- The part of Python's datetime that the program uses: instants are microseconds since the epoch,
-- read from and written as ISO-8601 texts.
pub mod Digits
use glynac_ingestion_platfor.Common.{
  ◌≡◌, refl, ℕ, zero, suc, ◌+◌, ◌-◌, ◌*◌, ◌/◌, ◌%◌, String, ◌<>◌, Bool, true, false, ◌&&◌, ◌||◌,
  not, Option, none, some, List, [], ◌∷◌, ◌==◌, if◌then◌else◌, ltb, leb,
}
use glynac_ingestion_platfor.Common.Text.{show, codes}

infixl 5 ◌>>=◌
abbrev ◌>>=◌ {ℓ κ} : {A : Type ℓ} {B : Type κ} → Option A → (A → Option B) → Option B
none >>= f = none
some a >>= f = f a

abbrev pub is_digit : ℕ → Bool
is_digit c = leb b'0' c && leb c b'9'

unfoldable pub all_digits : List ℕ → Bool
all_digits [] = true
all_digits (c ∷ cs) = is_digit c && all_digits cs

-- `s.isdigit()`, of ASCII text
unfoldable pub isdigit : List ℕ → Bool
unfolding all_digits
isdigit [] = false
isdigit (c ∷ cs) = all_digits (c ∷ cs)

-- `int(s)` for a text of digits
unfoldable pub digits_value : ℕ → List ℕ → ℕ
digits_value acc [] = acc
digits_value acc (c ∷ cs) = digits_value (acc * 10 + (c - b'0')) cs

-- Exactly n digits, and what follows them.
unfoldable pub take_digits : ℕ → ℕ → List ℕ → Option (ℕ × List ℕ)
take_digits zero acc cs = some (acc, cs)
take_digits (suc n) acc [] = none
take_digits (suc n) acc (c ∷ cs) =
    let rest = take_digits n (acc * 10 + (c - b'0')) cs in if is_digit c then rest else none

-- One character.
unfoldable pub expect : ℕ → List ℕ → Option (List ℕ)
expect d [] = none
expect d (c ∷ cs) = if c == d then some cs else none

-- Up to n digits of a fraction, as a number of 10^-n.
unfoldable pub fraction : ℕ → ℕ → List ℕ → ℕ × List ℕ
fraction zero acc cs = (acc, cs)
fraction (suc n) acc [] = fraction n (acc * 10) []
fraction (suc n) acc (c ∷ cs) =
    fraction n (if is_digit c then acc * 10 + (c - b'0') else acc * 10)
      (if is_digit c then cs else c ∷ cs)

-- The number that a text begins with, in millionths, and what follows it.
unfoldable pub number_prefix : ℕ → List ℕ → ℕ × List ℕ
number_prefix n [] = (n * 1000000, [])
number_prefix n (c ∷ cs) =
    let rest = number_prefix (n * 10 + (c - b'0')) cs in
    if is_digit c
    then rest
    else if c == b'.'
    then (let (f, tail) = fraction 6 0 cs in (n * 1000000 + f, tail))
    else (n * 1000000, c ∷ cs)

abbrev pub whole : ℕ × List ℕ → Option ℕ
whole (n, []) = some n
whole (n, c ∷ cs) = if is_digit c then some n else none

-- A decimal number without a sign, in millionths: digits, and a fraction of up to six digits.
abbrev pub decimal : List ℕ → Option ℕ
decimal [] = none
decimal (c ∷ cs) = if is_digit c then whole (number_prefix 0 (c ∷ cs)) else none

-- The days from 1970-01-01 to a date of the Gregorian calendar, from 1970 on.
unfoldable pub days_of_date : ℕ → ℕ → ℕ → ℕ
days_of_date y m d =
    let y' = if leb m 2 then y - 1 else y in
    let m' = if leb m 2 then m + 9 else m - 3 in
    (y' / 400) * 146097
    + ((y' % 400) * 365 + (y' % 400) / 4 - (y' % 400) / 100)
    + ((153 * m' + 2) / 5 + d - 1)
    - 719468

pub record Date : Type 0 where
  pub year : ℕ
  pub month : ℕ
  pub day : ℕ

-- The date of a day.
unfoldable pub date_of_days : ℕ → Date
date_of_days n =
    let z = n + 719468 in
    let doe = z % 146097 in
    let yoe = (doe + doe / 36524 - doe / 1460 - doe / 146096) / 365 in
    let doy = doe - (365 * yoe + yoe / 4 - yoe / 100) in
    let mp = (5 * doy + 2) / 153 in
    let month : ℕ = if ltb mp 10 then mp + 3 else mp - 9 in
    let year : ℕ = yoe + (z / 146097) * 400 in
    record {
      year = if leb month 2 then year + 1 else year;
      month = month;
      day = doy - (153 * mp + 2) / 5 + 1;
    }

abbrev microseconds_of_day : ℕ
microseconds_of_day = 86400000000

-- `Z`, `+HH:MM`, `-HH:MM` or nothing, applied to the local instant.
zone : ℕ → List ℕ → Option ℕ
unfolding expect take_digits
zone t [] = some t
zone t (c ∷ cs) = if c == b'Z' then some t else (do
  (h, cs) ← take_digits 2 0 cs
  cs ← expect b':' cs
  (m, cs) ← take_digits 2 0 cs
  let offset = (h * 60 + m) * 60000000
  if not (ltb h 24 && ltb m 60)
      then none
      else if c == b'+'
      then some (t - offset)
      else if c == b'-'
      then some (t + offset)
      else none)

-- The fraction of a second, if there is one, and the offset.
seconds_and_zone : ℕ → List ℕ → Option ℕ
unfolding zone fraction
seconds_and_zone t [] = some t
seconds_and_zone t (c ∷ cs) =
    if c == b'.' then (let (f, rest) = fraction 6 0 cs in zone (t + f) rest) else zone t (c ∷ cs)

is_leap : ℕ → Bool
is_leap y = (y % 4 == 0 && not (y % 100 == 0)) || y % 400 == 0

days_in_month : ℕ → ℕ → ℕ
unfolding is_leap
days_in_month y mo =
    if mo == 2
    then (if is_leap y then 29 else 28)
    else if mo == 4 || mo == 6 || mo == 9 || mo == 11
    then 30
    else 31

-- What the constructor of `datetime` accepts; else it raises ValueError.
in_range : ℕ → ℕ → ℕ → ℕ → ℕ → ℕ → Bool
unfolding days_in_month
in_range y mo d h mi s =
    leb 1 mo
    && leb mo 12
    && leb 1 d
    && leb d (days_in_month y mo)
    && ltb h 24
    && ltb mi 60
    && ltb s 60

-- `datetime.fromisoformat` for `YYYY-MM-DDTHH:MM:SS[.ffffff][offset]`, from 1970 on.
unfoldable pub from_iso : List ℕ → Option ℕ
unfolding take_digits expect seconds_and_zone days_of_date in_range
from_iso cs = do
  (y, cs) ← take_digits 4 0 cs
  cs ← expect b'-' cs
  (mo, cs) ← take_digits 2 0 cs
  cs ← expect b'-' cs
  (d, cs) ← take_digits 2 0 cs
  cs ← expect b'T' cs
  (h, cs) ← take_digits 2 0 cs
  cs ← expect b':' cs
  (mi, cs) ← take_digits 2 0 cs
  cs ← expect b':' cs
  (s, cs) ← take_digits 2 0 cs
  if in_range y mo d h mi s
      then (seconds_and_zone
          (days_of_date y mo d * microseconds_of_day + ((h * 60 + mi) * 60 + s) * 1000000) cs)
      else none

-- n written with at least two, four or six digits
unfoldable pub pad2 : ℕ → String
unfolding show
pad2 n = if ltb n 10 then "0" <> show n else show n

pad4 : ℕ → String
unfolding pad2
pad4 n = if ltb n 100 then "00" <> pad2 n else if ltb n 1000 then "0" <> show n else show n

unfoldable pub pad6 : ℕ → String
unfolding pad4
pad6 n = pad4 (n / 100) <> pad2 (n % 100)

-- `dt.strftime("%Y-%m-%d")`
unfoldable pub date_text : ℕ → String
unfolding date_of_days pad4
date_text t =
    let d = date_of_days (t / microseconds_of_day) in
    pad4 d.year <> "-" <> pad2 d.month <> "-" <> pad2 d.day

-- `dt.isoformat()` of an instant in UTC: the fraction is left out when it is zero.
unfoldable pub to_iso : ℕ → String
unfolding date_text pad6
to_iso t =
    let s = (t / 1000000) % 86400 in
    date_text t
    <> "T"
    <> pad2 (s / 3600)
    <> ":"
    <> pad2 ((s / 60) % 60)
    <> ":"
    <> pad2 (s % 60)
    <> (if t % 1000000 == 0 then "" else "." <> pad6 (t % 1000000))
    <> "+00:00"

from_iso-to_iso_runs : from_iso (codes (to_iso 1_709_210_096_000_789)) ≡ some 1_709_210_096_000_789
unfolding from_iso to_iso
from_iso-to_iso_runs = refl
