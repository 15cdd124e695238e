-- ===== src/Errors/RetryAfter.antt =====
-- app/errors.py: the Retry-After header. The dates of HTTP are read by Python's email library, which
-- is a parameter: the microseconds from now to the date, 0 when it is past, or none when the text is no date.
use glynac_ingestion_platfor.Common.{
  ℕ, zero, suc, ◌/◌, ◌%◌, ◌^◌, ◌<>◌, String, Option, none, some, List, [], ◌∷◌, if◌then◌else◌,
  str_eq, ◌==◌,
}
use glynac_ingestion_platfor.Common.Text.{strip, codes, show}
use glynac_ingestion_platfor.Time.{decimal, number_prefix}

-- `max(0.0, float(value))`, in microseconds, of a plain decimal number with an optional sign.
unfoldable pub seconds : List ℕ → Option ℕ
unfolding number_prefix
seconds [] = none
seconds (c ∷ cs) =
    if c == b'-'
    then (elim (decimal cs) [ none ↦ none | some t ↦ some 0 ])
    else if c == b'+'
    then decimal cs
    else decimal (c ∷ cs)

-- `parse_retry_after`
unfoldable pub parse_retry_after : (String → Option ℕ) → Option String → Option ℕ
unfolding seconds strip
parse_retry_after parse_date none = none
parse_retry_after parse_date (some value) =
    if str_eq (strip value) ""
    then none
    else elim (seconds (codes (strip value))) [ none ↦ parse_date (strip value) | some t ↦ some t ]

-- The first digits of a fraction in millionths, without the zeros at its end.
fraction_digits : ℕ → ℕ → String
fraction_digits zero n = ""
fraction_digits (suc f) n =
    let rest = fraction_digits f (n % 10 ^ f) in if n == 0 then "" else show (n / 10 ^ f) <> rest

-- `f", Retry-After {retry_after:g}s"`, for up to six digits
unfoldable pub retry_hint : Option ℕ → String
unfolding fraction_digits
retry_hint none = ""
retry_hint (some t) =
    ", Retry-After "
    <> show (t / 1000000)
    <> (if t % 1000000 == 0 then "" else "." <> fraction_digits 6 (t % 1000000))
    <> "s"
