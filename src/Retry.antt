-- ===== src/Retry.antt =====
-- app/retry.py: when a failed call is tried again. Times are microseconds, so `random.uniform(0, 1)`
-- is a number up to one second; the n-th number drawn is `jitter n`.
pub mod Bounds
use glynac_ingestion_platfor.Common.{
  ℕ, zero, suc, ◌+◌, ◌-◌, ◌*◌, ◌^◌, Bool, true, false, ◌||◌, Option, none, some, List, [], ◌∷◌,
  ◌++◌, if◌then◌else◌, ltb, leb, min,
}
use glynac_ingestion_platfor.Errors.{
  Exception, Result, ok, err, transient_error, rate_limit_error, connection_error,
}
use glynac_ingestion_platfor.Settings.{Settings, second}

-- MAX_ATTEMPTS, BACKOFF_INITIAL, BACKOFF_MAX, MAX_RATE_LIMIT_RETRIES
abbrev pub max_attempts : ℕ
max_attempts = 5

abbrev pub backoff_initial : ℕ
backoff_initial = second

abbrev pub backoff_max : ℕ
backoff_max = 30 * second

abbrev pub max_rate_limit_retries : ℕ
max_rate_limit_retries = 100

-- `is_transient`
unfoldable pub is_transient : Exception → Bool
is_transient (transient_error _) = true
is_transient (rate_limit_error _ _) = true
is_transient (connection_error _) = true
is_transient _ = false

-- `_backoff`
unfoldable pub backoff : ℕ → ℕ → ℕ
backoff failures jitter = min backoff_max (backoff_initial * 2 ^ (failures - 1) + jitter)

-- The variables of the loop, with the waits that were slept through and the count of calls.
pub record Loop : Type 0 where
  pub failures : ℕ
  pub rate_limits : ℕ
  pub waited_total : ℕ
  pub slept : List ℕ
  pub calls : ℕ

abbrev pub start : Loop
start = record { failures = 0; rate_limits = 0; waited_total = 0; slept = []; calls = 0 }

-- What the body of the loop decides after a failed call.
pub data Verdict : Type 0 where
  give_up : Loop → Verdict
  again : Loop → Verdict

abbrev or_backoff : Option ℕ → ℕ → ℕ
or_backoff none wait = wait
or_backoff (some header) wait = header

-- The branch for a 429.
unfoldable pub on_rate_limit : Settings → (ℕ → ℕ) → Option ℕ → Loop → Verdict
unfolding backoff
on_rate_limit s jitter header l =
    let rate_limits = l.rate_limits + 1 in
    let wait = or_backoff header (backoff rate_limits (jitter l.calls)) in
    let counted : Loop = record l { rate_limits = rate_limits } in
    if ltb s.rate_limit_max_wait wait
      || ltb s.rate_limit_total_wait (l.waited_total + wait)
      || ltb max_rate_limit_retries rate_limits
    then give_up counted
    else again
        (record counted { waited_total = l.waited_total + wait; slept = l.slept ++ wait ∷ [] })

-- The branch for every other transient failure.
unfoldable pub on_failure : (ℕ → ℕ) → Loop → Verdict
unfolding backoff
on_failure jitter l =
    let failures = l.failures + 1 in
    let counted : Loop = record l { failures = failures } in
    if leb max_attempts failures
    then give_up counted
    else again (record counted { slept = l.slept ++ backoff failures (jitter l.calls) ∷ [] })

-- The `except` clause.
unfoldable pub on_exception : Settings → (ℕ → ℕ) → Exception → Loop → Verdict
unfolding is_transient on_rate_limit on_failure
on_exception s jitter (rate_limit_error text header) l = on_rate_limit s jitter header l
on_exception s jitter e l = if is_transient e then on_failure jitter l else give_up l

module _ {ℓ κ} {S : Type κ} {A : Type ℓ} (s : Settings) (jitter : ℕ → ℕ)
    (fn : S → Result A × S) where
  -- `with_retry(fn)`: the `while True`, on fuel. `none` means that the fuel ran out.
  unfoldable pub with_retry : ℕ → Loop → S → Option (Result A × Loop × S)
  with_retry zero l σ = none
  with_retry (suc fuel) l σ =
      let (r, σ') = fn σ in
      let l' : Loop = record l { calls = l.calls + 1 } in
      elim r [
        | ok a ↦ some (ok a, l', σ')
        | err e ↦ elim (on_exception s jitter e l') [
          | give_up l'' ↦ some (err e, l'', σ')
          | again l'' ↦ with_retry fuel l'' σ'
        ]
      ]
