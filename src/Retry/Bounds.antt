-- ===== src/Retry/Bounds.antt =====
-- The loop of `with_retry` ends, and how long it can take.
use glynac_ingestion_platfor.Common.{
  ℕ, zero, suc, ◌+◌, ◌-◌, ◌≤◌, ◌<◌, ◌≡◌, refl, ◌∙◌, ap, ◌⊎◌, inl, inr, Option, none, some, [], ◌*◌,
  String, ◌∷◌, ◌++◌, arith, All, All-append, max,
}
use glynac_ingestion_platfor.Errors.{
  Exception, Result, ok, err, rate_limit_error, transient_error, connection_error,
}
use glynac_ingestion_platfor.Settings.{Settings}
use glynac_ingestion_platfor.Retry.{
  max_attempts, max_rate_limit_retries, backoff_max, backoff, Loop, start, Verdict, give_up, again,
  on_rate_limit, on_failure, on_exception, with_retry,
}

-- The waits are the loop's: none longer than the bound for a 429 or the cap of the backoff.
abbrev pub FitsWait : Settings → ℕ → Type 0
FitsWait s wait = wait ≤ max s.rate_limit_max_wait backoff_max

-- What holds before each call.
pub record InBounds (s : Settings) (l : Loop) : Type 0 where
  pub failures_left : l.failures < max_attempts
  pub rate_limits_left : l.rate_limits ≤ max_rate_limit_retries
  pub waited : l.waited_total ≤ s.rate_limit_total_wait
  pub counted : l.calls ≡ l.failures + l.rate_limits
  pub waits : All (FitsWait s) l.slept

abbrev measure : Loop → ℕ
measure l = (max_attempts - l.failures) + (max_rate_limit_retries - l.rate_limits)

-- The call has been made, and its verdict is to go on.
record Continues (s : Settings) (l l' : Loop) : Type 0 where
  bounds : InBounds s l'
  smaller : measure l' < measure l

backoff-le : (failures jitter : ℕ) → backoff failures jitter ≤ backoff_max
unfolding backoff
backoff-le failures jitter = omega arith

module _ (s : Settings) (jitter : ℕ → ℕ) where
  -- The state after a wait for a 429 keeps within the bounds.
  waits-Continues :
      (wait : ℕ) (l : Loop)
      → InBounds s l
      → wait ≤ s.rate_limit_max_wait
      → l.waited_total + wait ≤ s.rate_limit_total_wait
      → l.rate_limits + 1 ≤ max_rate_limit_retries
      → Continues s l (record l {
        calls = l.calls + 1;
        rate_limits = l.rate_limits + 1;
        waited_total = l.waited_total + wait;
        slept = l.slept ++ wait ∷ [];
      })
  waits-Continues wait l b one total retries = record {
    bounds = record {
      failures_left = b.failures_left;
      rate_limits_left = retries;
      waited = total;
      counted = omega (arith, b.counted);
      waits = All-append (FitsWait s) l.slept (wait ∷ []) b.waits (omega arith, tt);
    };
    smaller = omega arith;
  }

  rate_limit-Continues :
      (header : Option ℕ) (l l' : Loop)
      → InBounds s l
      → on_rate_limit s jitter header (record l { calls = l.calls + 1 }) ≡ again l'
      → Continues s l l'
  unfolding on_rate_limit
  rate_limit-Continues none l l' b h =
      let wait : ℕ = backoff (l.rate_limits + 1) (jitter (l.calls + 1)) in
      ground (arith, waits-Continues wait l b)
  rate_limit-Continues (some header) l l' b h = ground (arith, waits-Continues header l b)

  failure-Continues :
      (l l' : Loop)
      → InBounds s l
      → on_failure jitter (record l { calls = l.calls + 1 }) ≡ again l'
      → Continues s l l'
  unfolding on_failure
  failure-Continues l l' b h =
      let wait : ℕ = backoff (l.failures + 1) (jitter (l.calls + 1)) in
      ground (
        arith,
        backoff-le (l.failures + 1) (jitter (l.calls + 1)),
        All-append (FitsWait s) l.slept (wait ∷ []) b.waits
            (omega (arith, backoff-le (l.failures + 1) (jitter (l.calls + 1))), tt),
      )

  exception-Continues :
      (e : Exception) (l l' : Loop)
      → InBounds s l
      → on_exception s jitter e (record l { calls = l.calls + 1 }) ≡ again l'
      → Continues s l l'
  unfolding on_exception
  exception-Continues (rate_limit_error text header) l l' b h = rate_limit-Continues header l l' b h
  exception-Continues (transient_error text) l l' b h = failure-Continues l l' b h
  exception-Continues (connection_error text) l l' b h = failure-Continues l l' b h
  exception-Continues _ l l' b h = cc

-- A server error or a lost connection comes out on the fifth such failure only.
abbrev pub Exhausted {ℓ} : {A : Type ℓ} → Result A → Loop → Type 0
Exhausted (err (transient_error _)) l = l.failures ≡ max_attempts
Exhausted (err (connection_error _)) l = l.failures ≡ max_attempts
Exhausted _ l = Unit

-- What holds when `with_retry` returns or raises: how many calls were made, and how long it waited.
pub record Ended {ℓ} {A : Type ℓ} (s : Settings) (r : Result A) (l : Loop) : Type 0 where
  pub calls : l.calls ≤ max_attempts + max_rate_limit_retries
  pub waited : l.waited_total ≤ s.rate_limit_total_wait
  pub waits : All (FitsWait s) l.slept
  pub exhausted : Exhausted r l

module _ {ℓ} {A : Type ℓ} (s : Settings) (jitter : ℕ → ℕ) where
  exception-Ended :
      (e : Exception) (l l' : Loop)
      → InBounds s l
      → on_exception s jitter e (record l { calls = l.calls + 1 }) ≡ give_up l'
      → Ended {A = A} s (err e) l'
  unfolding on_exception on_rate_limit on_failure
  exception-Ended (rate_limit_error text header) l l' b h = record {
    calls = ground arith;
    waited = ground arith;
    waits = ground arith;
    exhausted = tt;
  }
  exception-Ended (transient_error text) l l' b h = record {
    calls = ground arith;
    waited = ground arith;
    waits = ground arith;
    exhausted = ground arith;
  }
  exception-Ended (connection_error text) l l' b h = record {
    calls = ground arith;
    waited = ground arith;
    waits = ground arith;
    exhausted = ground arith;
  }
  exception-Ended _ l l' b h = record {
    calls = ground arith;
    waited = ground arith;
    waits = ground arith;
    exhausted = tt;
  }

  ok-Ended : (a : A) (l : Loop) → InBounds s l → Ended s (ok a) (record l { calls = l.calls + 1 })
  ok-Ended a l b = record {
    calls = omega arith;
    waited = b.waited;
    waits = b.waits;
    exhausted = tt;
  }

Verdict-cases : (v : Verdict) → ((l : Loop) × (v ≡ give_up l)) ⊎ ((l : Loop) × (v ≡ again l))
Verdict-cases (give_up l) = inl (l, refl)
Verdict-cases (again l) = inr (l, refl)

module _ {ℓ κ} {S : Type κ} {A : Type ℓ} (s : Settings) (jitter : ℕ → ℕ)
    (fn : S → Result A × S) where
  abbrev Ends : ℕ → Loop → S → Type (ℓ ⊔ κ)
  Ends fuel l σ =
      (r : Result A) × (l' : Loop) × (σ' : S) × (with_retry s jitter fn fuel l σ ≡ some (r, l', σ'))
      × Ended s r l'

  -- What a round does with the call's answer.
  abbrev handle : ℕ → Loop → Result A × S → Option (Result A × Loop × S)
  handle fuel l c = elim c.0 [
    | ok a ↦ some (ok a, record l { calls = l.calls + 1 }, c.1)
    | err e ↦ elim (on_exception s jitter e (record l { calls = l.calls + 1 })) [
      | give_up l' ↦ some (err e, l', c.1)
      | again l' ↦ with_retry s jitter fn fuel l' c.1
    ]
  ]

  -- One round of the loop, by what the call answers.
  round-ok :
      (fuel : ℕ) (l : Loop) (σ σ' : S) (a : A)
      → fn σ ≡ (ok a, σ')
      → with_retry s jitter fn (suc fuel) l σ ≡ some (ok a, record l { calls = l.calls + 1 }, σ')
  unfolding with_retry
  round-ok fuel l σ σ' a eq = ap (handle fuel l) eq

  round-err :
      (fuel : ℕ) (l : Loop) (σ σ' : S) (e : Exception)
      → fn σ ≡ (err e, σ')
      → with_retry s jitter fn (suc fuel) l σ
        ≡ elim (on_exception s jitter e (record l { calls = l.calls + 1 })) [
          | give_up l' ↦ some (err e, l', σ')
          | again l' ↦ with_retry s jitter fn fuel l' σ'
        ]
  unfolding with_retry
  round-err fuel l σ σ' e eq = ap (handle fuel l) eq

  Ends-from : (fuel : ℕ) (l : Loop) (σ : S) → InBounds s l → measure l < fuel → Ends fuel l σ
  Ends-from zero l σ b m = absurd (omega arith)
  Ends-from (suc fuel) l σ b m = go (fn σ) refl (Ends-from fuel)
    where
      go :
          (c : Result A × S)
          → fn σ ≡ c
          → ((l' : Loop) (σ' : S) → InBounds s l' → measure l' < fuel → Ends fuel l' σ')
          → Ends (suc fuel) l σ
      go (ok a, σ') eq ih = (
        ok a,
        record l { calls = l.calls + 1 },
        σ',
        round-ok fuel l σ σ' a eq,
        ok-Ended s jitter a l b,
      )
      go (err e, σ') eq ih =
          elim (Verdict-cases (on_exception s jitter e (record l { calls = l.calls + 1 }))) [
            | inl (l', stop) ↦ (
              err e,
              l',
              σ',
              rw (round-err fuel l σ σ' e eq) (rw stop),
              exception-Ended s jitter e l l' b stop,
            )
            | inr (l', go_on) ↦
                let c = exception-Continues s jitter e l l' b go_on in
                let (r, l'', σ'', run, done) = ih l' σ' c.bounds (omega (arith, c.smaller)) in
                (r, l'', σ'', rw (round-err fuel l σ σ' e eq) (rw go_on run), done)
          ]

  -- Whatever the call does and however it fails, `with_retry` ends: 106 rounds are enough. It makes
  -- at most 105 calls, it never waits out 429s for longer in total than the setting, no single wait
  -- is longer than the setting or the backoff's cap, and a server error or a lost connection is
  -- raised only when it is the fifth.
  pub with_retry_ends :
      (fuel : ℕ) (σ : S)
      → 106 ≤ fuel
      → (r : Result A) × (l : Loop) × (σ' : S) × (with_retry s jitter fn fuel start σ
          ≡ some (r, l, σ'))
        × Ended s r l
  with_retry_ends fuel σ enough =
      Ends-from fuel start σ
        (record {
          failures_left = omega arith;
          rate_limits_left = omega arith;
          waited = omega arith;
          counted = refl;
          waits = tt;
        })
        (omega arith)

on_rate_limit-again :
    (s : Settings) (jitter : ℕ → ℕ) (header : ℕ) (l : Loop)
    → header ≤ s.rate_limit_max_wait
    → l.waited_total + header ≤ s.rate_limit_total_wait
    → l.rate_limits + 1 ≤ max_rate_limit_retries
    → on_rate_limit s jitter (some header) (record l { calls = l.calls + 1 })
      ≡ again (record l {
        rate_limits = l.rate_limits + 1;
        waited_total = l.waited_total + header;
        slept = l.slept ++ header ∷ [];
        calls = l.calls + 1;
      })
unfolding on_rate_limit
on_rate_limit-again s jitter header l one total retries = ground arith

-- A server that answers n times 429 and then the value.
abbrev pub busy {ℓ} : {A : Type ℓ} → String → ℕ → A → ℕ → Result A × ℕ
busy text header a zero = (ok a, zero)
busy text header a (suc n) = (err (rate_limit_error text (some header)), n)

module _ {ℓ} {A : Type ℓ} (s : Settings) (jitter : ℕ → ℕ) (text : String) (header : ℕ) (a : A) where
  rides_out :
      (n fuel : ℕ) (l : Loop)
      → n < fuel
      → header ≤ s.rate_limit_max_wait
      → l.waited_total + n * header ≤ s.rate_limit_total_wait
      → l.rate_limits + n ≤ max_rate_limit_retries
      → (l' : Loop) × (with_retry s jitter (busy text header a) fuel l n ≡ some (ok a, l', zero))
        × (l'.failures ≡ l.failures)
        × (l'.waited_total ≡ l.waited_total + n * header)
  unfolding with_retry on_exception
  rides_out zero zero l lt one total retries = elim lt [ ]
  rides_out (suc n) zero l lt one total retries = elim lt [ ]
  rides_out zero (suc fuel) l lt one total retries =
      (record l { calls = l.calls + 1 }, refl, refl, omega arith)
  rides_out (suc n) (suc fuel) l lt one total retries =
      let wait_more : l.waited_total + header + n * header ≤ s.rate_limit_total_wait =
        grind arith in
      let l₁ : Loop = record l {
        rate_limits = l.rate_limits + 1;
        waited_total = l.waited_total + header;
        slept = l.slept ++ header ∷ [];
        calls = l.calls + 1;
      } in
      let (l', run, f, t) = rides_out n fuel l₁ (omega arith) one wait_more (omega arith) in
      (
        l',
        round-err s jitter (busy text header a) fuel l (suc n) n
              (rate_limit_error text (some header)) refl
            ∙ rw (on_rate_limit-again s jitter header l one (omega arith) (omega arith)) run,
        f,
        grind (arith, t),
      )

  -- Being rate limited is not a failure of the call: a server that answers 429 up to a hundred
  -- times, with a Retry-After that fits the bound for one wait and fits the bound for all of them
  -- together, is waited out. The call's value is returned, no attempt is counted, and the time
  -- waited is exactly what the server asked for.
  pub rate_limits_waited_out :
      (n : ℕ)
      → n ≤ 100
      → header ≤ s.rate_limit_max_wait
      → n * header ≤ s.rate_limit_total_wait
      → (l : Loop) × (with_retry s jitter (busy text header a) 106 start n ≡ some (ok a, l, 0))
        × (l.failures ≡ 0)
        × (l.waited_total ≡ n * header)
  rate_limits_waited_out n few one total =
      let (l, run, f, t) = rides_out n 106 start (omega arith) one (omega arith) (omega arith) in
      (l, run, f, omega (arith, t))
