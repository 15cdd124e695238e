-- ===== src/Tests/Retry.antt =====
-- The retry loop.
use glynac_ingestion_platfor.Common.{ℕ, ◌+◌, ◌*◌, ◌≡◌, refl, some, [], ◌∷◌, arith}
use glynac_ingestion_platfor.Errors.{Result, ok, err, transient_error}
use glynac_ingestion_platfor.Retry.{Loop, start, with_retry, on_exception}
use glynac_ingestion_platfor.Retry.Bounds.{Ended, busy, with_retry_ends, rate_limits_waited_out}
use glynac_ingestion_platfor.Tests.Base.{deployed}

-- A server that is down.
abbrev down : ℕ → Result ℕ × ℕ
down n = (err (transient_error "server error 503"), n + 1)

abbrev no_jitter : ℕ → ℕ
no_jitter n = 0

abbrev answer : ℕ
answer = 42

with_retry_ends_example :
    (r : Result ℕ) × (l : Loop) × (σ : ℕ) × (with_retry deployed no_jitter down 106 start 0
      ≡ some (r, l, σ))
    × Ended deployed r l
with_retry_ends_example = with_retry_ends deployed no_jitter down 106 0 (omega arith)

rate_limits_waited_out_example :
    (l : Loop) × (with_retry deployed no_jitter (busy "429" 7_000_000 answer) 106 start 3
      ≡ some (ok answer, l, 0))
    × (l.failures ≡ 0)
    × (l.waited_total ≡ 3 * 7_000_000)
rate_limits_waited_out_example =
    rate_limits_waited_out deployed no_jitter "429" 7_000_000 answer 3 (omega arith) (omega arith)
      (omega arith)

down_runs :
    with_retry deployed no_jitter down 106 start 0
    ≡ some (
      err (transient_error "server error 503"),
      record {
        failures = 5;
        rate_limits = 0;
        waited_total = 0;
        slept = 1_000_000 ∷ 2_000_000 ∷ 4_000_000 ∷ 8_000_000 ∷ [];
        calls = 5;
      },
      5,
    )
unfolding with_retry on_exception
down_runs = refl
