-- ===== src/Recovery/Takeover.antt =====
-- Taking over an orphan is exclusive.
use glynac_ingestion_platfor.Common.{
  ℕ, ◌≤◌, ◌≡◌, refl, true, false, some, arith, count, count_chosen_once,
}
use glynac_ingestion_platfor.Errors.{ok}
use glynac_ingestion_platfor.Models.{Job}
use glynac_ingestion_platfor.World.{World, has_id}
use glynac_ingestion_platfor.Recovery.{orphan_filter, claims, take_over}

stamped : ℕ → World → Job → Job
stamped a w j = record j { owner = some a; heartbeat_at = some w.now }

claims-stamped :
    (a b k cutoff cutoff' : ℕ) (w : World) (j : Job)
    → cutoff' ≤ w.now
    → claims b k cutoff' (record j { owner = some a; heartbeat_at = some w.now }) ≡ false
unfolding orphan_filter
claims-stamped a b k cutoff cutoff' w j late = ground arith

claims-has_id : (b k cutoff : ℕ) (j : Job) → claims b k cutoff j ≡ true → has_id k j ≡ true
claims-has_id b k cutoff j h = ground arith

-- Two processes that see the same dead job at the same moment: once one of them has taken it over,
-- the other's attempt returns False, whatever cutoff up to the present it uses. (Ids are a primary
-- key: at most one row has the id.)
pub take_over_exclusive :
    (a b k cutoff cutoff' : ℕ) (w : World)
    → count (has_id k) w.jobs ≤ 1
    → cutoff' ≤ w.now
    → (take_over a k cutoff w).0 ≡ ok true
    → (take_over b k cutoff' (take_over a k cutoff w).1).0 ≡ ok false
unfolding take_over
take_over_exclusive a b k cutoff cutoff' w unique late won =
    let one : count (claims a k cutoff) w.jobs ≡ 1 = ground arith in
    ground (
      arith,
      count_chosen_once (has_id k) (claims a k cutoff) (claims b k cutoff')
          (λ j. record j { owner = some a; heartbeat_at = some w.now }) (claims-has_id a k cutoff)
          (claims-has_id b k cutoff') (λ j. refl)
          (λ j _. claims-stamped a b k cutoff cutoff' w j late) w.jobs unique one,
    )
