-- ===== src/Tests/Jobs.antt =====
-- Jobs, their recovery and the high-water marks.
use glynac_ingestion_platfor.Common.{
  String, ◌≡◌, refl, inl, true, false, none, some, List, [], ◌∷◌, arith, length,
}
use glynac_ingestion_platfor.Errors.{ok, is_ok}
use glynac_ingestion_platfor.Models.{Job, failed, running, paused, completed}
use glynac_ingestion_platfor.World.{World, find_job}
use glynac_ingestion_platfor.Jobs.{transition}
use glynac_ingestion_platfor.Jobs.Transitions.{Edge, transition_moves}
use glynac_ingestion_platfor.Routers.Jobs.History.{
  Op, Life, run, run_follows_machine, run_keeps_terminal,
}
use glynac_ingestion_platfor.Recovery.{
  orphan_filter, take_over, recover_interrupted_jobs, validate_heartbeat_settings,
}
use glynac_ingestion_platfor.Recovery.Takeover.{take_over_exclusive}
use glynac_ingestion_platfor.Recovery.Healthy.{healthy_job_left_alone}
use glynac_ingestion_platfor.SyncState.{
  Key, get_high_water, advance_high_water, parse_ts, iso, str_lt,
}
use glynac_ingestion_platfor.SyncState.Laws.{advance_high_water_comm, advance_high_water_forward}
use glynac_ingestion_platfor.Tests.Base.{job_with, world_with, deployed}

abbrev one : Job
one = job_with 1 running

abbrev two : Job
two = job_with 2 completed

abbrev world : World
world = world_with (one ∷ two ∷ [])

transition_moves_example :
    let (r, w') = transition one paused none world in
    (is_ok r ≡ true)
    × ((j : Job) × (find_job 1 w' ≡ some j) × (j.status ≡ paused))
    × (find_job 2 w' ≡ find_job 2 world)
    × (length w'.audit ≡ 1)
transition_moves_example = transition_moves one paused none world 2 refl Edge.suspend (omega arith)

abbrev script : List Op
script =
    Op.pause 1
    ∷ Op.resume 2
    ∷ Op.heartbeat 7
    ∷ Op.resume 1
    ∷ Op.take 7 1 0
    ∷ Op.move 1 failed (some "down")
    ∷ Op.cancel 1
    ∷ Op.remove 3
    ∷ Op.resume 1
    ∷ []

run_follows_machine_example :
    (j : Job) × (find_job 1 (run script world) ≡ some j) × Life running j.status
run_follows_machine_example = run_follows_machine script 1 world one refl refl

run_keeps_terminal_example :
    (j : Job) × (find_job 2 (run script world) ≡ some j) × (j.status ≡ completed)
run_keeps_terminal_example = run_keeps_terminal script 2 world two refl refl (inl refl)

-- An orphan: its owner has been silent for 5 seconds more than the timeout.
abbrev late : World
late = record world { now = 130_000_000 }

take_over_wins : (take_over 8 1 100_000_000 late).0 ≡ ok true
unfolding take_over orphan_filter
take_over_wins = refl

take_over_exclusive_example :
    (take_over 9 1 100_000_000 (take_over 8 1 100_000_000 late).1).0 ≡ ok false
take_over_exclusive_example =
    take_over_exclusive 8 9 1 100_000_000 100_000_000 late (omega arith) (omega arith)
      take_over_wins

deployed_valid : validate_heartbeat_settings deployed ≡ ok tt
unfolding validate_heartbeat_settings
deployed_valid = refl

healthy_job_left_alone_example : find_job 1 (recover_interrupted_jobs deployed 8 world).1 ≡ some one
healthy_job_left_alone_example =
    healthy_job_left_alone deployed 8 1 95_000_000 world one deployed_valid (omega arith) refl refl
      (omega arith)

abbrev deals : Key
deals = record { service = "hubspot"; org_id = "org1"; object_name = "Deals" }

parse_march : parse_ts "2024-03-01T00:00:00Z" ≡ ok 1_709_251_200_000_000
unfolding parse_ts
parse_march = refl

parse_millis : parse_ts "1709251200001" ≡ ok 1_709_251_200_001_000
unfolding parse_ts
parse_millis = refl

advance_high_water_comm_example :
    get_high_water deals
      (advance_high_water deals
        (some "1709251200001")
        (advance_high_water deals (some "2024-03-01T00:00:00Z") world).1).1
    ≡ get_high_water deals
        (advance_high_water deals
          (some "2024-03-01T00:00:00Z")
          (advance_high_water deals (some "1709251200001") world).1).1
advance_high_water_comm_example =
    advance_high_water_comm deals "2024-03-01T00:00:00Z" "1709251200001" 1_709_251_200_000_000
      1_709_251_200_001_000 world refl refl parse_march parse_millis

abbrev marked : World
marked = record world {
  sync_states =
      record {
        service = "hubspot";
        org_id = "org1";
        object_name = "Deals";
        high_water_mark = "2024-02-01T00:00:00+00:00";
        updated_at = 0;
      }
      ∷ [];
}

marked_mark : get_high_water deals marked ≡ some "2024-02-01T00:00:00+00:00"
unfolding get_high_water
marked_mark = refl

advance_high_water_forward_example :
    (new : String) × (get_high_water deals
        (advance_high_water deals (some "2024-03-01T00:00:00Z") marked).1
      ≡ some new)
    × (str_lt new "2024-02-01T00:00:00+00:00" ≡ false)
    × (str_lt new (iso 1_709_251_200_000_000) ≡ false)
advance_high_water_forward_example =
    advance_high_water_forward deals "2024-03-01T00:00:00Z" 1_709_251_200_000_000 marked
      "2024-02-01T00:00:00+00:00" refl parse_march marked_mark
