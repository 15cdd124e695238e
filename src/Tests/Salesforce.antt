-- ===== src/Tests/Salesforce.antt =====
-- A paused Salesforce run.
use glynac_ingestion_platfor.Common.{refl, some, [], ◌∷◌}
use glynac_ingestion_platfor.Models.{Job, running, pause}
use glynac_ingestion_platfor.Salesforce.{stop_requested}
use glynac_ingestion_platfor.Salesforce.Stop.{Obeyed, stop_requested_obeys}
use glynac_ingestion_platfor.Tests.Base.{job_with, world_with}

abbrev asked : Job
asked = record (job_with 1 running) { control = some pause }

stop_requested_obeys_example :
    Obeyed 1
      (world_with (asked ∷ []))
      (some pause)
      (stop_requested 1 (world_with (asked ∷ []))).0
      (stop_requested 1 (world_with (asked ∷ []))).1
stop_requested_obeys_example = stop_requested_obeys 1 (world_with (asked ∷ [])) asked refl refl
