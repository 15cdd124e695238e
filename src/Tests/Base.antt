-- ===== src/Tests/Base.antt =====
-- The data of the tests: a few jobs, an empty store and the settings of a deployment.
use glynac_ingestion_platfor.Common.{ℕ, false, none, some, List, []}
use glynac_ingestion_platfor.Models.{Job, JobStatus}
use glynac_ingestion_platfor.World.{World}
use glynac_ingestion_platfor.Settings.{Settings, defaults}

abbrev pub job_with : ℕ → JobStatus → Job
job_with id status = record {
  id = id;
  service = "hubspot";
  object_name = some "Deals";
  org_id = some "org1";
  status = status;
  cursor = none;
  row_count = 0;
  retry_count = 0;
  error = none;
  control = none;
  owner = some 7;
  heartbeat_at = some 95_000_000;
  created_at = 1_000_000;
  updated_at = 1_000_000;
}

abbrev pub world_with : List Job → World
world_with jobs = record {
  now = 100_000_000;
  jobs = jobs;
  audit = [];
  dead_letters = [];
  checkpoints = [];
  sync_states = [];
  backlog = [];
  marks = [];
  seen = [];
  nonces = [];
  files = [];
  tables = [];
  tables_created = [];
  views_created = [];
  table_schemas = [];
  slack_tables_ready = false;
  pause_events = [];
  cancel_events = [];
  tasks = [];
  faults = [];
}

abbrev pub deployed : Settings
deployed = record defaults { hmac_secret = "s3cret" }
