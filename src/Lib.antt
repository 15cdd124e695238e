-- ===== src/Lib.antt =====
-- A data ingestion platform: jobs copy records from Salesforce, HubSpot and Slack into object storage
-- and from there into ClickHouse. Jobs can be paused, resumed and cancelled, they survive a crash of
-- their process, and rate limits of the sources are waited out.
--
-- The parts, with the files of the repository that they model:
--   Errors, Json, Models     app/errors.py, the JSON values, the tables of app/models.py
--   World                    the shared state (database, storage, ClickHouse, background work) and
--                            the calls that read and write it, as functions from a state to a
--                            result and a state: what was written before an exception stays written
--   Settings, Time           app/config.py; Python's datetime, in microseconds since the epoch
--   Jobs, Audit, Control     app/jobs.py (transition, update_checkpoint, ...), app/audit.py and
--                            app/control.py: the state machine of a job, its log, its requests
--   Routers                  app/routers/jobs.py, hubspot.py, salesforce.py, slack.py, auth.py and
--                            slack_events.py: the endpoints of the jobs, the login, and the one that Slack sends its events to
--   Recovery                 app/recovery.py: orphans of dead processes are taken over
--   Retry                    app/retry.py: the loop of with_retry
--   SyncState                app/sync_state.py: the high-water marks of incremental loads
--   Security                 app/security.py: signed requests, nonces and sessions
--   Storage, Sink            app/storage.py and app/clickhouse_sink.py (NullClickHouseSink and the SQL)
--   Hubspot                  app/hubspot/schemas.py; Hubspot.Pipeline is app/hubspot/pipeline.py,
--                            Hubspot.Ingest is app/hubspot/ingest.py
--                            Hubspot.Client is app/hubspot/client.py
--   Salesforce               app/salesforce/schemas.py and app/salesforce/ingest.py; Salesforce.Client is
--                            app/salesforce/real_client.py, Salesforce.Mapper app/salesforce/mapper.py
--   Slack                    app/slack/engine.py and app/slack/tables.py; Slack.Realtime is the
--                            real-time stream of app/slack/engine.py, Slack.Backfill the historical
--                            backfill; Slack.Client is app/slack/client.py, Slack.Events app/slack/events.py
--   Mocks                    mock_services/hubspot.py, mock_services/salesforce.py and
--                            mock_services/slack.py, the servers that the clients are run against, the
--                            last of which also sends signed events (Mocks.Slack.Emit)
--   Common                   lists, texts, dicts and tests that all parts share
--   Tests                    runs on concrete inputs, and every theorem with conditions at one
--
-- How they interact: a router or the recovery changes a job's row and hands a Task to the
-- background; the runs of Hubspot, Salesforce and Slack read the requests that Control stores, write
-- checkpoints by Jobs, land files by Storage and load them by Sink. A definition has the name of the
-- function of the source, without a leading underscore; a part of a function that became a
-- definition of its own says so above it.
--
-- What stands for code that is not in the repository: the digests of Security and Slack.Events (sha256,
-- hmac, upper), the HTTP library and the servers behind it, the csv module, the reading of floats and
-- of HTTP dates, and the Faker library are parameters. The runs of Hubspot, Salesforce and Slack take
-- their client, behind with_retry, as a parameter too; the modules named Client model the clients. The field `faults` of World lists what the calls of the storage and of ClickHouse will
-- answer; a call takes one entry, and raises when it is an exception. NullClickHouseSink itself does
-- not raise: the entry stands for the failure of the sink in use.
--
-- Bounds and fuel: with_retry runs on fuel, and 106 rounds are enough; run_hubspot_sync needs one
-- turn for each page; drain_backlog needs one turn more than the organisation has buffered events;
-- catch_up runs on fuel for the pages of each channel, which the server bounds;
-- Slack.Client.paged and Salesforce.Client.get_job_results run on fuel for the pages of the server;
-- the polling of Salesforce runs on fuel because a server may answer InProgress for ever. Numbers
-- have no bound, as in Python. A uuid is a number. Instants before 1970 are cut off at 0.
-- Timestamps of Slack are numbers of millionths, where Python has floats and Decimals.
--
-- Interleavings are sequences of whole operations: an operation is one or more database
-- transactions, and threads that interleave inside one are not modelled. The workers of the backfill
-- take turns by a schedule, in which a page is one turn and requests may arrive between two. In Hubspot
-- and Salesforce a run is one operation; requests that arrive during it are not interleaved with it.
--
-- Not modelled: the dlt branch of app/hubspot/pipeline.py (a third-party library), RealClickHouseSink, the
-- Slack timeline of NullClickHouseSink and the inspection of its tables, the reading of SOQL in
-- app/salesforce/queries.py, the routers for analytics, previews and the system page,
-- app/database.py and app/main.py (glue), the test doubles of the clients, the scripts and the web console.
pub mod Common
pub mod Errors
pub mod Json
pub mod Models
pub mod World
pub mod Settings
pub mod Time
pub mod Audit
pub mod Control
pub mod Jobs
pub mod Recovery
pub mod Retry
pub mod SyncState
pub mod Security
pub mod Storage
pub mod Sink
pub mod Hubspot
pub mod Salesforce
pub mod Slack
pub mod Routers
pub mod Mocks
pub mod Tests
