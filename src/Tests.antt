-- ===== src/Tests.antt =====
-- Runs of the definitions on concrete inputs, and each theorem at an input that meets its conditions.
pub mod Base
pub mod Jobs
pub mod Retry
pub mod Security
pub mod Hubspot
pub mod Sink
pub mod Slack
pub mod Backfill
pub mod SlackApi
pub mod Clients
pub mod Salesforce
