-- ===== src/Routers.antt =====
-- app/routers: the HTTP endpoints, one module for each router that is modelled.
pub mod Jobs
pub mod Hubspot
pub mod Slack
pub mod SlackEvents
pub mod Salesforce
pub mod Auth
