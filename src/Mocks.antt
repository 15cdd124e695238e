-- ===== src/Mocks.antt =====
-- mock_services: the servers that the tests and the demos talk to, over the same clients.
pub mod Slices
pub mod Salesforce
pub mod Hubspot
pub mod SlackData
pub mod Slack
