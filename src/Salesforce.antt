-- ===== src/Salesforce.antt =====
-- src/salesforce: the client of the Salesforce REST interface and the jobs that use it.
pub mod Http
pub mod Bulk
pub mod Upsert
pub mod Cloud
pub mod Auth
pub mod Sync
pub mod InboundGap
pub mod Reconcile
pub mod Tests
