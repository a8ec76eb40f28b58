-- ===== src/Suppression.antt =====
-- src/suppression: the opt-out list, an event log in S3 with a cache in front.
pub mod Store
pub mod Api
pub mod Default
pub mod Tests
