-- ===== src/Cleansing.antt =====
-- src/cleansing: the normal forms, which the opt-out list shares, and the steps of the pipeline.
pub mod Normalize
pub mod Identity
pub mod PipelineIo
pub mod Steps
pub mod Tests
