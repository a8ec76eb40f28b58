-- ===== src/Cleansing/Steps.antt =====
-- src/cleansing/steps: the step handlers, each of which reads a file of rows and writes one.
pub mod Normalize
pub mod Suppress
pub mod Batch
pub mod SchemaValidate
pub mod Validate
pub mod Dedupe
pub mod ExternalId
pub mod WriteStaging
