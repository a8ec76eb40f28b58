-- ===== src/Guardrails.antt =====
-- src/guardrails: the deterministic rules that run in front of the classifier.
pub mod Canonical
pub mod EditDistance
pub mod Rules
pub mod Tests
