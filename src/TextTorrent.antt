-- ===== src/TextTorrent.antt =====
-- The TextTorrent client, the nightly reconciliation of the opt-outs and the daily canary.
pub mod Wire
pub mod Client
pub mod Canary
pub mod Reconcile
pub mod Tests
