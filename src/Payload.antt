-- ===== src/Payload.antt =====
-- Payload accounting (crates/edge-core/src/payload_budget_ledger.rs) and the charge slots that a
-- connection keeps on it.
pub mod Ledger
pub mod Slot
pub mod RequestCharge
pub mod RetryPair
pub mod ClientResponse
pub mod Tests
