-- ===== src/Application.antt =====
-- crates/edge-application/src: the services between the configuration and the core.
pub mod Entries
pub mod Drain
pub mod PassiveHealth
pub mod Validation
pub mod Audit
mod Tests
