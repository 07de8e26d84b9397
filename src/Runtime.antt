-- ===== src/Runtime.antt =====
-- crates/edge-core/src: the bookkeeping that the event loop shares between connections.
pub mod Selector
pub mod Timers
pub mod Tokens
pub mod Commands
pub mod Admission
pub mod Tests
