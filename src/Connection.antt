-- ===== src/Connection.antt =====
-- One proxied connection of crates/edge-core: its life cycle, its upstream attempt, its buffers, and
-- the table that holds connections.
pub mod State
pub mod Attempt
pub mod WriteBuffer
pub mod Io
pub mod Table
pub mod Tests
