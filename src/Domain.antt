-- ===== src/Domain.antt =====
-- Values of crates/edge-domain that the other components share.
pub mod Errors
pub mod Endpoint
pub mod Tls
pub mod Exec
pub mod Resources
pub mod Routing
pub mod Availability
pub mod Config
pub mod Upstreams
pub mod Health
pub mod Retry
pub mod Lock
pub mod Upgrade
pub mod Audit
mod Tests
