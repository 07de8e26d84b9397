-- ===== src/Http.antt =====
-- HTTP/1.1: requests (crates/edge-core/src/http_request.rs), the framing of responses
-- (upstream_response_framing.rs) and what is forwarded (http_forwarding_policy.rs).
pub mod Request
pub mod Response
pub mod Tests
pub mod Forwarding
pub mod Wire
