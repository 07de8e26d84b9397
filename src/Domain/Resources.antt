-- ===== src/Domain/Resources.antt =====
-- Resource limits and charge states (crates/edge-domain/src/lib.rs).
use edge.Prelude.{
  ℕ, ◌+◌, ◌*◌, String, Bool, true, false, not, ◌&&◌, ltb, leb, checked_add, checked_mul,
}
use edge.Domain.Errors.{ErrorCode, AppError, Result, ok, new_error, guard, ok_or, ◌>>=◌, ◌>>◌}

abbrev pub default_max_connections : ℕ
default_max_connections = 1024

abbrev pub min_max_connections : ℕ
min_max_connections = 1

abbrev pub hard_max_connections : ℕ
hard_max_connections = 4096

abbrev pub default_max_inflight_payload_bytes : ℕ
default_max_inflight_payload_bytes = 134217728

abbrev pub min_max_inflight_payload_bytes : ℕ
min_max_inflight_payload_bytes = 16777216

abbrev pub hard_max_inflight_payload_bytes : ℕ
hard_max_inflight_payload_bytes = 536870912

abbrev pub fixed_request_header_reserve_bytes : ℕ
fixed_request_header_reserve_bytes = 16384

abbrev pub fixed_response_buffer_reserve_bytes : ℕ
fixed_response_buffer_reserve_bytes = 65536

abbrev pub default_max_request_body_bytes : ℕ
default_max_request_body_bytes = 1048576

pub record RuntimeResourcePolicy : Type 0 where
  pub max_connections : ℕ
  pub max_inflight_payload_bytes : ℕ

abbrev pub invalid_resource_policy : String → AppError
invalid_resource_policy message = new_error ErrorCode.config_resource_limit_invalid message

abbrev contains : ℕ → ℕ → ℕ → Bool
contains lo hi n = leb lo n && leb n hi

unfoldable pub try_new : ℕ → ℕ → Result RuntimeResourcePolicy
try_new max_connections max_inflight_payload_bytes = do
  guard (contains min_max_connections hard_max_connections max_connections)
      (invalid_resource_policy "max connections is outside the supported range")
  guard
      (contains min_max_inflight_payload_bytes hard_max_inflight_payload_bytes
        max_inflight_payload_bytes)
      (invalid_resource_policy "in-flight payload limit is outside the supported range")
  per_connection_reserve ←
      ok_or (checked_add fixed_request_header_reserve_bytes fixed_response_buffer_reserve_bytes)
        (invalid_resource_policy "fixed payload reserve overflowed")
  required ←
      ok_or (checked_mul max_connections per_connection_reserve)
        (invalid_resource_policy "fixed payload reserve overflowed")
  guard (not (ltb max_inflight_payload_bytes required))
      (invalid_resource_policy "in-flight payload limit is below the fixed connection reserve")
  ok (record {
    max_connections = max_connections;
    max_inflight_payload_bytes = max_inflight_payload_bytes;
  })

unfoldable pub required_fixed_payload_reserve_bytes : RuntimeResourcePolicy → ℕ
required_fixed_payload_reserve_bytes p = p.max_connections * (16384 + 65536)

abbrev pub default_policy : RuntimeResourcePolicy
default_policy = record {
  max_connections = default_max_connections;
  max_inflight_payload_bytes = default_max_inflight_payload_bytes;
}

pub data ResourceChargeState : Type 0 where
  requested granted in_use transferred released rejected_capacity : ResourceChargeState
  allocation_failed : ResourceChargeState

abbrev pub is_terminal : ResourceChargeState → Bool
is_terminal ResourceChargeState.released = true
is_terminal ResourceChargeState.rejected_capacity = true
is_terminal ResourceChargeState.allocation_failed = true
is_terminal _ = false
