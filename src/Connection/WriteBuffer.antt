-- ===== src/Connection/WriteBuffer.antt =====
-- crates/edge-core/src/write_buffer.rs: bytes that wait for a nonblocking write. Whether the allocator
-- grants a reservation is the argument `reserved`.
pub mod Laws
use edge.Prelude.{
  ℕ, if◌then◌else◌, not, is_empty, Bool, false, ◌+◌, drop, [], leb, checked_add, List, is_none,
  ◌||◌, true, length, min, ◌++◌,
}
use edge.Domain.Exec.{Exec, ◌>>=◌, ◌>>◌, modify}
use edge.Domain.Errors.{new_error, err, ErrorCode, AppError, ok}

pub record WriteBuffer : Type 0 where
  pub bytes : List ℕ
  pub written : ℕ

unfoldable pub new : List ℕ → WriteBuffer
new bytes = record { bytes = bytes; written = 0 }

abbrev pub default_buffer : WriteBuffer
default_buffer = record { bytes = []; written = 0 }

abbrev pub resource_allocation_error : AppError
resource_allocation_error =
    new_error ErrorCode.resource_allocation_failed "managed buffer allocation failed"

unfoldable pub try_reserve_append : Bool → ℕ → Exec WriteBuffer (Unit {0})
try_reserve_append reserved additional_bytes b =
    if is_none (checked_add (length b.bytes) additional_bytes)
    then (err resource_allocation_error, b)
    else if reserved
    then (ok tt, b)
    else (err resource_allocation_error, b)

unfoldable pub try_append : Bool → List ℕ → Exec WriteBuffer (Unit {0})
unfolding try_reserve_append ◌>>=◌
try_append reserved chunk = do
  try_reserve_append reserved (length chunk)
  modify λ b. record b { bytes = b.bytes ++ chunk }

-- `&self.bytes[self.written..]`, which panics beyond the end.
unfoldable pub remaining : WriteBuffer → List ℕ
remaining b = drop b.written b.bytes

abbrev pub remaining_len : WriteBuffer → ℕ
remaining_len b = length (remaining b)

unfoldable pub is_complete : WriteBuffer → Bool
is_complete b = leb (length b.bytes) b.written

unfoldable pub advance : ℕ → WriteBuffer → ℕ × WriteBuffer
unfolding remaining
advance byte_count b =
    let advanced = min byte_count (remaining_len b) in
    (advanced, record b { written = b.written + advanced })

unfoldable pub clear_if_complete : WriteBuffer → Bool × WriteBuffer
unfolding is_complete
clear_if_complete b =
    if not (is_complete b) || is_empty b.bytes
    then (false, b)
    else (true, record { bytes = []; written = 0 })

unfoldable pub advance_and_clear_if_complete : ℕ → WriteBuffer → ℕ × WriteBuffer
unfolding advance clear_if_complete
advance_and_clear_if_complete byte_count b =
    let (advanced, b') = advance byte_count b in (advanced, (clear_if_complete b').1)

unfoldable pub try_replace_if_complete : Bool → List ℕ → Exec WriteBuffer Bool
unfolding is_complete
try_replace_if_complete reserved bytes b =
    if not (is_complete b)
    then (ok false, b)
    else if reserved
    then (ok true, record { bytes = bytes; written = 0 })
    else (err resource_allocation_error, b)
