-- ===== src/Connection/WriteBuffer/Laws.antt =====
-- A write buffer seen as the queue of the bytes that are still to be written.
use edge.Prelude.{
  ℕ, ◌≤◌, List, length, ◌≡◌, take, Bool, min, ◌++◌, if◌then◌else◌, Bool-cases, length-append, leb,
  inl, drop-drop, drop-append, drop_all, arith, refl, drop, take-append-drop, inr, length-drop,
}
use edge.Connection.WriteBuffer.{
  WriteBuffer, advance, try_append, clear_if_complete, remaining_len, remaining,
}
use edge.Domain.Errors.{is_ok}

-- The slice of `remaining` does not panic.
pub record IsValid (b : WriteBuffer) : Type 0 where
  pub in_range : b.written ≤ length b.bytes

-- On a buffer whose written position is within its bytes, `advance` keeps that and takes the
-- acknowledged bytes off the front of the queue, at most all of them; the bytes that it reports
-- and those that are left make up the queue from before.
pub advance-remaining :
    (n : ℕ) (b : WriteBuffer)
    → IsValid b
    → let (k, b') = advance n b in
      IsValid b'
      × (k ≡ min n (remaining_len b))
      × (take k (remaining b) ++ remaining b' ≡ remaining b)
unfolding advance remaining
advance-remaining n b v =
    let k = min n (length (drop b.written b.bytes)) in
    (
      record { in_range = omega (arith, length-drop b.written b.bytes, v.in_range) },
      refl,
      rw (drop-drop b.written k b.bytes) (take-append-drop k (drop b.written b.bytes)),
    )

pub clear-remaining :
    (b : WriteBuffer)
    → IsValid b
    → IsValid (clear_if_complete b).1 × (remaining (clear_if_complete b).1 ≡ remaining b)
unfolding clear_if_complete remaining
clear-remaining b v = elim (Bool-cases (leb (length b.bytes) b.written)) [
  | inl done ↦ ground (arith, done, drop_all b.written b.bytes)
  | inr more ↦ ground (arith, more)
]

-- On a buffer whose written position is within its bytes, `try_append` keeps that; when it
-- succeeds it puts the chunk at the end of the queue, and when it is refused the queue is as it
-- was.
pub try_append-remaining :
    (reserved : Bool) (chunk : List ℕ) (b : WriteBuffer)
    → IsValid b
    → let (r, b') = try_append reserved chunk b in
      IsValid b' × (remaining b' ≡ (if is_ok r then remaining b ++ chunk else remaining b))
unfolding try_append remaining
try_append-remaining reserved chunk b v =
    ground (
      arith,
      v.in_range,
      length-append b.bytes chunk,
      drop-append b.written b.bytes chunk v.in_range,
    )
