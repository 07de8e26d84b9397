-- ===== src/Domain/Lock.antt =====
-- crates/edge-domain/src/lib.rs: the lock of the data directory, and the read timeout.
use edge.Domain.Errors.{
  ◌>>◌, data_directory_lock_state_invalid, Result, err, guard, ok, new_error, AppError,
}
use edge.Prelude.{ℕ, ◌≡◌, none, Option, leb, ◌&&◌, ◌<◌, ◌⊎◌, some, refl, arith, inr}
use edge.Domain.Resources.{invalid_resource_policy}

pub data DataDirectoryLockState : Type 0 where
  unlocked acquiring_exclusive held_exclusive releasing released lock_failed :
      DataDirectoryLockState

pub data DataDirectoryLockEvent : Type 0 where
  acquire_requested acquire_succeeded acquire_failed : DataDirectoryLockEvent
  release_requested release_succeeded release_failed : DataDirectoryLockEvent

abbrev pub lock_invalid : AppError
lock_invalid =
    new_error data_directory_lock_state_invalid
      "data directory lock event is invalid for the current state"

unfoldable pub lock_next :
    DataDirectoryLockState → DataDirectoryLockEvent → Option DataDirectoryLockState
lock_next unlocked acquire_requested = some acquiring_exclusive
lock_next acquiring_exclusive acquire_succeeded = some held_exclusive
lock_next acquiring_exclusive acquire_failed = some lock_failed
lock_next held_exclusive release_requested = some releasing
lock_next releasing release_succeeded = some released
lock_next releasing release_failed = some lock_failed
lock_next _ _ = none

abbrev move_or_fail :
    DataDirectoryLockState
    → Option DataDirectoryLockState
    → Result (Unit {0}) × DataDirectoryLockState
move_or_fail s none = (err lock_invalid, s)
move_or_fail s (some next) = (ok tt, next)

unfoldable pub transition :
    DataDirectoryLockState → DataDirectoryLockEvent → Result (Unit {0}) × DataDirectoryLockState
transition s e = move_or_fail s (lock_next s e)

abbrev pub min_upstream_read_timeout_ms : ℕ
min_upstream_read_timeout_ms = 10

unfoldable pub new_timeout_policy : ℕ → Result ℕ
new_timeout_policy upstream_read_timeout_ms =
    guard
      (leb min_upstream_read_timeout_ms upstream_read_timeout_ms
        && leb upstream_read_timeout_ms 120000)
      (invalid_resource_policy "upstream read timeout is outside the supported range")
    >> ok upstream_read_timeout_ms

-- How many events the lock can still accept.
abbrev pub events_left : DataDirectoryLockState → ℕ
events_left unlocked = 4
events_left acquiring_exclusive = 3
events_left held_exclusive = 2
events_left releasing = 1
events_left released = 0
events_left lock_failed = 0

-- A refused event keeps the state of the lock, and an accepted one leaves fewer that can follow.
pub transition-events_left :
    (s : DataDirectoryLockState) (e : DataDirectoryLockEvent)
    → (transition s e ≡ (err lock_invalid, s))
      ⊎ (((transition s e).0 ≡ ok tt) × (events_left (transition s e).1 < events_left s))
unfolding transition lock_next
transition-events_left unlocked acquire_requested = inr (refl, omega arith)
transition-events_left acquiring_exclusive acquire_succeeded = inr (refl, omega arith)
transition-events_left acquiring_exclusive acquire_failed = inr (refl, omega arith)
transition-events_left held_exclusive release_requested = inr (refl, omega arith)
transition-events_left releasing release_succeeded = inr (refl, omega arith)
transition-events_left releasing release_failed = inr (refl, omega arith)
transition-events_left s e = ground arith
