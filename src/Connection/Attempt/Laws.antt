-- ===== src/Connection/Attempt/Laws.antt =====
-- The attempts that upstream_attempt.rs lets happen.
use edge.Domain.Exec.{◌>>=◌}
use edge.Domain.Exec.{◌>>=◌}
use edge.Prelude.{ℕ, List, ◌≤◌, u64_max, [], is_some, true, ◌⊎◌, some, ◌≡◌, ◌∷◌, arith, refl}
use edge.Domain.Exec.{Exec}
use edge.Connection.Attempt.{
  UpstreamAttemptTerminal, record_request_write, UpstreamAttemptProgress, is_terminal_phase,
  record_response_bytes, succeed, fail, invalid_upstream_attempt_transition,
  request_write_completed, is_not_started, UpstreamAttemptFailure, default_progress, begin,
  response_started,
}
use edge.Domain.Errors.{err}

-- One call on an attempt.
pub data AttemptCall : Type 0 where
  begins writes_completed succeeds : AttemptCall
  writes reads : ℕ → AttemptCall
  fails : UpstreamAttemptFailure → AttemptCall

unfoldable pub perform : AttemptCall → Exec UpstreamAttemptProgress (Unit {0})
perform begins = begin
perform writes_completed = request_write_completed
perform succeeds = succeed
perform (writes n) = record_request_write n
perform (reads n) = record_response_bytes n
perform (fails failure) = fail failure

-- A list of calls, whose results the caller ignores.
unfoldable pub perform_all : List AttemptCall → UpstreamAttemptProgress → UpstreamAttemptProgress
perform_all [] p = p
perform_all (c ∷ cs) p = perform_all cs (perform c p).1

-- What holds between the fields of an attempt.
pub record IsConsistent (p : UpstreamAttemptProgress) : Type 0 where
  pub ended : is_terminal_phase p.phase ≡ is_some p.terminal
  pub nothing_written : is_not_started p.phase ≡ true → p.request_bytes_written ≡ 0
  pub bytes_bound : p.request_bytes_written ≤ u64_max
  pub started_phase : p.phase ≡ response_started → p.response_started ≡ true
  pub started_flag :
      p.response_started ≡ true → (p.phase ≡ response_started) ⊎ (is_terminal_phase p.phase ≡ true)

perform-IsConsistent :
    (c : AttemptCall) (p : UpstreamAttemptProgress) → IsConsistent p → IsConsistent (perform c p).1
unfolding perform begin request_write_completed succeed record_request_write record_response_bytes
    fail ◌>>=◌
perform-IsConsistent c p i = record {
  ended = ground (arith, i.ended);
  nothing_written = λ k. ground (arith, i.nothing_written);
  bytes_bound = ground (arith, i.bytes_bound);
  started_phase = λ k. ground (arith, i.started_phase, i.started_flag);
  started_flag = λ k. ground (arith, i.ended, i.started_phase, i.started_flag);
}

from :
    (cs : List AttemptCall) (p : UpstreamAttemptProgress)
    → IsConsistent p
    → IsConsistent (perform_all cs p)
unfolding perform_all
from [] p i = i
from (c ∷ cs) p i = from cs (perform c p).1 (perform-IsConsistent c p i)

-- After any sequence of calls on a fresh attempt, whatever each of them answered: the attempt is in its
-- terminal phase exactly when it has an outcome; no request byte is counted before it has begun; the
-- count is a 64-bit number; the phase `response_started` has the flag of that name, and with the flag the
-- attempt is in that phase or has ended.
pub perform_all-IsConsistent :
    (cs : List AttemptCall) → IsConsistent (perform_all cs default_progress)
perform_all-IsConsistent cs = from cs default_progress (record {
  ended = refl;
  nothing_written = λ k. refl;
  bytes_bound = ground arith;
  started_phase = λ k. ground arith;
  started_flag = λ k. ground arith;
})

-- A consistent attempt that has an outcome refuses every call with the same error and stays as it
-- is.
pub perform_final :
    (c : AttemptCall) (p : UpstreamAttemptProgress) (t : UpstreamAttemptTerminal)
    → IsConsistent p
    → p.terminal ≡ some t
    → perform c p ≡ (err invalid_upstream_attempt_transition, p)
unfolding perform begin request_write_completed succeed record_request_write record_response_bytes
    fail ◌>>=◌
perform_final c p t i e = ground (arith, i.ended)
