-- ===== src/Connection/Attempt.antt =====
-- crates/edge-core/src/upstream_attempt.rs: one attempt to send a request to an upstream.
pub mod Laws
use edge.Prelude.{
  ℕ, saturating_add, if◌then◌else◌, ltb, not, some, Bool, Option, false, none, is_some, true,
  String,
}
use edge.Domain.Exec.{Exec, ◌>>=◌, ◌>>◌, modify}
use edge.Domain.Errors.{new_error, err, ErrorCode, AppError, ok}

pub data UpstreamAttemptPhase : Type 0 where
  not_started writing awaiting_response response_started terminal : UpstreamAttemptPhase

pub data UpstreamAttemptFailure : Type 0 where
  connect connect_timeout tls_handshake tls_handshake_timeout write : UpstreamAttemptFailure
  read read_timeout reset_before_response reset_after_response : UpstreamAttemptFailure

pub data UpstreamResponseFailureDisposition : Type 0 where
  queue_synthetic_response fail_close : UpstreamResponseFailureDisposition

pub data UpstreamAttemptTerminal : Type 0 where
  succeeded : UpstreamAttemptTerminal
  failed : UpstreamAttemptFailure → UpstreamAttemptTerminal

pub record UpstreamAttemptProgress : Type 0 where
  pub phase : UpstreamAttemptPhase
  pub request_bytes_written : ℕ
  pub response_started : Bool
  pub terminal : Option UpstreamAttemptTerminal

abbrev pub default_progress : UpstreamAttemptProgress
default_progress = record {
  phase = not_started;
  request_bytes_written = 0;
  response_started = false;
  terminal = none;
}

abbrev pub invalid_upstream_attempt_transition : AppError
invalid_upstream_attempt_transition =
    new_error ErrorCode.runtime_command_rejected "invalid upstream attempt transition"

abbrev pub is_not_started : UpstreamAttemptPhase → Bool
is_not_started not_started = true
is_not_started _ = false

abbrev is_writing : UpstreamAttemptPhase → Bool
is_writing writing = true
is_writing _ = false

abbrev is_reading : UpstreamAttemptPhase → Bool
is_reading awaiting_response = true
is_reading response_started = true
is_reading _ = false

abbrev pub is_terminal_phase : UpstreamAttemptPhase → Bool
is_terminal_phase UpstreamAttemptPhase.terminal = true
is_terminal_phase _ = false

abbrev pub require : Bool → Exec UpstreamAttemptProgress (Unit {0})
require b p = if b then (ok tt, p) else (err invalid_upstream_attempt_transition, p)

abbrev pub complete : UpstreamAttemptTerminal → Exec UpstreamAttemptProgress (Unit {0})
complete t p =
    if is_some p.terminal
    then (err invalid_upstream_attempt_transition, p)
    else (ok tt, record p { terminal = some t; phase = UpstreamAttemptPhase.terminal })

unfoldable pub begin : Exec UpstreamAttemptProgress (Unit {0})
unfolding ◌>>=◌
begin p = (do require (is_not_started p.phase); modify λ q. record q { phase = writing }) p

unfoldable pub record_request_write : ℕ → Exec UpstreamAttemptProgress (Unit {0})
unfolding ◌>>=◌
record_request_write byte_count p =
    (do
      require (is_writing p.phase)
      modify λ q. record q {
        request_bytes_written = saturating_add q.request_bytes_written byte_count;
      })
      p

unfoldable pub request_write_completed : Exec UpstreamAttemptProgress (Unit {0})
unfolding ◌>>=◌
request_write_completed p =
    (do require (is_writing p.phase); modify λ q. record q { phase = awaiting_response }) p

unfoldable pub record_response_bytes : ℕ → Exec UpstreamAttemptProgress (Unit {0})
unfolding ◌>>=◌
record_response_bytes byte_count p =
    (do
      require (is_reading p.phase)
      modify λ q.
          if ltb 0 byte_count
          then record q { response_started = true; phase = response_started }
          else q)
      p

unfoldable pub succeed : Exec UpstreamAttemptProgress (Unit {0})
unfolding ◌>>=◌
succeed p = (do require (is_reading p.phase); complete succeeded) p

unfoldable pub fail : UpstreamAttemptFailure → Exec UpstreamAttemptProgress (Unit {0})
unfolding ◌>>=◌
fail failure p = (do require (not (is_terminal_phase p.phase)); complete (failed failure)) p

unfoldable pub upstream_failure_response_spec : UpstreamAttemptFailure → ℕ × String
upstream_failure_response_spec connect_timeout = (504, "Gateway Timeout")
upstream_failure_response_spec tls_handshake_timeout = (504, "Gateway Timeout")
upstream_failure_response_spec read_timeout = (504, "Gateway Timeout")
upstream_failure_response_spec _ = (502, "Bad Gateway")

unfoldable pub upstream_response_failure_disposition : Bool → UpstreamResponseFailureDisposition
upstream_response_failure_disposition started =
    if started then fail_close else queue_synthetic_response
