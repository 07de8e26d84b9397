-- ===== src/Domain/Retry.antt =====
-- crates/edge-domain/src/lib.rs: whether a failed exchange is tried again.
use edge.Domain.Errors.{◌>>◌}
use edge.Prelude.{ℕ, not, if◌then◌else◌, Bool, false, ◌&&◌, leb, ◌==◌, true, ◌↔◌, ◌≡◌, ◌<◌, arith}
use edge.Domain.Errors.{Result, config_retry_policy_invalid, ok, guard, new_error}
use edge.Text.{within}

pub record RetryPolicy : Type 0 where
  pub enabled : Bool
  pub max_retries : ℕ
  pub max_replay_bytes : ℕ

unfoldable pub new_retry_policy : Bool → ℕ → ℕ → Result RetryPolicy
new_retry_policy enabled max_retries max_replay_bytes =
    guard
      (leb max_retries 1
        && not (enabled && not (max_retries == 1))
        && within 1024 65536 max_replay_bytes)
      (new_error config_retry_policy_invalid "retry policy is outside supported bounds")
    >> ok (record {
      enabled = enabled;
      max_retries = max_retries;
      max_replay_bytes = max_replay_bytes;
    })

pub data ReplayMethod : Type 0 where
  get head other : ReplayMethod

pub data RetryFailureKind : Type 0 where
  connect connect_timeout write read read_timeout reset_before_response : RetryFailureKind

pub record RetryInput : Type 0 where
  pub policy : RetryPolicy
  pub method : ReplayMethod
  pub body_bytes : ℕ
  pub request_bytes_written : ℕ
  pub response_started : Bool
  pub attempts_used : ℕ
  pub replay_reserved : Bool
  pub failure : RetryFailureKind

pub data RetryDenialReason : Type 0 where
  retry_disabled method_not_replayable body_present request_write_started : RetryDenialReason
  response_has_started retry_budget_exhausted replay_budget_exhausted : RetryDenialReason
  failure_not_retryable : RetryDenialReason

pub data RetryDecision : Type 0 where
  retry : RetryDecision
  do_not_retry : RetryDenialReason → RetryDecision

abbrev pub replayable : ReplayMethod → Bool
replayable get = true
replayable head = true
replayable other = false

abbrev pub retryable : RetryFailureKind → Bool
retryable connect = true
retryable connect_timeout = true
retryable write = true
retryable read = true
retryable read_timeout = true
retryable reset_before_response = true

unfoldable pub evaluate_retry : RetryInput → RetryDecision
evaluate_retry i =
    if not i.policy.enabled
    then do_not_retry retry_disabled
    else if not (replayable i.method)
    then do_not_retry method_not_replayable
    else if not (i.body_bytes == 0)
    then do_not_retry body_present
    else if not (i.request_bytes_written == 0)
    then do_not_retry request_write_started
    else if i.response_started
    then do_not_retry response_has_started
    else if leb i.policy.max_retries i.attempts_used
    then do_not_retry retry_budget_exhausted
    else if not i.replay_reserved
    then do_not_retry replay_budget_exhausted
    else if not (retryable i.failure)
    then do_not_retry failure_not_retryable
    else retry

abbrev pub AllowsRetry : RetryInput → Type 0
AllowsRetry i =
    (i.policy.enabled ≡ true)
    × (replayable i.method ≡ true)
    × (i.body_bytes ≡ 0)
    × (i.request_bytes_written ≡ 0)
    × (i.response_started ≡ false)
    × (i.attempts_used < i.policy.max_retries)
    × (i.replay_reserved ≡ true)

-- An exchange is tried again exactly when the policy is enabled, the method is GET or HEAD, there is no
-- body, nothing was written or answered, a retry is left and the replay is reserved, whatever the
-- failure.
pub evaluate_retry-AllowsRetry : (i : RetryInput) → (evaluate_retry i ≡ retry) ↔ AllowsRetry i
unfolding evaluate_retry
evaluate_retry-AllowsRetry i = ground arith
