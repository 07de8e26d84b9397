-- ===== src/Domain/Health.antt =====
-- crates/edge-domain/src/lib.rs: health checks, the active and the passive health of an upstream, and
-- whether it is eligible.
pub mod Streaks
pub mod Passive
use edge.Domain.Errors.{◌>>◌}
use edge.Prelude.{
  ℕ, min, ltb, false, some, is_empty, none, leb, ◌&&◌, Bool, ◌+◌, any, ◌==◌, if◌then◌else◌, not,
  Option, ◌||◌, true,
}
use edge.Text.{Text, within, byte_len, starts_with, is_control}
use edge.Domain.Availability.{UpstreamAvailability, disabled, unknown, healthy, unhealthy}
use edge.Domain.Errors.{
  config_health_check_invalid_threshold, Result, config_health_check_invalid_interval,
  config_health_check_invalid_path, config_health_check_invalid_status_range, new_error, ok, guard,
}

pub record HttpHealthCheckPolicy : Type 0 where
  pub path : Text
  pub interval_ms : ℕ
  pub timeout_ms : ℕ
  pub healthy_threshold : ℕ
  pub unhealthy_threshold : ℕ
  pub status_min : ℕ
  pub status_max : ℕ

unfoldable pub valid_path : Text → Bool
valid_path path =
    not (is_empty path)
    && leb (byte_len path) 2048
    && starts_with b'/' path
    && not (any (λ c. c == b'?' || c == b'#') path)
    && not (any is_control path)

unfoldable pub valid_intervals : ℕ → ℕ → Bool
valid_intervals interval_ms timeout_ms =
    within 1000 86400000 interval_ms && within 100 30000 timeout_ms && ltb timeout_ms interval_ms

unfoldable pub new_health_check : HttpHealthCheckPolicy → Result HttpHealthCheckPolicy
new_health_check p =
    guard (valid_path p.path) (
      new_error config_health_check_invalid_path
        "health-check path must be a bounded absolute path without query or fragment")
    >> guard (valid_intervals p.interval_ms p.timeout_ms) (
        new_error config_health_check_invalid_interval
          "health-check timeout and interval are outside the supported bounds")
    >> guard (within 1 10 p.healthy_threshold && within 1 10 p.unhealthy_threshold) (
        new_error config_health_check_invalid_threshold
          "health-check thresholds must be between 1 and 10")
    >> guard
        (within 100 599 p.status_min
          && within 100 599 p.status_max
          && leb p.status_min p.status_max)
        (new_error config_health_check_invalid_status_range
          "health-check status range must be ordered within 100 through 599")
    >> ok p

pub data UpstreamHealthState : Type 0 where
  disabled_state : UpstreamHealthState
  unknown_state : (consecutive_successes consecutive_failures : ℕ) → UpstreamHealthState
  healthy_state : (consecutive_failures : ℕ) → UpstreamHealthState
  unhealthy_state : (consecutive_successes : ℕ) → UpstreamHealthState

abbrev pub for_policy : Option HttpHealthCheckPolicy → UpstreamHealthState
for_policy none = disabled_state
for_policy (some p) = unknown_state 0 0

abbrev pub availability : UpstreamHealthState → UpstreamAvailability
availability disabled_state = disabled
availability (unknown_state s f) = unknown
availability (healthy_state f) = healthy
availability (unhealthy_state s) = unhealthy

pub data HealthObservation : Type 0 where
  succeeded failed : HealthObservation

-- `u32::saturating_add`
abbrev saturating_succ : ℕ → ℕ
saturating_succ n = min (n + 1) 4294967295

unfoldable pub next_health :
    UpstreamHealthState → HealthObservation → HttpHealthCheckPolicy → UpstreamHealthState
next_health disabled_state o p = disabled_state
next_health (unknown_state s f) succeeded p =
    if leb p.healthy_threshold (saturating_succ s)
    then healthy_state 0
    else unknown_state (saturating_succ s) 0
next_health (unknown_state s f) failed p =
    if leb p.unhealthy_threshold (saturating_succ f)
    then unhealthy_state 0
    else unknown_state 0 (saturating_succ f)
next_health (healthy_state f) succeeded p = healthy_state 0
next_health (healthy_state f) failed p =
    if leb p.unhealthy_threshold (saturating_succ f)
    then unhealthy_state 0
    else healthy_state (saturating_succ f)
next_health (unhealthy_state s) failed p = unhealthy_state 0
next_health (unhealthy_state s) succeeded p =
    if leb p.healthy_threshold (saturating_succ s)
    then healthy_state 0
    else unhealthy_state (saturating_succ s)

pub record HealthStateChange : Type 0 where
  pub before : UpstreamAvailability
  pub after : UpstreamAvailability

abbrev pub same_availability : UpstreamAvailability → UpstreamAvailability → Bool
same_availability disabled disabled = true
same_availability unknown unknown = true
same_availability healthy healthy = true
same_availability unhealthy unhealthy = true
same_availability _ _ = false

unfoldable pub transition_upstream_health :
    UpstreamHealthState
    → HealthObservation
    → HttpHealthCheckPolicy
    → UpstreamHealthState × Option HealthStateChange
transition_upstream_health state o p =
    let next = next_health state o p in
    let change =
      if same_availability (availability state) (availability next)
      then none
      else some (record { before = availability state; after = availability next }) in
    (next, change)
