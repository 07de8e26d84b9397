-- ===== src/Domain/Health/Passive.antt =====
-- crates/edge-domain/src/lib.rs: passive health, an upstream's ejection after failed exchanges, and
-- which upstreams are eligible.
use edge.Domain.Errors.{◌>>◌, ok, new_error, guard, Result, config_passive_health_policy_invalid}
use edge.Prelude.{
  ℕ, ltb, List, Bool, ◌&&◌, ◌∷◌, ◌+◌, [], if◌then◌else◌, true, saturating_add, false, min, leb,
}
use edge.Domain.Availability.{
  UpstreamAvailability, UpstreamAdministrativeState, unhealthy, active, draining,
}
use edge.Text.{within}

pub record PassiveHealthPolicy : Type 0 where
  pub failure_threshold : ℕ
  pub ejection_ms : ℕ

unfoldable pub new_passive_policy : ℕ → ℕ → Result PassiveHealthPolicy
new_passive_policy failure_threshold ejection_ms =
    guard (within 1 10 failure_threshold && within 1000 86400000 ejection_ms) (
      new_error config_passive_health_policy_invalid
        "passive health policy is outside supported bounds")
    >> ok (record { failure_threshold = failure_threshold; ejection_ms = ejection_ms })

pub data PassiveHealthState : Type 0 where
  passive_disabled : PassiveHealthState
  observing : (consecutive_failures : ℕ) → PassiveHealthState
  ejected : (until_ms : ℕ) → PassiveHealthState

pub data PassiveHealthEvent : Type 0 where
  exchange_succeeded : PassiveHealthEvent
  exchange_failed : (now_ms : ℕ) → PassiveHealthEvent
  cooldown_elapsed : (now_ms : ℕ) → PassiveHealthEvent

-- `u8::saturating_add`
abbrev saturating_succ_u8 : ℕ → ℕ
saturating_succ_u8 n = min (n + 1) 255

unfoldable pub transition_passive_health :
    PassiveHealthState → PassiveHealthEvent → PassiveHealthPolicy → PassiveHealthState
transition_passive_health passive_disabled event p = passive_disabled
transition_passive_health (observing n) exchange_succeeded p = observing 0
transition_passive_health (observing n) (exchange_failed now_ms) p =
    if leb p.failure_threshold (saturating_succ_u8 n)
    then ejected (saturating_add now_ms p.ejection_ms)
    else observing (saturating_succ_u8 n)
transition_passive_health (observing n) (cooldown_elapsed now_ms) p = observing n
transition_passive_health (ejected until_ms) exchange_succeeded p = ejected until_ms
transition_passive_health (ejected until_ms) (exchange_failed now_ms) p = ejected until_ms
transition_passive_health (ejected until_ms) (cooldown_elapsed now_ms) p =
    if leb until_ms now_ms then observing 0 else ejected until_ms

pub data UpstreamMembership : Type 0 where
  present removed : UpstreamMembership

pub record EffectiveUpstreamState : Type 0 where
  pub membership : UpstreamMembership
  pub administrative : UpstreamAdministrativeState
  pub active_health : UpstreamAvailability
  pub passive_health : PassiveHealthState

pub data UpstreamExclusionReason : Type 0 where
  excluded_removed excluded_draining active_unhealthy passive_ejected : UpstreamExclusionReason

pub data EffectiveEligibility : Type 0 where
  eligible : EffectiveEligibility
  excluded : UpstreamExclusionReason → EffectiveEligibility

abbrev is_ejected : PassiveHealthState → Bool
is_ejected (ejected t) = true
is_ejected _ = false

abbrev is_removed : UpstreamMembership → Bool
is_removed removed = true
is_removed present = false

abbrev is_draining : UpstreamAdministrativeState → Bool
is_draining draining = true
is_draining active = false

abbrev is_unhealthy : UpstreamAvailability → Bool
is_unhealthy unhealthy = true
is_unhealthy _ = false

unfoldable pub effective_eligibility : EffectiveUpstreamState → EffectiveEligibility
effective_eligibility s =
    if is_removed s.membership
    then excluded excluded_removed
    else if is_draining s.administrative
    then excluded excluded_draining
    else if is_unhealthy s.active_health
    then excluded active_unhealthy
    else if is_ejected s.passive_health
    then excluded passive_ejected
    else eligible

-- The state after a sequence of events, the first one first.
abbrev pub run_events :
    PassiveHealthPolicy → PassiveHealthState → List PassiveHealthEvent → PassiveHealthState
run_events p s [] = s
run_events p s (e ∷ es) = run_events p (transition_passive_health s e p) es

-- The events that cannot end an ejection that lasts until `until_ms`.
abbrev pub before_expiry : ℕ → PassiveHealthEvent → Bool
before_expiry until_ms (cooldown_elapsed now_ms) = ltb now_ms until_ms
before_expiry until_ms _ = true
