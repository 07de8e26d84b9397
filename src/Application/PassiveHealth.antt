-- ===== src/Application/PassiveHealth.antt =====
-- crates/edge-application/src/passive_health.rs: the supervisor that counts failed exchanges per upstream,
-- and the availability it publishes (`HealthAvailabilitySnapshot` of
-- crates/edge-domain/src/lib.rs).
pub mod Selection
use mathlib.Core.Option
use edge.Application.Entries.{Entries, get, put, same_key}
use edge.Domain.Availability.{UpstreamAvailability, UpstreamHealthKey, unhealthy}
use edge.Domain.Config.{ConfigSnapshot, Service, Upstream}
use edge.Domain.Health.Passive.{
  EffectiveEligibility, PassiveHealthEvent, PassiveHealthPolicy, PassiveHealthState,
  cooldown_elapsed, effective_eligibility, ejected, eligible, excluded, exchange_failed,
  exchange_succeeded, observing, passive_disabled, present, transition_passive_health,
}
use edge.Domain.Upstreams.{or_unknown}
use edge.Prelude.{
  Bool, false, true, ℕ, Option, none, some, List, [], ◌∷◌, ◌==◌, ◌||◌, if◌then◌else◌, not,
}
use edge.Text.{Text, text_eq}

pub record HealthAvailabilitySnapshot : Type 0 where
  pub revision_id : Text
  pub generation : ℕ
  pub entries : Entries UpstreamHealthKey UpstreamAvailability

pub data PassiveObservationIgnored : Type 0 where
  stale_revision stale_generation unknown_upstream observation_disabled : PassiveObservationIgnored

pub data HandlePassiveObservation : Type 0 where
  applied : PassiveHealthState → HandlePassiveObservation
  ignored : PassiveObservationIgnored → HandlePassiveObservation

pub data PassiveFailureReason : Type 0 where
  connect connect_timeout write read read_timeout reset_before_response : PassiveFailureReason

pub data PassiveObservationOutcome : Type 0 where
  outcome_succeeded : PassiveObservationOutcome
  outcome_failed : PassiveFailureReason → PassiveObservationOutcome

pub record PassiveObservation : Type 0 where
  pub revision_id : Text
  pub generation : ℕ
  pub key : UpstreamHealthKey
  pub outcome : PassiveObservationOutcome
  pub observed_at_ms : ℕ

pub record PassiveTarget : Type 0 where
  pub policy : PassiveHealthPolicy
  pub state : PassiveHealthState

pub record PassiveHealthSupervisor : Type 0 where
  pub revision_id : Text
  pub generation : ℕ
  pub targets : Entries UpstreamHealthKey PassiveTarget

abbrev pub new_supervisor : Text → ℕ → PassiveHealthSupervisor
new_supervisor revision_id generation = record {
  revision_id = revision_id;
  generation = generation;
  targets = [];
}

unfoldable pub register :
    UpstreamHealthKey
    → PassiveHealthPolicy
    → Bool
    → PassiveHealthSupervisor
    → PassiveHealthSupervisor
register key policy enabled s =
    let state : PassiveHealthState = if enabled then observing 0 else passive_disabled in
    record s { targets = put same_key key (record { policy = policy; state = state }) s.targets }

abbrev event_of : PassiveObservation → PassiveHealthEvent
event_of o = elim o.outcome [
  | outcome_succeeded ↦ exchange_succeeded
  | outcome_failed reason ↦ exchange_failed o.observed_at_ms
]

abbrev is_disabled : PassiveHealthState → Bool
is_disabled passive_disabled = true
is_disabled _ = false

-- `handle`, for the target that the map has.
unfoldable pub handle_target :
    PassiveObservation
    → Option PassiveTarget
    → PassiveHealthSupervisor
    → HandlePassiveObservation × PassiveHealthSupervisor
handle_target o none s = (ignored unknown_upstream, s)
handle_target o (some target) s =
    let next : PassiveHealthState =
      transition_passive_health target.state (event_of o) target.policy in
    if is_disabled target.state then (ignored observation_disabled, s) else (
      applied next,
      record s { targets = put same_key o.key (record target { state = next }) s.targets },
    )

unfoldable pub handle :
    PassiveObservation
    → PassiveHealthSupervisor
    → HandlePassiveObservation × PassiveHealthSupervisor
unfolding handle_target
handle o s =
    if not (text_eq o.revision_id s.revision_id)
    then (ignored stale_revision, s)
    else if not (o.generation == s.generation)
    then (ignored stale_generation, s)
    else handle_target o (get same_key o.key s.targets) s

unfoldable pub passive_state :
    PassiveHealthSupervisor → UpstreamHealthKey → Option PassiveHealthState
passive_state s key = Option.map (λ target. target.state) (get same_key key s.targets)

abbrev same_state : PassiveHealthState → PassiveHealthState → Bool
same_state passive_disabled passive_disabled = true
same_state (observing n) (observing m) = n == m
same_state (ejected t) (ejected u) = t == u
same_state _ _ = false

-- The targets behind `expire_cooldowns`, and whether one of them changed.
unfoldable pub expire_targets :
    ℕ → Entries UpstreamHealthKey PassiveTarget → Bool × Entries UpstreamHealthKey PassiveTarget
expire_targets now_ms [] = (false, [])
expire_targets now_ms ((key, target) ∷ targets) =
    let next : PassiveHealthState =
      transition_passive_health target.state (cooldown_elapsed now_ms) target.policy in
    let (changed, rest) = expire_targets now_ms targets in
    (not (same_state next target.state) || changed, (key, record target { state = next }) ∷ rest)

unfoldable pub expire_cooldowns : ℕ → PassiveHealthSupervisor → Bool × PassiveHealthSupervisor
expire_cooldowns now_ms s =
    let (changed, targets) = expire_targets now_ms s.targets in
    (changed, record s { targets = targets })

abbrev pub or_disabled : Option PassiveHealthState → PassiveHealthState
or_disabled none = passive_disabled
or_disabled (some s) = s

abbrev unless_excluded : EffectiveEligibility → UpstreamAvailability → UpstreamAvailability
unless_excluded eligible active_health = active_health
unless_excluded (excluded reason) active_health = unhealthy

-- What one upstream's entry becomes in the loop of `effective_availability`.
unfoldable pub effective_entry :
    PassiveHealthSupervisor
    → UpstreamHealthKey
    → Upstream
    → UpstreamAvailability
    → UpstreamAvailability
unfolding effective_eligibility
effective_entry s key u active_health =
    unless_excluded
      (effective_eligibility (record {
        membership = present;
        administrative = u.administrative_state;
        active_health = active_health;
        passive_health = or_disabled (passive_state s key);
      }))
      active_health

unfoldable pub cover_upstreams :
    PassiveHealthSupervisor
    → Text
    → List Upstream
    → Entries UpstreamHealthKey UpstreamAvailability
    → Entries UpstreamHealthKey UpstreamAvailability
cover_upstreams s service_id [] entries = entries
cover_upstreams s service_id (u ∷ us) entries =
    let key : UpstreamHealthKey = record { service_id = service_id; upstream_id = u.id } in
    cover_upstreams s service_id us
      (put same_key key (effective_entry s key u (or_unknown (get same_key key entries))) entries)

unfoldable pub cover_services :
    PassiveHealthSupervisor
    → List Service
    → Entries UpstreamHealthKey UpstreamAvailability
    → Entries UpstreamHealthKey UpstreamAvailability
cover_services s [] entries = entries
cover_services s (service ∷ services) entries =
    cover_services s services (cover_upstreams s service.id service.upstreams entries)

unfoldable pub effective_availability :
    PassiveHealthSupervisor
    → ConfigSnapshot
    → HealthAvailabilitySnapshot
    → HealthAvailabilitySnapshot
unfolding cover_services
effective_availability s config active = record {
  revision_id = s.revision_id;
  generation = s.generation;
  entries = cover_services s config.services active.entries;
}

pub data PassiveObservationDeliveryState : Type 0 where
  delivery_healthy delivery_degraded : PassiveObservationDeliveryState

pub data PassiveObservationDeliveryChange : Type 0 where
  no_change became_degraded recovered : PassiveObservationDeliveryChange

pub data PassiveObservationSubmit : Type 0 where
  submit_accepted submit_full submit_stopped : PassiveObservationSubmit

unfoldable pub transition_passive_observation_delivery :
    PassiveObservationDeliveryState
    → PassiveObservationSubmit
    → PassiveObservationDeliveryChange × PassiveObservationDeliveryState
transition_passive_observation_delivery delivery_healthy submit_full =
    (became_degraded, delivery_degraded)
transition_passive_observation_delivery delivery_healthy submit_stopped =
    (became_degraded, delivery_degraded)
transition_passive_observation_delivery delivery_degraded submit_accepted =
    (recovered, delivery_healthy)
transition_passive_observation_delivery state result = (no_change, state)
