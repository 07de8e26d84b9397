-- ===== src/Runtime/Selector.antt =====
-- crates/edge-core/src/lib.rs, `RuntimeUpstreamSelector`: the upstream of a request, with a lease of the drain
-- tracker. The two levels of the availability map are one map by both names; publishing the status is
-- output and left out.
pub mod Snapshots
pub mod Retries
mod Tests
use edge.Application.Drain.{
  DrainReference, UpstreamDrainTracker, acquire, acquired, from_snapshot, reconcile, release,
}
use edge.Application.Entries.{Entries, get, put, same_key}
use edge.Application.PassiveHealth.{HealthAvailabilitySnapshot}
use edge.Application.Validation.{has}
use edge.Domain.Availability.{UpstreamAvailability, UpstreamHealthKey, disabled, unknown}
use edge.Domain.Config.{
  ConfigSnapshot, LoadBalancingPolicy, Service, Upstream, find_service, round_robin,
}
use edge.Domain.Endpoint.{UpstreamEndpoint, parse_endpoint}
use edge.Domain.Errors.{AppError, ErrorCode, Result, err, is_ok, new_error, ok, ◌>>=◌, ◌>>◌}
use edge.Domain.Tls.{UpstreamTlsPolicy}
use edge.Domain.Upstreams.{
  UpstreamSelection, health_enabled, no_eligible_upstream, select_upstream, selected,
}
use edge.Prelude.{
  Bool, false, true, ℕ, Option, none, some, List, [], ◌∷◌, ◌==◌, ◌+◌, ◌||◌, any, all, filter, ◌&&◌,
  wrap_u64, if◌then◌else◌, is_none, length, ltb, not, String, unwrap_or,
}
use edge.Text.{Text, text_eq}

pub record RuntimeUpstreamSelection : Type 0 where
  pub upstream_id : Text
  pub endpoint : UpstreamEndpoint
  pub tls : UpstreamTlsPolicy
  pub drain_reference : DrainReference

pub record RuntimeUpstreamSelector : Type 0 where
  pub sequences : Entries Text ℕ
  pub endpoints : Entries UpstreamHealthKey UpstreamEndpoint
  pub availability : Entries UpstreamHealthKey UpstreamAvailability
  pub availability_generation : Option ℕ
  pub drain_generation : ℕ
  pub drain_tracker : UpstreamDrainTracker

abbrev pub key_for : Service → Text → UpstreamHealthKey
key_for service id = record { service_id = service.id; upstream_id = id }

abbrev pub availability_of : RuntimeUpstreamSelector → Service → Text → Option UpstreamAvailability
availability_of s service id = get same_key (key_for service id) s.availability

abbrev pub sequence_of : RuntimeUpstreamSelector → Service → ℕ
sequence_of s service = unwrap_or (get text_eq service.id s.sequences) 0

unfoldable pub tls_of : Text → List Upstream → Option UpstreamTlsPolicy
tls_of id [] = none
tls_of id (u ∷ us) = let rest = tls_of id us in if text_eq u.id id then some u.tls else rest

-- The selection from what the maps have.
abbrev pub selection :
    Text
    → UpstreamEndpoint
    → Option UpstreamTlsPolicy
    → Option DrainReference
    → Option RuntimeUpstreamSelection
selection id endpoint none reference = none
selection id endpoint (some tls) none = none
selection id endpoint (some tls) (some reference) =
    some (record { upstream_id = id; endpoint = endpoint; tls = tls; drain_reference = reference })

-- `let (Acquired, Some(drain_reference)) = ... else { return None }`
unfoldable pub lease :
    Service
    → Text
    → UpstreamEndpoint
    → RuntimeUpstreamSelector
    → Option RuntimeUpstreamSelection × RuntimeUpstreamSelector
lease service id endpoint s =
    let ((answer, reference), tracker) =
      acquire s.drain_generation (key_for service id) s.drain_tracker in
    (
      selection id endpoint (tls_of id service.upstreams) reference,
      record s { drain_tracker = tracker },
    )

-- A first attempt moves the sequence of the service on, a retry does not.
unfoldable pub lease_at :
    Option UpstreamEndpoint
    → Service
    → Text
    → RuntimeUpstreamSelector
    → RuntimeUpstreamSelector
    → Option RuntimeUpstreamSelection × RuntimeUpstreamSelector
unfolding lease
lease_at none service id unmoved moved = (none, unmoved)
lease_at (some endpoint) service id unmoved moved = lease service id endpoint moved

unfoldable pub select :
    Service → RuntimeUpstreamSelector → Option RuntimeUpstreamSelection × RuntimeUpstreamSelector
unfolding lease_at
select service s =
    elim (select_upstream service (availability_of s service) (sequence_of s service)) [
      | no_eligible_upstream ↦ (none, s)
      | selected id next ↦
          lease_at (get same_key (key_for service id) s.endpoints) service id s
            (record s { sequences = put text_eq service.id next s.sequences })
    ]

abbrev pub without : List Text → Service → Service
without attempted service = record service {
  upstreams = filter (λ u. not (has attempted u.id)) service.upstreams;
}

unfoldable pub retry_on :
    Service
    → UpstreamSelection
    → RuntimeUpstreamSelector
    → Option RuntimeUpstreamSelection × RuntimeUpstreamSelector
unfolding lease_at
retry_on service no_eligible_upstream s = (none, s)
retry_on service (selected id next) s =
    lease_at (get same_key (key_for service id) s.endpoints) service id s s

unfoldable pub select_retry :
    Service
    → List Text
    → RuntimeUpstreamSelector
    → Option RuntimeUpstreamSelection × RuntimeUpstreamSelector
unfolding retry_on
select_retry service attempted s =
    retry_on service
      (select_upstream (without attempted service) (availability_of s service)
        (sequence_of s service))
      s

unfoldable pub release_drain_reference :
    DrainReference → RuntimeUpstreamSelector → RuntimeUpstreamSelector
release_drain_reference reference s = record s {
  drain_tracker = (release reference s.drain_tracker).1;
}

abbrev runtime_availability_error : String → AppError
runtime_availability_error message = new_error ErrorCode.runtime_command_rejected message

abbrev is_stale : Option ℕ → ℕ → Bool
is_stale none generation = false
is_stale (some known) generation = ltb generation known

abbrev expected_count : List Service → ℕ
expected_count [] = 0
expected_count (service ∷ services) = length service.upstreams + expected_count services

unfoldable pub lacks_key : Entries UpstreamHealthKey UpstreamAvailability → List Service → Bool
lacks_key entries services =
    any
      (λ service.
        any (λ u. is_none (get same_key (key_for service u.id) entries)) service.upstreams)
      services

unfoldable pub apply_availability :
    ConfigSnapshot
    → HealthAvailabilitySnapshot
    → RuntimeUpstreamSelector
    → Result (Unit {0}) × RuntimeUpstreamSelector
unfolding lacks_key
apply_availability current snapshot s =
    if not (text_eq snapshot.revision_id current.revision_id)
    then (err (runtime_availability_error "availability revision does not match active config"), s)
    else if is_stale s.availability_generation snapshot.generation
    then (err (runtime_availability_error "availability generation is stale"), s)
    else if not (length snapshot.entries == expected_count current.services)
        || lacks_key snapshot.entries current.services
    then (err (runtime_availability_error "availability keys do not match active config"), s)
    else (
      ok tt,
      record s {
        availability = snapshot.entries;
        availability_generation = some snapshot.generation;
      },
    )
