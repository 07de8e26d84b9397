-- ===== src/Runtime/Selector/Snapshots.antt =====
-- crates/edge-core/src/lib.rs, `RuntimeUpstreamSelector`: a selector for a snapshot, and its move to the next
-- snapshot.
use edge.Runtime.Selector.{RuntimeUpstreamSelector, apply_availability}
use edge.Application.Drain.{from_snapshot, reconcile}
use edge.Application.Entries.{Entries, put, same_key}
use edge.Application.PassiveHealth.{HealthAvailabilitySnapshot}
use edge.Domain.Availability.{UpstreamAvailability, UpstreamHealthKey, disabled, unknown}
use edge.Domain.Config.{
  ConfigSnapshot, LoadBalancingPolicy, Service, Upstream, find_service, round_robin,
}
use edge.Domain.Endpoint.{UpstreamEndpoint, parse_endpoint}
use edge.Domain.Errors.{Result, err, ok, ◌>>=◌, ◌>>◌}
use edge.Domain.Upstreams.{health_enabled}
use edge.Prelude.{
  Bool, false, true, ℕ, Option, none, some, List, [], ◌∷◌, ◌+◌, filter, ◌&&◌, wrap_u64,
  if◌then◌else◌,
}
use edge.Text.{Text, text_eq}

unfoldable pub endpoints_of :
    Text
    → List Upstream
    → Entries UpstreamHealthKey UpstreamEndpoint
    → Result (Entries UpstreamHealthKey UpstreamEndpoint)
endpoints_of service_id [] endpoints = ok endpoints
endpoints_of service_id (u ∷ us) endpoints = do
  endpoint ← parse_endpoint u.url
  let key : UpstreamHealthKey = record { service_id = service_id; upstream_id = u.id }
  endpoints_of service_id us (put same_key key endpoint endpoints)

unfoldable pub normalized_endpoint_map :
    List Service
    → Entries UpstreamHealthKey UpstreamEndpoint
    → Result (Entries UpstreamHealthKey UpstreamEndpoint)
unfolding endpoints_of
normalized_endpoint_map [] endpoints = ok endpoints
normalized_endpoint_map (service ∷ services) endpoints = do
  found ← endpoints_of service.id service.upstreams endpoints
  normalized_endpoint_map services found

abbrev same_ids : List Upstream → List Upstream → Bool
same_ids [] [] = true
same_ids (u ∷ us) (v ∷ vs) = text_eq u.id v.id && same_ids us vs
same_ids _ _ = false

abbrev same_balancing : LoadBalancingPolicy → LoadBalancingPolicy → Bool
same_balancing round_robin round_robin = true

abbrev same_rotation : Option Service → Option Service → Bool
same_rotation (some current) (some next) =
    same_balancing current.policy.load_balancing next.policy.load_balancing
    && same_ids current.upstreams next.upstreams
same_rotation _ _ = false

unfoldable pub keep_sequences : ConfigSnapshot → ConfigSnapshot → Entries Text ℕ → Entries Text ℕ
keep_sequences current next sequences =
    filter (λ (id, _). same_rotation (find_service current id) (find_service next id)) sequences

-- `reconcile`, with the endpoints that were read from the next snapshot.
unfoldable pub move_to :
    ConfigSnapshot
    → ConfigSnapshot
    → Entries UpstreamHealthKey UpstreamEndpoint
    → RuntimeUpstreamSelector
    → RuntimeUpstreamSelector
unfolding keep_sequences
move_to current next endpoints s =
    let generation = wrap_u64 (s.drain_generation + 1) in
    let moved : RuntimeUpstreamSelector = record s {
      sequences = keep_sequences current next s.sequences;
      endpoints = endpoints;
      drain_generation = generation;
      drain_tracker = reconcile next generation s.drain_tracker;
    } in
    if text_eq current.revision_id next.revision_id
    then moved
    else record moved { availability = []; availability_generation = none }

unfoldable pub reconcile_selector :
    ConfigSnapshot
    → ConfigSnapshot
    → RuntimeUpstreamSelector
    → Result (Unit {0}) × RuntimeUpstreamSelector
unfolding move_to normalized_endpoint_map
reconcile_selector current next s = elim (normalized_endpoint_map next.services []) [
  | err e ↦ (err e, s)
  | ok endpoints ↦ (ok tt, move_to current next endpoints s)
]

-- `initial_availability_snapshot`
unfoldable pub initial_entries :
    Text
    → UpstreamAvailability
    → List Upstream
    → Entries UpstreamHealthKey UpstreamAvailability
    → Entries UpstreamHealthKey UpstreamAvailability
initial_entries service_id initial [] entries = entries
initial_entries service_id initial (u ∷ us) entries =
    let key : UpstreamHealthKey = record { service_id = service_id; upstream_id = u.id } in
    initial_entries service_id initial us (put same_key key initial entries)

unfoldable pub initial_services :
    List Service
    → Entries UpstreamHealthKey UpstreamAvailability
    → Entries UpstreamHealthKey UpstreamAvailability
unfolding initial_entries
initial_services [] entries = entries
initial_services (service ∷ services) entries = initial_services services (
    initial_entries service.id (if health_enabled service then unknown else disabled)
      service.upstreams entries)

unfoldable pub initial_availability_snapshot : ConfigSnapshot → HealthAvailabilitySnapshot
unfolding initial_services
initial_availability_snapshot snapshot = record {
  revision_id = snapshot.revision_id;
  generation = 0;
  entries = initial_services snapshot.services [];
}

unfoldable pub selector_from_snapshot : ConfigSnapshot → Result RuntimeUpstreamSelector
unfolding normalized_endpoint_map apply_availability initial_availability_snapshot
selector_from_snapshot snapshot = do
  endpoints ← normalized_endpoint_map snapshot.services []
  let fresh : RuntimeUpstreamSelector = record {
    sequences = [];
    endpoints = endpoints;
    availability = [];
    availability_generation = none;
    drain_generation = 1;
    drain_tracker = from_snapshot snapshot 1;
  }
  let (answer, s) = apply_availability snapshot (initial_availability_snapshot snapshot) fresh
  answer
  ok s
