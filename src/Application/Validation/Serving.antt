-- ===== src/Application/Validation/Serving.antt =====
-- A snapshot that the validation accepts can serve the requests that its routes match.
use edge.Application.Validation.{ValidationError, has}
use edge.Application.Validation.Clean.{
  IsReachable, IsServable, has-find_in, push_if-nil, service_errors-nil,
}
use edge.Application.Validation.Services.{is_draining, service_errors}
use edge.Application.Validation.Snapshot.{route_errors, route_keys, validate_snapshot}
use edge.Domain.Availability.{UpstreamAvailability, is_active, is_eligible}
use edge.Domain.Config.{ConfigSnapshot, Service, Upstream, find_service}
use edge.Domain.Routing.{Route, select_route}
use edge.Domain.Routing.Selection.{select_route-Mem}
use edge.Domain.Upstreams.Members.{select_eligible-Mem}
use edge.Domain.Upstreams.{health_enabled, may_select, or_unknown, select_upstream, selected}
use edge.Prelude.{
  filter-Mem, is_empty, All, All-lookup, Bool, false, true, ℕ, List, [], ◌∷◌, ◌++◌, ◌+◌, all,
  append-nil_parts, arith, filter, inl, inr, map, Memᴰ, not, Option, some, wrap_u64, ◌≡◌,
  Bool-cases,
}
use edge.Text.{Text}

abbrev HasService : ConfigSnapshot → Route → Type 0
HasService snapshot r = has (map (λ s. s.id) snapshot.services) r.service_id ≡ true

present_if : (b : Bool) → not b ≡ false → b ≡ true
present_if b h = ground arith

route_errors-nil :
    (snapshot : ConfigSnapshot) (ids keys : List Text) (routes : List Route)
    → route_errors snapshot ids keys routes ≡ []
    → All (HasService snapshot) routes
unfolding route_errors
route_errors-nil snapshot ids keys [] h = tt
route_errors-nil snapshot ids keys (r ∷ routes) h =
    let rest : List ValidationError =
      route_errors snapshot (r.id ∷ ids) (route_keys r ++ keys) routes in
    let (h1, h2) = append-nil_parts _ rest h in
    let (h3, _) = append-nil_parts _ _ h1 in
    let (h4, _) = append-nil_parts _ _ h3 in
    let (_, h5) = append-nil_parts _ _ h4 in
    (
      present_if _ (push_if-nil _ _ h5),
      route_errors-nil snapshot (r.id ∷ ids) (route_keys r ++ keys) routes h2,
    )

validate_snapshot-nil :
    (loopback_of : Text → Option Bool) (allow : Bool) (snapshot : ConfigSnapshot)
    → validate_snapshot loopback_of allow snapshot ≡ []
    → All (IsServable snapshot.schema_version) snapshot.services
      × All (HasService snapshot) snapshot.routes
unfolding validate_snapshot
validate_snapshot-nil loopback_of allow snapshot h =
    let routes : List ValidationError = route_errors snapshot [] [] snapshot.routes in
    let services : List ValidationError =
      service_errors snapshot.schema_version snapshot.services in
    let (h1, h2) = append-nil_parts _ routes h in
    let (_, h3) = append-nil_parts _ services h1 in
    (
      service_errors-nil snapshot.schema_version snapshot.services h3,
      route_errors-nil snapshot [] [] snapshot.routes h2,
    )

-- An upstream that is not draining may be selected where none is known to be unhealthy.
some_selectable :
    (checked : Bool) (known : Text → Option UpstreamAvailability) (us : List Upstream)
    → ((id : Text) → is_eligible (or_unknown (known id)) ≡ true)
    → all is_draining us ≡ false
    → is_empty (filter (may_select checked known) us) ≡ false
unfolding may_select
some_selectable checked known [] k h = cc
some_selectable checked known (u ∷ us) k h = elim (Bool-cases (is_active u.administrative_state)) [
  | inl e ↦ ground (arith, e, k u.id)
  | inr e ↦ ground (arith, e, k u.id, some_selectable checked known us k (ground (arith, e, h)))
]

-- For a snapshot whose validation reports no error, a route that is selected for a request, and an
-- availability map that knows no upstream as unhealthy: the service of the route exists, and whatever the
-- round robin stands at, it selects an upstream of that service. The upstream is active, its URL is
-- accepted, the URL's scheme is that of the upstream's TLS policy (and not HTTPS under schema
-- version 1), and its host is not a metadata service.
pub select_upstream-validated :
    (loopback_of : Text → Option Bool) (allow : Bool) (snapshot : ConfigSnapshot) (host path : Text)
    (route : Route) (known : Text → Option UpstreamAvailability) (sequence : ℕ)
    → validate_snapshot loopback_of allow snapshot ≡ []
    → select_route snapshot.routes host path ≡ some route
    → ((id : Text) → is_eligible (or_unknown (known id)) ≡ true)
    → (service : Service) × (find_service snapshot route.service_id ≡ some service)
      × (u : Upstream) × Memᴰ u service.upstreams
      × (is_active u.administrative_state ≡ true)
      × IsReachable snapshot.schema_version u
      × (select_upstream service known sequence ≡ selected u.id (wrap_u64 (sequence + 1)))
unfolding find_service select_upstream may_select
select_upstream-validated loopback_of allow snapshot host path route known sequence valid chosen k =
    let (services, routes) = validate_snapshot-nil loopback_of allow snapshot valid in
    let there = select_route-Mem host path snapshot.routes route chosen in
    let (service, found, member) =
      has-find_in route.service_id snapshot.services
        (All-lookup (HasService snapshot) snapshot.routes there routes) in
    let (live, reachable) =
      All-lookup (IsServable snapshot.schema_version) snapshot.services member services in
    let p = may_select (health_enabled service) known in
    let (u, here, selects) =
      select_eligible-Mem (filter p service.upstreams) sequence
        (some_selectable (health_enabled service) known service.upstreams k live) in
    let (inside, allowed) = filter-Mem p u service.upstreams here in
    (
      service,
      found,
      u,
      inside,
      ground (arith, allowed),
      All-lookup (IsReachable snapshot.schema_version) service.upstreams inside reachable,
      selects,
    )
