-- ===== src/Application/Validation/Clean.antt =====
-- What the services of a snapshot are like when their checks report nothing.
use edge.Application.Validation.{ValidationError, has, is_metadata_host, push_if}
use edge.Application.Validation.Services.{
  activity_errors, endpoint_errors, id_errors, is_draining, policy_matches, service_errors,
  upstream_errors,
}
use edge.Domain.Config.{Service, Upstream, find_in}
use edge.Domain.Endpoint.{UpstreamEndpoint, parse_endpoint}
use edge.Domain.Errors.{Result, err, ok}
use edge.Domain.Tls.{is_https}
use edge.Prelude.{
  All, Bool, false, true, ℕ, List, [], ◌∷◌, ◌++◌, ◌==◌, ◌&&◌, all, ◌≡◌, refl, append-nil_parts,
  arith, is_empty, if◌then◌else◌, map, Memᴰ, some, Bool-cases, inl, inr,
}
use edge.Text.{Text, text_eq}

pub push_if-nil : (b : Bool) (e : ValidationError) → push_if b e ≡ [] → b ≡ false
push_if-nil false e h = refl
push_if-nil true e h = cc

-- The URL is accepted, its scheme is that of the TLS policy, HTTPS is for a later schema than the
-- first, and the host is not a metadata service.
abbrev pub IsReachable : ℕ → Upstream → Type 0
IsReachable version u =
    (e : UpstreamEndpoint) × (parse_endpoint u.url ≡ ok e)
    × (policy_matches e.scheme u.tls ≡ true)
    × (is_metadata_host e.host ≡ false)
    × ((version == 1 && is_https e.scheme) ≡ false)

-- The service has an upstream that is not draining, and all are reachable.
abbrev pub IsServable : ℕ → Service → Type 0
IsServable version s = (all is_draining s.upstreams ≡ false) × All (IsReachable version) s.upstreams

endpoint_errors-nil :
    (version : ℕ) (u : Upstream) (seen : List UpstreamEndpoint) (r : Result UpstreamEndpoint)
    → (endpoint_errors version u seen r).0 ≡ []
    → (e : UpstreamEndpoint) × (r ≡ ok e)
      × (policy_matches e.scheme u.tls ≡ true)
      × (is_metadata_host e.host ≡ false)
      × ((version == 1 && is_https e.scheme) ≡ false)
unfolding endpoint_errors
endpoint_errors-nil version u seen (err e) h = cc
endpoint_errors-nil version u seen (ok e) h =
    elim (Bool-cases (version == 1 && is_https e.scheme)) [
      | inl a ↦ absurd (ground (arith, a, h))
      | inr a ↦ elim (Bool-cases (policy_matches e.scheme u.tls)) [
        | inr b ↦ absurd (ground (arith, a, b, h))
        | inl b ↦ elim (Bool-cases (is_metadata_host e.host)) [
          | inl c ↦ absurd (ground (arith, a, b, c, h))
          | inr c ↦ (e, refl, b, c, a)
        ]
      ]
    ]

upstream_errors-nil :
    (version : ℕ) (service : Text) (ids : List Text) (seen : List UpstreamEndpoint)
    (us : List Upstream)
    → upstream_errors version service ids seen us ≡ []
    → All (IsReachable version) us
unfolding upstream_errors
upstream_errors-nil version service ids seen [] h = tt
upstream_errors-nil version service ids seen (u ∷ us) h =
    let found : List ValidationError × List UpstreamEndpoint =
      endpoint_errors version u seen (parse_endpoint u.url) in
    let ids' : List Text = if is_empty u.id then ids else u.id ∷ ids in
    let rest : List ValidationError = upstream_errors version service ids' found.1 us in
    let (h1, h2) = append-nil_parts (id_errors service ids u.id ++ found.0) rest h in
    let (_, here) = append-nil_parts (id_errors service ids u.id) found.0 h1 in
    (
      endpoint_errors-nil version u seen (parse_endpoint u.url) here,
      upstream_errors-nil version service ids' found.1 us h2,
    )

activity_errors-nil : (s : Service) → activity_errors s ≡ [] → all is_draining s.upstreams ≡ false
unfolding activity_errors
activity_errors-nil s h = elim (Bool-cases (is_empty s.upstreams)) [
  | inl e ↦ absurd (ground (arith, e, h))
  | inr e ↦ ground (arith, e, h)
]

pub service_errors-nil :
    (version : ℕ) (services : List Service)
    → service_errors version services ≡ []
    → All (IsServable version) services
unfolding service_errors
service_errors-nil version [] h = tt
service_errors-nil version (s ∷ services) h =
    let own : List ValidationError = upstream_errors version s.id [] [] s.upstreams in
    let rest : List ValidationError = service_errors version services in
    let (h1, h2) = append-nil_parts (activity_errors s ++ own) rest h in
    let (a, b) = append-nil_parts (activity_errors s) own h1 in
    (
      (activity_errors-nil s a, upstream_errors-nil version s.id [] [] s.upstreams b),
      service_errors-nil version services h2,
    )

pub has-find_in :
    (id : Text) (services : List Service)
    → has (map (λ s. s.id) services) id ≡ true
    → (s : Service) × (find_in id services ≡ some s) × Memᴰ s services
unfolding find_in
has-find_in id [] h = cc
has-find_in id (s ∷ services) h = elim (Bool-cases (text_eq s.id id)) [
  | inl e ↦ (s, rw e refl, Memᴰ.head refl)
  | inr e ↦
      let (t, found, m) = has-find_in id services (ground (arith, e, h)) in
      (t, rw e found, Memᴰ.tail m)
]
