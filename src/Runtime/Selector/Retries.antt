-- ===== src/Runtime/Selector/Retries.antt =====
-- A retry goes to another upstream.
use edge.Application.Drain.{DrainReference, acquire}
use edge.Application.Entries.{get, same_key}
use edge.Application.Validation.{has}
use edge.Domain.Config.{Service, Upstream}
use edge.Domain.Endpoint.{UpstreamEndpoint}
use edge.Domain.Tls.{UpstreamTlsPolicy}
use edge.Domain.Upstreams.{
  UpstreamSelection, health_enabled, may_select, no_eligible_upstream, select_upstream, selected,
}
use edge.Domain.Upstreams.Members.{select_upstream-selected}
use edge.Prelude.{
  Bool, false, true, ℕ, List, Memᴰ, Option, ap, arith, filter-Mem, none, not, some, ◌≡◌, subst,
}
use edge.Runtime.Selector.{
  RuntimeUpstreamSelection, RuntimeUpstreamSelector, availability_of, key_for, lease, lease_at,
  retry_on, select_retry, selection, sequence_of, tls_of, without,
}
use edge.Text.{Text}

not-true : (b : Bool) → not b ≡ true → b ≡ false
not-true b h = ground arith

selection-some :
    (id : Text) (endpoint : UpstreamEndpoint) (tls : Option UpstreamTlsPolicy)
    (reference : Option DrainReference) (r : RuntimeUpstreamSelection)
    → selection id endpoint tls reference ≡ some r
    → (id ≡ r.upstream_id) × (endpoint ≡ r.endpoint)
selection-some id endpoint none reference r h = cc
selection-some id endpoint (some tls) none r h = cc
selection-some id endpoint (some tls) (some reference) r h = (cc h, cc h)

lease-some :
    (service : Service) (id : Text) (endpoint : UpstreamEndpoint) (s s' : RuntimeUpstreamSelector)
    (r : RuntimeUpstreamSelection)
    → lease service id endpoint s ≡ (some r, s')
    → (id ≡ r.upstream_id) × (endpoint ≡ r.endpoint) × (s.sequences ≡ s'.sequences)
unfolding lease
lease-some service id endpoint s s' r h =
    let (same, there) =
      selection-some id endpoint (tls_of id service.upstreams)
        (acquire s.drain_generation (key_for service id) s.drain_tracker).0.1 r (ap (λ p. p.0) h) in
    (same, there, ap (λ p. p.1.sequences) h)

lease_at-some :
    (o : Option UpstreamEndpoint) (service : Service) (id : Text) (s s' : RuntimeUpstreamSelector)
    (r : RuntimeUpstreamSelection)
    → lease_at o service id s s ≡ (some r, s')
    → (id ≡ r.upstream_id) × (o ≡ some r.endpoint) × (s.sequences ≡ s'.sequences)
unfolding lease_at
lease_at-some none service id s s' r h = cc
lease_at-some (some endpoint) service id s s' r h =
    let (same, there, kept) = lease-some service id endpoint s s' r h in
    (same, ap (λ e. some e) there, kept)

retry_on-some :
    (service : Service) (c : UpstreamSelection) (s s' : RuntimeUpstreamSelector)
    (r : RuntimeUpstreamSelection)
    → retry_on service c s ≡ (some r, s')
    → (next : ℕ) × (c ≡ selected r.upstream_id next)
      × (get same_key (key_for service r.upstream_id) s.endpoints ≡ some r.endpoint)
      × (s.sequences ≡ s'.sequences)
unfolding retry_on
retry_on-some service no_eligible_upstream s s' r h = cc
retry_on-some service (selected id next) s s' r h =
    let (same, there, kept) =
      lease_at-some (get same_key (key_for service id) s.endpoints) service id s s' r h in
    (
      next,
      ap (λ i. selected i next) same,
      subst (λ i. get same_key (key_for service i) s.endpoints ≡ some r.endpoint) same there,
      kept,
    )

-- A retry that selects an upstream selects one of the service that was not attempted before, is active and
-- may be used under the availability that the selector holds; it goes to the endpoint that the
-- selector has for it, and the round robin of the service does not move.
pub select_retry-unattempted :
    (service : Service) (attempted : List Text) (s s' : RuntimeUpstreamSelector)
    (r : RuntimeUpstreamSelection)
    → select_retry service attempted s ≡ (some r, s')
    → ((u : Upstream) × Memᴰ u service.upstreams
        × (u.id ≡ r.upstream_id)
        × (may_select (health_enabled service) (availability_of s service) u ≡ true))
      × (has attempted r.upstream_id ≡ false)
      × (get same_key (key_for service r.upstream_id) s.endpoints ≡ some r.endpoint)
      × (s.sequences ≡ s'.sequences)
unfolding select_retry
select_retry-unattempted service attempted s s' r h =
    let choice =
      select_upstream (without attempted service) (availability_of s service)
        (sequence_of s service) in
    let (next, chosen, there, kept) = retry_on-some service choice s s' r h in
    let (u, inside, allowed, same) =
      select_upstream-selected (without attempted service) (availability_of s service)
        (sequence_of s service) next r.upstream_id chosen in
    let (member, fresh) = filter-Mem (λ v. not (has attempted v.id)) u service.upstreams inside in
    let unseen : has attempted u.id ≡ false = not-true (has attempted u.id) fresh in
    ((u, member, same, allowed), subst (λ i. has attempted i ≡ false) same unseen, there, kept)
