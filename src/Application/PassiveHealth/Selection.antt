-- ===== src/Application/PassiveHealth/Selection.antt =====
-- What the published availability keeps from being selected.
use edge.Application.Entries.{Entries, get, get-put, get-put_other, put, same_key, same_key_iff}
use edge.Application.PassiveHealth.{
  HealthAvailabilitySnapshot, PassiveHealthSupervisor, cover_services, cover_upstreams,
  effective_availability, effective_entry, passive_state,
}
use edge.Domain.Availability.{UpstreamAvailability, UpstreamHealthKey, unhealthy}
use edge.Domain.Config.{ConfigSnapshot, Service, Upstream}
use edge.Domain.Health.Passive.{effective_eligibility, ejected}
use edge.Domain.Upstreams.Members.{select_upstream-selected}
use edge.Domain.Upstreams.{health_enabled, may_select, or_unknown, select_upstream, selected}
use edge.Prelude.{
  Bool-cases, true, ℕ, List, [], ◌∷◌, Memᴰ, Option, some, ◌≡◌, ◌≢◌, ◌∙◌, ap, arith, inl, inr, subst,
  ◌⊎◌,
}
use edge.Text.{Text}

module _ (s : PassiveHealthSupervisor) where
  abbrev keyed : Text → Upstream → UpstreamHealthKey
  keyed service_id u = record { service_id = service_id; upstream_id = u.id }

  -- An entry that is unhealthy stays so.
  effective_entry-unhealthy :
      (key : UpstreamHealthKey) (u : Upstream) → effective_entry s key u unhealthy ≡ unhealthy
  unfolding effective_entry effective_eligibility
  effective_entry-unhealthy key u = ground arith

  -- So is that of an ejected upstream.
  effective_entry-ejected :
      (key : UpstreamHealthKey) (u : Upstream) (until_ms : ℕ) (a : UpstreamAvailability)
      → passive_state s key ≡ some (ejected until_ms)
      → effective_entry s key u a ≡ unhealthy
  unfolding effective_entry effective_eligibility
  effective_entry-ejected key u until_ms a h = ground (arith, h)

  abbrev IsUnhealthyAt : UpstreamHealthKey → Entries UpstreamHealthKey UpstreamAvailability → Type 0
  IsUnhealthyAt key entries = get same_key key entries ≡ some unhealthy

  put-stays_unhealthy :
      (k key : UpstreamHealthKey) (u : Upstream)
      (entries : Entries UpstreamHealthKey UpstreamAvailability)
      → IsUnhealthyAt k entries
      → IsUnhealthyAt k (
          put same_key key
            (effective_entry s key u (or_unknown (get same_key key entries)))
            entries)
  put-stays_unhealthy k key u entries h = elim (Bool-cases (same_key key k)) [
    | inr e ↦ get-put_other same_key same_key_iff key k _ entries e ∙ h
    | inl e ↦
        let same : key ≡ k = (same_key_iff key k).0 e in
        rw same (
          get-put same_key same_key_iff k _ entries
          ∙ ap some (rw h (effective_entry-unhealthy k u)))
  ]

  cover_upstreams-stays_unhealthy :
      (k : UpstreamHealthKey) (service_id : Text) (us : List Upstream)
      (entries : Entries UpstreamHealthKey UpstreamAvailability)
      → IsUnhealthyAt k entries
      → IsUnhealthyAt k (cover_upstreams s service_id us entries)
  unfolding cover_upstreams
  cover_upstreams-stays_unhealthy k service_id [] entries h = h
  cover_upstreams-stays_unhealthy k service_id (u ∷ us) entries h =
      cover_upstreams-stays_unhealthy k service_id us _
        (put-stays_unhealthy k (keyed service_id u) u entries h)

  cover_services-stays_unhealthy :
      (k : UpstreamHealthKey) (services : List Service)
      (entries : Entries UpstreamHealthKey UpstreamAvailability)
      → IsUnhealthyAt k entries
      → IsUnhealthyAt k (cover_services s services entries)
  unfolding cover_services
  cover_services-stays_unhealthy k [] entries h = h
  cover_services-stays_unhealthy k (service ∷ services) entries h =
      cover_services-stays_unhealthy k services _
        (cover_upstreams-stays_unhealthy k service.id service.upstreams entries h)

  module _ (until_ms : ℕ) where
    abbrev IsEjected : Text → Upstream → Type 0
    IsEjected service_id u = passive_state s (keyed service_id u) ≡ some (ejected until_ms)

    cover_upstreams-ejected :
        (u : Upstream) (service_id : Text) (us : List Upstream)
        (entries : Entries UpstreamHealthKey UpstreamAvailability)
        → IsEjected service_id u
        → Memᴰ u us
        → IsUnhealthyAt (keyed service_id u) (cover_upstreams s service_id us entries)
    unfolding cover_upstreams
    cover_upstreams-ejected u service_id [] entries h m = absurd (elim m [ ])
    cover_upstreams-ejected u service_id (v ∷ us) entries h (Memᴰ.head e) =
        cover_upstreams-stays_unhealthy (keyed service_id u) service_id us _ (
          rw e (
            get-put same_key same_key_iff (keyed service_id v) _ entries
            ∙ ap some (
                effective_entry-ejected (keyed service_id v) v until_ms _
                  (subst (IsEjected service_id) e h))))
    cover_upstreams-ejected u service_id (v ∷ us) entries h (Memᴰ.tail m) =
        cover_upstreams-ejected u service_id us _ h m

    cover_services-ejected :
        (u : Upstream) (service : Service) (services : List Service)
        (entries : Entries UpstreamHealthKey UpstreamAvailability)
        → IsEjected service.id u
        → Memᴰ u service.upstreams
        → Memᴰ service services
        → IsUnhealthyAt (keyed service.id u) (cover_services s services entries)
    unfolding cover_services
    cover_services-ejected u service [] entries h m n = absurd (elim n [ ])
    cover_services-ejected u service (t ∷ services) entries h m (Memᴰ.head e) =
        cover_services-stays_unhealthy (keyed service.id u) services _ (
          subst
            (λ t. IsUnhealthyAt (keyed service.id u) (cover_upstreams s t.id t.upstreams entries)) e
            (cover_upstreams-ejected u service.id service.upstreams entries h m))
    cover_services-ejected u service (t ∷ services) entries h m (Memᴰ.tail n) =
        cover_services-ejected u service services _ h m n

-- What the core looks up for a service in the published entries.
abbrev pub published :
    PassiveHealthSupervisor
    → ConfigSnapshot
    → HealthAvailabilitySnapshot
    → Text
    → Text
    → Option UpstreamAvailability
published s config active service_id id =
    get same_key (record { service_id = service_id; upstream_id = id })
      (effective_availability s config active).entries

-- For a service of the configuration whose active health check is enabled: an upstream that the
-- supervisor holds ejected, or that the active checks found unhealthy, is not selected under the
-- availability that the supervisor publishes, whatever the round robin stands at.
pub select_upstream-ejected :
    (s : PassiveHealthSupervisor) (config : ConfigSnapshot) (active : HealthAvailabilitySnapshot)
    (service : Service) (u : Upstream) (until_ms sequence next : ℕ)
    → Memᴰ service config.services
    → Memᴰ u service.upstreams
    → health_enabled service ≡ true
    → (passive_state s (record { service_id = service.id; upstream_id = u.id })
        ≡ some (ejected until_ms))
      ⊎ (get same_key (record { service_id = service.id; upstream_id = u.id }) active.entries
          ≡ some unhealthy)
    → select_upstream service (published s config active service.id) sequence ≢ selected u.id next
unfolding effective_availability may_select
select_upstream-ejected s config active service u until_ms sequence next inside member checked bad
      e =
    let out : published s config active service.id u.id ≡ some unhealthy = elim bad [
      | inl h ↦
          cover_services-ejected s until_ms u service config.services active.entries h member inside
      | inr h ↦
          cover_services-stays_unhealthy s (record { service_id = service.id; upstream_id = u.id })
            config.services active.entries h
    ] in
    let (v, _, allowed, same) =
      select_upstream-selected service (published s config active service.id) sequence next u.id
        e in
    let same_out : published s config active service.id v.id ≡ some unhealthy =
      ap (published s config active service.id) same ∙ out in
    ground (arith, allowed, checked, same_out)
