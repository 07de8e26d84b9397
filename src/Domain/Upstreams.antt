-- ===== src/Domain/Upstreams.antt =====
-- crates/edge-domain/src/lib.rs: which upstreams of a service may be used, and the round robin among
-- them. Identifiers are texts; the map from upstreams to availability is a function.
pub mod RoundRobin
pub mod Members
use edge.Prelude.{
  ℕ, not, ◌||◌, length, ◌+◌, ◌∷◌, Option, wrap_u64, List, [], some, Bool, suc, zero, ◌&&◌, ◌%◌,
  none, filter, is_some,
}
use edge.Text.{Text}
use edge.Domain.Availability.{UpstreamAvailability, is_active, is_eligible, unknown}
use edge.Domain.Config.{Service, Upstream}

abbrev pub or_unknown : Option UpstreamAvailability → UpstreamAvailability
or_unknown none = unknown
or_unknown (some a) = a

-- `matches!(service.policy.health_check, HealthCheckPolicy::Http(_))`
abbrev pub health_enabled : Service → Bool
health_enabled service = is_some service.policy.health_check

unfoldable pub may_select : Bool → (Text → Option UpstreamAvailability) → Upstream → Bool
may_select checked availability u =
    is_active u.administrative_state
    && (not checked || is_eligible (or_unknown (availability u.id)))

pub data UpstreamSelection : Type 0 where
  selected : Text → ℕ → UpstreamSelection
  no_eligible_upstream : UpstreamSelection

abbrev pub nth {ℓ} : {A : Type ℓ} → A → List A → ℕ → A
nth x [] n = x
nth x (y ∷ ys) zero = x
nth x (y ∷ ys) (suc n) = nth y ys n

-- `eligible[sequence % eligible.len()]`, `x ∷ xs` the eligible upstreams: the index is below the
-- length.
unfoldable pub select_eligible : List Upstream → ℕ → UpstreamSelection
select_eligible [] sequence = no_eligible_upstream
select_eligible (x ∷ xs) sequence =
    let chosen : Upstream = nth x xs (sequence % length (x ∷ xs)) in
    selected chosen.id (wrap_u64 (sequence + 1))

unfoldable pub select_upstream :
    Service → (Text → Option UpstreamAvailability) → ℕ → UpstreamSelection
select_upstream service availability sequence =
    select_eligible (filter (may_select (health_enabled service) availability) service.upstreams)
      sequence
