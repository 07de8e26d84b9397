-- ===== src/Domain/Availability.antt =====
-- crates/edge-domain/src/lib.rs: what is known of an upstream.
use edge.Prelude.{Bool, false, true}
use edge.Text.{Text}

pub data UpstreamAvailability : Type 0 where
  disabled unknown healthy unhealthy : UpstreamAvailability

abbrev pub is_eligible : UpstreamAvailability → Bool
is_eligible unhealthy = false
is_eligible _ = true

pub data UpstreamAdministrativeState : Type 0 where
  active draining : UpstreamAdministrativeState

abbrev pub is_active : UpstreamAdministrativeState → Bool
is_active active = true
is_active draining = false

pub record UpstreamHealthKey : Type 0 where
  pub service_id : Text
  pub upstream_id : Text
