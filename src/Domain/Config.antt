-- ===== src/Domain/Config.antt =====
-- crates/edge-domain/src/lib.rs: a configuration snapshot and its services. Identifiers are texts, and
-- a health check that is disabled is `none`.
use edge.Domain.Availability.{UpstreamAdministrativeState}
use edge.Domain.Health.{HttpHealthCheckPolicy}
use edge.Domain.Health.Passive.{PassiveHealthPolicy}
use edge.Domain.Retry.{RetryPolicy}
use edge.Domain.Routing.{Route}
use edge.Domain.Tls.{ClientAuthPolicy, ListenerProtocol, UpstreamTlsPolicy}
use edge.Prelude.{Bool, false, ℕ, Option, none, some, List, [], ◌∷◌, if◌then◌else◌}
use edge.Text.{Text, text_eq}

pub data LoadBalancingPolicy : Type 0 where
  round_robin : LoadBalancingPolicy

pub record ServicePolicy : Type 0 where
  pub load_balancing : LoadBalancingPolicy
  pub health_check : Option HttpHealthCheckPolicy
  pub retry : RetryPolicy
  pub passive_health : Option PassiveHealthPolicy

abbrev pub default_service_policy : ServicePolicy
default_service_policy = record {
  load_balancing = round_robin;
  health_check = none;
  retry = record { enabled = false; max_retries = 1; max_replay_bytes = 32768 };
  passive_health = none;
}

pub record Upstream : Type 0 where
  pub id : Text
  pub url : Text
  pub administrative_state : UpstreamAdministrativeState
  pub tls : UpstreamTlsPolicy

pub record Service : Type 0 where
  pub id : Text
  pub upstreams : List Upstream
  pub policy : ServicePolicy

pub data LogMode : Type 0 where
  product field_debug dev : LogMode

pub record Listener : Type 0 where
  pub id : Text
  pub bind : Text
  pub protocol : ListenerProtocol
  pub client_auth : ClientAuthPolicy

pub data AcmeChallenge : Type 0 where
  http01 dns01 : AcmeChallenge

pub record CertificateResolver : Type 0 where
  pub id : Text
  pub email : Text
  pub challenge : AcmeChallenge
  pub production_enabled : Bool

pub record MetricsConfig : Type 0 where
  pub enabled : Bool
  pub bind : Text

pub record AdminConfig : Type 0 where
  pub bind : Text
  pub auth_required : Bool

pub record RuntimeOptions : Type 0 where
  pub max_connections : ℕ
  pub max_inflight_payload_bytes : ℕ
  pub max_request_header_bytes : ℕ
  pub max_request_body_bytes : ℕ
  pub upstream_read_timeout_ms : ℕ
  pub metrics : MetricsConfig

pub record ConfigSnapshot : Type 0 where
  pub schema_version : ℕ
  pub revision_id : Text
  pub admin : AdminConfig
  pub listeners : List Listener
  pub routes : List Route
  pub services : List Service
  pub certificate_resolvers : List CertificateResolver
  pub log_mode : LogMode
  pub runtime : RuntimeOptions

-- `find`: the first service of that name.
unfoldable pub find_in : Text → List Service → Option Service
find_in id [] = none
find_in id (s ∷ rest) = if text_eq s.id id then some s else find_in id rest

unfoldable pub find_service : ConfigSnapshot → Text → Option Service
unfolding find_in
find_service snapshot id = find_in id snapshot.services

abbrev first_upstream : List Upstream → Option Upstream
first_upstream [] = none
first_upstream (u ∷ us) = some u

abbrev pub primary_upstream : Service → Option Upstream
primary_upstream service = first_upstream service.upstreams
