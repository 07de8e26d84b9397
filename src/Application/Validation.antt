-- ===== src/Application/Validation.antt =====
-- crates/edge-application/src/config_validation.rs: the checks of a configuration snapshot. A set that a
-- loop inserts into is the list of what was inserted. Reading a socket address is the standard
-- library's: `loopback_of` answers `none` where it fails, and else whether the address is loopback.
pub mod Services
pub mod Snapshot
pub mod Clean
pub mod Serving
use edge.Domain.Availability.{UpstreamAdministrativeState, is_active}
use edge.Domain.Config.{
  AcmeChallenge, CertificateResolver, ConfigSnapshot, Listener, MetricsConfig, Service, Upstream,
  http01, dns01,
}
use edge.Domain.Endpoint.{UpstreamEndpoint, UpstreamScheme, http, https, parse_endpoint}
use edge.Domain.Errors.{AppError, ErrorCode, Result, ok, err}
use edge.Domain.Lock.{new_timeout_policy}
use edge.Domain.Resources.{try_new}
use edge.Domain.Routing.{PathMatch, HostMatch, Route}
use edge.Domain.Tls.{
  ListenerProtocol, UpstreamTlsPolicy, http_listener, https_listener, is_https,
  server_authenticated, tls_disabled,
}
use edge.Prelude.{
  Bool, false, true, ℕ, Option, none, some, List, [], ◌∷◌, ◌++◌, ◌==◌, ◌&&◌, ◌||◌, all, any,
  is_empty, is_none, is_some, if◌then◌else◌, map, not, String,
}
use edge.Text.{Text, ends_with, split_once, starts_with, strip_prefix, text_eq, txt}
use edge.Text.Split.{contains}

pub record ValidationError : Type 0 where
  pub code : ErrorCode
  pub message : Text

abbrev pub problem : ErrorCode → Text → ValidationError
problem code message = record { code = code; message = message }

-- `if b { errors.push(e) }`
abbrev pub push_if : Bool → ValidationError → List ValidationError
push_if false e = []
push_if true e = e ∷ []

-- `if let Err(error) = r { errors.push(...) }`
abbrev pub push_err {ℓ} : {A : Type ℓ} → Result A → List ValidationError
push_err (ok a) = []
push_err (err e) = problem e.code (txt e.message) ∷ []

-- `set.contains(t)`, and whether `set.insert(t)` finds it there.
abbrev pub has : List Text → Text → Bool
has set t = any (λ s. text_eq s t) set

abbrev pub is_http_listener : Listener → Bool
is_http_listener l = elim l.protocol [ http_listener ↦ true | https_listener ↦ false ]

unfoldable pub is_external_bind : Text → Bool
is_external_bind bind =
    is_some (strip_prefix (txt "0.0.0.0") bind) || is_some (strip_prefix (txt "[::]") bind)

unfoldable pub is_valid_email : Text → Bool
is_valid_email value = elim (split_once b'@' value) [
  | none ↦ false
  | some (name, domain) ↦
      not (is_empty name)
      && contains b'.' domain
      && not (starts_with b'.' domain)
      && not (ends_with (b'.' ∷ []) domain)
      && not (contains b'@' domain)
]

unfoldable pub is_metadata_host : Text → Bool
is_metadata_host host =
    text_eq host (txt "169.254.169.254")
    || text_eq host (txt "169.254.169.253")
    || text_eq host (txt "metadata.google.internal")
    || text_eq host (txt "metadata")
    || text_eq host (txt "instance-data")

unfoldable pub listener_errors :
    (Text → Option Bool) → List Text → List Listener → List ValidationError
listener_errors loopback_of ids [] = []
listener_errors loopback_of ids (l ∷ listeners) =
    push_if (has ids l.id)
      (problem ErrorCode.config_listener_duplicate (txt "duplicate listener: " ++ l.id))
    ++ push_if (is_none (loopback_of l.bind)) (
        problem ErrorCode.config_invalid_bind_address
          (txt "invalid listener bind address: " ++ l.bind))
    ++ listener_errors loopback_of (l.id ∷ ids) listeners

-- `Ok(address) if address.ip().is_loopback()`
abbrev is_loopback : Option Bool → Bool
is_loopback none = false
is_loopback (some loopback) = loopback

unfoldable pub bind_errors : (Text → Option Bool) → ConfigSnapshot → List ValidationError
unfolding is_external_bind
bind_errors loopback_of snapshot =
    push_if (is_none (loopback_of snapshot.admin.bind)) (
      problem ErrorCode.config_invalid_bind_address
        (txt "invalid admin bind address: " ++ snapshot.admin.bind))
    ++ push_if
        (snapshot.runtime.metrics.enabled
          && not (is_loopback (loopback_of snapshot.runtime.metrics.bind)))
        (problem ErrorCode.config_invalid_bind_address
          (txt "enabled metrics bind must be a valid loopback socket address"))
    ++ push_if (has (map (λ l. l.bind) snapshot.listeners) snapshot.admin.bind) (
        problem ErrorCode.config_admin_bind_conflict
          (txt "admin bind conflicts with listener bind"))
    ++ push_if (is_external_bind snapshot.admin.bind && not snapshot.admin.auth_required) (
        problem ErrorCode.config_admin_external_bind_without_auth
          (txt "external admin bind requires auth"))

abbrev pub is_http01 : AcmeChallenge → Bool
is_http01 http01 = true
is_http01 dns01 = false

unfoldable pub resolver_errors : Bool → Bool → List CertificateResolver → List ValidationError
unfolding is_valid_email
resolver_errors allow_production has_http_listener [] = []
resolver_errors allow_production has_http_listener (r ∷ resolvers) =
    push_if (not (is_valid_email r.email))
      (problem ErrorCode.config_invalid_acme_email (txt "invalid ACME email: " ++ r.email))
    ++ push_if (is_http01 r.challenge && not has_http_listener) (
        problem ErrorCode.config_http01_without_http_listener
          (txt "HTTP-01 requires an HTTP listener"))
    ++ push_if (r.production_enabled && not allow_production) (
        problem ErrorCode.config_production_acme_requires_opt_in
          (txt "production ACME requires explicit opt-in"))
    ++ resolver_errors allow_production has_http_listener resolvers
