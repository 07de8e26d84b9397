-- ===== src/Application/Validation/Snapshot.antt =====
-- crates/edge-application/src/config_validation.rs: the checks of the routes, and of a whole snapshot.
use edge.Application.Validation.{
  ValidationError, bind_errors, has, is_http01, is_http_listener, listener_errors, problem,
  push_err, push_if, resolver_errors,
}
use edge.Application.Validation.Services.{service_errors}
use edge.Domain.Config.{CertificateResolver, ConfigSnapshot}
use edge.Domain.Errors.{ErrorCode}
use edge.Domain.Lock.{new_timeout_policy}
use edge.Domain.Resources.{try_new}
use edge.Domain.Routing.{HostMatch, PathMatch, Route}
use edge.Prelude.{
  Bool, false, Option, none, some, List, [], ◌∷◌, ◌++◌, ◌&&◌, ◌||◌, any, is_empty, is_none,
  if◌then◌else◌, map, not,
}
use edge.Text.{Text, text_eq, txt}

-- `format!("{}{}", host.as_str(), path.as_str())` for every host and path of a route.
abbrev keys_of_host : List PathMatch → HostMatch → List Text
keys_of_host paths h = map (λ p. h.normalized ++ p.prefix) paths

abbrev flat_keys : List PathMatch → List HostMatch → List Text
flat_keys paths [] = []
flat_keys paths (h ∷ hosts) = keys_of_host paths h ++ flat_keys paths hosts

abbrev pub route_keys : Route → List Text
route_keys r = flat_keys r.route_match.paths r.route_match.hosts

unfoldable pub key_errors : List Text → List Text → List ValidationError
key_errors seen [] = []
key_errors seen (key ∷ keys) =
    push_if (has seen key)
      (problem ErrorCode.config_route_duplicate (txt "duplicate normalized host/path route"))
    ++ key_errors (key ∷ seen) keys

unfoldable pub resolver_named : Text → List CertificateResolver → Option CertificateResolver
resolver_named id [] = none
resolver_named id (r ∷ resolvers) = if text_eq r.id id then some r else resolver_named id resolvers

abbrev find_resolver : Option Text → List CertificateResolver → Option CertificateResolver
find_resolver none resolvers = none
find_resolver (some id) resolvers = resolver_named id resolvers

abbrev uses_http01 : Option CertificateResolver → Bool
uses_http01 none = false
uses_http01 (some r) = is_http01 r.challenge

unfoldable pub redirect_errors : List CertificateResolver → Route → List ValidationError
redirect_errors resolvers r =
    push_if
      (r.redirect_http_to_https && (is_none r.certificate_ref && is_none r.certificate_resolver_id))
      (problem ErrorCode.config_https_route_certificate_missing
        (txt "route has HTTPS redirect without certificate: " ++ r.id))
    ++ push_if
        (r.redirect_http_to_https
          && uses_http01 (find_resolver r.certificate_resolver_id resolvers))
        (problem ErrorCode.config_acme_challenge_blocked_by_redirect
          (txt "HTTP-01 challenge must bypass HTTPS redirect"))

unfoldable pub route_errors :
    ConfigSnapshot → List Text → List Text → List Route → List ValidationError
route_errors snapshot ids keys [] = []
route_errors snapshot ids keys (r ∷ routes) =
    push_if (has ids r.id)
      (problem ErrorCode.config_route_duplicate (txt "duplicate route: " ++ r.id))
    ++ push_if (is_empty r.route_match.hosts || is_empty r.route_match.paths) (
        problem ErrorCode.config_route_match_empty
          (txt "route has empty host/path match: " ++ r.id))
    ++ push_if (not (has (map (λ s. s.id) snapshot.services) r.service_id)) (
        problem ErrorCode.config_route_missing_service
          (txt "route references missing service: " ++ r.service_id))
    ++ key_errors keys (route_keys r)
    ++ redirect_errors snapshot.certificate_resolvers r
    ++ route_errors snapshot (r.id ∷ ids) (route_keys r ++ keys) routes

unfoldable pub validate_snapshot :
    (Text → Option Bool) → Bool → ConfigSnapshot → List ValidationError
validate_snapshot loopback_of allow_production_acme snapshot =
    push_err (try_new snapshot.runtime.max_connections snapshot.runtime.max_inflight_payload_bytes)
    ++ push_err (new_timeout_policy snapshot.runtime.upstream_read_timeout_ms)
    ++ listener_errors loopback_of [] snapshot.listeners
    ++ bind_errors loopback_of snapshot
    ++ resolver_errors allow_production_acme (any is_http_listener snapshot.listeners)
        snapshot.certificate_resolvers
    ++ service_errors snapshot.schema_version snapshot.services
    ++ route_errors snapshot [] [] snapshot.routes

pub record ConfigSource : Type 0 where
  pub snapshot : ConfigSnapshot
  pub schema_version_present : Bool
  pub unknown_fields : List Text

-- `join(", ")`
abbrev join_comma : List Text → Text
join_comma [] = []
join_comma (t ∷ []) = t
join_comma (t ∷ u ∷ ts) = t ++ txt ", " ++ join_comma (u ∷ ts)

-- `validate_source` of a validator with the two flags of `ConfigValidator`.
unfoldable pub validate_source :
    (Text → Option Bool) → Bool → Bool → ConfigSource → List ValidationError
unfolding validate_snapshot
validate_source loopback_of reject_unknown_fields allow_production_acme source =
    validate_snapshot loopback_of allow_production_acme source.snapshot
    ++ push_if (not source.schema_version_present)
        (problem ErrorCode.config_schema_version_missing (txt "schema_version is required"))
    ++ push_if (reject_unknown_fields && not (is_empty source.unknown_fields)) (
        problem ErrorCode.config_schema_version_missing
          (txt "unknown fields: " ++ join_comma source.unknown_fields))
