-- ===== src/Application/Validation/Services.antt =====
-- crates/edge-application/src/config_validation.rs: the checks of the services and their upstreams.
use edge.Application.Validation.{ValidationError, has, is_metadata_host, problem, push_if}
use edge.Domain.Availability.{is_active}
use edge.Domain.Config.{Service, Upstream}
use edge.Domain.Endpoint.{UpstreamEndpoint, UpstreamScheme, http, https, parse_endpoint}
use edge.Domain.Errors.{ErrorCode, Result, err, ok}
use edge.Domain.Tls.{UpstreamTlsPolicy, is_https, server_authenticated, tls_disabled}
use edge.Prelude.{
  Bool, false, true, ℕ, List, [], ◌∷◌, ◌++◌, ◌==◌, ◌&&◌, all, any, is_empty, if◌then◌else◌, not,
}
use edge.Text.{Text, text_eq, txt}

abbrev same_scheme : UpstreamScheme → UpstreamScheme → Bool
same_scheme http http = true
same_scheme https https = true
same_scheme _ _ = false

abbrev same_bool : Bool → Bool → Bool
same_bool true b = b
same_bool false b = not b

abbrev pub same_endpoint : UpstreamEndpoint → UpstreamEndpoint → Bool
same_endpoint e f =
    same_scheme e.scheme f.scheme
    && text_eq e.host f.host
    && e.port == f.port
    && text_eq e.base_path f.base_path
    && same_bool e.ipv6 f.ipv6

unfoldable pub policy_matches : UpstreamScheme → UpstreamTlsPolicy → Bool
policy_matches http tls_disabled = true
policy_matches https (server_authenticated _ _ _) = true
policy_matches _ _ = false

-- The errors of one URL, and the endpoints seen behind it.
unfoldable pub endpoint_errors :
    ℕ
    → Upstream
    → List UpstreamEndpoint
    → Result UpstreamEndpoint
    → List ValidationError × List UpstreamEndpoint
unfolding is_metadata_host
endpoint_errors version u seen (err e) = (problem e.code (txt e.message) ∷ [], seen)
endpoint_errors version u seen (ok e) =
    if version == 1 && is_https e.scheme
    then (
      problem ErrorCode.config_invalid_upstream_url (txt "schema v1 upstream URL must use HTTP")
          ∷ [],
      seen,
    )
    else if not (policy_matches e.scheme u.tls)
    then (
      problem ErrorCode.config_tls_policy_invalid
            (txt "upstream scheme and TLS policy do not match")
          ∷ [],
      seen,
    )
    else if is_metadata_host e.host
    then (
      problem ErrorCode.config_unsafe_upstream_url (txt "blocked metadata upstream url: " ++ u.url)
          ∷ [],
      seen,
    )
    else (
      push_if (any (same_endpoint e) seen) (
          problem ErrorCode.config_invalid_upstream_url
            (txt "duplicate normalized upstream url: " ++ u.url)),
      e ∷ seen,
    )

unfoldable pub id_errors : Text → List Text → Text → List ValidationError
id_errors service ids id =
    if is_empty id
    then problem ErrorCode.config_upstream_id_required
        (txt "service " ++ service ++ txt " has an upstream without a name")
      ∷ []
    else push_if (has ids id) (
        problem ErrorCode.config_upstream_id_duplicate
          (txt "service " ++ service ++ txt " has duplicate upstream name: " ++ id))

unfoldable pub upstream_errors :
    ℕ → Text → List Text → List UpstreamEndpoint → List Upstream → List ValidationError
upstream_errors version service ids seen [] = []
upstream_errors version service ids seen (u ∷ upstreams) =
    let (found, seen') = endpoint_errors version u seen (parse_endpoint u.url) in
    id_errors service ids u.id
    ++ found
    ++ upstream_errors version service (if is_empty u.id then ids else u.id ∷ ids) seen' upstreams

abbrev pub is_draining : Upstream → Bool
is_draining u = not (is_active u.administrative_state)

unfoldable pub activity_errors : Service → List ValidationError
activity_errors s =
    push_if (is_empty s.upstreams)
      (problem ErrorCode.config_service_without_upstream (txt "service has no upstream: " ++ s.id))
    ++ push_if (not (is_empty s.upstreams) && all is_draining s.upstreams) (
        problem ErrorCode.config_service_without_upstream
          (txt "service has no active upstream: " ++ s.id))

unfoldable pub service_errors : ℕ → List Service → List ValidationError
service_errors version [] = []
service_errors version (s ∷ services) =
    activity_errors s
    ++ upstream_errors version s.id [] [] s.upstreams
    ++ service_errors version services
