-- ===== src/Domain/Tests.antt =====
-- The types of crates/edge-domain on concrete values.
use edge.Prelude.{
  [], ◌∷◌, none, true, false, refl, ◌≡◌, ◌↔◌, ◌++◌, arith, List, pos, Option, drop, take, some,
}
use edge.Text.{txt, Text}
use edge.Domain.Endpoint.{
  UpstreamEndpoint, as_url, http, https, is_ipv4_literal, is_ipv6_literal, parse_authority,
  parse_bracketed, parse_endpoint, parse_optional_port_with_default, parse_plain, parse_port,
  parse_scheme, split_authority, valid_groups,
}
use edge.Domain.Endpoint.Canonical.{parse_endpoint-as_url-parsed}
use edge.Domain.Errors.{ok}
use edge.Domain.Availability.{UpstreamAvailability, active, draining}
use edge.Domain.Config.{Service, Upstream, default_service_policy}
use edge.Domain.Tls.{
  NormalizedUpstreamPolicy, normalize_upstream_tls_policy, parse_bundle_ref, parse_http_host,
  parse_server_name, server_authenticated, tls_disabled, valid_dns_name,
}
use edge.Domain.Tls.Policies.{IsConsistentTls, normalize_upstream_tls_policy-IsConsistentTls}
use edge.Text.{
  parse_u16, ends_with, from_str_radix, is_whitespace, parse_u8, trim_end_matches, split_char,
  split_once, strip_prefix,
}
use edge.Text.Split.{rsplit_once, split_colons}
use edge.Domain.Upgrade.{OfflineUpgradeState, upgrade_transition, walk-committed}
use edge.Domain.Upstreams.{may_select}
use edge.Domain.Upstreams.RoundRobin.{choices, choices-rotation, ids}
use edge.Domain.Health.{HttpHealthCheckPolicy, HealthObservation, succeeded, failed}
use edge.Domain.Health.Streaks.{state_after, state_of, verdict, streak, state_after_lem}
use edge.Domain.Health.Passive.{PassiveHealthPolicy}
use edge.Domain.Routing.{
  Route, exact_host, prefix_path, normalize_path, select_route, path_matches, PathMatch,
}
use edge.Domain.Routing.Paths.{IsSegmentPrefix, path_matches-IsSegmentPrefix}
use edge.Domain.Routing.Selection.{IsSelection, select_route-IsSelection}

abbrev upstream_a : Upstream
upstream_a = record {
  id = txt "a";
  url = txt "http://127.0.0.1:3000";
  administrative_state = active;
  tls = tls_disabled;
}

abbrev upstream_b : Upstream
upstream_b = record upstream_a { id = txt "b"; administrative_state = draining }

abbrev upstream_c : Upstream
upstream_c = record upstream_a { id = txt "c" }

abbrev three_upstreams : Service
three_upstreams = record {
  id = txt "s";
  upstreams = upstream_a ∷ upstream_b ∷ upstream_c ∷ [];
  policy = default_service_policy;
}

abbrev nothing_known : Text → Option UpstreamAvailability
nothing_known id = none

choices-rotation_example :
    choices three_upstreams nothing_known 2 7
    ≡ ids (drop 1 (upstream_a ∷ upstream_c ∷ [])) ++ ids (take 1 (upstream_a ∷ upstream_c ∷ []))
unfolding may_select
choices-rotation_example =
    choices-rotation three_upstreams nothing_known (upstream_a ∷ upstream_c ∷ []) 7 1 refl
      (ground arith) refl (omega arith)

abbrev passive_policy : PassiveHealthPolicy
passive_policy = record { failure_threshold = 2; ejection_ms = 1000 }

abbrev check_policy : HttpHealthCheckPolicy
check_policy = record {
  path = txt "/health";
  interval_ms = 10000;
  timeout_ms = 2000;
  healthy_threshold = 2;
  unhealthy_threshold = 3;
  status_min = 200;
  status_max = 399;
}

abbrev checks : List HealthObservation
checks = failed ∷ succeeded ∷ succeeded ∷ []

state_after_lem_example :
    state_after check_policy checks
    ≡ state_of (verdict check_policy checks) (streak succeeded checks) (streak failed checks)
state_after_lem_example = state_after_lem check_policy checks refl refl

abbrev api_route : Route
api_route = record {
  id = txt "api";
  route_match = record {
    hosts = exact_host (txt "example.test") ∷ [];
    paths = prefix_path (txt "/api") ∷ [];
  };
  service_id = txt "s";
  priority = pos 0;
  enabled = true;
  redirect_http_to_https = false;
  certificate_resolver_id = none;
  certificate_ref = none;
}

select_route-IsSelection_example :
    IsSelection
      (txt "example.test")
      (txt "/api/x")
      (api_route ∷ [])
      (select_route (api_route ∷ []) (txt "example.test") (txt "/api/x"))
select_route-IsSelection_example =
    select_route-IsSelection (txt "example.test") (txt "/api/x") (api_route ∷ [])

abbrev api_prefix : PathMatch
api_prefix = record { prefix = txt "/api"; exact = false }

path_matches-IsSegmentPrefix_example :
    (path_matches api_prefix (txt "/apix") ≡ true)
    ↔ IsSegmentPrefix (txt "/api") (normalize_path (txt "/apix"))
path_matches-IsSegmentPrefix_example =
    path_matches-IsSegmentPrefix api_prefix (txt "/apix") refl (ground arith)

abbrev ipv6_url : Text
ipv6_url = txt "http://[2001:DB8::1]:8080/api"

abbrev ipv6_endpoint : UpstreamEndpoint
ipv6_endpoint = record {
  scheme = http;
  host = txt "2001:db8::1";
  port = 8080;
  base_path = txt "/api";
  ipv6 = true;
}

parse_endpoint-as_url-parsed_example : parse_endpoint (as_url ipv6_endpoint) ≡ ok ipv6_endpoint
unfolding parse_endpoint split_authority parse_scheme parse_authority parse_bracketed
    is_ipv6_literal parse_optional_port_with_default parse_port valid_groups strip_prefix split_once
    split_colons split_char parse_u16 from_str_radix
parse_endpoint-as_url-parsed_example = parse_endpoint-as_url-parsed ipv6_url ipv6_endpoint refl

abbrev https_endpoint : UpstreamEndpoint
https_endpoint = record {
  scheme = https;
  host = txt "127.0.0.1";
  port = 443;
  base_path = [];
  ipv6 = false;
}

abbrev https_policy : NormalizedUpstreamPolicy
https_policy = record {
  endpoint = https_endpoint;
  tls = server_authenticated (txt "api.test") (txt "api.test:8443") (txt "roots");
}

normalize_upstream_tls_policy-IsConsistentTls_example :
    (parse_endpoint (txt "https://127.0.0.1") ≡ ok https_endpoint)
    × IsConsistentTls 2
        (some (txt "API.test."))
        (some (txt "api.test:8443"))
        (some (txt "roots"))
        https
        https_policy.tls
unfolding parse_endpoint split_authority parse_scheme parse_authority parse_plain is_ipv6_literal
    is_ipv4_literal parse_port normalize_upstream_tls_policy parse_server_name parse_http_host
    parse_bundle_ref valid_dns_name strip_prefix split_once rsplit_once split_char parse_u8
    from_str_radix trim_end_matches ends_with is_whitespace parse_u16
normalize_upstream_tls_policy-IsConsistentTls_example =
    normalize_upstream_tls_policy-IsConsistentTls 2 (txt "https://127.0.0.1")
      (some (txt "API.test.")) (some (txt "api.test:8443")) (some (txt "roots")) https_policy refl

abbrev upgrade_steps : List OfflineUpgradeState
upgrade_steps =
    OfflineUpgradeState.is_draining ∷ OfflineUpgradeState.stopped ∷ OfflineUpgradeState.switched
    ∷ OfflineUpgradeState.ready ∷ OfflineUpgradeState.committed ∷ []

walk-committed_example :
    upgrade_steps
    ≡ OfflineUpgradeState.is_draining ∷ OfflineUpgradeState.stopped ∷ OfflineUpgradeState.switched
      ∷ OfflineUpgradeState.ready ∷ OfflineUpgradeState.committed ∷ []
unfolding upgrade_transition
walk-committed_example = walk-committed upgrade_steps refl
