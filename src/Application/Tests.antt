-- ===== src/Application/Tests.antt =====
-- The services of crates/edge-application on concrete values.
use edge.Application.Drain.{
  DrainReference, UpstreamDrainTracker, acquire, from_snapshot, install, lease_released,
  new_tracker, release, status,
}
use edge.Application.Drain.Calls.{acquire_for, perform_all, perform_all-IsSettled, reconcile_with}
use edge.Application.Drain.Leases.{release-acquire}
use edge.Application.Drain.Settled.{IsSettled}
use edge.Application.Entries.{put, get, put}
use edge.Application.PassiveHealth.{
  effective_availability, cover_upstreams, effective_entry, HealthAvailabilitySnapshot,
  PassiveHealthSupervisor, passive_state,
}
use edge.Application.PassiveHealth.Selection.{published, select_upstream-ejected}
use edge.Application.Validation.{
  bind_errors, is_external_bind, is_metadata_host, listener_errors, resolver_errors,
}
use edge.Application.Validation.Clean.{IsReachable}
use edge.Application.Validation.Services.{
  activity_errors, endpoint_errors, id_errors, policy_matches, service_errors, upstream_errors,
}
use edge.Domain.Lock.{new_timeout_policy}
use edge.Domain.Resources.{try_new}
use edge.Domain.Endpoint.{
  is_ipv4_literal, parse_authority, parse_endpoint, parse_plain, parse_port, parse_scheme,
  split_authority,
}
use edge.Application.Validation.Serving.{select_upstream-validated}
use edge.Application.Validation.Snapshot.{
  key_errors, redirect_errors, route_errors, validate_snapshot,
}
use edge.Domain.Availability.{
  unhealthy, UpstreamAvailability, UpstreamHealthKey, active, draining, is_active,
}
use edge.Domain.Config.{
  ConfigSnapshot, Listener, Service, Upstream, default_service_policy, find_service, product,
}
use edge.Domain.Health.{HttpHealthCheckPolicy}
use edge.Domain.Health.Passive.{ejected}
use edge.Domain.Routing.{
  host_matches, last_max, normalize_host, normalize_path, path_matches, route_match_matches,
  route_matches, Route, exact_host, prefix_path, select_route,
}
use edge.Domain.Tls.{auth_disabled, http_listener, tls_disabled}
use edge.Domain.Upstreams.{select_eligible, may_select, select_upstream, selected}
use edge.Prelude.{
  Bool, false, true, ℕ, Option, none, some, [], ◌∷◌, ◌≡◌, ◌≢◌, Memᴰ, refl, pos, wrap_u64, inl, ◌+◌,
}
use edge.Text.{
  Text, from_str_radix, parse_u16, parse_u8, split_char, split_once, strip_prefix, text_eq, trim,
  trim_end, trim_end_matches, trim_start, is_whitespace, txt,
}
use edge.Text.Split.{rsplit_once}

abbrev upstream_a : Upstream
upstream_a = record {
  id = txt "a";
  url = txt "http://127.0.0.1:3000";
  administrative_state = active;
  tls = tls_disabled;
}

abbrev upstream_b : Upstream
upstream_b = record {
  id = txt "b";
  url = txt "http://127.0.0.1:3001";
  administrative_state = draining;
  tls = tls_disabled;
}

abbrev app : Service
app = record {
  id = txt "app";
  upstreams = upstream_b ∷ upstream_a ∷ [];
  policy = default_service_policy;
}

abbrev app_route : Route
app_route = record {
  id = txt "r";
  route_match = record {
    hosts = exact_host (txt "example.test") ∷ [];
    paths = prefix_path (txt "/") ∷ [];
  };
  service_id = txt "app";
  priority = pos 0;
  enabled = true;
  redirect_http_to_https = false;
  certificate_resolver_id = none;
  certificate_ref = none;
}

abbrev web : Listener
web = record {
  id = txt "web";
  bind = txt "0.0.0.0:8080";
  protocol = http_listener;
  client_auth = auth_disabled;
}

abbrev small_snapshot : ConfigSnapshot
small_snapshot = record {
  schema_version = 1;
  revision_id = txt "rev";
  admin = record { bind = txt "127.0.0.1:9443"; auth_required = true };
  listeners = web ∷ [];
  routes = app_route ∷ [];
  services = app ∷ [];
  certificate_resolvers = [];
  log_mode = product;
  runtime = record {
    max_connections = 1024;
    max_inflight_payload_bytes = 134217728;
    max_request_header_bytes = 16384;
    max_request_body_bytes = 1048576;
    upstream_read_timeout_ms = 30000;
    metrics = record { enabled = false; bind = txt "127.0.0.1:9464" };
  };
}

-- Every address that occurs can be read, as one that is not loopback.
abbrev reads_any : Text → Option Bool
reads_any address = some false

abbrev nothing_known : Text → Option UpstreamAvailability
nothing_known id = none

small_snapshot-valid : validate_snapshot reads_any false small_snapshot ≡ []
unfolding validate_snapshot try_new new_timeout_policy listener_errors bind_errors text_eq
    strip_prefix resolver_errors service_errors activity_errors upstream_errors id_errors
    endpoint_errors parse_endpoint parse_scheme split_authority split_once policy_matches key_errors
    redirect_errors route_errors is_external_bind is_metadata_host is_ipv4_literal parse_authority
    parse_plain parse_port rsplit_once from_str_radix parse_u16 parse_u8 split_char
small_snapshot-valid = refl

app_route-selected :
    select_route small_snapshot.routes (txt "example.test") (txt "/x") ≡ some app_route
unfolding select_route last_max route_matches route_match_matches host_matches text_eq
    normalize_host trim_end_matches trim trim_end trim_start is_whitespace path_matches
    normalize_path
app_route-selected = refl

select_upstream-validated_example :
    (service : Service) × (find_service small_snapshot (txt "app") ≡ some service)
    × (u : Upstream) × Memᴰ u service.upstreams
    × (is_active u.administrative_state ≡ true)
    × IsReachable 1 u
    × (select_upstream service nothing_known 7 ≡ selected u.id (wrap_u64 (7 + 1)))
select_upstream-validated_example =
    select_upstream-validated reads_any false small_snapshot (txt "example.test") (txt "/x")
      app_route nothing_known 7 small_snapshot-valid app_route-selected (λ id. refl)

abbrev supervisor : PassiveHealthSupervisor
supervisor = record {
  revision_id = txt "rev";
  generation = 1;
  targets =
      (
        record { service_id = txt "app"; upstream_id = txt "a" },
        record {
          policy = record { failure_threshold = 2; ejection_ms = 1000 };
          state = ejected 1020;
        },
      )
      ∷ [];
}

abbrev no_checks : HealthAvailabilitySnapshot
no_checks = record { revision_id = txt "rev"; generation = 1; entries = [] }

abbrev check_policy : HttpHealthCheckPolicy
check_policy = record {
  path = txt "/health";
  interval_ms = 10000;
  timeout_ms = 2000;
  healthy_threshold = 2;
  unhealthy_threshold = 3;
  status_min = 200;
  status_max = 399;
}

abbrev checked_app : Service
checked_app = record app {
  policy = record default_service_policy { health_check = some check_policy };
}

abbrev checked_snapshot : ConfigSnapshot
checked_snapshot = record small_snapshot { services = checked_app ∷ [] }

select_upstream-ejected_example :
    select_upstream checked_app (published supervisor checked_snapshot no_checks (txt "app")) 0
    ≢ selected (txt "a") 1
unfolding passive_state get text_eq
select_upstream-ejected_example =
    select_upstream-ejected supervisor checked_snapshot no_checks checked_app upstream_a 1020 0 1
      (Memᴰ.head refl) (Memᴰ.tail (Memᴰ.head refl)) refl (inl refl)

-- Without an active health check the ejected upstream is selected all the same.
unchecked_ejected :
    (published supervisor small_snapshot no_checks (txt "app") (txt "a") ≡ some unhealthy)
    × (select_upstream app (published supervisor small_snapshot no_checks (txt "app")) 0
        ≡ selected (txt "a") 1)
unfolding passive_state get text_eq effective_availability cover_upstreams put effective_entry
    select_upstream select_eligible may_select
unchecked_ejected = (refl, refl)

abbrev key_a : UpstreamHealthKey
key_a = record { service_id = txt "app"; upstream_id = txt "a" }

abbrev small_calls_end : UpstreamDrainTracker
small_calls_end =
    perform_all (reconcile_with small_snapshot 1 ∷ acquire_for 1 key_a ∷ []) new_tracker

perform_all-IsSettled_example : IsSettled small_calls_end
perform_all-IsSettled_example =
    perform_all-IsSettled (reconcile_with small_snapshot 1 ∷ acquire_for 1 key_a ∷ [])

abbrev tracker : UpstreamDrainTracker
tracker = from_snapshot small_snapshot 1

abbrev first_lease : DrainReference
first_lease = record { generation = 1; key = key_a; lease_id = 0 }

abbrev leased_tracker : UpstreamDrainTracker
leased_tracker = (acquire 1 key_a tracker).1

release-acquire_example :
    ((release first_lease leased_tracker).0 ≡ lease_released)
    × ((g : ℕ) (k : UpstreamHealthKey)
        → status g k (release first_lease leased_tracker).1 ≡ status g k tracker)
unfolding acquire from_snapshot get install put text_eq
release-acquire_example = release-acquire 1 key_a tracker leased_tracker first_lease refl refl
