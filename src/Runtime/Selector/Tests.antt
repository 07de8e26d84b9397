-- ===== src/Runtime/Selector/Tests.antt =====
-- A retry on a concrete selector.
use edge.Application.Drain.{UpstreamDrainTracker, acquire, is_active}
use edge.Application.Entries.{get, same_key}
use edge.Application.Validation.{has}
use edge.Domain.Availability.{UpstreamHealthKey, active}
use edge.Domain.Config.{Service, Upstream, default_service_policy}
use edge.Domain.Endpoint.{UpstreamEndpoint, http}
use edge.Domain.Tls.{tls_disabled}
use edge.Domain.Upstreams.{health_enabled, may_select, select_eligible, select_upstream}
use edge.Prelude.{false, true, [], ◌∷◌, Memᴰ, none, refl, some, ◌≡◌}
use edge.Runtime.Selector.{
  RuntimeUpstreamSelection, RuntimeUpstreamSelector, availability_of, key_for, select_retry, tls_of,
}
use edge.Runtime.Selector.Retries.{select_retry-unattempted}
use edge.Text.{text_eq, txt}

abbrev upstream_a : Upstream
upstream_a = record {
  id = txt "a";
  url = txt "http://127.0.0.1:3000";
  administrative_state = active;
  tls = tls_disabled;
}

abbrev upstream_b : Upstream
upstream_b = record {
  id = txt "b";
  url = txt "http://127.0.0.1:3001";
  administrative_state = active;
  tls = tls_disabled;
}

abbrev pair : Service
pair = record {
  id = txt "app";
  upstreams = upstream_a ∷ upstream_b ∷ [];
  policy = default_service_policy;
}

abbrev endpoint_b : UpstreamEndpoint
endpoint_b = record {
  scheme = http;
  host = txt "127.0.0.1";
  port = 3001;
  base_path = [];
  ipv6 = false;
}

abbrev key_b : UpstreamHealthKey
key_b = record { service_id = txt "app"; upstream_id = txt "b" }

abbrev one_active : UpstreamDrainTracker
one_active = record {
  current_generation = some 1;
  entries =
      (record { generation = 1; key = key_b }, record { state = is_active; leases = [] }) ∷ [];
  next_lease_id = 4;
}

abbrev selector : RuntimeUpstreamSelector
selector = record {
  sequences = [];
  endpoints = (key_b, endpoint_b) ∷ [];
  availability = [];
  availability_generation = none;
  drain_generation = 1;
  drain_tracker = one_active;
}

abbrev to_b : RuntimeUpstreamSelection
to_b = record {
  upstream_id = txt "b";
  endpoint = endpoint_b;
  tls = tls_disabled;
  drain_reference = record { generation = 1; key = key_b; lease_id = 4 };
}

abbrev behind_retry : RuntimeUpstreamSelector
behind_retry = (select_retry pair (txt "a" ∷ []) selector).1

select_retry-unattempted_example :
    ((u : Upstream) × Memᴰ u pair.upstreams
      × (u.id ≡ txt "b")
      × (may_select (health_enabled pair) (availability_of selector pair) u ≡ true))
    × (has (txt "a" ∷ []) (txt "b") ≡ false)
    × (get same_key (key_for pair (txt "b")) selector.endpoints ≡ some endpoint_b)
    × (selector.sequences ≡ behind_retry.sequences)
unfolding select_retry select_upstream select_eligible text_eq may_select get tls_of acquire
select_retry-unattempted_example =
    select_retry-unattempted pair (txt "a" ∷ []) selector behind_retry to_b refl
