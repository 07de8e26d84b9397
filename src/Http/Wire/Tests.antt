-- ===== src/Http/Wire/Tests.antt =====
-- The request for an upstream, on a concrete request.
use edge.Domain.Endpoint.{UpstreamEndpoint, http, join_path}
use edge.Domain.Tls.{tls_disabled}
use edge.Http.Forwarding.{connection_header_tokens, forwarded_headers}
use edge.Http.Request.{HttpRequest}
use edge.Http.Wire.{build_selected_upstream_request, is_forwarded_header, outgoing_headers, wire}
use edge.Http.Wire.Hops.{build_selected_upstream_request-connection, sent_headers}
use edge.Http.Wire.Identity.{outgoing_headers-forwarded}
use edge.Http.Wire.Length.{build_selected_upstream_request-wire, granted, selected_wire}
use edge.Prelude.{Bool, false, true, ℕ, [], ◌∷◌, ◌≡◌, filter, leb, some}
use edge.Text.{txt}

abbrev spoofed : HttpRequest
spoofed = record {
  method = txt "GET";
  path = txt "/x";
  version = txt "HTTP/1.1";
  headers =
      record { name = txt "Host"; value = txt "example.test" }
      ∷ record { name = txt "x-forwarded-for"; value = txt "10.0.0.1" }
      ∷ [];
  body = 65 ∷ [];
}

abbrev local_upstream : UpstreamEndpoint
local_upstream = record {
  scheme = http;
  host = txt "127.0.0.1";
  port = 3000;
  base_path = txt "/api";
  ipv6 = false;
}

abbrev up_to_a_page : ℕ → Bool
up_to_a_page n = leb n 4096

build_selected_upstream_request-wire_example :
    build_selected_upstream_request up_to_a_page spoofed local_upstream tls_disabled
      (txt "192.0.2.1")
      (txt "http")
      (txt "example.test")
      false
      true
    ≡ granted up_to_a_page (
        selected_wire spoofed local_upstream tls_disabled
          (txt "192.0.2.1")
          (txt "http")
          (txt "example.test")
          false
          true)
build_selected_upstream_request-wire_example =
    build_selected_upstream_request-wire up_to_a_page spoofed local_upstream tls_disabled
      (txt "192.0.2.1") (txt "http") (txt "example.test") false true

outgoing_headers-forwarded_example :
    filter is_forwarded_header (
      outgoing_headers spoofed
        (txt "192.0.2.1")
        (txt "http")
        (txt "example.test")
        false
        (some (txt "api.test")))
    ≡ forwarded_headers (txt "192.0.2.1") (txt "http") (txt "example.test")
outgoing_headers-forwarded_example =
    outgoing_headers-forwarded spoofed (txt "192.0.2.1") (txt "http") (txt "example.test") false
      (some (txt "api.test"))

-- A client that keeps a field of its own from the upstream.
abbrev listed : HttpRequest
listed = record spoofed {
  headers =
      record { name = txt "Connection"; value = txt "keep-alive, X-Secret" }
      ∷ record { name = txt "X-Secret"; value = txt "1" }
      ∷ spoofed.headers;
}

build_selected_upstream_request-connection_example :
    let headers =
      sent_headers listed tls_disabled
        (txt "192.0.2.1")
        (txt "http")
        (txt "example.test")
        false
        false in
    (build_selected_upstream_request up_to_a_page listed local_upstream tls_disabled
        (txt "192.0.2.1")
        (txt "http")
        (txt "example.test")
        false
        false
      ≡ granted up_to_a_page (wire listed (join_path local_upstream listed.path) headers false))
    × (connection_header_tokens headers ≡ txt "close" ∷ [])
build_selected_upstream_request-connection_example =
    build_selected_upstream_request-connection up_to_a_page listed local_upstream tls_disabled
      (txt "192.0.2.1") (txt "http") (txt "example.test") false false
