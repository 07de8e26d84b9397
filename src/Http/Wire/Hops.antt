-- ===== src/Http/Wire/Hops.antt =====
-- What the request for the selected upstream says of its connection.
use edge.Domain.Endpoint.{UpstreamEndpoint, join_path}
use edge.Domain.Tls.{UpstreamTlsPolicy}
use edge.Http.Forwarding.{connection_header_tokens, forwarded_headers, upstream_request_headers}
use edge.Http.Forwarding.Hops.{
  connection_header_tokens-append, connection_header_tokens-upstream_request_headers, is_connection,
}
use edge.Http.Request.{Header, HttpRequest}
use edge.Http.Wire.{
  build_selected_upstream_request, close_line, header_lines, host_override_of, is_forwarded_header,
  outgoing_headers, override_host, set_host, wire,
}
use edge.Http.Wire.Length.{build_selected_upstream_request-wire, granted}
use mathlib.Core.List.{append_assoc, append-nil}
use edge.Prelude.{
  Bool, Bool-cases, false, true, ℕ, List, [], ◌∷◌, ◌++◌, arith, ◌&&◌, ◌≡◌, ◌∙◌, Option, ap, filter,
  inl, inr, if◌then◌else◌, none, not, refl, some, sym,
}
use edge.Text.{
  Text, crlf, eq_ignore_ascii_case, into_bytes, text_eq, text_eq_iff, to_ascii_lowercase, txt, trim,
  trim_start, trim_end, split_char, is_whitespace,
}

-- `connection_header_tokens` looks at `Connection` fields only.
skip_head :
    (h : Header) (headers : List Header)
    → is_connection h ≡ false
    → connection_header_tokens (h ∷ headers) ≡ connection_header_tokens headers
unfolding connection_header_tokens
skip_head h headers e = rw e refl

host-not_connection :
    (h : Header) → eq_ignore_ascii_case h.name (txt "Host") ≡ true → is_connection h ≡ false
unfolding eq_ignore_ascii_case text_eq
host-not_connection h e =
    let name : to_ascii_lowercase h.name ≡ txt "host" =
      (text_eq_iff (to_ascii_lowercase h.name) (txt "host")).0 e in
    rw name refl

named-not_connection :
    (name : Text) (h : Header)
    → text_eq name (txt "connection") ≡ false
    → text_eq (to_ascii_lowercase h.name) name ≡ true
    → is_connection h ≡ false
unfolding eq_ignore_ascii_case
named-not_connection name h other e = rw ((text_eq_iff (to_ascii_lowercase h.name) name).0 e) other

forwarded-not_connection : (h : Header) → is_forwarded_header h ≡ true → is_connection h ≡ false
unfolding is_forwarded_header text_eq
forwarded-not_connection h e =
    let name = to_ascii_lowercase h.name in
    elim (Bool-cases (text_eq name (txt "x-forwarded-for"))) [
      | inl t ↦ named-not_connection (txt "x-forwarded-for") h refl t
      | inr f ↦ elim (Bool-cases (text_eq name (txt "x-forwarded-proto"))) [
        | inl t ↦ named-not_connection (txt "x-forwarded-proto") h refl t
        | inr g ↦ named-not_connection (txt "x-forwarded-host") h refl (ground (arith, e, f, g))
      ]
    ]

connection_header_tokens-set_host :
    (value : Text) (headers : List Header)
    → connection_header_tokens (set_host value headers) ≡ connection_header_tokens headers
unfolding set_host connection_header_tokens
connection_header_tokens-set_host value [] = refl
connection_header_tokens-set_host value (h ∷ headers) =
    elim (Bool-cases (eq_ignore_ascii_case h.name (txt "Host"))) [
      | inl e ↦ rw (e, host-not_connection h e) refl
      | inr e ↦ rw (e, connection_header_tokens-set_host value headers) refl
    ]

connection_header_tokens-override_host :
    (o : Option Text) (headers : List Header)
    → connection_header_tokens (override_host o headers) ≡ connection_header_tokens headers
connection_header_tokens-override_host none headers = refl
connection_header_tokens-override_host (some host) headers =
    connection_header_tokens-set_host host headers

connection_header_tokens-others :
    (headers : List Header)
    → connection_header_tokens (filter (λ h. not (is_forwarded_header h)) headers)
      ≡ connection_header_tokens headers
unfolding connection_header_tokens
connection_header_tokens-others [] = refl
connection_header_tokens-others (h ∷ headers) = elim (Bool-cases (is_forwarded_header h)) [
  | inl e ↦ rw (e, forwarded-not_connection h e) (connection_header_tokens-others headers)
  | inr e ↦ rw (e, connection_header_tokens-others headers) refl
]

forwarded_headers-tokens :
    (client_ip scheme host : Text)
    → connection_header_tokens (forwarded_headers client_ip scheme host) ≡ []
unfolding connection_header_tokens eq_ignore_ascii_case text_eq
forwarded_headers-tokens client_ip scheme host = refl

connection_header_tokens-outgoing_headers :
    (request : HttpRequest) (client_ip scheme host : Text) (preserve : Bool) (o : Option Text)
    → connection_header_tokens (outgoing_headers request client_ip scheme host preserve o)
      ≡ (if preserve then txt "upgrade" ∷ [] else [])
unfolding outgoing_headers
connection_header_tokens-outgoing_headers request client_ip scheme host preserve o =
    let kept = upstream_request_headers request.headers preserve in
    connection_header_tokens-override_host o _
    ∙ connection_header_tokens-append (filter (λ h. not (is_forwarded_header h)) kept)
        (forwarded_headers client_ip scheme host)
    ∙ ap (λ l. l ++ connection_header_tokens (forwarded_headers client_ip scheme host))
        (connection_header_tokens-others kept)
    ∙ ap (λ l. connection_header_tokens kept ++ l) (forwarded_headers-tokens client_ip scheme host)
    ∙ append-nil (connection_header_tokens kept)
    ∙ connection_header_tokens-upstream_request_headers request.headers preserve

-- The field that `close_line` writes.
abbrev pub close_header : Header
close_header = record { name = txt "Connection"; value = txt "close" }

-- All header fields of the request, in the order in which they are written.
abbrev pub sent_headers :
    HttpRequest → UpstreamTlsPolicy → Text → Text → Text → Bool → Bool → List Header
sent_headers request tls client_ip scheme host preserve keep_alive =
    outgoing_headers request client_ip scheme host preserve (host_override_of tls)
    ++ (if not preserve && not keep_alive then close_header ∷ [] else [])

header_lines-append :
    (hs ks : List Header) → header_lines (hs ++ ks) ≡ header_lines hs ++ header_lines ks
unfolding header_lines
header_lines-append [] ks = refl
header_lines-append (h ∷ hs) ks =
    let line = into_bytes (h.name ++ txt ": " ++ h.value ++ crlf) in
    ap (λ l. line ++ l) (header_lines-append hs ks)
    ∙ sym (append_assoc line (header_lines hs) (header_lines ks))

close_lines : header_lines (close_header ∷ []) ≡ close_line true
unfolding header_lines into_bytes
close_lines = refl

abbrev with_close : Bool → List Header → List Header
with_close close headers = headers ++ (if close then close_header ∷ [] else [])

wire-with_close :
    (request : HttpRequest) (path : Text) (headers : List Header) (close : Bool)
    → wire request path headers close ≡ wire request path (with_close close headers) false
unfolding wire
wire-with_close request path headers false = rw (append-nil headers) refl
wire-with_close request path headers true =
    let line =
      into_bytes (request.method ++ txt " " ++ path ++ txt " " ++ request.version ++ crlf) in
    let same : line ++ header_lines headers ++ close_line true
        ≡ line ++ header_lines (with_close true headers) ++ [] =
      append_assoc line (header_lines headers) (close_line true)
      ∙ ap (λ l. line ++ (header_lines headers ++ l)) (sym close_lines)
      ∙ ap (λ l. line ++ l) (sym (header_lines-append headers (close_header ∷ [])))
      ∙ sym (append-nil (line ++ header_lines (with_close true headers))) in
    ap (λ l. l ++ crlf ++ request.body) same

-- The tokens that a request announces.
abbrev pub announced : Bool → Bool → List Text
announced true keep_alive = txt "upgrade" ∷ []
announced false true = []
announced false false = txt "close" ∷ []

close_token : connection_header_tokens (close_header ∷ []) ≡ txt "close" ∷ []
unfolding connection_header_tokens eq_ignore_ascii_case text_eq trim trim_start trim_end split_char
    is_whitespace
close_token = refl

sent_tokens :
    (tokens : List Text) (preserve keep_alive : Bool)
    → tokens ≡ (if preserve then txt "upgrade" ∷ [] else [])
    → tokens
        ++ connection_header_tokens
            (if not preserve && not keep_alive then close_header ∷ [] else [])
      ≡ announced preserve keep_alive
unfolding connection_header_tokens
sent_tokens tokens true keep_alive e = append-nil tokens ∙ e
sent_tokens tokens false true e = append-nil tokens ∙ e
sent_tokens tokens false false e =
    ap (λ l. l ++ connection_header_tokens (close_header ∷ [])) e ∙ close_token

-- What is sent to the selected upstream is the request with the fields of `sent_headers`, unless its
-- length does not fit in 64 bits or the allocator refuses it. The tokens of all its `Connection` fields
-- are `upgrade` alone when an upgrade is preserved, else none when the connection may be reused, and
-- `close` alone when not: no token that the client sent is passed on.
pub build_selected_upstream_request-connection :
    (reserves : ℕ → Bool) (request : HttpRequest) (upstream : UpstreamEndpoint)
    (tls : UpstreamTlsPolicy) (client_ip scheme host : Text) (preserve keep_alive : Bool)
    → let headers = sent_headers request tls client_ip scheme host preserve keep_alive in
      (build_selected_upstream_request reserves request upstream tls client_ip scheme host preserve
          keep_alive
        ≡ granted reserves (wire request (join_path upstream request.path) headers false))
      × (connection_header_tokens headers ≡ announced preserve keep_alive)
build_selected_upstream_request-connection reserves request upstream tls client_ip scheme host
      preserve keep_alive =
    let headers = outgoing_headers request client_ip scheme host preserve (host_override_of tls) in
    let close = not preserve && not keep_alive in
    (
      build_selected_upstream_request-wire reserves request upstream tls client_ip scheme host
            preserve keep_alive
          ∙ ap (granted reserves)
              (wire-with_close request (join_path upstream request.path) headers close),
      connection_header_tokens-append headers (if close then close_header ∷ [] else [])
          ∙ sent_tokens (connection_header_tokens headers) preserve keep_alive (
              connection_header_tokens-outgoing_headers request client_ip scheme host preserve
                (host_override_of tls)),
    )
