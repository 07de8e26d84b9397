-- ===== src/Http/Forwarding.antt =====
-- crates/edge-core/src/http_forwarding_policy.rs: which header fields the proxy forwards, and the
-- projection of upstream response headers.
pub mod Hops
pub mod Sanitizer
use edge.Prelude.{
  ℕ, leb, none, map, Bool, ◌∷◌, String, [], ltb, List, not, any, if◌then◌else◌, ◌&&◌, some, ◌==◌,
  filter, ◌++◌, Option, ◌||◌,
}
use edge.Domain.Errors.{
  ◌>>=◌, Result, AppError, first_or, ok_or, runtime_upstream_bad_gateway, err, ok, new_error,
  ErrorCode,
}
use edge.Text.{
  Text, blank_line, split_crlf, to_ascii_lowercase, from_utf8, strip_suffix, trim,
  eq_ignore_ascii_case, crlf, Bytes, parse_u16, into_bytes, split_char, split_whitespace,
  split_once, trim_start, txt, text_eq,
}
use edge.Http.Request.{Header}

-- `matches!(name, "connection" | ...)`
abbrev hop_by_hop_names : List Text
hop_by_hop_names =
    txt "connection"
    ∷ txt "keep-alive"
    ∷ txt "proxy-authenticate"
    ∷ txt "proxy-authorization"
    ∷ txt "proxy-connection"
    ∷ txt "te"
    ∷ txt "trailer"
    ∷ txt "transfer-encoding"
    ∷ txt "upgrade"
    ∷ []

unfoldable pub is_hop_by_hop_header_name : Text → Bool
is_hop_by_hop_header_name name = any (text_eq name) hop_by_hop_names

abbrev pub list_tokens : Text → List Text
list_tokens value = map (λ t. to_ascii_lowercase (trim t)) (split_char b',' value)

unfoldable pub connection_header_tokens : List Header → List Text
connection_header_tokens [] = []
connection_header_tokens (h ∷ hs) =
    let rest = connection_header_tokens hs in
    if eq_ignore_ascii_case h.name (txt "Connection") then list_tokens h.value ++ rest else rest

-- The test of `remove_hop_by_hop_headers` on one header, with the tokens of all.
unfoldable pub is_end_to_end : List Text → Header → Bool
is_end_to_end tokens h =
    let name = to_ascii_lowercase h.name in
    not (is_hop_by_hop_header_name name) && not (any (λ t. text_eq t name) tokens)

unfoldable pub remove_hop_by_hop_headers : List Header → List Header
remove_hop_by_hop_headers headers =
    filter (is_end_to_end (connection_header_tokens headers)) headers

abbrev pub asks_websocket : Header → Bool
asks_websocket h = eq_ignore_ascii_case (trim h.value) (txt "websocket")

unfoldable pub survives_upgrade : List Text → Header → Bool
survives_upgrade tokens h =
    (text_eq (to_ascii_lowercase h.name) (txt "upgrade") && asks_websocket h)
    || is_end_to_end tokens h

abbrev pub connection_upgrade : Header
connection_upgrade = record { name = txt "Connection"; value = txt "Upgrade" }

unfoldable pub upstream_request_headers : List Header → Bool → List Header
upstream_request_headers headers preserve_upgrade =
    if not preserve_upgrade
    then remove_hop_by_hop_headers headers
    else filter (survives_upgrade (connection_header_tokens headers)) headers
      ++ connection_upgrade ∷ []

unfoldable pub is_websocket_upgrade : List Header → Bool
is_websocket_upgrade headers =
    any
      (λ h.
        eq_ignore_ascii_case h.name (txt "Connection")
        && any (λ t. eq_ignore_ascii_case (trim t) (txt "upgrade")) (split_char b',' h.value))
      headers
    && any (λ h. eq_ignore_ascii_case h.name (txt "Upgrade") && asks_websocket h) headers

abbrev pub forwarded_headers : Text → Text → Text → List Header
forwarded_headers client_ip scheme host =
    record { name = txt "X-Forwarded-For"; value = client_ip }
    ∷ record { name = txt "X-Forwarded-Proto"; value = scheme }
    ∷ record { name = txt "X-Forwarded-Host"; value = host }
    ∷ []

abbrev pub https_redirect_location : Text → Text → Text
https_redirect_location host path = txt "https://" ++ host ++ path

abbrev response_header_error : ErrorCode → String → AppError
response_header_error = new_error

abbrev pub bad_gateway : String → AppError
bad_gateway = response_header_error runtime_upstream_bad_gateway

-- `split_whitespace().nth(1).and_then(|value| value.parse::<u16>().ok())`
abbrev second_word : List Text → Option ℕ
second_word (_ ∷ w ∷ _) = parse_u16 w
second_word _ = none

abbrev parse_field : Text → Result Header
parse_field line = elim (split_once b':' line) [
  | none ↦ err (bad_gateway "response header is malformed")
  | some (name, value) ↦ ok (record { name = name; value = trim_start value })
]

parse_fields : List Text → Result (List Header)
parse_fields [] = ok []
parse_fields (line ∷ lines) = do
  header ← parse_field line
  headers ← parse_fields lines
  ok (header ∷ headers)

unfoldable pub is_retained : List Text → Header → Bool
is_retained tokens h =
    text_eq (to_ascii_lowercase h.name) (txt "transfer-encoding") || is_end_to_end tokens h

abbrev print_headers : List Header → Text
print_headers [] = []
print_headers (h ∷ hs) = h.name ++ txt ": " ++ h.value ++ crlf ++ print_headers hs

abbrev pub interim_status : ℕ → Bool
interim_status status_code = leb 100 status_code && ltb status_code 200 && not (status_code == 101)

unfoldable pub print_response : Text → Bool → Bool → List Header → Text
print_response status_line interim close_final_response headers =
    status_line
    ++ crlf
    ++ print_headers (filter (is_retained (connection_header_tokens headers)) headers)
    ++ (if not interim && close_final_response then txt "Connection: close" ++ crlf else [])
    ++ crlf

unfoldable pub sanitize_response_header_block : Bytes → Bool → Result (Bytes × Bool)
unfolding parse_fields
sanitize_response_header_block headers close_final_response = do
  text ← ok_or (from_utf8 headers) (bad_gateway "response headers are not UTF-8")
  header_text ←
      ok_or (strip_suffix blank_line text) (bad_gateway "response header terminator is missing")
  (status_line, lines) ←
      first_or (split_crlf header_text) (bad_gateway "response status line is missing")
  status_code ←
      ok_or (second_word (split_whitespace status_line))
        (bad_gateway "response status code is invalid")
  parsed_headers ← parse_fields lines
  ok (
    into_bytes (
        print_response status_line (interim_status status_code) close_final_response
          parsed_headers),
    interim_status status_code,
  )
