-- ===== src/Domain/Endpoint.antt =====
-- crates/edge-domain/src/lib.rs: the URL of an upstream, with a literal address for its host.
pub mod Canonical
use edge.Domain.Errors.{
  ◌>>=◌, ◌>>◌, AppError, Result, config_invalid_upstream_url, err, guard, new_error, ok, ok_or,
}
use edge.Prelude.{
  Bool, false, true, ℕ, Option, none, some, List, [], ◌∷◌, ◌++◌, ◌+◌, ◌==◌, ◌&&◌, ◌||◌, all, any,
  if◌then◌else◌, is_empty, is_some, leb, length, ltb, not, map,
}
use edge.Text.{
  Text, byte_len, is_control, is_digit, parse_u16, parse_u8, split_char, split_once, starts_with,
  strip_prefix, text_eq, to_ascii_lowercase, trim_end_matches, txt, within,
}
use edge.Text.Split.{contains, rsplit_once, split_colons}
use edge.Text.Decimal.{to_decimal}

pub data UpstreamScheme : Type 0 where
  http https : UpstreamScheme

abbrev pub scheme_name : UpstreamScheme → Text
scheme_name http = txt "http"
scheme_name https = txt "https"

abbrev pub default_port : UpstreamScheme → ℕ
default_port http = 80
default_port https = 443

pub record UpstreamEndpoint : Type 0 where
  pub scheme : UpstreamScheme
  pub host : Text
  pub port : ℕ
  pub base_path : Text
  pub ipv6 : Bool

abbrev pub invalid_upstream_url : AppError
invalid_upstream_url =
    new_error config_invalid_upstream_url
      "upstream URL must use HTTP with a literal IP address and valid port"

-- `value.contains(['?', '#', '@'])`
abbrev pub is_reserved : ℕ → Bool
is_reserved c = c == b'?' || c == b'#' || c == b'@'

unfoldable pub parse_port : Text → Result ℕ
parse_port value = do
  port ← ok_or (parse_u16 value) invalid_upstream_url
  guard (not (port == 0)) invalid_upstream_url
  ok port

unfoldable pub parse_optional_port_with_default : Text → ℕ → Result ℕ
parse_optional_port_with_default suffix default = if is_empty suffix then ok default else (do
  digits ← ok_or (strip_prefix (b':' ∷ []) suffix) invalid_upstream_url
  parse_port digits)

abbrev pub is_octet : Text → Bool
is_octet octet = not (is_empty octet) && is_some (parse_u8 octet)

unfoldable pub is_ipv4_literal : Text → Bool
is_ipv4_literal value =
    let octets = split_char b'.' value in length octets == 4 && all is_octet octets

abbrev pub is_ascii_hexdigit : ℕ → Bool
is_ascii_hexdigit c = is_digit c || within b'a' b'f' c || within b'A' b'F' c

abbrev pub is_group : Text → Bool
is_group group = not (is_empty group) && leb (byte_len group) 4 && all is_ascii_hexdigit group

unfoldable pub valid_groups : Text → Option ℕ
valid_groups part =
    let groups = split_char b':' part in
    if is_empty part then some 0 else if all is_group groups then some (length groups) else none

abbrev pub are_eight : Option ℕ → Bool
are_eight none = false
are_eight (some left) = left == 8

abbrev pub below_eight : Option ℕ → Option ℕ → Bool
below_eight none right = false
below_eight (some left) none = false
below_eight (some left) (some right) = ltb (left + right) 8

-- The parts around `::`.
abbrev pub are_ipv6_parts : List Text → Bool
are_ipv6_parts [] = false
are_ipv6_parts (p ∷ []) = are_eight (valid_groups p)
are_ipv6_parts (p ∷ q ∷ []) = below_eight (valid_groups p) (valid_groups q)
are_ipv6_parts (_ ∷ _ ∷ _ ∷ _) = false

unfoldable pub is_ipv6_literal : Text → Bool
is_ipv6_literal value =
    if is_empty value || contains b'.' value then false else are_ipv6_parts (split_colons value)

-- The rest behind the `[` of an authority.
unfoldable pub parse_bracketed : ℕ → Text → Result (Text × ℕ × Bool)
parse_bracketed default bracketed = do
  (host, suffix) ← ok_or (split_once b']' bracketed) invalid_upstream_url
  guard (is_ipv6_literal host) invalid_upstream_url
  port ← parse_optional_port_with_default suffix default
  ok (to_ascii_lowercase host, port, true)

abbrev pub host_and_port : ℕ → Text → Option (Text × Text) → Result (Text × ℕ)
host_and_port default authority none = ok (authority, default)
host_and_port default authority (some (host, port)) = do
  guard (not (contains b':' host)) invalid_upstream_url
  n ← parse_port port
  ok (host, n)

unfoldable pub parse_plain : ℕ → Text → Result (Text × ℕ × Bool)
parse_plain default authority = do
  (host, port) ← host_and_port default authority (rsplit_once b':' authority)
  guard (is_ipv4_literal host) invalid_upstream_url
  ok (host, port, false)

unfoldable pub parse_authority : ℕ → Text → Result (Text × ℕ × Bool)
parse_authority default authority = elim (strip_prefix (b'[' ∷ []) authority) [
  | some bracketed ↦ parse_bracketed default bracketed
  | none ↦ parse_plain default authority
]

unfoldable pub parse_scheme : Text → Option (UpstreamScheme × Text)
parse_scheme value = elim (strip_prefix (txt "http://") value) [
  | some rest ↦ some (http, rest)
  | none ↦ elim (strip_prefix (txt "https://") value) [
    | some rest ↦ some (https, rest)
    | none ↦ none
  ]
]

unfoldable pub split_authority : Text → Text × Text
split_authority remainder = elim (split_once b'/' remainder) [
  | some (authority, path) ↦ (authority, b'/' ∷ path)
  | none ↦ (remainder, [])
]

unfoldable pub parse_endpoint : Text → Result UpstreamEndpoint
parse_endpoint value = do
  guard (not (any is_control value || any is_reserved value)) invalid_upstream_url
  (scheme, remainder) ← ok_or (parse_scheme value) invalid_upstream_url
  let (authority, base_path) = split_authority remainder
  guard (not (is_empty authority)) invalid_upstream_url
  (host, port, ipv6) ← parse_authority (default_port scheme) authority
  ok (record { scheme = scheme; host = host; port = port; base_path = base_path; ipv6 = ipv6 })

abbrev pub bracket : Bool → Text → Text
bracket true host = b'[' ∷ host ++ b']' ∷ []
bracket false host = host

unfoldable pub connect_address : UpstreamEndpoint → Text
connect_address e = bracket e.ipv6 e.host ++ b':' ∷ to_decimal e.port

unfoldable pub authority_of : UpstreamEndpoint → Text
authority_of e =
    if e.port == default_port e.scheme
    then bracket e.ipv6 e.host
    else bracket e.ipv6 e.host ++ b':' ∷ to_decimal e.port

unfoldable pub as_url : UpstreamEndpoint → Text
as_url e = scheme_name e.scheme ++ txt "://" ++ authority_of e ++ e.base_path

unfoldable pub join_path : UpstreamEndpoint → Text → Text
join_path e request_path =
    if is_empty e.base_path || text_eq e.base_path (b'/' ∷ [])
    then request_path
    else trim_end_matches b'/' e.base_path
      ++ (if starts_with b'/' request_path then request_path else b'/' ∷ request_path)
