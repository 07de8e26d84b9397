-- ===== src/Domain/Tls.antt =====
-- crates/edge-domain/src/lib.rs: the TLS policy of an upstream and the client authentication of a
-- listener, as they are normalised from a configuration. A set of trust bundles is a test.
pub mod Policies
use edge.Domain.Endpoint.{
  UpstreamEndpoint, UpstreamScheme, http, https, invalid_upstream_url, is_ipv4_literal,
  is_ipv6_literal, is_reserved, parse_endpoint, parse_port,
}
use edge.Domain.Errors.{
  ◌>>=◌, ◌>>◌, AppError, Result, config_client_auth_policy_invalid, config_tls_policy_invalid,
  config_tls_server_name_invalid, config_trust_bundle_not_found, config_trust_bundle_ref_invalid,
  config_upstream_http_host_invalid, err, guard, is_ok, new_error, ok, ok_or,
}
use edge.Prelude.{
  Bool, false, true, ℕ, Option, none, some, List, [], ◌∷◌, ◌==◌, ◌&&◌, ◌||◌, all, any, is_empty,
  if◌then◌else◌, is_none, leb, not,
}
use edge.Text.{
  Text, byte_len, ends_with, is_control, is_digit, is_whitespace, split_char, starts_with, text_eq,
  to_ascii_lowercase, trim_end_matches, txt, within,
}
use edge.Text.Split.{contains, rsplit_once}

abbrev is_alphanumeric : ℕ → Bool
is_alphanumeric c = is_digit c || within b'a' b'z' c || within b'A' b'Z' c

abbrev invalid_bundle_ref : AppError
invalid_bundle_ref = new_error config_trust_bundle_ref_invalid "trust bundle reference is invalid"

unfoldable pub parse_bundle_ref : Text → Result Text
parse_bundle_ref value = do
  guard
      (not (is_empty value)
        && leb (byte_len value) 64
        && not (text_eq value (txt "."))
        && not (text_eq value (txt ".."))
        && all (λ c. is_alphanumeric c || c == b'-' || c == b'_') value)
      invalid_bundle_ref
  ok value

abbrev is_label : Text → Bool
is_label label =
    not (is_empty label)
    && leb (byte_len label) 63
    && not (starts_with b'-' label)
    && not (ends_with (b'-' ∷ []) label)
    && all (λ c. is_alphanumeric c || c == b'-') label

unfoldable pub valid_dns_name : Text → Bool
valid_dns_name value =
    not (is_empty value)
    && leb (byte_len value) 253
    && contains b'.' value
    && all is_label (split_char b'.' value)

abbrev invalid_server_name : AppError
invalid_server_name =
    new_error config_tls_server_name_invalid "TLS server name must be a valid DNS name"

unfoldable pub parse_server_name : Text → Result Text
parse_server_name value = do
  let normalized = to_ascii_lowercase (trim_end_matches b'.' value)
  guard
      (not (is_ipv4_literal normalized)
        && not (is_ipv6_literal normalized)
        && valid_dns_name normalized)
      invalid_server_name
  ok normalized

abbrev invalid_upstream_http_host : AppError
invalid_upstream_http_host =
    new_error config_upstream_http_host_invalid "upstream HTTP Host authority is invalid"

-- The host of an authority, and whether its port, if there is one, can be read.
abbrev checked_port : Text → Option (Text × Text) → Result (Text × Bool)
checked_port value none = ok (value, true)
checked_port value (some (host, port)) = do
  guard (not (contains b':' host)) invalid_upstream_http_host
  ok (host, is_ok (parse_port port))

unfoldable pub parse_http_host : Text → Result Text
parse_http_host value = do
  guard
      (not (is_empty value)
        && leb (byte_len value) 255
        && not (any (λ c. is_control c || is_whitespace c) value)
        && not (any (λ c. c == b'@' || c == b'/' || c == b'?' || c == b'#') value))
      invalid_upstream_http_host
  (host, port_is_valid) ← checked_port value (rsplit_once b':' value)
  guard (valid_dns_name (to_ascii_lowercase host) && port_is_valid) invalid_upstream_http_host
  ok (to_ascii_lowercase value)

pub data UpstreamTlsPolicy : Type 0 where
  tls_disabled : UpstreamTlsPolicy
  server_authenticated : (server_name http_host trust_bundle_ref : Text) → UpstreamTlsPolicy

pub record NormalizedUpstreamPolicy : Type 0 where
  pub endpoint : UpstreamEndpoint
  pub tls : UpstreamTlsPolicy

abbrev pub invalid_tls_policy : AppError
invalid_tls_policy =
    new_error config_tls_policy_invalid
      "upstream TLS policy is incomplete or contradicts its scheme"

abbrev pub is_https : UpstreamScheme → Bool
is_https http = false
is_https https = true

abbrev authenticated : Option Text → Option Text → Option Text → Result UpstreamTlsPolicy
authenticated tls_server_name upstream_http_host tls_trust_bundle_ref = do
  name ← ok_or tls_server_name invalid_tls_policy
  server_name ← parse_server_name name
  host ← ok_or upstream_http_host invalid_tls_policy
  http_host ← parse_http_host host
  reference ← ok_or tls_trust_bundle_ref invalid_tls_policy
  trust_bundle_ref ← parse_bundle_ref reference
  ok (server_authenticated server_name http_host trust_bundle_ref)

-- The `match` on the version, the scheme and whether all fields are empty.
abbrev tls_for : ℕ → UpstreamScheme → Bool → Result UpstreamTlsPolicy → Result UpstreamTlsPolicy
tls_for version http true complete = do
  guard (version == 1 || version == 2) invalid_tls_policy
  ok tls_disabled
tls_for version https false complete = do guard (version == 2) invalid_tls_policy; complete
tls_for version _ _ complete = err invalid_tls_policy

unfoldable pub normalize_upstream_tls_policy :
    ℕ → Text → Option Text → Option Text → Option Text → Result NormalizedUpstreamPolicy
normalize_upstream_tls_policy version url server_name http_host bundle_ref = do
  endpoint ← parse_endpoint url
  guard (not (version == 1 && is_https endpoint.scheme)) invalid_upstream_url
  tls ←
      tls_for version endpoint.scheme
        (is_none server_name && is_none http_host && is_none bundle_ref)
        (authenticated server_name http_host bundle_ref)
  ok (record { endpoint = endpoint; tls = tls })

pub data ListenerProtocol : Type 0 where
  http_listener https_listener : ListenerProtocol

pub data ClientAuthPolicy : Type 0 where
  auth_disabled : ClientAuthPolicy
  auth_required : (trust_bundle_ref : Text) → ClientAuthPolicy

abbrev invalid_client_auth_policy : AppError
invalid_client_auth_policy =
    new_error config_client_auth_policy_invalid "listener client-auth policy is invalid"

abbrev https_client_auth : Option Text → Option Text → Result ClientAuthPolicy
https_client_auth none none = ok auth_disabled
https_client_auth none (some reference) = err invalid_client_auth_policy
https_client_auth (some mode) none = do
  guard (text_eq mode (txt "disabled")) invalid_client_auth_policy
  ok auth_disabled
https_client_auth (some mode) (some reference) = do
  guard (text_eq mode (txt "required")) invalid_client_auth_policy
  trust_bundle_ref ← parse_bundle_ref reference
  ok (auth_required trust_bundle_ref)

abbrev no_client_auth : Option Text → Option Text → Result ClientAuthPolicy
no_client_auth none none = ok auth_disabled
no_client_auth _ _ = err invalid_client_auth_policy

abbrev client_auth_v2 : ListenerProtocol → Option Text → Option Text → Result ClientAuthPolicy
client_auth_v2 http_listener = no_client_auth
client_auth_v2 https_listener = https_client_auth

unfoldable pub normalize_client_auth_policy :
    ℕ → ListenerProtocol → Option Text → Option Text → Result ClientAuthPolicy
normalize_client_auth_policy version protocol client_auth bundle_ref =
    if version == 1
    then no_client_auth client_auth bundle_ref
    else if version == 2
    then client_auth_v2 protocol client_auth bundle_ref
    else err invalid_client_auth_policy

unfoldable pub validate_client_auth_trust : ClientAuthPolicy → (Text → Bool) → Result (Unit {0})
validate_client_auth_trust auth_disabled known = ok tt
validate_client_auth_trust (auth_required trust_bundle_ref) known =
    guard (known trust_bundle_ref)
      (new_error config_trust_bundle_not_found "referenced trust bundle does not exist")
