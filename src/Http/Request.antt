-- ===== src/Http/Request.antt =====
-- crates/edge-core/src/http_request.rs: the request parser. A returned `Result` is `Result`, a loop over
-- the header lines is a recursion on them.
pub mod Buffer
pub mod Accepted
pub mod Samples
use mathlib.Core.Option
use edge.Prelude.{
  ℕ, all, length, String, Option, ◌||◌, false, some, none, not, take, unwrap_or, ◌&&◌, is_some, leb,
  ◌*◌, ◌+◌, List, drop, Bool, ◌==◌, true, is_empty, if◌then◌else◌, ◌∷◌, [], any,
}
use edge.Domain.Errors.{◌>>=◌, ◌>>◌, err, new_error, ok_or, guard, ErrorCode, Result, ok, AppError}
use edge.Domain.Resources.{fixed_request_header_reserve_bytes, default_max_request_body_bytes}
use edge.Text.{
  eq_ignore_ascii_case, split_whitespace, split_once, from_utf8, Text, find_blank_line, parse_usize,
  byte_len, trim, text_eq, within, txt, Bytes, split_crlf,
}

pub record Header : Type 0 where
  pub name : Text
  pub value : Text

pub record HttpRequest : Type 0 where
  pub method : Text
  pub path : Text
  pub version : Text
  pub headers : List Header
  pub body : Bytes

-- `headers.iter().find(|h| h.name.eq_ignore_ascii_case(name))`
unfoldable pub find_header : Text → List Header → Option Text
find_header name [] = none
find_header name (h ∷ hs) =
    if eq_ignore_ascii_case h.name name then some h.value else find_header name hs

abbrev pub header_value : HttpRequest → Text → Option Text
header_value request name = find_header name request.headers

pub record HttpLimits : Type 0 where
  pub max_request_line_bytes : ℕ
  pub max_header_bytes : ℕ
  pub max_header_count : ℕ
  pub max_body_bytes : ℕ

abbrev pub default_limits : HttpLimits
default_limits = record {
  max_request_line_bytes = 8 * 1024;
  max_header_bytes = fixed_request_header_reserve_bytes;
  max_header_count = 100;
  max_body_bytes = default_max_request_body_bytes;
}

abbrev pub malformed : String → AppError
malformed message = new_error ErrorCode.http_malformed_request message

unfoldable pub contains_prohibited_http_field_value_control : Text → Bool
contains_prohibited_http_field_value_control value =
    any (λ b. leb b 8 || within 10 31 b || b == 127) value

unfoldable pub contains_prohibited_request_target_control : Text → Bool
contains_prohibited_request_target_control target = any (λ b. leb b 31 || b == 127) target

unfoldable pub is_token_byte : ℕ → Bool
is_token_byte b =
    within b'0' b'9' b
    || within b'A' b'Z' b
    || within b'a' b'z' b
    || b == b'!'
    || b == b'#'
    || b == b'$'
    || b == b'%'
    || b == b'&'
    || b == 39
    || b == b'*'
    || b == b'+'
    || b == b'-'
    || b == b'.'
    || b == b'^'
    || b == b'_'
    || b == b'`'
    || b == b'|'
    || b == b'~'

unfoldable pub is_http_token : Text → Bool
is_http_token value = not (is_empty value) && all is_token_byte value

unfoldable pub validate_header_value : Text → Result (Unit {0})
validate_header_value value =
    guard (not (contains_prohibited_http_field_value_control value))
      (malformed "header value contains prohibited control byte")

pub record RequestLine : Type 0 where
  pub method : Text
  pub path : Text
  pub version : Text

-- The words of the request line: `split_whitespace` read by four calls of `next`.
unfoldable pub three_words : List Text → Result RequestLine
three_words [] = err (malformed "missing method")
three_words (method ∷ []) = err (malformed "missing path")
three_words (method ∷ path ∷ []) = err (malformed "missing version")
three_words (method ∷ path ∷ version ∷ []) =
    ok (record { method = method; path = path; version = version })
three_words (method ∷ path ∷ version ∷ _ ∷ _) =
    err (malformed "request line has unexpected trailing token")

unfoldable pub check_words : RequestLine → Result RequestLine
check_words line = do
  guard (is_http_token line.method) (malformed "request method is not an HTTP token")
  guard (not (contains_prohibited_request_target_control line.path))
      (malformed "request target contains prohibited control byte")
  guard (text_eq line.version (txt "HTTP/1.1")) (malformed "unsupported HTTP version")
  guard (not (eq_ignore_ascii_case line.method (txt "CONNECT")))
      (new_error ErrorCode.http_connect_method_rejected "CONNECT is not supported")
  ok line

unfoldable pub validate_request_line : Text → Result RequestLine
validate_request_line request_line = do
  line ← three_words (split_whitespace request_line)
  check_words line

-- The trimmed values of the Host headers.
unfoldable pub host_values : List Header → List Text
host_values [] = []
host_values (h ∷ hs) =
    if eq_ignore_ascii_case h.name (txt "Host")
    then trim h.value ∷ host_values hs
    else host_values hs

unfoldable pub one_host : List Text → Result (Unit {0})
one_host [] = err (malformed "HTTP/1.1 request requires one Host header")
one_host (host ∷ more) =
    guard (not (is_empty host || not (is_empty more)))
      (malformed "HTTP/1.1 request Host header is invalid or ambiguous")

unfoldable pub validate_http11_host_authority : List Header → Result (Unit {0})
validate_http11_host_authority headers = one_host (host_values headers)

-- What the loop of `expected_request_body_len_from_headers` has seen.
pub record LengthScan : Type 0 where
  pub content_length : Option ℕ
  pub has_transfer_encoding : Bool

unfoldable pub note_length : ℕ → LengthScan → Option ℕ → Result LengthScan
note_length parsed scan none = ok (record scan { content_length = some parsed })
note_length parsed scan (some existing) =
    if not (existing == parsed)
    then err (
        new_error ErrorCode.http_transfer_encoding_content_length_conflict
          "conflicting content length headers")
    else ok scan

unfoldable pub scan_header : LengthScan → Header → Result LengthScan
scan_header scan h =
    let seen : LengthScan =
      if eq_ignore_ascii_case h.name (txt "Transfer-Encoding") && not (is_empty (trim h.value))
      then record scan { has_transfer_encoding = true }
      else scan in
    if eq_ignore_ascii_case h.name (txt "Content-Length")
    then (do
      parsed ← ok_or (parse_usize (trim h.value)) (malformed "invalid content length")
      note_length parsed seen seen.content_length)
    else ok seen

unfoldable pub scan_headers : LengthScan → List Header → Result LengthScan
scan_headers scan [] = ok scan
scan_headers scan (h ∷ hs) = elim (scan_header scan h) [
  | err e ↦ err e
  | ok scan' ↦ scan_headers scan' hs
]

unfoldable pub expected_request_body_len_from_headers : List Header → Result ℕ
expected_request_body_len_from_headers headers = do
  scan ← scan_headers (record { content_length = none; has_transfer_encoding = false }) headers
  guard (not (scan.has_transfer_encoding && is_some scan.content_length)) (
      new_error ErrorCode.http_transfer_encoding_content_length_conflict
        "ambiguous transfer length")
  guard (not scan.has_transfer_encoding)
      (malformed "transfer encoding is not supported by the MVP runtime")
  ok (unwrap_or scan.content_length 0)

-- `line.split_once(':')` and the checks of one line of `parse_http_request`.
unfoldable pub parse_header : Text → Result Header
parse_header line = do
  (name, value) ← ok_or (split_once b':' line) (malformed "malformed header")
  guard (is_http_token name) (malformed "header name is invalid")
  validate_header_value value
  ok (record { name = trim name; value = trim value })

-- `count` headers have been pushed already.
unfoldable pub parse_headers : ℕ → ℕ → List Text → Result (List Header)
parse_headers max_header_count count [] = ok []
parse_headers max_header_count count (line ∷ lines) =
    let rest = parse_headers max_header_count (count + 1) lines in
    if leb max_header_count count
    then err (new_error ErrorCode.http_header_too_large "too many headers")
    else (do h ← parse_header line; hs ← rest; ok (h ∷ hs))

abbrev pub first_line : List Text → Result (Text × List Text)
first_line [] = err (malformed "missing request line")
first_line (line ∷ lines) = ok (line, lines)

unfoldable pub parse_head : Text → HttpLimits → Result (RequestLine × List Header)
parse_head header_text limits = do
  (request_line, lines) ← first_line (split_crlf header_text)
  guard (leb (byte_len request_line) limits.max_request_line_bytes)
      (new_error ErrorCode.http_request_line_too_large "request line exceeds limit")
  line ← validate_request_line request_line
  headers ← parse_headers limits.max_header_count 0 lines
  validate_http11_host_authority headers
  ok (line, headers)

abbrev pub body_too_large : AppError
body_too_large = new_error ErrorCode.http_request_body_too_large "body exceeds limit"

unfoldable pub parse_parts : Bytes → Bytes → HttpLimits → Result HttpRequest
parse_parts header_bytes body limits = do
  guard (leb (length header_bytes) limits.max_header_bytes)
      (new_error ErrorCode.http_header_too_large "headers exceed limit")
  guard (leb (length body) limits.max_body_bytes) body_too_large
  header_text ← ok_or (from_utf8 header_bytes) (malformed "headers are not UTF-8")
  (line, headers) ← parse_head header_text limits
  expected_body_len ← expected_request_body_len_from_headers headers
  guard (leb expected_body_len limits.max_body_bytes) body_too_large
  guard (length body == expected_body_len) (malformed "content length does not match body")
  ok (record {
    method = line.method;
    path = line.path;
    version = line.version;
    headers = headers;
    body = body;
  })

unfoldable pub parse_http_request : Bytes → HttpLimits → Result HttpRequest
parse_http_request input limits = do
  header_end ← ok_or (find_blank_line input) (malformed "missing header end")
  parse_parts (take header_end input) (drop (header_end + 4) input) limits
