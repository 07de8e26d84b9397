-- ===== src/Http/Response.antt =====
-- crates/edge-core/src/upstream_response_framing.rs: what the head of an upstream's response says
-- about its body, chunk sizes and trailers.
pub mod Framing
mod Tests
use edge.Prelude.{
  ℕ, not, any, [], false, Option, if◌then◌else◌, is_some, some, String, ◌&&◌, ◌==◌, all, ◌||◌, Bool,
  none, is_empty, true, List, ◌∷◌,
}
use edge.Domain.Errors.{
  ◌>>=◌, ◌>>◌, Result, first_or, ErrorCode, ok_or, ok, guard, new_error, err, AppError,
}
use edge.Http.Request.{contains_prohibited_http_field_value_control, is_http_token}
use edge.Text.{
  txt, within, blank_line, split_once, Bytes, split_char, text_eq, is_digit, parse_usize,
  from_str_radix, byte_len, split_crlf, strip_suffix, parse_u16, trim, eq_ignore_ascii_case, Text,
  from_utf8,
}

abbrev pub malformed_upstream_response : String → AppError
malformed_upstream_response message = new_error ErrorCode.runtime_upstream_bad_gateway message

pub data ResponseBodyExpectation : Type 0 where
  normal head_response : ResponseBodyExpectation

pub data ResponseBodyFraming : Type 0 where
  interim : ResponseBodyFraming
  no_body : ResponseBodyFraming
  content_length : ℕ → ResponseBodyFraming
  chunked : ResponseBodyFraming
  close_delimited : ResponseBodyFraming

unfoldable pub validate_field_value : Text → String → Result (Unit {0})
validate_field_value value message =
    guard (not (contains_prohibited_http_field_value_control value))
      (malformed_upstream_response message)

-- What the loop over the header lines has seen.
pub record FramingScan : Type 0 where
  pub length_seen : Option ℕ
  pub transfer_encoding_present : Bool
  pub transfer_encoding_chunked : Bool
  pub chunked_coding_seen : Bool
  pub connection_close : Bool

abbrev pub nothing_scanned : FramingScan
nothing_scanned = record {
  length_seen = none;
  transfer_encoding_present = false;
  transfer_encoding_chunked = false;
  chunked_coding_seen = false;
  connection_close = false;
}

unfoldable pub scan_content_length : Text → FramingScan → Result FramingScan
scan_content_length value scan = do
  guard (not (is_some scan.length_seen))
      (malformed_upstream_response "duplicate response content length")
  n ←
      ok_or (parse_usize (trim value))
        (malformed_upstream_response "response content length is invalid")
  ok (record scan { length_seen = some n })

unfoldable pub scan_codings : List Text → FramingScan → Result FramingScan
scan_codings [] scan = ok scan
scan_codings (coding ∷ codings) scan =
    let is_chunked = eq_ignore_ascii_case (trim coding) (txt "chunked") in
    let rest = scan_codings codings (record scan {
      transfer_encoding_chunked = is_chunked;
      chunked_coding_seen = scan.chunked_coding_seen || is_chunked;
    }) in
    if is_empty (trim coding)
    then err (malformed_upstream_response "response transfer encoding is empty")
    else rest

-- One branch of the loop: `m` if the header has that name.
abbrev pub on_header :
    Text → Text → (FramingScan → Result FramingScan) → FramingScan → Result FramingScan
on_header name expected m scan = if eq_ignore_ascii_case name expected then m scan else ok scan

unfoldable pub scan_field : Text → Text → FramingScan → Result FramingScan
scan_field name value scan = do
  guard (is_http_token name) (malformed_upstream_response "response header name is invalid")
  validate_field_value value "response header value contains prohibited control byte"
  a ← on_header name (txt "Content-Length") (scan_content_length value) scan
  b ←
      on_header name (txt "Transfer-Encoding")
        (λ s. scan_codings (split_char b',' value) (record s { transfer_encoding_present = true }))
        a
  on_header name (txt "Connection")
      (λ s. ok (record s {
        connection_close =
            s.connection_close
            || any (λ token. eq_ignore_ascii_case (trim token) (txt "close"))
                (split_char b',' value);
      }))
      b

unfoldable pub scan_line : Text → FramingScan → Result FramingScan
scan_line line scan = elim (split_once b':' line) [
  | none ↦ err (malformed_upstream_response "response header is malformed")
  | some (name, value) ↦ scan_field name value scan
]

unfoldable pub scan_lines : List Text → FramingScan → Result FramingScan
scan_lines [] scan = ok scan
scan_lines (line ∷ lines) scan = elim (scan_line line scan) [
  | err e ↦ err e
  | ok scan' ↦ scan_lines lines scan'
]

unfoldable pub parse_status_line : Text → Result ℕ
parse_status_line status_line = do
  (version, status_and_reason) ←
      ok_or (split_once 32 status_line)
        (malformed_upstream_response "response HTTP version is missing")
  guard (text_eq version (txt "HTTP/1.1"))
      (malformed_upstream_response "response HTTP version is invalid")
  (status_code, reason) ←
      ok_or (split_once 32 status_and_reason)
        (malformed_upstream_response "response reason separator is missing")
  guard (byte_len status_code == 3 && all is_digit status_code)
      (malformed_upstream_response "response status code is invalid")
  n ← ok_or (parse_u16 status_code) (malformed_upstream_response "response status code is invalid")
  guard (within 100 999 n)
      (malformed_upstream_response "response status code is outside the valid range")
  ok n

abbrev pub is_interim : ℕ → Bool
is_interim status_code = within 100 199 status_code && not (status_code == 101)

abbrev pub is_head : ResponseBodyExpectation → Bool
is_head normal = false
is_head head_response = true

abbrev pub announced_length : Option ℕ → ResponseBodyFraming
announced_length (some n) = content_length n
announced_length none = close_delimited

unfoldable pub body_framing : ℕ → ResponseBodyExpectation → FramingScan → ResponseBodyFraming
body_framing status_code body_expectation scan =
    if is_interim status_code
    then interim
    else if is_head body_expectation
        || (status_code == 101 || status_code == 204 || status_code == 304)
    then no_body
    else if scan.transfer_encoding_chunked
    then chunked
    else announced_length scan.length_seen

unfoldable pub frame_lines :
    Text → List Text → ResponseBodyExpectation → Result (ℕ × ResponseBodyFraming × Bool)
frame_lines status_line lines body_expectation = do
  status_code ← parse_status_line status_line
  scan ← scan_lines lines nothing_scanned
  guard (not (scan.transfer_encoding_present && is_some scan.length_seen))
      (malformed_upstream_response "response transfer encoding conflicts with content length")
  guard (not (scan.chunked_coding_seen && not scan.transfer_encoding_chunked))
      (malformed_upstream_response "chunked must be the final response transfer coding")
  ok (status_code, body_framing status_code body_expectation scan, scan.connection_close)

unfoldable pub parse_response_framing_headers :
    Bytes → ResponseBodyExpectation → Result (ℕ × ResponseBodyFraming × Bool)
parse_response_framing_headers headers body_expectation = do
  text ← ok_or (from_utf8 headers) (malformed_upstream_response "response headers are not UTF-8")
  header_text ←
      ok_or (strip_suffix blank_line text)
        (malformed_upstream_response "response header terminator is missing")
  (status_line, lines) ←
      first_or (split_crlf header_text)
        (malformed_upstream_response "response status line is missing")
  frame_lines status_line lines body_expectation

unfoldable pub parse_chunk_size : Bytes → Result ℕ
parse_chunk_size line = do
  text ← ok_or (from_utf8 line) (malformed_upstream_response "chunk size is not UTF-8")
  (size, extensions) ←
      first_or (split_char b';' text) (malformed_upstream_response "chunk size is missing")
  guard (not (is_empty (trim size))) (malformed_upstream_response "chunk size is missing")
  ok_or (from_str_radix 16 (trim size)) (malformed_upstream_response "chunk size is invalid")

unfoldable pub validate_trailer_line : Bytes → Result (Unit {0})
validate_trailer_line line = do
  text ← ok_or (from_utf8 line) (malformed_upstream_response "chunk trailer is not UTF-8")
  (name, value) ←
      ok_or (split_once b':' text) (malformed_upstream_response "chunk trailer is malformed")
  guard (is_http_token name) (malformed_upstream_response "chunk trailer name is invalid")
  validate_field_value value "chunk trailer value contains prohibited control byte"
