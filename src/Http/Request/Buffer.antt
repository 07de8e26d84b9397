-- ===== src/Http/Request/Buffer.antt =====
-- crates/edge-core/src/http_request.rs: the buffer that collects a request from chunks.
pub mod Collected
use mathlib.Core.Option
use edge.Prelude.{
  ℕ, is_empty, ltb, leb, take, if◌then◌else◌, Option, length, ◌+◌, none, ◌++◌, is_none, [], List,
  ◌-◌, some, ◌∷◌,
}
use edge.Domain.Errors.{◌>>=◌, ◌>>◌, ok, ok_or, err, new_error, AppError, ErrorCode, Result}
use edge.Domain.Exec.{Exec}
use edge.Http.Request.{
  malformed, first_line, validate_request_line, Header, expected_request_body_len_from_headers,
  HttpLimits, body_too_large, validate_header_value,
}
use edge.Text.{find_blank_line, Text, trim, from_utf8, split_crlf, Bytes, split_once}

-- The loop over the lines, where an empty line is skipped and names are not checked.
unfoldable pub parse_fields : List Text → Result (List Header)
parse_fields [] = ok []
parse_fields (line ∷ lines) =
    let rest = parse_fields lines in
    if is_empty line then rest else (do
      (name, value) ← ok_or (split_once b':' line) (malformed "malformed header")
      validate_header_value value
      hs ← rest
      ok (record { name = trim name; value = trim value } ∷ hs))

unfoldable pub expected_request_body_len_from_header_bytes : Bytes → Result ℕ
expected_request_body_len_from_header_bytes header_bytes = do
  text ← ok_or (from_utf8 header_bytes) (malformed "headers are not UTF-8")
  (request_line, lines) ← first_line (split_crlf text)
  line ← validate_request_line request_line
  headers ← parse_fields lines
  expected_request_body_len_from_headers headers

pub data RequestReadOutcome : Type 0 where
  incomplete : RequestReadOutcome
  complete : Bytes → RequestReadOutcome

pub record ClientRequestBuffer : Type 0 where
  pub bytes : Bytes
  pub header_end : Option ℕ

abbrev pub default_request_buffer : ClientRequestBuffer
default_request_buffer = record { bytes = []; header_end = none }

abbrev pub headers_exceed_limit : AppError
headers_exceed_limit = new_error ErrorCode.http_header_too_large "headers exceed limit"

unfoldable pub find_end : ClientRequestBuffer → ClientRequestBuffer
find_end b =
    if is_none b.header_end
    then record b { header_end = Option.map (λ (n : ℕ). n + 4) (find_blank_line b.bytes) }
    else b

-- The checks behind a known `header_end`. (`header_end + max_body_bytes` is below 2^64 for every buffer
-- in memory.)
unfoldable pub take_complete : ℕ → HttpLimits → Exec ClientRequestBuffer RequestReadOutcome
take_complete header_end limits b =
    if ltb limits.max_header_bytes (header_end - 4)
    then (err headers_exceed_limit, b)
    else elim (expected_request_body_len_from_header_bytes (take (header_end - 4) b.bytes)) [
      | err e ↦ (err e, b)
      | ok expected_body_len ↦
          if ltb limits.max_body_bytes expected_body_len
          then (err body_too_large, b)
          else if ltb (header_end + limits.max_body_bytes) (length b.bytes)
          then (
            err (
                new_error ErrorCode.http_request_body_too_large
                  "request exceeds configured body limit"),
            b,
          )
          else if leb (header_end + expected_body_len) (length b.bytes)
          then (ok (complete b.bytes), record { bytes = []; header_end = none })
          else (ok incomplete, b)
    ]

unfoldable pub after_search : Option ℕ → HttpLimits → Exec ClientRequestBuffer RequestReadOutcome
after_search none limits b =
    if ltb limits.max_header_bytes (length b.bytes)
    then (err headers_exceed_limit, b)
    else (ok incomplete, b)
after_search (some header_end) limits b = take_complete header_end limits b

unfoldable pub push : Bytes → HttpLimits → Exec ClientRequestBuffer RequestReadOutcome
push chunk limits b =
    let b' = find_end (record b { bytes = b.bytes ++ chunk }) in
    after_search b'.header_end limits b'
