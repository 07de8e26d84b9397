-- ===== src/Http/Request/Samples.antt =====
-- Runs of the request parser.
use edge.Prelude.{false, ◌≡◌, true, refl, ◌++◌, [], ◌∷◌}
use edge.Domain.Errors.{ok, is_ok}
use edge.Http.Request.{
  parse_headers, parse_http_request, check_words, parse_head, default_limits, one_host,
  is_http_token, scan_header, host_values, parse_header, three_words,
  contains_prohibited_http_field_value_control, validate_request_line, parse_parts, scan_headers,
  expected_request_body_len_from_headers, contains_prohibited_request_target_control, HttpRequest,
  validate_http11_host_authority, validate_header_value, note_length, is_token_byte,
}
use edge.Text.{
  txt, find_blank_line, eq_ignore_ascii_case, trim, split_whitespace, from_utf8, text_eq,
  from_str_radix, split_crlf, Bytes, split_once, trim_end, trim_start, split_words, is_whitespace,
  crlf,
}

unfoldable pub opened : Unit {0}
unfolding is_token_byte is_whitespace trim_start trim_end split_words parse_http_request
    find_blank_line parse_parts from_utf8 parse_head split_crlf validate_request_line three_words
    split_whitespace check_words is_http_token contains_prohibited_request_target_control text_eq
    eq_ignore_ascii_case parse_headers parse_header split_once validate_header_value
    contains_prohibited_http_field_value_control trim validate_http11_host_authority host_values
    one_host expected_request_body_len_from_headers scan_headers scan_header note_length
    from_str_radix
opened = tt

abbrev pub sample_post : Bytes
sample_post =
    txt "POST /a HTTP/1.1"
    ++ (crlf
        ++ (txt "Host: x" ++ (crlf ++ (txt "Content-Length: 2" ++ (crlf ++ (crlf ++ txt "hi"))))))

abbrev pub sample_signed : Bytes
sample_signed =
    txt "POST /a HTTP/1.1"
    ++ (crlf
        ++ (txt "Host: x" ++ (crlf ++ (txt "Content-Length: +2" ++ (crlf ++ (crlf ++ txt "hi"))))))

abbrev pub sample_request : HttpRequest
sample_request = record {
  method = txt "POST";
  path = txt "/a";
  version = txt "HTTP/1.1";
  headers =
      record { name = txt "Host"; value = txt "x" }
      ∷ record { name = txt "Content-Length"; value = txt "2" }
      ∷ [];
  body = txt "hi";
}

pub parses : parse_http_request sample_post default_limits ≡ ok sample_request
unfolding opened
parses = refl

parses_signed : is_ok (parse_http_request sample_signed default_limits) ≡ true
unfolding opened
parses_signed = refl

parses_nothing : is_ok (parse_http_request (txt "GET / HTTP/1.1") default_limits) ≡ false
unfolding opened
parses_nothing = refl
