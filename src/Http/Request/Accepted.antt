-- ===== src/Http/Request/Accepted.antt =====
-- What the parser guarantees of a request that it accepts.
pub mod Headers
pub mod Framing
use edge.Prelude.{
  ℕ, length, All, ◌≤◌, false, [], List, is_empty, ◌∷◌, some, arith, ◌≡◌, true, refl, inr, none, inl,
  Option, subst, Option-cases, drop, ◌+◌, take,
}
use edge.Http.Request.Accepted.Framing.{
  IsContentLength, IsTransferEncoding, Announces, scan_headers-ScannedAll,
}
use edge.Http.Request.Accepted.Headers.{IsCleanHeader, parse_headers_lem}
use edge.Domain.Errors.{ok, Result-cases}
use edge.Http.Request.{
  Header, HttpRequest, expected_request_body_len_from_headers, is_http_token, RequestLine,
  host_values, validate_request_line, contains_prohibited_request_target_control,
  parse_http_request, HttpLimits, check_words, parse_head, one_host, validate_http11_host_authority,
  LengthScan, parse_headers, first_line, scan_headers, parse_parts,
}
use edge.Text.{
  txt, trim, Bytes, Text, text_eq, parse_usize, eq_ignore_ascii_case, split_crlf, find_blank_line,
  from_utf8,
}

-- The request line of an accepted request.
pub record IsPlainLine (method path version : Text) : Type 0 where
  pub method_token : is_http_token method ≡ true
  pub method_not_connect : eq_ignore_ascii_case method (txt "CONNECT") ≡ false
  pub path_clean : contains_prohibited_request_target_control path ≡ false
  pub version_known : text_eq version (txt "HTTP/1.1") ≡ true

validate_request_line-IsPlainLine :
    (t : Text) (line : RequestLine)
    → validate_request_line t ≡ ok line
    → IsPlainLine line.method line.path line.version
unfolding validate_request_line check_words
validate_request_line-IsPlainLine t line h = ground arith

-- The body of an accepted request has the length that its headers announce, and no other framing is
-- announced.
pub record IsFramedBy (headers : List Header) (n : ℕ) : Type 0 where
  pub lengths : All (λ h. IsContentLength h → parse_usize (trim h.value) ≡ some n) headers
  pub encodings : All (λ h. IsTransferEncoding h → is_empty (trim h.value) ≡ true) headers
  pub unannounced : All (λ h. IsContentLength h → ⊥) headers → n ≡ 0

agree :
    (o : Option ℕ) (n : ℕ) (hs : List Header)
    → ((m : ℕ) → o ≡ some m → m ≡ n)
    → All (Announces o) hs
    → All (λ h. IsContentLength h → parse_usize (trim h.value) ≡ some n) hs
agree o n [] f a = a
agree o n (h ∷ hs) f a = (
  λ k. let (m, p, q) = (a.0) k in subst (λ i. parse_usize (trim h.value) ≡ some i) (f m q) p,
  agree o n hs f (a.1),
)

abbrev nothing_seen : LengthScan
nothing_seen = record { content_length = none; has_transfer_encoding = false }

expected-IsFramedBy :
    (headers : List Header) (n : ℕ)
    → expected_request_body_len_from_headers headers ≡ ok n
    → IsFramedBy headers n
unfolding expected_request_body_len_from_headers
expected-IsFramedBy headers n h = elim (Result-cases (scan_headers nothing_seen headers)) [
  | inl (final, f) ↦
      let seen = scan_headers-ScannedAll nothing_seen final headers f in
      record {
        lengths =
            agree final.content_length n headers (λ m q. ground (arith, f, h, q)) seen.announced;
        encodings = seen.empty_coding (ground (arith, f, h));
        unannounced = λ k. ground (arith, f, h, seen.silent k);
      }
  | inr (x, f) ↦ absurd (ground (arith, f, h))
]

one_host_lem :
    (hosts : List Text)
    → one_host hosts ≡ ok tt
    → (host : Text) × (hosts ≡ host ∷ []) × (is_empty host ≡ false)
unfolding one_host
one_host_lem [] h = absurd (ground arith)
one_host_lem (host ∷ []) h = (host, refl, ground arith)
one_host_lem (host ∷ other ∷ more) h = absurd (ground arith)

-- What the head of an accepted request satisfies.
record IsAcceptedHead (limits : HttpLimits) (head_line : RequestLine) (headers : List Header)
    : Type 0 where
  line : IsPlainLine head_line.method head_line.path head_line.version
  fields : All IsCleanHeader headers
  field_count : length headers ≤ limits.max_header_count
  authority : (host : Text) × (host_values headers ≡ host ∷ []) × (is_empty host ≡ false)

parse_head-IsAcceptedHead :
    (t : Text) (limits : HttpLimits) (line : RequestLine) (headers : List Header)
    → parse_head t limits ≡ ok (line, headers)
    → IsAcceptedHead limits line headers
unfolding parse_head validate_http11_host_authority
parse_head-IsAcceptedHead t limits line headers h =
    elim (Result-cases (first_line (split_crlf t))) [
      | inr (x, f) ↦ absurd (ground (arith, f, h))
      | inl ((first, lines), f) ↦ elim (Result-cases (validate_request_line first)) [
        | inr (x, g) ↦ absurd (ground (arith, f, g, h))
        | inl (line', g) ↦ elim (Result-cases (parse_headers limits.max_header_count 0 lines)) [
          | inr (x, k) ↦ absurd (ground (arith, f, g, k, h))
          | inl (headers', k) ↦ elim (Result-cases (one_host (host_values headers'))) [
            | inr (x, l) ↦ absurd (ground (arith, f, g, k, l, h))
            | inl (done, l) ↦
                let parsed = parse_headers_lem limits.max_header_count 0 lines headers' k in
                let plain = validate_request_line-IsPlainLine first line' g in
                let host = one_host_lem (host_values headers') l in
                let same : (line' ≡ line) × (headers' ≡ headers) = ground (arith, f, g, k, l, h) in
                subst (λ a. IsAcceptedHead limits a headers) (same.0)
                  (subst (λ a. IsAcceptedHead limits line' a) (same.1)
                    (record {
                      line = plain;
                      fields = parsed.0;
                      field_count = ground (arith, (parsed.1) (ground arith));
                      authority = host;
                    }))
          ]
        ]
      ]
    ]

pub record IsAccepted (limits : HttpLimits) (r : HttpRequest) : Type 0 where
  pub line : IsPlainLine r.method r.path r.version
  pub fields : All IsCleanHeader r.headers
  pub field_count : length r.headers ≤ limits.max_header_count
  pub authority : (host : Text) × (host_values r.headers ≡ host ∷ []) × (is_empty host ≡ false)
  pub framing : IsFramedBy r.headers (length r.body)
  pub body_size : length r.body ≤ limits.max_body_bytes

parse_parts-IsAccepted :
    (header_bytes body : Bytes) (limits : HttpLimits) (r : HttpRequest)
    → parse_parts header_bytes body limits ≡ ok r
    → IsAccepted limits r
unfolding parse_parts
parse_parts-IsAccepted header_bytes body limits r h = elim (Option-cases (from_utf8 header_bytes)) [
  | inl e ↦ absurd (ground (arith, e, h))
  | inr (t, e) ↦ elim (Result-cases (parse_head t limits)) [
    | inr (x, f) ↦ absurd (ground (arith, e, f, h))
    | inl ((line, headers), f) ↦
        elim (Result-cases (expected_request_body_len_from_headers headers)) [
          | inr (x, g) ↦ absurd (ground (arith, e, f, g, h))
          | inl (n, g) ↦
              let head = parse_head-IsAcceptedHead t limits line headers f in
              let framed = expected-IsFramedBy headers n g in
              let size : (n ≡ length body) × (length body ≤ limits.max_body_bytes) =
                ground (arith, e, f, g, h) in
              let same : record {
                method = line.method;
                path = line.path;
                version = line.version;
                headers = headers;
                body = body;
              }
                  ≡ r =
                ground (arith, e, f, g, h) in
              subst (IsAccepted limits) same (record {
                line = head.line;
                fields = head.fields;
                field_count = head.field_count;
                authority = head.authority;
                framing = subst (IsFramedBy headers) (size.0) framed;
                body_size = size.1;
              })
        ]
  ]
]

-- A request that `parse_http_request` accepts has an HTTP/1.1 request line whose method is a token other
-- than CONNECT and whose target has no control byte; at most the allowed number of headers, each with a
-- token for its name and no prohibited control in its value; exactly one Host header, which is not empty;
-- no Transfer-Encoding value; Content-Length headers, where there are any, that all announce the length
-- of the body, and an empty body otherwise; and a body within the limit.
pub parse_http_request-IsAccepted :
    (input : Bytes) (limits : HttpLimits) (r : HttpRequest)
    → parse_http_request input limits ≡ ok r
    → IsAccepted limits r
unfolding parse_http_request
parse_http_request-IsAccepted input limits r h = elim (Option-cases (find_blank_line input)) [
  | inl e ↦ absurd (ground (arith, e, h))
  | inr (n, e) ↦
      parse_parts-IsAccepted (take n input) (drop (n + 4) input) limits r (ground (arith, e, h))
]
