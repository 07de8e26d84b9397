-- ===== src/Http/Wire/Length.antt =====
-- The length that is planned for a request is the length of what is written.
use edge.Domain.Endpoint.{UpstreamEndpoint, join_path}
use edge.Domain.Tls.{UpstreamTlsPolicy}
use edge.Http.Request.{Header, HttpRequest}
use edge.Http.Wire.{
  IoResult, add_lengths, build_selected_upstream_request, build_upstream_request,
  checked_wire_length, close_line, header_lines, host_override_of, io_err, io_ok, outgoing_headers,
  overflowed, planned_close, planned_headers, planned_length, resource_allocation_error, wire,
  ◌>>=◌,
}
use edge.Prelude.{
  Bool, Bool-cases, false, true, ℕ, List, [], ◌∷◌, ◌++◌, ◌+◌, ◌==◌, ◌&&◌, ◌≡◌, ◌≤◌, ◌∙◌, ap, arith,
  if◌then◌else◌, inl, inr, leb, length, length-append, not, refl, u64_max,
}
use edge.Text.{Bytes, Text, byte_len, crlf, encode_char, into_bytes, len_utf8, txt}

-- A length that a `usize` holds, or the error.
abbrev pub bounded : ℕ → IoResult ℕ
bounded n = if leb n u64_max then io_ok n else io_err overflowed

abbrev sum : List ℕ → ℕ
sum [] = 0
sum (n ∷ ns) = n + sum ns

bounded-then :
    (t n : ℕ) (f : ℕ → IoResult ℕ)
    → t ≤ n
    → (t ≤ u64_max → f t ≡ bounded n)
    → (bounded t >>= f) ≡ bounded n
bounded-then t n f le next = elim (Bool-cases (leb t u64_max)) [
  | inl e ↦ rw e (next (ground (arith, e)))
  | inr e ↦ let above : leb n u64_max ≡ false = ground (arith, e, le) in rw (e, above) refl
]

add_lengths-bounded : (t : ℕ) (ns : List ℕ) → t ≤ u64_max → add_lengths t ns ≡ bounded (t + sum ns)
unfolding add_lengths
add_lengths-bounded t [] h =
    let same : t + 0 ≡ t = omega arith in
    let fits : leb t u64_max ≡ true = ground (arith, h) in rw (same, fits) refl
add_lengths-bounded t (n ∷ ns) h = elim (Bool-cases (leb (t + n) u64_max)) [
  | inl e ↦
      let same : t + (n + sum ns) ≡ t + n + sum ns = omega arith in
      rw (e, same) (add_lengths-bounded (t + n) ns (ground (arith, e)))
  | inr e ↦
      let above : leb (t + (n + sum ns)) u64_max ≡ false = ground (arith, e) in rw (e, above) refl
]

checked_wire_length-bounded : (ns : List ℕ) → checked_wire_length ns ≡ bounded (sum ns)
unfolding checked_wire_length
checked_wire_length-bounded ns =
    let same : 0 + sum ns ≡ sum ns = omega arith in
    add_lengths-bounded 0 ns (omega arith) ∙ ap bounded same

abbrev headers_length : List Header → ℕ
headers_length [] = 0
headers_length (h ∷ headers) = byte_len h.name + 2 + byte_len h.value + 2 + headers_length headers

planned_headers-bounded :
    (t : ℕ) (headers : List Header)
    → t ≤ u64_max
    → planned_headers t headers ≡ bounded (t + headers_length headers)
unfolding planned_headers
planned_headers-bounded t [] h =
    let same : t + 0 ≡ t = omega arith in
    let fits : leb t u64_max ≡ true = ground (arith, h) in rw (same, fits) refl
planned_headers-bounded t (x ∷ headers) h =
    let parts : List ℕ = t ∷ byte_len x.name ∷ 2 ∷ byte_len x.value ∷ 2 ∷ [] in
    let whole : t + headers_length (x ∷ headers) ≡ sum parts + headers_length headers =
      omega arith in
    rw (checked_wire_length-bounded parts, whole)
      (bounded-then (sum parts) (sum parts + headers_length headers)
        (λ s. planned_headers s headers) (omega arith)
        (planned_headers-bounded (sum parts) headers))

abbrev close_length : Bool → ℕ
close_length true = 19
close_length false = 0

planned_close-bounded :
    (close : Bool) (t : ℕ) → t ≤ u64_max → planned_close close t ≡ bounded (t + close_length close)
unfolding planned_close
planned_close-bounded true t h = checked_wire_length-bounded (t ∷ 19 ∷ [])
planned_close-bounded false t h =
    let same : t + 0 ≡ t = omega arith in
    let fits : leb t u64_max ≡ true = ground (arith, h) in rw (same, fits) refl

encode_char-length : (c : ℕ) → length (encode_char c) ≡ len_utf8 c
unfolding encode_char
encode_char-length c = ground arith

into_bytes-length : (t : Text) → length (into_bytes t) ≡ byte_len t
unfolding into_bytes
into_bytes-length [] = refl
into_bytes-length (c ∷ t) =
    length-append (encode_char c) (into_bytes t)
    ∙ (rw (encode_char-length c, into_bytes-length t) refl)

byte_len-append : (s t : Text) → byte_len (s ++ t) ≡ byte_len s + byte_len t
byte_len-append [] t = omega arith
byte_len-append (c ∷ s) t = omega (arith, byte_len-append s t)

header_lines-length :
    (headers : List Header) → length (header_lines headers) ≡ headers_length headers
unfolding header_lines
header_lines-length [] = refl
header_lines-length (h ∷ headers) =
    length-append (into_bytes (h.name ++ txt ": " ++ h.value ++ crlf)) (header_lines headers)
    ∙ (rw
        (
          into_bytes-length (h.name ++ txt ": " ++ h.value ++ crlf),
          header_lines-length headers,
          byte_len-append (h.name ++ txt ": " ++ h.value) crlf,
          byte_len-append (h.name ++ txt ": ") h.value,
          byte_len-append h.name (txt ": "),
        )
        (omega arith))

close_line-length : (close : Bool) → length (close_line close) ≡ close_length close
unfolding into_bytes encode_char
close_line-length true = refl
close_line-length false = refl

abbrev line_length : HttpRequest → Text → ℕ
line_length request path =
    byte_len request.method + 1 + byte_len path + 1 + byte_len request.version + 2

request_line-length :
    (request : HttpRequest) (path : Text)
    → length (into_bytes (request.method ++ txt " " ++ path ++ txt " " ++ request.version ++ crlf))
      ≡ line_length request path
request_line-length request path =
    let method = request.method in
    let version = request.version in
    into_bytes-length (method ++ txt " " ++ path ++ txt " " ++ version ++ crlf)
    ∙ (rw
        (
          byte_len-append (method ++ txt " " ++ path ++ txt " " ++ version) crlf,
          byte_len-append (method ++ txt " " ++ path ++ txt " ") version,
          byte_len-append (method ++ txt " " ++ path) (txt " "),
          byte_len-append (method ++ txt " ") path,
          byte_len-append method (txt " "),
        )
        (omega arith))

wire-length :
    (request : HttpRequest) (path : Text) (headers : List Header) (close : Bool)
    → length (wire request path headers close)
      ≡ line_length request path
        + headers_length headers
        + close_length close
        + 2
        + length request.body
unfolding wire
wire-length request path headers close =
    let line =
      into_bytes (request.method ++ txt " " ++ path ++ txt " " ++ request.version ++ crlf) in
    rw
      (
        length-append (line ++ header_lines headers ++ close_line close ++ crlf) request.body,
        length-append (line ++ header_lines headers ++ close_line close) crlf,
        length-append (line ++ header_lines headers) (close_line close),
        length-append line (header_lines headers),
        request_line-length request path,
        header_lines-length headers,
        close_line-length close,
      )
      refl

-- The last two steps of the plan, and the last three.
last_length : ℕ → HttpRequest → IoResult ℕ
last_length total request = checked_wire_length (total ∷ 2 ∷ length request.body ∷ [])

close_and_body :
    (request : HttpRequest) (close : Bool) (t n : ℕ)
    → t + close_length close + (2 + length request.body) ≡ n
    → t ≤ u64_max
    → (planned_close close t >>= λ s. last_length s request) ≡ bounded n
unfolding last_length
close_and_body request close t n e h = rw (planned_close-bounded close t h) (
    bounded-then (t + close_length close) n (λ s. last_length s request) (omega (arith, e))
      (λ fits.
        checked_wire_length-bounded ((t + close_length close) ∷ 2 ∷ length request.body ∷ [])
        ∙ ap bounded (omega (arith, e))))

planned_length-wire :
    (request : HttpRequest) (path : Text) (headers : List Header) (close : Bool)
    → planned_length request path headers close ≡ bounded (length (wire request path headers close))
unfolding planned_length last_length
planned_length-wire request path headers close =
    let n = length (wire request path headers close) in
    let line = line_length request path in
    let whole = wire-length request path headers close in
    let parts : List ℕ =
      byte_len request.method ∷ 1 ∷ byte_len path ∷ 1 ∷ byte_len request.version ∷ 2 ∷ [] in
    let same : sum parts ≡ line = omega arith in
    rw (checked_wire_length-bounded parts, same)
      (bounded-then line n _ (omega (arith, whole)) (λ fits.
        rw (planned_headers-bounded line headers fits) (
          bounded-then (line + headers_length headers) n _ (omega (arith, whole)) (λ fits'.
            close_and_body request close (line + headers_length headers) n (omega (arith, whole))
              fits'))))

-- The bytes of the request for the selected upstream.
abbrev pub selected_wire :
    HttpRequest → UpstreamEndpoint → UpstreamTlsPolicy → Text → Text → Text → Bool → Bool → Bytes
selected_wire request upstream tls client_ip scheme host preserve keep_alive =
    wire request (join_path upstream request.path)
      (outgoing_headers request client_ip scheme host preserve (host_override_of tls))
      (not preserve && not keep_alive)

abbrev pub granted : (ℕ → Bool) → Bytes → IoResult Bytes
granted reserves output =
    if leb (length output) u64_max
    then (if reserves (length output)
        then io_ok output
        else io_err (resource_allocation_error "upstream wire reserve failed"))
    else io_err overflowed

-- What is sent is the request that `wire` renders, with the headers and the path of the selected
-- upstream, unless its length does not fit in 64 bits or the allocator refuses that length: the plan
-- is the length of what is written, and neither check of it ever fails.
pub build_selected_upstream_request-wire :
    (reserves : ℕ → Bool) (request : HttpRequest) (upstream : UpstreamEndpoint)
    (tls : UpstreamTlsPolicy) (client_ip scheme host : Text) (preserve keep_alive : Bool)
    → build_selected_upstream_request reserves request upstream tls client_ip scheme host preserve
        keep_alive
      ≡ granted reserves
          (selected_wire request upstream tls client_ip scheme host preserve keep_alive)
unfolding build_selected_upstream_request build_upstream_request
build_selected_upstream_request-wire reserves request upstream tls client_ip scheme host preserve
      keep_alive =
    let headers = outgoing_headers request client_ip scheme host preserve (host_override_of tls) in
    let path = join_path upstream request.path in
    let close = not preserve && not keep_alive in
    let n = length (wire request path headers close) in
    let plan = planned_length-wire request path headers close in
    let equal : (n == n) ≡ true = ground arith in
    rw plan (elim (Bool-cases (leb n u64_max)) [
      | inr f ↦ rw f refl
      | inl f ↦
          rw f (elim (Bool-cases (reserves n)) [
            | inl g ↦ rw (g, equal, equal) refl
            | inr g ↦ rw g refl
          ])
    ])
