-- ===== src/Http/Wire.antt =====
-- crates/edge-core/src/lib.rs: the bytes of the request that is sent to the selected upstream. Whether the
-- allocator grants `try_reserve_exact` is `reserves`; writing to a vector does not fail.
pub mod Length
pub mod Identity
pub mod Hops
mod Tests
use edge.Domain.Endpoint.{UpstreamEndpoint, join_path}
use edge.Domain.Tls.{UpstreamTlsPolicy, server_authenticated, tls_disabled}
use edge.Domain.Errors.{ErrorCode}
use edge.Domain.Errors.Names.{as_str}
use edge.Http.Forwarding.{forwarded_headers, upstream_request_headers}
use edge.Http.Request.{Header, HttpRequest}
use edge.Prelude.{
  Bool, false, true, ℕ, Option, none, some, List, [], ◌∷◌, ◌++◌, ◌==◌, ◌&&◌, ◌||◌, checked_add,
  filter, if◌then◌else◌, length, not, String,
}
use edge.Text.{
  Bytes, Text, byte_len, crlf, eq_ignore_ascii_case, into_bytes, text_eq, to_ascii_lowercase, txt,
}

pub data IoErrorKind : Type 0 where
  out_of_memory invalid_data : IoErrorKind

pub record IoError : Type 0 where
  pub kind : IoErrorKind
  pub message : Text

pub data IoResult {ℓ} (A : Type ℓ) : Type ℓ where
  io_ok : A → IoResult A
  io_err : IoError → IoResult A

-- `?`
infixl 5 ◌>>=◌
abbrev pub ◌>>=◌ {ℓ κ} : {A : Type ℓ} {B : Type κ} → IoResult A → (A → IoResult B) → IoResult B
io_err e >>= next = io_err e
io_ok a >>= next = next a

abbrev pub resource_allocation_error : String → IoError
resource_allocation_error message = record {
  kind = out_of_memory;
  message = as_str ErrorCode.resource_allocation_failed ++ txt ": " ++ txt message;
}

abbrev pub length_mismatch : String → IoError
length_mismatch message = record { kind = invalid_data; message = txt message }

abbrev pub overflowed : IoError
overflowed = resource_allocation_error "upstream wire length overflowed"

abbrev pub or_overflowed : Option ℕ → (ℕ → IoResult ℕ) → IoResult ℕ
or_overflowed none next = io_err overflowed
or_overflowed (some total) next = next total

-- `try_fold` from `total`.
unfoldable pub add_lengths : ℕ → List ℕ → IoResult ℕ
add_lengths total [] = io_ok total
add_lengths total (part ∷ parts) =
    or_overflowed (checked_add total part) (λ sum. add_lengths sum parts)

unfoldable pub checked_wire_length : List ℕ → IoResult ℕ
unfolding add_lengths
checked_wire_length parts = add_lengths 0 parts

unfoldable pub planned_headers : ℕ → List Header → IoResult ℕ
planned_headers total [] = io_ok total
planned_headers total (h ∷ headers) =
    checked_wire_length (total ∷ byte_len h.name ∷ 2 ∷ byte_len h.value ∷ 2 ∷ []) >>= λ sum.
    planned_headers sum headers

unfoldable pub planned_close : Bool → ℕ → IoResult ℕ
planned_close force_connection_close total =
    if force_connection_close then checked_wire_length (total ∷ 19 ∷ []) else io_ok total

unfoldable pub planned_length : HttpRequest → Text → List Header → Bool → IoResult ℕ
planned_length request path headers force_connection_close = do
  line ←
      checked_wire_length
        (byte_len request.method ∷ 1 ∷ byte_len path ∷ 1 ∷ byte_len request.version ∷ 2 ∷ [])
  with_headers ← planned_headers line headers
  with_close ← planned_close force_connection_close with_headers
  checked_wire_length (with_close ∷ 2 ∷ length request.body ∷ [])

unfoldable pub header_lines : List Header → Bytes
header_lines [] = []
header_lines (h ∷ headers) =
    into_bytes (h.name ++ txt ": " ++ h.value ++ crlf) ++ header_lines headers

abbrev pub close_line : Bool → Bytes
close_line true = into_bytes (txt "Connection: close" ++ crlf)
close_line false = []

-- What is written into the reserved vector.
unfoldable pub wire : HttpRequest → Text → List Header → Bool → Bytes
unfolding header_lines
wire request path headers force_connection_close =
    into_bytes (request.method ++ txt " " ++ path ++ txt " " ++ request.version ++ crlf)
    ++ header_lines headers
    ++ close_line force_connection_close
    ++ crlf
    ++ request.body

unfoldable pub is_forwarded_header : Header → Bool
is_forwarded_header h =
    let name = to_ascii_lowercase h.name in
    text_eq name (txt "x-forwarded-for")
    || text_eq name (txt "x-forwarded-proto")
    || text_eq name (txt "x-forwarded-host")

-- The first header of that name takes the value.
unfoldable pub set_host : Text → List Header → List Header
set_host value [] = []
set_host value (h ∷ headers) =
    let rest = set_host value headers in
    if eq_ignore_ascii_case h.name (txt "Host")
    then record h { value = value } ∷ headers
    else h ∷ rest

abbrev pub override_host : Option Text → List Header → List Header
override_host none headers = headers
override_host (some host) headers = set_host host headers

unfoldable pub outgoing_headers :
    HttpRequest → Text → Text → Text → Bool → Option Text → List Header
unfolding set_host is_forwarded_header
outgoing_headers request client_ip scheme host preserve_upgrade host_override =
    override_host host_override (
      filter (λ h. not (is_forwarded_header h))
        (upstream_request_headers request.headers preserve_upgrade)
      ++ forwarded_headers client_ip scheme host)

abbrev pub host_override_of : UpstreamTlsPolicy → Option Text
host_override_of tls_disabled = none
host_override_of (server_authenticated server_name http_host trust_bundle_ref) = some http_host

module _ (reserves : ℕ → Bool) where
  abbrev pub written : Bytes → ℕ → IoResult Bytes
  written request planned =
      if reserves planned
      then (if length request == planned
          then io_ok request
          else io_err (
              length_mismatch
                "RESOURCE_ACCOUNTING_INVARIANT_FAILED: upstream wire length mismatch"))
      else io_err (resource_allocation_error "upstream wire reserve failed")

  unfoldable pub build_upstream_request :
      HttpRequest
      → UpstreamEndpoint
      → Text
      → Text
      → Text
      → Bool
      → Option Text
      → Bool
      → IoResult Bytes
  build_upstream_request request upstream client_ip scheme host preserve host_override close = do
    let headers = outgoing_headers request client_ip scheme host preserve host_override
    let path = join_path upstream request.path
    planned ← planned_length request path headers close
    written (wire request path headers close) planned

  abbrev pub checked_length : Bytes → ℕ → IoResult Bytes
  checked_length output planned =
      if length output == planned
      then io_ok output
      else io_err
          (length_mismatch "RESOURCE_ACCOUNTING_INVARIANT_FAILED: selected wire length mismatch")

  -- `build_selected_upstream_request_with_keep_alive`
  unfoldable pub build_selected_upstream_request :
      HttpRequest
      → UpstreamEndpoint
      → UpstreamTlsPolicy
      → Text
      → Text
      → Text
      → Bool
      → Bool
      → IoResult Bytes
  unfolding build_upstream_request
  build_selected_upstream_request request upstream tls client_ip scheme host preserve keep_alive =
      do
        let close = not preserve && not keep_alive
        let headers = outgoing_headers request client_ip scheme host preserve (host_override_of tls)
        planned ← planned_length request (join_path upstream request.path) headers close
        output ←
            build_upstream_request request upstream client_ip scheme host preserve
              (host_override_of tls) close
        checked_length output planned
