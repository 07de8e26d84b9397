-- ===== src/Http/Forwarding/Sanitizer.antt =====
-- `UpstreamResponseHeaderSanitizer` (crates/edge-core/src/http_forwarding_policy.rs): upstream bytes
-- come in pieces, header blocks go out projected, the body as it is. `grows n` and `reserves n` are the
-- allocator's answers, to one more byte after `n` and to `n` bytes of output.
pub mod Fragments
use edge.Prelude.{ℕ, length, [], ◌∷◌, not, ◌++◌, leb, true, false, Bool, if◌then◌else◌}
use edge.Text.{blank_line, Bytes, ends_with}
use edge.Domain.Errors.{
  new_error, resource_payload_capacity_reached, err, resource_allocation_failed, Result, ok,
  AppError,
}
use edge.Http.Forwarding.{sanitize_response_header_block}
use edge.Http.Response.{is_interim}

pub record Sanitizer : Type 0 where
  pub headers : Bytes
  pub max_header_bytes : ℕ
  pub close_final_response : Bool
  pub forwarding_body : Bool

abbrev pub new_sanitizer : ℕ → Bool → Sanitizer
new_sanitizer max_header_bytes close_final_response = record {
  headers = [];
  max_header_bytes = max_header_bytes;
  close_final_response = close_final_response;
  forwarding_body = false;
}

abbrev pub limit_reached : AppError
limit_reached =
    new_error resource_payload_capacity_reached "response header sanitizer limit reached"

abbrev pub allocation_failed : AppError
allocation_failed =
    new_error resource_allocation_failed "response header sanitizer allocation failed"

abbrev pub headers_done : Sanitizer → Sanitizer
headers_done s = record s { headers = [] }

abbrev pub body_begins : Sanitizer → Sanitizer
body_begins s = record s { headers = []; forwarding_body = true }

module _ (grows reserves : ℕ → Bool) where
  -- `self.headers.push(byte)` with the guards before it.
  unfoldable pub push_header_byte : Sanitizer → ℕ → Result Sanitizer
  push_header_byte s b =
      if leb s.max_header_bytes (length s.headers)
      then err limit_reached
      else if not (grows (length s.headers))
      then err allocation_failed
      else ok (record s { headers = s.headers ++ b ∷ [] })

  -- The end of the loop's turn after a whole block: `sanitized` goes out, and the rest of the input
  -- goes on as the body or, behind an interim response, as the next block.
  unfoldable pub after_block :
      Sanitizer → Bytes → Bytes → Bool → Bytes → Result Bytes × Sanitizer → Result Bytes × Sanitizer
  after_block s output sanitized true rest next =
      if not (reserves (length sanitized)) then (err allocation_failed, s) else next
  after_block s output sanitized false rest next =
      if not (reserves (length sanitized))
      then (err allocation_failed, s)
      else if not (reserves (length rest))
      then (err allocation_failed, body_begins s)
      else (ok (output ++ sanitized ++ rest), body_begins s)

  unfoldable pub sanitize_loop : Sanitizer → Bytes → Bytes → Result Bytes × Sanitizer
  sanitize_loop s output [] = (ok output, s)
  sanitize_loop s output (b ∷ rest) = elim (push_header_byte s b) [
    | err e ↦ (err e, s)
    | ok t ↦ elim (ends_with blank_line t.headers) [
      | false ↦ sanitize_loop t output rest
      | true ↦ elim (sanitize_response_header_block t.headers t.close_final_response) [
        | err e ↦ (err e, t)
        | ok (sanitized, is_interim) ↦
            after_block t output sanitized is_interim rest
              (sanitize_loop (headers_done t) (output ++ sanitized) rest)
      ]
    ]
  ]

  unfoldable pub sanitize : Sanitizer → Bytes → Result Bytes × Sanitizer
  sanitize s input = if s.forwarding_body then (ok input, s) else sanitize_loop s [] input
