-- ===== src/Http/Response/Framing.antt =====
-- crates/edge-core/src/upstream_response_framing.rs: the incremental framer. `grows n` is the answer of
-- the allocator to a vector of `n` bytes that is asked to hold one more.
pub mod Live
pub mod Bytewise
pub mod Chunks
pub mod Cuts
use edge.Prelude.{
  ℕ, length, min, take, drop, ◌==◌, zero, none, ◌++◌, Option, ◌&&◌, [], String, ◌-◌, false, suc,
  if◌then◌else◌, some, Bool, leb, not, ◌∷◌, true, ◌+◌,
}
use edge.Domain.Exec.{pure}
use edge.Domain.Exec.{Exec, ◌>>=◌, ◌>>◌}
use edge.Domain.Errors.{Result, ok, err, ErrorCode, new_error, is_ok}
use edge.Http.Response.{
  ResponseBodyExpectation, ResponseBodyFraming, malformed_upstream_response,
  parse_response_framing_headers, parse_chunk_size, validate_trailer_line,
}
use edge.Text.{Bytes, ends_with, crlf, blank_line}
use mathlib.Core.Option

pub data ResponseFramingPhase : Type 0 where
  headers content_length chunk_size chunk_data chunk_data_crlf : ResponseFramingPhase
  trailers close_delimited complete failed : ResponseFramingPhase

pub data ResponseFramingState : Type 0 where
  in_headers : Bytes → ResponseFramingState
  in_content_length : (remaining : ℕ) → ResponseFramingState
  in_chunk_size : (line : Bytes) → ResponseFramingState
  in_chunk_data : (remaining : ℕ) → ResponseFramingState
  in_chunk_data_crlf : (matched : ℕ) → ResponseFramingState
  in_trailers : (line : Bytes) → ResponseFramingState
  in_close_delimited is_complete is_failed : ResponseFramingState

pub record ResponseFramingProgress : Type 0 where
  pub consumed : ℕ
  pub input_len : ℕ
  pub phase : ResponseFramingPhase
  pub status_code : Option ℕ

pub record HttpResponseFraming : Type 0 where
  pub state : ResponseFramingState
  pub max_header_bytes : ℕ
  pub max_line_bytes : ℕ
  pub body_expectation : ResponseBodyExpectation
  pub status_code : Option ℕ
  pub connection_close : Bool
  pub close_delimited : Bool

unfoldable pub with_body_expectation : ℕ → ℕ → ResponseBodyExpectation → HttpResponseFraming
with_body_expectation max_header_bytes max_line_bytes body_expectation = record {
  state = in_headers [];
  max_header_bytes = max_header_bytes;
  max_line_bytes = max_line_bytes;
  body_expectation = body_expectation;
  status_code = none;
  connection_close = false;
  close_delimited = false;
}

abbrev pub phase_of : ResponseFramingState → ResponseFramingPhase
phase_of (in_headers _) = ResponseFramingPhase.headers
phase_of (in_content_length _) = ResponseFramingPhase.content_length
phase_of (in_chunk_size _) = ResponseFramingPhase.chunk_size
phase_of (in_chunk_data _) = ResponseFramingPhase.chunk_data
phase_of (in_chunk_data_crlf _) = ResponseFramingPhase.chunk_data_crlf
phase_of (in_trailers _) = ResponseFramingPhase.trailers
phase_of in_close_delimited = ResponseFramingPhase.close_delimited
phase_of is_complete = ResponseFramingPhase.complete
phase_of is_failed = ResponseFramingPhase.failed

abbrev pub is_terminal_state : ResponseFramingState → Bool
is_terminal_state is_complete = true
is_terminal_state is_failed = true
is_terminal_state _ = false

abbrev is_complete_state : ResponseFramingState → Bool
is_complete_state is_complete = true
is_complete_state _ = false

unfoldable pub is_keep_alive_reusable : HttpResponseFraming → Bool
is_keep_alive_reusable f =
    is_complete_state f.state && not f.connection_close && not f.close_delimited

unfoldable pub fail_framing {ℓ} : {A : Type ℓ} → String → Exec HttpResponseFraming A
fail_framing message f = (err (malformed_upstream_response message), record f { state = is_failed })

abbrev pub progress : ℕ → ℕ → HttpResponseFraming → ResponseFramingProgress
progress consumed input_len f = record {
  consumed = consumed;
  input_len = input_len;
  phase = phase_of f.state;
  status_code = f.status_code;
}

-- The vector with one more byte.
unfoldable pub try_push_bounded : (ℕ → Bool) → Bytes → ℕ → ℕ → Result Bytes
try_push_bounded grows bytes byte max_bytes =
    if leb max_bytes (length bytes)
    then err (
        new_error ErrorCode.resource_payload_capacity_reached
          "response framing buffer limit reached")
    else if grows (length bytes)
    then ok (bytes ++ byte ∷ [])
    else err
        (new_error ErrorCode.resource_allocation_failed "response framing buffer allocation failed")

-- An error with the state left `Failed`, as `mem::replace` or the error arm leaves it.
abbrev pub or_fail {ℓ} :
    {A : Type ℓ}
    → Result A
    → (A → Exec HttpResponseFraming (Unit {0}))
    → Exec HttpResponseFraming (Unit {0})
or_fail (err e) next f = (err e, record f { state = is_failed })
or_fail (ok a) next f = next a f

abbrev pub go_to : ResponseFramingState → Exec HttpResponseFraming (Unit {0})
go_to s f = (ok tt, record f { state = s })

abbrev is_interim_framing : ResponseBodyFraming → Bool
is_interim_framing ResponseBodyFraming.interim = true
is_interim_framing _ = false

abbrev is_close_delimited : ResponseBodyFraming → Bool
is_close_delimited ResponseBodyFraming.close_delimited = true
is_close_delimited _ = false

-- The state behind a complete head.
abbrev pub state_for : ResponseBodyFraming → ResponseFramingState
state_for ResponseBodyFraming.interim = in_headers []
state_for ResponseBodyFraming.no_body = is_complete
state_for (ResponseBodyFraming.content_length zero) = is_complete
state_for (ResponseBodyFraming.content_length (suc n)) = in_content_length (suc n)
state_for ResponseBodyFraming.chunked = in_chunk_size []
state_for ResponseBodyFraming.close_delimited = in_close_delimited

unfoldable pub head_parsed : ℕ × ResponseBodyFraming × Bool → Exec HttpResponseFraming (Unit {0})
head_parsed (status_code, framing, connection_close) f =
    let noted : HttpResponseFraming = record f { status_code = some status_code } in
    let closed : HttpResponseFraming = if is_interim_framing framing then noted else record noted {
      connection_close = connection_close;
      close_delimited = is_close_delimited framing;
    } in
    (ok tt, record closed { state = state_for framing })

unfoldable pub head_byte : Bytes → Exec HttpResponseFraming (Unit {0})
unfolding head_parsed
head_byte collected f =
    if ends_with blank_line collected
    then or_fail (parse_response_framing_headers collected f.body_expectation) head_parsed f
    else go_to (in_headers collected) f

abbrev without_crlf : Bytes → Bytes
without_crlf line = take (length line - 2) line

abbrev pub after_size : ℕ → ResponseFramingState
after_size zero = in_trailers []
after_size (suc n) = in_chunk_data (suc n)

unfoldable pub size_byte : Bytes → Exec HttpResponseFraming (Unit {0})
size_byte line f =
    if ends_with crlf line
    then or_fail (parse_chunk_size (without_crlf line)) (λ n. go_to (after_size n)) f
    else go_to (in_chunk_size line) f

unfoldable pub crlf_byte : ℕ → ℕ → Exec HttpResponseFraming (Unit {0})
unfolding fail_framing
crlf_byte matched byte f =
    if not (byte == (if matched == 0 then 13 else 10))
    then fail_framing "chunk data is not followed by CRLF" f
    else if matched + 1 == 2
    then go_to (in_chunk_size []) f
    else go_to (in_chunk_data_crlf (matched + 1)) f

unfoldable pub trailer_byte : Bytes → Exec HttpResponseFraming (Unit {0})
unfolding fail_framing
trailer_byte line f =
    if not (ends_with crlf line)
    then go_to (in_trailers line) f
    else if length line == 2
    then go_to is_complete f
    else if is_ok (validate_trailer_line (without_crlf line))
    then go_to (in_trailers []) f
    else fail_framing "malformed chunk trailer" f

abbrev pub after_bulk : ℕ → ResponseFramingState → ResponseFramingState → ResponseFramingState
after_bulk zero finished more = finished
after_bulk (suc n) finished more = more

-- `n` of the bytes at hand, at most `remaining`.
abbrev pub bulk :
    ℕ → ℕ → ResponseFramingState → (ℕ → ResponseFramingState) → Exec HttpResponseFraming (Option ℕ)
bulk remaining available finished more f =
    let consumed = min remaining available in
    (
      ok (some consumed),
      record f { state = after_bulk (remaining - consumed) finished (more (remaining - consumed)) },
    )

-- One turn of the loop of `push`, at a byte with `more` bytes behind it: how many bytes it consumes, or
-- `none` for `break`.
module _ (grows : ℕ → Bool) where
  unfoldable pub byte_step : ℕ → ResponseFramingState → Exec HttpResponseFraming (Unit {0})
  byte_step byte (in_headers collected) f =
      or_fail (try_push_bounded grows collected byte f.max_header_bytes) head_byte f
  byte_step byte (in_chunk_size line) f =
      or_fail (try_push_bounded grows line byte f.max_line_bytes) size_byte f
  byte_step byte (in_chunk_data_crlf matched) f = crlf_byte matched byte f
  byte_step byte (in_trailers line) f =
      or_fail (try_push_bounded grows line byte f.max_line_bytes) trailer_byte f
  byte_step byte s f = (ok tt, f)

  unfoldable pub turn : ℕ → ℕ → ResponseFramingState → Exec HttpResponseFraming (Option ℕ)
  unfolding ◌>>=◌
  turn byte more (in_content_length remaining) =
      bulk remaining (suc more) is_complete in_content_length
  turn byte more (in_chunk_data remaining) =
      bulk remaining (suc more) (in_chunk_data_crlf 0) in_chunk_data
  turn byte more in_close_delimited = pure (some (suc more))
  turn byte more is_complete = pure none
  turn byte more is_failed = pure none
  turn byte more s = do byte_step byte s; pure (some 1)

  -- What a turn's answer means for the loop; `rest` is the loop behind the consumed bytes.
  abbrev pub loop_on :
      (ℕ → HttpResponseFraming → Option (Result ℕ × HttpResponseFraming))
      → ℕ
      → Result (Option ℕ) × HttpResponseFraming
      → Option (Result ℕ × HttpResponseFraming)
  loop_on rest consumed (err e, f) = some (err e, f)
  loop_on rest consumed (ok none, f) = some (ok consumed, f)
  loop_on rest consumed (ok (some k), f) = rest k f

  -- `while cursor < input.len()`, on fuel: `none` means that it ran out.
  unfoldable pub push_loop :
      ℕ → ℕ → Bytes → HttpResponseFraming → Option (Result ℕ × HttpResponseFraming)
  push_loop zero cursor input f = none
  push_loop (suc fuel) cursor [] f = some (ok cursor, f)
  push_loop (suc fuel) cursor (byte ∷ input) f =
      loop_on (λ k f'. push_loop fuel (cursor + k) (drop k (byte ∷ input)) f') cursor
        (turn byte (length input) f.state f)

  abbrev pub report :
      ℕ → Result ℕ × HttpResponseFraming → Result ResponseFramingProgress × HttpResponseFraming
  report input_len (err e, f) = (err e, f)
  report input_len (ok consumed, f) = (ok (progress consumed input_len f), f)

  unfoldable pub push :
      Bytes → HttpResponseFraming → Option (Result ResponseFramingProgress × HttpResponseFraming)
  push input f =
      if is_terminal_state f.state
      then some (fail_framing "response framing is already terminal" f)
      else Option.map (report (length input)) (push_loop (suc (length input)) 0 input f)

unfoldable pub finish_state :
    ResponseFramingState → Exec HttpResponseFraming ResponseFramingProgress
finish_state in_close_delimited f =
    let done : HttpResponseFraming = record f { state = is_complete } in
    (ok (progress 0 0 done), done)
finish_state is_complete f = (ok (progress 0 0 f), f)
finish_state is_failed f = fail_framing "response framing has failed" f
finish_state _ f = fail_framing "upstream closed before response framing completed" f

unfoldable pub finish_on_eof : Exec HttpResponseFraming ResponseFramingProgress
unfolding finish_state
finish_on_eof f = finish_state f.state f
