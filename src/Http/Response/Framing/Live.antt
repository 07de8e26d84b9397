-- ===== src/Http/Response/Framing/Live.antt =====
-- The states that a framer can be in.
use edge.Prelude.{ℕ, ◌<◌, inr, ◌≡◌, suc, Bool, zero, arith, inl}
use edge.Domain.Exec.{Exec}
use edge.Domain.Errors.{Result, ok, err, Result-cases}
use edge.Text.{Bytes}
use edge.Http.Response.{ResponseBodyFraming, parse_response_framing_headers}
use edge.Http.Response.Framing.{
  is_complete, byte_step, in_chunk_data, or_fail, after_bulk, in_headers, ResponseFramingState,
  in_chunk_size, trailer_byte, in_chunk_data_crlf, HttpResponseFraming, head_byte, in_trailers,
  in_content_length, is_failed, size_byte, crlf_byte, in_close_delimited,
}

-- A bulk state has bytes left.
abbrev pub IsLiveState : ResponseFramingState → Type 0
IsLiveState (in_content_length remaining) = 0 < remaining
IsLiveState (in_chunk_data remaining) = 0 < remaining
IsLiveState (in_chunk_data_crlf matched) = matched < 2
IsLiveState _ = Unit

pub bulk-live :
    (left : ℕ) (finished : ResponseFramingState) (more : ℕ → ResponseFramingState)
    → IsLiveState finished
    → ((n : ℕ) → IsLiveState (more (suc n)))
    → IsLiveState (after_bulk left finished (more left))
bulk-live zero finished more a b = a
bulk-live (suc n) finished more a b = b n

head_byte-live :
    (collected : Bytes) (f : HttpResponseFraming) → IsLiveState (head_byte collected f).1.state
unfolding head_byte
head_byte-live collected f =
    elim (Result-cases (parse_response_framing_headers collected f.body_expectation)) [
      | inl ((status, ResponseBodyFraming.interim, close), e) ↦ ground (arith, e)
      | inl ((status, ResponseBodyFraming.no_body, close), e) ↦ ground (arith, e)
      | inl ((status, ResponseBodyFraming.content_length zero, close), e) ↦ ground (arith, e)
      | inl ((status, ResponseBodyFraming.content_length (suc n), close), e) ↦ ground (arith, e)
      | inl ((status, ResponseBodyFraming.chunked, close), e) ↦ ground (arith, e)
      | inl ((status, ResponseBodyFraming.close_delimited, close), e) ↦ ground (arith, e)
      | inr (x, e) ↦ ground (arith, e)
    ]

size_byte-live : (line : Bytes) (f : HttpResponseFraming) → IsLiveState (size_byte line f).1.state
unfolding size_byte
size_byte-live line f = ground arith

trailer_byte-live :
    (line : Bytes) (f : HttpResponseFraming) → IsLiveState (trailer_byte line f).1.state
unfolding trailer_byte
trailer_byte-live line f = ground arith

or_fail-live {ℓ} :
    {A : Type ℓ} (r : Result A) (next : A → Exec HttpResponseFraming (Unit {0}))
    (f : HttpResponseFraming)
    → ((a : A) → IsLiveState (next a f).1.state)
    → IsLiveState (or_fail r next f).1.state
or_fail-live (err e) next f h = tt
or_fail-live (ok a) next f h = h a

pub byte_step-live :
    (grows : ℕ → Bool) (byte : ℕ) (s : ResponseFramingState) (f : HttpResponseFraming)
    → IsLiveState s
    → f.state ≡ s
    → IsLiveState (byte_step grows byte s f).1.state
unfolding byte_step crlf_byte
byte_step-live grows byte (in_headers collected) f live e =
    or_fail-live _ head_byte f (λ a. head_byte-live a f)
byte_step-live grows byte (in_chunk_size line) f live e =
    or_fail-live _ size_byte f (λ a. size_byte-live a f)
byte_step-live grows byte (in_chunk_data_crlf matched) f live e = ground arith
byte_step-live grows byte (in_trailers line) f live e =
    or_fail-live _ trailer_byte f (λ a. trailer_byte-live a f)
byte_step-live grows byte (in_content_length n) f live e = rw e live
byte_step-live grows byte (in_chunk_data n) f live e = rw e live
byte_step-live grows byte in_close_delimited f live e = rw e live
byte_step-live grows byte is_complete f live e = rw e live
byte_step-live grows byte is_failed f live e = rw e live
