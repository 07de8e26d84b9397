-- ===== src/Http/Response/Framing/Bytewise.antt =====
-- The framer read one byte at a time, and the loop of `push` against it.
use edge.Prelude.{
  ℕ, length, min, drop, if◌then◌else◌, ◌+◌, ◌≡◌, [], arith, suc, zero, ◌-◌, ◌∙◌, ◌∷◌, Bool, inr,
  inl, Bool-cases, refl,
}
use edge.Domain.Exec.{Exec}
use edge.Domain.Errors.{Result, ok, err}
use edge.Text.{Bytes}
use edge.Http.Response.Framing.{
  is_complete, is_terminal_state, go_to, in_chunk_data, in_close_delimited, ResponseFramingState,
  in_chunk_data_crlf, HttpResponseFraming, in_content_length, byte_step, after_bulk,
}
use edge.Http.Response.Framing.Live.{IsLiveState, bulk-live, byte_step-live}

module _ (grows : ℕ → Bool) where
  -- What one byte does, in every state.
  abbrev pub single : ℕ → ResponseFramingState → Exec HttpResponseFraming (Unit {0})
  single byte (in_content_length (suc left)) =
      go_to (after_bulk left is_complete (in_content_length left))
  single byte (in_chunk_data (suc left)) =
      go_to (after_bulk left (in_chunk_data_crlf 0) (in_chunk_data left))
  single byte s = byte_step grows byte s

  -- What the rest of the bytes does behind one.
  abbrev pub onward :
      (HttpResponseFraming → Result ℕ × HttpResponseFraming)
      → Result (Unit {0}) × HttpResponseFraming
      → Result ℕ × HttpResponseFraming
  onward rest (err e, f) = (err e, f)
  onward rest (ok done, f) = rest f

  unfoldable pub bytewise : ℕ → Bytes → HttpResponseFraming → Result ℕ × HttpResponseFraming
  bytewise cursor [] f = (ok cursor, f)
  bytewise cursor (byte ∷ input) f =
      let rest = onward (bytewise (cursor + 1) input) (single byte f.state f) in
      if is_terminal_state f.state then (ok cursor, f) else rest

  -- A bulk state, entered with `r + 1` bytes to go.
  module _ (finished : ResponseFramingState) (more : ℕ → ResponseFramingState)
      (one_byte : (cursor r byte : ℕ) (input : Bytes) (f : HttpResponseFraming)
        → bytewise cursor (byte ∷ input) (record f { state = more (suc r) })
          ≡ bytewise (cursor + 1) input (record f { state = after_bulk r finished (more r) })) where
    pub bytewise-bulk :
        (cursor r k next left : ℕ) (input : Bytes) (f : HttpResponseFraming)
        → k ≡ min (suc r) (length input)
        → next ≡ cursor + k
        → left ≡ suc r - k
        → bytewise cursor input (record f { state = more (suc r) })
          ≡ bytewise next (drop k input) (record f { state = after_bulk left finished (more left) })
    bytewise-bulk cursor r zero next zero [] f e n l = absurd (omega arith)
    bytewise-bulk cursor r zero next (suc left) [] f e n l =
        let same : left ≡ r = omega arith in
        let here : next ≡ cursor = omega arith in rw (same, here)
    bytewise-bulk cursor r (suc k) next left [] f e n l = absurd (omega arith)
    bytewise-bulk cursor r zero next left (byte ∷ input) f e n l = absurd (omega arith)
    bytewise-bulk cursor zero (suc k) next left (byte ∷ input) f e n l =
        let none_left : left ≡ 0 = omega arith in
        let k_zero : k ≡ 0 = omega arith in
        let here : next ≡ cursor + 1 = omega arith in
        rw (none_left, k_zero, here) (one_byte cursor zero byte input f)
    bytewise-bulk cursor (suc r) (suc k) next left (byte ∷ input) f e n l =
        one_byte cursor (suc r) byte input f
        ∙ bytewise-bulk (cursor + 1) r k next left input f (omega arith) (omega arith) (omega arith)

  pub bytewise-close :
      (cursor : ℕ) (input : Bytes) (f : HttpResponseFraming)
      → f.state ≡ in_close_delimited
      → bytewise cursor input f ≡ (ok (cursor + length input), f)
  unfolding bytewise byte_step
  bytewise-close cursor [] f e = ground arith
  bytewise-close cursor (byte ∷ input) f e = ground (arith, bytewise-close (cursor + 1) input f)

  pub single-live :
      (byte : ℕ) (s : ResponseFramingState) (f : HttpResponseFraming)
      → IsLiveState s
      → f.state ≡ s
      → IsLiveState (single byte s f).1.state
  single-live byte (in_content_length zero) f live e = elim live [ ]
  single-live byte (in_chunk_data zero) f live e = elim live [ ]
  single-live byte (in_content_length (suc n)) f live e =
      bulk-live n is_complete in_content_length tt (λ m. omega arith)
  single-live byte (in_chunk_data (suc n)) f live e =
      bulk-live n (in_chunk_data_crlf 0) in_chunk_data (omega arith) (λ m. omega arith)
  single-live byte s f live e = byte_step-live grows byte s f live e

  onward-live :
      (rest : HttpResponseFraming → Result ℕ × HttpResponseFraming)
      (r : Result (Unit {0}) × HttpResponseFraming)
      → IsLiveState r.1.state
      → ((g : HttpResponseFraming) → IsLiveState g.state → IsLiveState (rest g).1.state)
      → IsLiveState (onward rest r).1.state
  onward-live rest (err x, g) live h = live
  onward-live rest (ok done, g) live h = h g live

  pub bytewise-live :
      (cursor : ℕ) (input : Bytes) (f : HttpResponseFraming)
      → IsLiveState f.state
      → IsLiveState (bytewise cursor input f).1.state
  unfolding bytewise
  bytewise-live cursor [] f live = live
  bytewise-live cursor (byte ∷ input) f live = elim (Bool-cases (is_terminal_state f.state)) [
    | inl e ↦ rw e live
    | inr e ↦ rw e (
        onward-live (bytewise (cursor + 1) input) (single byte f.state f)
          (single-live byte f.state f live refl) (bytewise-live (cursor + 1) input))
  ]
