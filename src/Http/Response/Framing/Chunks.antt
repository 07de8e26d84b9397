-- ===== src/Http/Response/Framing/Chunks.antt =====
-- The loop of `push` ends and is the bytewise reading, so the framer does not see how its input is cut.
use edge.Domain.Exec.{resume, pure, ◌>>=◌}
use edge.Prelude.{
  ℕ, length, ◌<◌, [], refl, Bool, ◌≡◌, zero, some, ◌∷◌, suc, sym, length-drop, arith, min, drop,
  ◌∙◌, ◌-◌, ap, ◌+◌, false,
}
use edge.Text.{Bytes}
use edge.Http.Response.Framing.{
  is_complete, in_content_length, is_failed, in_chunk_data, turn, push_loop, in_close_delimited,
  ResponseFramingState, HttpResponseFraming, in_headers, byte_step, loop_on, after_bulk,
  in_chunk_data_crlf, in_trailers, in_chunk_size, report, push, is_terminal_state,
}
use edge.Http.Response.Framing.Bytewise.{
  bytewise, onward, bytewise-bulk, bytewise-close, bytewise-live,
}
use edge.Http.Response.Framing.Live.{IsLiveState, byte_step-live, bulk-live}
use edge.Domain.Errors.{err, ok, Result}

module _ (grows : ℕ → Bool) where
  report-live :
      (n : ℕ) (r : Result ℕ × HttpResponseFraming)
      → IsLiveState r.1.state
      → IsLiveState (report grows n r).1.state
  report-live n (err e, g) live = live
  report-live n (ok k, g) live = live

  byte_turn :
      (fuel cursor byte : ℕ) (input : Bytes) (r : Result (Unit {0}) × HttpResponseFraming)
      → ((g : HttpResponseFraming)
          → IsLiveState g.state
          → push_loop grows fuel (cursor + 1) input g ≡ some (bytewise grows (cursor + 1) input g))
      → IsLiveState r.1.state
      → loop_on grows
          (λ k f'. push_loop grows fuel (cursor + k) (drop k (byte ∷ input)) f')
          cursor
          (resume r.0 r.1 (λ _. pure (some 1)))
        ≡ some (onward grows (bytewise grows (cursor + 1) input) r)
  byte_turn fuel cursor byte input (err e, g) ih live = refl
  byte_turn fuel cursor byte input (ok done, g) ih live = ih g live

  push_loop-eq-bytewise :
      (fuel cursor : ℕ) (input : Bytes) (s : ResponseFramingState) (f : HttpResponseFraming)
      → length input < fuel
      → IsLiveState s
      → let g = record f { state = s } in
        push_loop grows fuel cursor input g ≡ some (bytewise grows cursor input g)
  unfolding push_loop bytewise turn ◌>>=◌
  push_loop-eq-bytewise zero cursor input s f h live = elim h [ ]
  push_loop-eq-bytewise (suc fuel) cursor [] s f h live = refl
  push_loop-eq-bytewise (suc fuel) cursor (byte ∷ input) (in_content_length zero) f h live =
      elim live [ ]
  push_loop-eq-bytewise (suc fuel) cursor (byte ∷ input) (in_chunk_data zero) f h live =
      elim live [ ]
  push_loop-eq-bytewise (suc fuel) cursor (byte ∷ input) (in_content_length (suc r)) f h live =
      let k = min (suc r) (suc (length input)) in
      push_loop-eq-bytewise fuel (cursor + k) (drop k (byte ∷ input))
        (after_bulk (suc r - k) is_complete (in_content_length (suc r - k))) f
        (omega (arith, length-drop k (byte ∷ input)))
        (bulk-live (suc r - k) is_complete in_content_length tt (λ m. omega arith))
      ∙ ap some (
          sym (
            bytewise-bulk grows is_complete in_content_length (λ c q b bs g. refl) cursor r k
              (cursor + k) (suc r - k) (byte ∷ input) f refl refl refl))
  push_loop-eq-bytewise (suc fuel) cursor (byte ∷ input) (in_chunk_data (suc r)) f h live =
      let k = min (suc r) (suc (length input)) in
      push_loop-eq-bytewise fuel (cursor + k) (drop k (byte ∷ input))
        (after_bulk (suc r - k) (in_chunk_data_crlf 0) (in_chunk_data (suc r - k))) f
        (omega (arith, length-drop k (byte ∷ input)))
        (bulk-live (suc r - k) (in_chunk_data_crlf 0) in_chunk_data (omega arith)
          (λ m. omega arith))
      ∙ ap some (
          sym (
            bytewise-bulk grows (in_chunk_data_crlf 0) in_chunk_data (λ c q b bs g. refl) cursor r k
              (cursor + k) (suc r - k) (byte ∷ input) f refl refl refl))
  push_loop-eq-bytewise (suc fuel) cursor (byte ∷ input) in_close_delimited f h live =
      let n = length input in
      let g : HttpResponseFraming = record f { state = in_close_delimited } in
      let whole : cursor + suc n + length (drop n input) ≡ cursor + suc n =
        omega (arith, length-drop n input) in
      push_loop-eq-bytewise fuel (cursor + suc n) (drop n input) in_close_delimited f
        (omega (arith, length-drop n input)) tt
      ∙ ap some (
          bytewise-close grows (cursor + suc n) (drop n input) g refl
          ∙ ap (λ m. (ok m, g)) whole
          ∙ sym (bytewise-close grows cursor (byte ∷ input) g refl))
  push_loop-eq-bytewise (suc fuel) cursor (byte ∷ input) is_complete f h live = refl
  push_loop-eq-bytewise (suc fuel) cursor (byte ∷ input) is_failed f h live = refl
  push_loop-eq-bytewise (suc fuel) cursor (byte ∷ input) (in_headers collected) f h live =
      let s = in_headers collected in
      let g : HttpResponseFraming = record f { state = s } in
      byte_turn fuel cursor byte input (byte_step grows byte s g)
        (λ g' l. push_loop-eq-bytewise fuel (cursor + 1) input g'.state g' (omega arith) l)
        (byte_step-live grows byte s g live refl)
  push_loop-eq-bytewise (suc fuel) cursor (byte ∷ input) (in_chunk_size line) f h live =
      let s = in_chunk_size line in
      let g : HttpResponseFraming = record f { state = s } in
      byte_turn fuel cursor byte input (byte_step grows byte s g)
        (λ g' l. push_loop-eq-bytewise fuel (cursor + 1) input g'.state g' (omega arith) l)
        (byte_step-live grows byte s g live refl)
  push_loop-eq-bytewise (suc fuel) cursor (byte ∷ input) (in_chunk_data_crlf matched) f h live =
      let s = in_chunk_data_crlf matched in
      let g : HttpResponseFraming = record f { state = s } in
      byte_turn fuel cursor byte input (byte_step grows byte s g)
        (λ g' l. push_loop-eq-bytewise fuel (cursor + 1) input g'.state g' (omega arith) l)
        (byte_step-live grows byte s g live refl)
  push_loop-eq-bytewise (suc fuel) cursor (byte ∷ input) (in_trailers line) f h live =
      let s = in_trailers line in
      let g : HttpResponseFraming = record f { state = s } in
      byte_turn fuel cursor byte input (byte_step grows byte s g)
        (λ g' l. push_loop-eq-bytewise fuel (cursor + 1) input g'.state g' (omega arith) l)
        (byte_step-live grows byte s g live refl)

  -- On a live framer that is not terminal, `push` ends: its loop never runs out of turns. It does what
  -- reading its input one byte at a time does, with the count of the bytes read, and leaves a live framer.
  pub push-eq-bytewise :
      (input : Bytes) (f : HttpResponseFraming)
      → IsLiveState f.state
      → is_terminal_state f.state ≡ false
      → (push grows input f ≡ some (report grows (length input) (bytewise grows 0 input f)))
        × IsLiveState (report grows (length input) (bytewise grows 0 input f)).1.state
  unfolding push
  push-eq-bytewise input f live e =
      let looped =
        push_loop-eq-bytewise (suc (length input)) 0 input f.state f (omega arith) live in
      let left = bytewise-live grows 0 input f live in
      (rw (e, looped), report-live (length input) (bytewise grows 0 input f) left)
