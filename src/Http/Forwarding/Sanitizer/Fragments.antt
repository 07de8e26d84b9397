-- ===== src/Http/Forwarding/Sanitizer/Fragments.antt =====
-- How the projection of response headers depends on the pieces that the bytes come in
-- (crates/edge-core/src/http_forwarding_policy.rs, `UpstreamResponseHeaderSanitizer`).
use mathlib.Core.List.{append_assoc, append-nil}
use edge.Prelude.{
  ℕ, ◌≡◌, inl, refl, if◌then◌else◌, false, ◌++◌, ◌∷◌, Bool, length, ◌⊎◌, arith, inr, Bool-cases,
  true, [], ◌∙◌, sym, ap,
}
use edge.Text.{Bytes, blank_line, ends_with}
use edge.Domain.Errors.{AppError, err, Result-cases, ok, Result}
use edge.Http.Forwarding.{sanitize_response_header_block}
use edge.Http.Forwarding.Sanitizer.{
  body_begins, push_header_byte, sanitize_loop, Sanitizer, headers_done, after_block, sanitize,
}

-- The output of an earlier piece before that of a later one.
abbrev pub behind : Bytes → Result Bytes × Sanitizer → Result Bytes × Sanitizer
behind o (ok p, s) = (ok (o ++ p), s)
behind o (err e, s) = (err e, s)

module _ (grows reserves : ℕ → Bool) (enough : (n : ℕ) → reserves n ≡ true) where
  abbrev loop : Sanitizer → Bytes → Bytes → Result Bytes × Sanitizer
  loop = sanitize_loop grows reserves

  abbrev Fails : Sanitizer → ℕ → Type 0
  Fails s b =
      (e : AppError) × (t : Sanitizer) × ((output rest : Bytes)
        → loop s output (b ∷ rest) ≡ (err e, t))

  abbrev GoesOn : Sanitizer → ℕ → Type 0
  GoesOn s b =
      (t : Sanitizer) × (t.forwarding_body ≡ s.forwarding_body)
      × ((output rest : Bytes) → loop s output (b ∷ rest) ≡ loop t output rest)

  abbrev EndsBlock : Sanitizer → ℕ → Bool → Type 0
  EndsBlock s b interim_block =
      (t : Sanitizer) × (sanitized : Bytes) × (t.forwarding_body ≡ s.forwarding_body)
      × ((output rest : Bytes)
          → loop s output (b ∷ rest) ≡ (
              if interim_block
              then loop (headers_done t) (output ++ sanitized) rest
              else (ok (output ++ sanitized ++ rest), body_begins t)))

  push_keeps :
      (s t : Sanitizer) (b : ℕ)
      → push_header_byte grows reserves s b ≡ ok t
      → t.forwarding_body ≡ s.forwarding_body
  unfolding push_header_byte
  push_keeps s t b e = ground arith

  block_turn :
      (s t : Sanitizer) (b : ℕ)
      → push_header_byte grows reserves s b ≡ ok t
      → ends_with blank_line t.headers ≡ true
      → Fails s b ⊎ (EndsBlock s b true ⊎ EndsBlock s b false)
  unfolding sanitize_loop after_block
  block_turn s t b e f =
      elim (Result-cases (sanitize_response_header_block t.headers t.close_final_response)) [
        | inl ((z, true), g) ↦ inr (
            inl (
              t,
              z,
              push_keeps s t b e,
              λ output rest. simp (sanitize_loop, after_block, e, f, g, enough (length z)),
            ))
        | inl ((z, false), g) ↦ inr (
            inr (
              t,
              z,
              push_keeps s t b e,
              λ output rest.
                  simp
                    (sanitize_loop, after_block, e, f, g, enough (length z), enough (length rest)),
            ))
        | inr (x, g) ↦ inl (x, t, λ output rest. simp (sanitize_loop, e, f, g))
      ]

  turn :
      (s : Sanitizer) (b : ℕ)
      → Fails s b ⊎ (GoesOn s b ⊎ (EndsBlock s b true ⊎ EndsBlock s b false))
  unfolding sanitize_loop
  turn s b = elim (Result-cases (push_header_byte grows reserves s b)) [
    | inl (t, e) ↦ elim (Bool-cases (ends_with blank_line t.headers)) [
      | inl f ↦ elim (block_turn s t b e f) [ inl x ↦ inl x | inr y ↦ inr (inr y) ]
      | inr f ↦ inr (inl (t, push_keeps s t b e, λ output rest. simp (sanitize_loop, e, f)))
    ]
    | inr (x, e) ↦ inl (x, s, λ output rest. simp (sanitize_loop, e))
  ]

  -- What is already in the output stays in front.
  loop-behind :
      (s : Sanitizer) (o p input : Bytes) → loop s (o ++ p) input ≡ behind o (loop s p input)
  unfolding sanitize_loop
  loop-behind s o p [] = refl
  loop-behind s o p (b ∷ rest) = elim (turn s b) [
    | inl (e, t, f) ↦ f (o ++ p) rest ∙ sym (ap (behind o) (f p rest))
    | inr (inl (t, k, f)) ↦
        f (o ++ p) rest ∙ loop-behind t o p rest ∙ sym (ap (behind o) (f p rest))
    | inr (inr (inl (t, z, k, f))) ↦
        f (o ++ p) rest
        ∙ ap (λ l. loop (headers_done t) l rest) (append_assoc o p z)
        ∙ loop-behind (headers_done t) o (p ++ z) rest
        ∙ sym (ap (behind o) (f p rest))
    | inr (inr (inr (t, z, k, f))) ↦
        f (o ++ p) rest
        ∙ ap (λ l. (ok l, body_begins t))
            (ap (λ l. l ++ rest) (append_assoc o p z) ∙ append_assoc o (p ++ z) rest)
        ∙ sym (ap (behind o) (f p rest))
  ]

  abbrev loop_again : Result Bytes × Sanitizer → Bytes → Result Bytes × Sanitizer
  loop_again (ok o, t) second = if t.forwarding_body then (ok (o ++ second), t) else loop t o second
  loop_again (err e, t) second = (err e, t)

  loop-append :
      (s : Sanitizer) (output first second : Bytes)
      → s.forwarding_body ≡ false
      → loop s output (first ++ second) ≡ loop_again (loop s output first) second
  unfolding sanitize_loop
  loop-append s output [] second n = rw n refl
  loop-append s output (b ∷ rest) second n =
      let back = λ (r : Result Bytes × Sanitizer) (e : loop s output (b ∷ rest) ≡ r).
        sym (ap (λ r. loop_again r second) e) in
      elim (turn s b) [
        | inl (e, u, f) ↦ f output (rest ++ second) ∙ back (err e, u) (f output rest)
        | inr (inl (u, k, f)) ↦
            f output (rest ++ second)
            ∙ loop-append u output rest second (k ∙ n)
            ∙ back (loop u output rest) (f output rest)
        | inr (inr (inl (u, z, k, f))) ↦
            f output (rest ++ second)
            ∙ loop-append (headers_done u) (output ++ z) rest second (k ∙ n)
            ∙ back (loop (headers_done u) (output ++ z) rest) (f output rest)
        | inr (inr (inr (u, z, k, f))) ↦
            f output (rest ++ second)
            ∙ ap (λ l. (ok l, body_begins u)) (sym (append_assoc (output ++ z) rest second))
            ∙ back (ok (output ++ z ++ rest), body_begins u) (f output rest)
      ]

  -- The second of two calls, behind the first one's output unless the first one failed.
  abbrev pub sanitize_again : Result Bytes × Sanitizer → Bytes → Result Bytes × Sanitizer
  sanitize_again (ok o, t) second = behind o (sanitize grows reserves t second)
  sanitize_again (err e, t) second = (err e, t)

  sanitize_body :
      (s : Sanitizer) (input : Bytes)
      → s.forwarding_body ≡ true
      → sanitize grows reserves s input ≡ (ok input, s)
  unfolding sanitize
  sanitize_body s input f = simp f

  sanitize_headers :
      (s : Sanitizer) (input : Bytes)
      → s.forwarding_body ≡ false
      → sanitize grows reserves s input ≡ loop s [] input
  unfolding sanitize
  sanitize_headers s input f = simp f

  loop_again-sanitize_again :
      (r : Result Bytes × Sanitizer) (second : Bytes)
      → loop_again r second ≡ sanitize_again r second
  loop_again-sanitize_again (err e, t) second = refl
  loop_again-sanitize_again (ok o, t) second = elim (Bool-cases t.forwarding_body) [
    | inl f ↦ simp f (sym (ap (behind o) (sanitize_body t second f)))
    | inr f ↦ simp f (
        ap (λ l. loop t l second) (sym (append-nil o))
        ∙ loop-behind t o [] second
        ∙ sym (ap (behind o) (sanitize_headers t second f)))
  ]

  -- While the allocator grants the output buffers, the projection does not depend on how the bytes
  -- are cut into pieces: one call with two pieces joined gives the outputs of two calls in a row, the
  -- same error where one of them fails, and the same state.
  pub sanitize-append :
      (s : Sanitizer) (first second : Bytes)
      → sanitize grows reserves s (first ++ second)
        ≡ sanitize_again (sanitize grows reserves s first) second
  sanitize-append s first second = elim (Bool-cases s.forwarding_body) [
    | inl f ↦
        sanitize_body s (first ++ second) f
        ∙ sym (ap (behind first) (sanitize_body s second f))
        ∙ sym (ap (λ r. sanitize_again r second) (sanitize_body s first f))
    | inr f ↦
        sanitize_headers s (first ++ second) f
        ∙ loop-append s [] first second f
        ∙ loop_again-sanitize_again (loop s [] first) second
        ∙ sym (ap (λ r. sanitize_again r second) (sanitize_headers s first f))
  ]
