-- ===== src/Http/Response/Framing/Cuts.antt =====
-- The framer does not see how its input is cut into chunks.
use native.Mathlib.Nat.{add_assoc}
use edge.Prelude.{
  ℕ, [], ◌∷◌, inl, ◌+◌, refl, sym, Bool-cases, true, Bool, inr, ◌++◌, ◌≡◌, length-append, some, ◌∙◌,
  length, arith, false, ap, subst,
}
use edge.Domain.Errors.{Result, ok, err, AppError}
use edge.Text.{Bytes}
use edge.Http.Response.Framing.{
  is_terminal_state, HttpResponseFraming, report, progress, ResponseFramingProgress, push,
  fail_framing,
}
use edge.Http.Response.Framing.Bytewise.{single, onward, bytewise}
use edge.Http.Response.Framing.Live.{IsLiveState}
use edge.Http.Response.Framing.Chunks.{push-eq-bytewise}
use mathlib.Core.Option

module _ (grows : ℕ → Bool) where
  -- Reading on where a reading stopped.
  abbrev carry : Bytes → Result ℕ × HttpResponseFraming → Result ℕ × HttpResponseFraming
  carry input (err e, g) = (err e, g)
  carry input (ok cursor, g) = bytewise grows cursor input g

  bytewise-terminal :
      (cursor : ℕ) (input : Bytes) (f : HttpResponseFraming)
      → is_terminal_state f.state ≡ true
      → bytewise grows cursor input f ≡ (ok cursor, f)
  unfolding bytewise
  bytewise-terminal cursor [] f e = refl
  bytewise-terminal cursor (byte ∷ input) f e = rw e

  -- What is done to the end of a reading can be done behind its first byte.
  onward-then :
      (end : Result ℕ × HttpResponseFraming → Result ℕ × HttpResponseFraming)
      (short long : HttpResponseFraming → Result ℕ × HttpResponseFraming)
      (r : Result (Unit {0}) × HttpResponseFraming)
      → ((e : AppError) (g : HttpResponseFraming) → end (err e, g) ≡ (err e, g))
      → ((g : HttpResponseFraming) → long g ≡ end (short g))
      → onward grows long r ≡ end (onward grows short r)
  onward-then end short long (err e, g) k h = sym (k e g)
  onward-then end short long (ok done, g) k h = h g

  bytewise-append :
      (cursor : ℕ) (first rest : Bytes) (f : HttpResponseFraming)
      → bytewise grows cursor (first ++ rest) f ≡ carry rest (bytewise grows cursor first f)
  unfolding bytewise
  bytewise-append cursor [] rest f = refl
  bytewise-append cursor (byte ∷ first) rest f = elim (Bool-cases (is_terminal_state f.state)) [
    | inl e ↦ rw e (sym (bytewise-terminal cursor rest f e))
    | inr e ↦ rw e (
        onward-then (carry rest) (bytewise grows (cursor + 1) first)
          (bytewise grows (cursor + 1) (first ++ rest)) (single grows byte f.state f) (λ e g. refl)
          (bytewise-append (cursor + 1) first rest))
  ]

  abbrev plus : ℕ → Result ℕ × HttpResponseFraming → Result ℕ × HttpResponseFraming
  plus n (err e, g) = (err e, g)
  plus n (ok k, g) = (ok (n + k), g)

  bytewise-add :
      (n cursor : ℕ) (input : Bytes) (f : HttpResponseFraming)
      → bytewise grows (n + cursor) input f ≡ plus n (bytewise grows cursor input f)
  unfolding bytewise
  bytewise-add n cursor [] f = refl
  bytewise-add n cursor (byte ∷ input) f = elim (Bool-cases (is_terminal_state f.state)) [
    | inl e ↦ rw (e)
    | inr e ↦ rw (e) (
        onward-then (plus n) (bytewise grows (cursor + 1) input)
          (bytewise grows (n + cursor + 1) input) (single grows byte f.state f) (λ e g. refl)
          (λ g.
            ap (λ k. bytewise grows k input g) (add_assoc n cursor 1)
            ∙ bytewise-add n (cursor + 1) input g))
  ]

  -- A report on the second of two pushes, told of the first.
  abbrev pub behind :
      ResponseFramingProgress
      → Result ResponseFramingProgress × HttpResponseFraming
      → Result ResponseFramingProgress × HttpResponseFraming
  behind p (err e, g) = (err e, g)
  behind p (ok q, g) = (
    ok (record q { consumed = p.consumed + q.consumed; input_len = p.input_len + q.input_len }),
    g,
  )

  report-plus :
      (k m n : ℕ) (h : HttpResponseFraming) (r : Result ℕ × HttpResponseFraming)
      → report grows (m + n) (plus k r) ≡ behind (progress k m h) (report grows n r)
  report-plus k m n h (err e, g) = refl
  report-plus k m n h (ok q, g) = refl

  concat_from :
      (first rest : Bytes) (f g : HttpResponseFraming) (p : ResponseFramingProgress)
      (r : Result ℕ × HttpResponseFraming)
      → bytewise grows 0 first f ≡ r
      → report grows (length first) r ≡ (ok p, g)
      → report grows (length (first ++ rest)) (bytewise grows 0 (first ++ rest) f)
        ≡ behind p (report grows (length rest) (bytewise grows 0 rest g))
  concat_from first rest f g p (err e, h) eq q = cc
  concat_from first rest f g p (ok k, h) eq q =
      let same : (h ≡ g) × (progress k (length first) h ≡ p) = ground (arith, q) in
      let cut : bytewise grows 0 (first ++ rest) f ≡ plus k (bytewise grows 0 rest h) =
        bytewise-append 0 first rest f
        ∙ ap (carry rest) eq
        ∙ ap (λ n. bytewise grows n rest h) (omega arith)
        ∙ bytewise-add k 0 rest h in
      rw (length-append first rest, cut, ← same.0, ← same.1)
        (report-plus k (length first) (length rest) h (bytewise grows 0 rest h))

  open_before :
      (input : Bytes) (f g : HttpResponseFraming) (p : ResponseFramingProgress)
      → push grows input f ≡ some (ok p, g)
      → is_terminal_state f.state ≡ false
  unfolding push fail_framing
  open_before input f g p e = elim (Bool-cases (is_terminal_state f.state)) [
    | inl t ↦ absurd (ground (arith, e, t))
    | inr t ↦ t
  ]

  -- If a push on a live framer leaves one that is not terminal, pushing the rest afterwards does what one push of
  -- both does: the same error or the same report, with the counts of the two pushes added up, and the
  -- same framer left behind.
  pub push-concat :
      (first rest : Bytes) (f g : HttpResponseFraming) (p : ResponseFramingProgress)
      → IsLiveState f.state
      → push grows first f ≡ some (ok p, g)
      → is_terminal_state g.state ≡ false
      → push grows (first ++ rest) f ≡ Option.map (behind p) (push grows rest g)
  push-concat first rest f g p live e open_end =
      let open_start = open_before first f g p e in
      let (whole, live_after) = push-eq-bytewise grows first f live open_start in
      let q : report grows (length first) (bytewise grows 0 first f) ≡ (ok p, g) = cc (whole, e) in
      let live_g = subst (λ r. IsLiveState r.1.state) q live_after in
      (push-eq-bytewise grows (first ++ rest) f live open_start).0
      ∙ ap some (concat_from first rest f g p (bytewise grows 0 first f) refl q)
      ∙ sym (ap (Option.map (behind p)) (push-eq-bytewise grows rest g live_g open_end).0)
