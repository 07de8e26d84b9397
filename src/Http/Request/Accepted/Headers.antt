-- ===== src/Http/Request/Accepted/Headers.antt =====
-- Header lines: what `parse_headers` and the scan for the body length keep.
use edge.Prelude.{
  ℕ, length, all, All, Bool, ◌≤◌, false, any, [], ◌+◌, List, ◌∷◌, arith, ◌≡◌, refl, true,
  Option-cases, inr, inl,
}
use edge.Domain.Errors.{ok, Result-cases}
use edge.Http.Request.{
  contains_prohibited_http_field_value_control, Header, is_token_byte, is_http_token, parse_headers,
  parse_header, validate_header_value,
}
use edge.Text.{is_whitespace, trim_end, trim, trim_start, Text, split_once}

-- A header that can be forwarded.
pub record IsCleanHeader (h : Header) : Type 0 where
  pub name_token : is_http_token h.name ≡ true
  pub value_clean : contains_prohibited_http_field_value_control h.value ≡ false

token_not_whitespace : (c : ℕ) → is_token_byte c ≡ true → is_whitespace c ≡ false
unfolding is_whitespace is_token_byte
token_not_whitespace c h = ground arith

trim_end_token : (t : Text) → all is_token_byte t ≡ true → trim_end t ≡ t
unfolding trim_end
trim_end_token [] h = refl
trim_end_token (c ∷ t) h = ground (arith, trim_end_token t, token_not_whitespace c)

trim_token : (t : Text) → all is_token_byte t ≡ true → trim t ≡ t
unfolding trim trim_start trim_end
trim_token [] h = refl
trim_token (c ∷ t) h = ground (arith, token_not_whitespace c, trim_end_token t)

any-trim_start : (p : ℕ → Bool) (t : Text) → any p t ≡ false → any p (trim_start t) ≡ false
unfolding trim_start
any-trim_start p [] h = h
any-trim_start p (c ∷ t) h = ground (arith, any-trim_start p t)

any-trim_end : (p : ℕ → Bool) (t : Text) → any p t ≡ false → any p (trim_end t) ≡ false
unfolding trim_end
any-trim_end p [] h = h
any-trim_end p (c ∷ t) h = ground (arith, any-trim_end p t)

is_http_token-trim : (t : Text) → is_http_token t ≡ true → is_http_token (trim t) ≡ true
unfolding is_http_token
is_http_token-trim t h = rw (trim_token t (ground arith)) h

control-trim :
    (t : Text)
    → contains_prohibited_http_field_value_control t ≡ false
    → contains_prohibited_http_field_value_control (trim t) ≡ false
unfolding contains_prohibited_http_field_value_control trim
control-trim t h = any-trim_end _ (trim_start t) (any-trim_start _ t h)

parse_header-IsCleanHeader : (line : Text) (h : Header) → parse_header line ≡ ok h → IsCleanHeader h
unfolding parse_header validate_header_value
parse_header-IsCleanHeader line h e = elim (Option-cases (split_once b':' line)) [
  | inl f ↦ ground (arith, f)
  | inr ((name, value), f) ↦ ground (arith, f, is_http_token-trim name, control-trim value)
]

pub parse_headers_lem :
    (most count : ℕ) (lines : List Text) (hs : List Header)
    → parse_headers most count lines ≡ ok hs
    → All IsCleanHeader hs × ((count ≤ most) → (count + length hs ≤ most))
unfolding parse_headers
parse_headers_lem most count [] hs e = (ground arith, λ h. ground arith)
parse_headers_lem most count (line ∷ lines) hs e = elim (Result-cases (parse_header line)) [
  | inl (h, f) ↦ elim (Result-cases (parse_headers most (count + 1) lines)) [
    | inl (rest, g) ↦
        let ih = parse_headers_lem most (count + 1) lines rest g in
        let clean = parse_header-IsCleanHeader line h f in
        (ground (arith, f, g, ih.0, clean), λ k. ground (arith, f, g, ih.1))
    | inr (x, g) ↦ absurd (ground (arith, f, g))
  ]
  | inr (x, f) ↦ absurd (ground (arith, f))
]
