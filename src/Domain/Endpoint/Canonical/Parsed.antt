-- ===== src/Domain/Endpoint/Canonical/Parsed.antt =====
-- What is parsed is in canonical form.
use mathlib.Core.List.{append-nil}
use edge.Domain.Endpoint.{
  is_ipv4_literal, is_ipv6_literal, parse_authority, parse_bracketed,
  parse_optional_port_with_default, parse_plain, parse_port, split_authority, host_and_port,
  parse_scheme, UpstreamScheme,
}
use edge.Domain.Endpoint.Canonical.Hosts.{HasHostForm}
use edge.Domain.Endpoint.Canonical.Lowercase.{is_ipv6_literal-lowercase, lowercase_twice}
use edge.Domain.Errors.{ok, Result-cases}
use edge.Prelude.{
  Bool, false, true, ℕ, [], ◌∷◌, ◌++◌, ◌≡◌, refl, any, any-append, is_empty, arith, Bool-cases, inl,
  inr, ◌==◌, ◌∙◌, ap, sym, some, none, subst, ◌⊎◌, ◌<◌, ◌≤◌, Option, Option-cases,
}
use edge.Text.{
  Text, txt, strip_prefix, to_ascii_lowercase, split_once, to_ascii_lower, parse_u16, split_char,
}
use edge.Text.Split.{
  contains, rsplit_once, rsplit_once-some, rsplit_once-none, split_once-some, split_once-none,
  append-strip_prefix,
}

abbrev pub IsPort : ℕ → Type 0
IsPort n = (0 < n) × (n ≤ 65535)

parse_port-IsPort : (t : Text) (n : ℕ) → parse_port t ≡ ok n → IsPort n
unfolding parse_port parse_u16
parse_port-IsPort t n h = (ground arith, ground arith)

parse_optional-IsPort :
    (t : Text) (default n : ℕ)
    → IsPort default
    → parse_optional_port_with_default t default ≡ ok n
    → IsPort n
unfolding parse_optional_port_with_default
parse_optional-IsPort t default n d h = elim (Bool-cases (is_empty t)) [
  | inl e ↦ ground (arith, e)
  | inr e ↦ elim (Option-cases (strip_prefix (b':' ∷ []) t)) [
    | inl f ↦ absurd (ground (arith, e, f))
    | inr (u, f) ↦ parse_port-IsPort u n (ground (arith, e, f, h))
  ]
]

-- A test that does not see the case of letters fails on the part when it fails on the whole.
abbrev pub Inherits : Text → Text → Type 0
Inherits part whole =
    (p : ℕ → Bool)
    → ((c : ℕ) → p (to_ascii_lower c) ≡ p c)
    → any p whole ≡ false
    → any p part ≡ false

pub front-Inherits : (a b : Text) → Inherits a (a ++ b)
front-Inherits a b p k h = ground (arith, any-append p a b)

pub back-Inherits : (a b : Text) → Inherits b (a ++ b)
back-Inherits a b p k h = ground (arith, any-append p a b)

any-lowercase :
    (p : ℕ → Bool) (t : Text)
    → ((c : ℕ) → p (to_ascii_lower c) ≡ p c)
    → any p (to_ascii_lowercase t) ≡ any p t
any-lowercase p [] k = refl
any-lowercase p (c ∷ t) k = rw (k c, any-lowercase p t k) refl

lowercase-Inherits : (a b : Text) → Inherits (to_ascii_lowercase a) (a ++ b)
lowercase-Inherits a b p k h = any-lowercase p a k ∙ front-Inherits a b p k h

host_and_port-form :
    (default : ℕ) (a host : Text) (port : ℕ) (o : Option (Text × Text))
    → IsPort default
    → rsplit_once b':' a ≡ o
    → host_and_port default a o ≡ ok (host, port)
    → (contains b':' host ≡ false) × IsPort port × ((t : Text) × (a ≡ host ++ t))
host_and_port-form default a host port none d e h =
    let same : (a ≡ host) × (default ≡ port) = ground (arith, h) in
    (
      subst (λ x. contains b':' x ≡ false) same.0 (rsplit_once-none b':' a e),
      subst IsPort same.1 d,
      ([], same.0 ∙ sym (append-nil host)),
    )
host_and_port-form default a host port (some (x, y)) d e h = elim (Bool-cases (contains b':' x)) [
  | inl c ↦ absurd (ground (arith, c, h))
  | inr c ↦ elim (Result-cases (parse_port y)) [
    | inl (n, f) ↦
        let same : (x ≡ host) × (n ≡ port) = ground (arith, c, f, h) in
        (
          subst (λ z. contains b':' z ≡ false) same.0 c,
          subst IsPort same.1 (parse_port-IsPort y n f),
          (b':' ∷ y, (rsplit_once-some b':' a x y e).0 ∙ ap (λ z. z ++ b':' ∷ y) same.0),
        )
    | inr (z, f) ↦ absurd (ground (arith, c, f, h))
  ]
]

bare_shorter :
    (host t : Text)
    → is_ipv4_literal host ≡ true
    → strip_prefix (b'[' ∷ []) (host ++ t) ≡ none
    → (strip_prefix (b'[' ∷ []) host ≡ none) × (is_empty host ≡ false)
unfolding strip_prefix is_ipv4_literal split_char
bare_shorter [] t v h = absurd (ground arith)
bare_shorter (c ∷ host) t v h = (ground arith, refl)

parse_plain-form :
    (default : ℕ) (a host : Text) (port : ℕ) (ipv6 : Bool)
    → IsPort default
    → strip_prefix (b'[' ∷ []) a ≡ none
    → parse_plain default a ≡ ok (host, port, ipv6)
    → HasHostForm ipv6 host × IsPort port × Inherits host a
unfolding parse_plain
parse_plain-form default a host port ipv6 d bare h =
    elim (Result-cases (host_and_port default a (rsplit_once b':' a))) [
      | inl ((x, n), e) ↦ elim (Bool-cases (is_ipv4_literal x)) [
        | inl v ↦
            let same : (x ≡ host) × (n ≡ port) × (false ≡ ipv6) = ground (arith, e, v, h) in
            let (colon, port_ok, (t, cut)) =
              host_and_port-form default a x n (rsplit_once b':' a) d refl e in
            let (free, nonempty) =
              bare_shorter x t v (subst (λ z. strip_prefix (b'[' ∷ []) z ≡ none) cut bare) in
            rw (← same.0, ← same.1, ← same.2)
              (
                (v, colon, free, nonempty),
                port_ok,
                subst (Inherits x) (sym cut) (front-Inherits x t),
              )
        | inr v ↦ absurd (ground (arith, e, v, h))
      ]
      | inr (z, e) ↦ absurd (ground (arith, e, h))
    ]

parse_bracketed-form :
    (default : ℕ) (a host : Text) (port : ℕ) (ipv6 : Bool)
    → IsPort default
    → parse_bracketed default a ≡ ok (host, port, ipv6)
    → HasHostForm ipv6 host × IsPort port × Inherits host a
unfolding parse_bracketed
parse_bracketed-form default a host port ipv6 d h = elim (Option-cases (split_once b']' a)) [
  | inl e ↦ absurd (ground (arith, e, h))
  | inr ((x, suffix), e) ↦ elim (Bool-cases (is_ipv6_literal x)) [
    | inr v ↦ absurd (ground (arith, e, v, h))
    | inl v ↦ elim (Result-cases (parse_optional_port_with_default suffix default)) [
      | inr (z, f) ↦ absurd (ground (arith, e, v, f, h))
      | inl (n, f) ↦
          let same : (to_ascii_lowercase x ≡ host) × (n ≡ port) × (true ≡ ipv6) =
            ground (arith, e, v, f, h) in
          let (cut, close) = split_once-some b']' a x suffix e in
          rw (← same.0, ← same.1, ← same.2)
            (
              (
                is_ipv6_literal-lowercase x ∙ v,
                any-lowercase (λ c. c == b']') x (λ c. ground arith) ∙ close,
                lowercase_twice x,
              ),
              parse_optional-IsPort suffix default n d f,
              subst (Inherits (to_ascii_lowercase x)) (sym cut)
                  (lowercase-Inherits x (b']' ∷ suffix)),
            )
    ]
  ]
]

pub parse_authority-form :
    (default : ℕ) (a host : Text) (port : ℕ) (ipv6 : Bool)
    → IsPort default
    → parse_authority default a ≡ ok (host, port, ipv6)
    → HasHostForm ipv6 host × IsPort port × Inherits host a
unfolding parse_authority strip_prefix
parse_authority-form default [] host port ipv6 d h =
    parse_plain-form default [] host port ipv6 d refl h
parse_authority-form default (c ∷ a) host port ipv6 d h = elim (Bool-cases (b'[' == c)) [
  | inl e ↦
      let (form, port_ok, part) =
        parse_bracketed-form default a host port ipv6 d (ground (arith, e, h)) in
      (form, port_ok, λ p k f. part p k (ground (arith, f)))
  | inr e ↦
      parse_plain-form default (c ∷ a) host port ipv6 d (ground (arith, e)) (ground (arith, e, h))
]

pub parse_scheme-Inherits :
    (value rest : Text) (s : UpstreamScheme)
    → parse_scheme value ≡ some (s, rest)
    → Inherits rest value
unfolding parse_scheme
parse_scheme-Inherits value rest s h = elim (Option-cases (strip_prefix (txt "http://") value)) [
  | inl e ↦ elim (Option-cases (strip_prefix (txt "https://") value)) [
    | inl f ↦ absurd (ground (arith, e, f, h))
    | inr (r, f) ↦
        let same : r ≡ rest = ground (arith, e, f, h) in
        subst (Inherits rest)
          (sym (append-strip_prefix (txt "https://") value r f ∙ ap (◌++◌ (txt "https://")) same))
          (back-Inherits (txt "https://") rest)
  ]
  | inr (r, e) ↦
      let same : r ≡ rest = ground (arith, e, h) in
      subst (Inherits rest)
        (sym (append-strip_prefix (txt "http://") value r e ∙ ap (◌++◌ (txt "http://")) same))
        (back-Inherits (txt "http://") rest)
]

-- The two parts of what stands behind the scheme.
pub split_authority-parts :
    (remainder a base : Text)
    → split_authority remainder ≡ (a, base)
    → (contains b'/' a ≡ false)
      × (remainder ≡ a ++ base)
      × ((base ≡ []) ⊎ ((path : Text) × (base ≡ b'/' ∷ path)))
unfolding split_authority
split_authority-parts remainder a base h = elim (Option-cases (split_once b'/' remainder)) [
  | inl e ↦
      let same : (remainder ≡ a) × ([] ≡ base) = ground (arith, e, h) in
      rw (← same.0, ← same.1)
        (split_once-none b'/' remainder e, sym (append-nil remainder), inl refl)
  | inr ((x, y), e) ↦
      let same : (x ≡ a) × (b'/' ∷ y ≡ base) = ground (arith, e, h) in
      let (cut, free) = split_once-some b'/' remainder x y e in
      rw (← same.0, ← same.1) (free, cut, inr (y, refl))
]
