-- ===== src/Domain/Endpoint/Canonical/Lowercase.antt =====
-- The test of an IPv6 address does not see the case of its letters.
use edge.Domain.Endpoint.{
  are_ipv6_parts, is_ascii_hexdigit, is_group, is_ipv6_literal, valid_groups,
}
use edge.Prelude.{
  ℕ, [], ◌∷◌, ◌≡◌, refl, is_empty, arith, Bool-cases, inl, inr, ◌&&◌, ◌==◌, ◌∙◌, ap, all, List, map,
  length,
}
use edge.Text.{Text, to_ascii_lower, to_ascii_lowercase, split_char, cons_head, byte_len, len_utf8}
use edge.Text.Split.{contains, split_colons}

abbrev lower_all : List Text → List Text
lower_all = map to_ascii_lowercase

cons_head-lowercase :
    (c : ℕ) (ps : List Text)
    → cons_head (to_ascii_lower c) (lower_all ps) ≡ lower_all (cons_head c ps)
cons_head-lowercase c [] = refl
cons_head-lowercase c (p ∷ ps) = refl

lower_colon : (c : ℕ) → (to_ascii_lower c == b':') ≡ (c == b':')
lower_colon c = ground arith

lower_dot : (c : ℕ) → (to_ascii_lower c == b'.') ≡ (c == b'.')
lower_dot c = ground arith

lower_hexdigit : (c : ℕ) → is_ascii_hexdigit (to_ascii_lower c) ≡ is_ascii_hexdigit c
lower_hexdigit c = ground arith

lower_len : (c : ℕ) → len_utf8 (to_ascii_lower c) ≡ len_utf8 c
lower_len c = ground arith

lower_twice : (c : ℕ) → to_ascii_lower (to_ascii_lower c) ≡ to_ascii_lower c
lower_twice c = ground arith

pub lowercase_twice : (t : Text) → to_ascii_lowercase (to_ascii_lowercase t) ≡ to_ascii_lowercase t
lowercase_twice [] = refl
lowercase_twice (c ∷ t) = rw (lower_twice c, lowercase_twice t) refl

split_char-lowercase :
    (t : Text) → split_char b':' (to_ascii_lowercase t) ≡ lower_all (split_char b':' t)
unfolding split_char
split_char-lowercase [] = refl
split_char-lowercase (c ∷ t) = elim (Bool-cases (c == b':')) [
  | inl e ↦ rw (lower_colon c, e) (ap (◌∷◌ []) (split_char-lowercase t))
  | inr e ↦
      rw (lower_colon c, e)
        (ap (cons_head (to_ascii_lower c)) (split_char-lowercase t)
          ∙ cons_head-lowercase c (split_char b':' t))
]

split_colons-lowercase :
    (t : Text) → split_colons (to_ascii_lowercase t) ≡ lower_all (split_colons t)
unfolding split_colons
split_colons-lowercase [] = refl
split_colons-lowercase (c ∷ []) = refl
split_colons-lowercase (c ∷ d ∷ t) = elim (Bool-cases (c == b':' && d == b':')) [
  | inl e ↦ rw (lower_colon c, lower_colon d, e) (ap (◌∷◌ []) (split_colons-lowercase t))
  | inr e ↦
      rw (lower_colon c, lower_colon d, e)
        (ap (cons_head (to_ascii_lower c)) (split_colons-lowercase (d ∷ t))
          ∙ cons_head-lowercase c (split_colons (d ∷ t)))
]

is_empty-lowercase : (t : Text) → is_empty (to_ascii_lowercase t) ≡ is_empty t
is_empty-lowercase [] = refl
is_empty-lowercase (c ∷ t) = refl

byte_len-lowercase : (t : Text) → byte_len (to_ascii_lowercase t) ≡ byte_len t
byte_len-lowercase [] = refl
byte_len-lowercase (c ∷ t) = rw (lower_len c, byte_len-lowercase t) refl

hexdigits-lowercase :
    (t : Text) → all is_ascii_hexdigit (to_ascii_lowercase t) ≡ all is_ascii_hexdigit t
hexdigits-lowercase [] = refl
hexdigits-lowercase (c ∷ t) = ground (arith, lower_hexdigit c, hexdigits-lowercase t)

is_group-lowercase : (t : Text) → is_group (to_ascii_lowercase t) ≡ is_group t
is_group-lowercase t = rw (is_empty-lowercase t, byte_len-lowercase t, hexdigits-lowercase t) refl

groups-lowercase : (ts : List Text) → all is_group (lower_all ts) ≡ all is_group ts
groups-lowercase [] = refl
groups-lowercase (t ∷ ts) = ground (arith, is_group-lowercase t, groups-lowercase ts)

length-lower_all : (ts : List Text) → length (lower_all ts) ≡ length ts
length-lower_all [] = refl
length-lower_all (t ∷ ts) = omega (arith, length-lower_all ts)

valid_groups-lowercase : (t : Text) → valid_groups (to_ascii_lowercase t) ≡ valid_groups t
unfolding valid_groups
valid_groups-lowercase t =
    rw
      (
        split_char-lowercase t,
        is_empty-lowercase t,
        groups-lowercase (split_char b':' t),
        length-lower_all (split_char b':' t),
      )
      refl

parts-lowercase : (ts : List Text) → are_ipv6_parts (lower_all ts) ≡ are_ipv6_parts ts
parts-lowercase [] = refl
parts-lowercase (p ∷ []) = rw (valid_groups-lowercase p) refl
parts-lowercase (p ∷ q ∷ []) = rw (valid_groups-lowercase p, valid_groups-lowercase q) refl
parts-lowercase (p ∷ q ∷ r ∷ ts) = refl

contains_dot-lowercase : (t : Text) → contains b'.' (to_ascii_lowercase t) ≡ contains b'.' t
contains_dot-lowercase [] = refl
contains_dot-lowercase (c ∷ t) = rw (lower_dot c, contains_dot-lowercase t) refl

pub is_ipv6_literal-lowercase :
    (t : Text) → is_ipv6_literal (to_ascii_lowercase t) ≡ is_ipv6_literal t
unfolding is_ipv6_literal
is_ipv6_literal-lowercase t =
    rw
      (
        is_empty-lowercase t,
        contains_dot-lowercase t,
        split_colons-lowercase t,
        parts-lowercase (split_colons t),
      )
      refl
