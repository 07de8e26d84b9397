-- ===== src/Text/Split.antt =====
-- Cutting a `str` at a separator, and what the parts are.
use edge.Prelude.{
  ℕ, Bool, true, false, Option, none, some, List, [], ◌∷◌, ◌++◌, ◌==◌, ◌&&◌, any, ◌≡◌, refl, arith,
  if◌then◌else◌, Option-cases, Bool-cases, inl, inr,
}
use edge.Text.{strip_prefix, Text, split_once, cons_head}

-- `contains(c)`
abbrev pub contains : ℕ → Text → Bool
contains sep t = any (λ c. c == sep) t

-- `rsplit_once`: before and behind the last separator.
unfoldable pub rsplit_once : ℕ → Text → Option (Text × Text)
rsplit_once sep [] = none
rsplit_once sep (c ∷ t) = elim (rsplit_once sep t) [
  | some (a, b) ↦ some (c ∷ a, b)
  | none ↦ if c == sep then some ([], t) else none
]

-- `split("::")`
unfoldable pub split_colons : Text → List Text
split_colons [] = [] ∷ []
split_colons (c ∷ []) = (c ∷ []) ∷ []
split_colons (c ∷ d ∷ t) =
    let cut = [] ∷ split_colons t in
    let go = cons_head c (split_colons (d ∷ t)) in if c == b':' && d == b':' then cut else go

pub split_once-some :
    (sep : ℕ) (t a b : Text)
    → split_once sep t ≡ some (a, b)
    → (t ≡ a ++ sep ∷ b) × (contains sep a ≡ false)
unfolding split_once
split_once-some sep [] a b e = ground arith
split_once-some sep (c ∷ t) a b e = elim (Bool-cases (c == sep)) [
  | inl h ↦ let same : (a ≡ []) × (b ≡ t) = ground (arith, h) in rw (same.0, same.1) (ground arith)
  | inr h ↦ elim (Option-cases (split_once sep t)) [
    | inl n ↦ absurd (ground (arith, h, n))
    | inr ((x, y), n) ↦
        let same : (a ≡ c ∷ x) × (b ≡ y) = ground (arith, h, n) in
        rw (same.0, same.1) (ground (arith, h, split_once-some sep t x y n))
  ]
]

pub split_once-none : (sep : ℕ) (t : Text) → split_once sep t ≡ none → contains sep t ≡ false
unfolding split_once
split_once-none sep [] e = refl
split_once-none sep (c ∷ t) e = ground (arith, split_once-none sep t)

pub split_once-append :
    (sep : ℕ) (a b : Text) → contains sep a ≡ false → split_once sep (a ++ sep ∷ b) ≡ some (a, b)
unfolding split_once
split_once-append sep [] b e = ground arith
split_once-append sep (c ∷ a) b e = ground (arith, split_once-append sep a b)

pub split_once-lacks : (sep : ℕ) (t : Text) → contains sep t ≡ false → split_once sep t ≡ none
unfolding split_once
split_once-lacks sep [] e = refl
split_once-lacks sep (c ∷ t) e = ground (arith, split_once-lacks sep t)

pub rsplit_once-none : (sep : ℕ) (t : Text) → rsplit_once sep t ≡ none → contains sep t ≡ false
unfolding rsplit_once
rsplit_once-none sep [] e = refl
rsplit_once-none sep (c ∷ t) e = ground (arith, rsplit_once-none sep t)

pub rsplit_once-lacks : (sep : ℕ) (t : Text) → contains sep t ≡ false → rsplit_once sep t ≡ none
unfolding rsplit_once
rsplit_once-lacks sep [] e = refl
rsplit_once-lacks sep (c ∷ t) e = ground (arith, rsplit_once-lacks sep t)

pub rsplit_once-append :
    (sep : ℕ) (a b : Text) → contains sep b ≡ false → rsplit_once sep (a ++ sep ∷ b) ≡ some (a, b)
unfolding rsplit_once
rsplit_once-append sep [] b e = ground (arith, rsplit_once-lacks sep b)
rsplit_once-append sep (c ∷ a) b e = ground (arith, rsplit_once-append sep a b)

pub rsplit_once-some :
    (sep : ℕ) (t a b : Text)
    → rsplit_once sep t ≡ some (a, b)
    → (t ≡ a ++ sep ∷ b) × (contains sep b ≡ false)
unfolding rsplit_once
rsplit_once-some sep [] a b e = ground arith
rsplit_once-some sep (c ∷ t) a b e = elim (Option-cases (rsplit_once sep t)) [
  | inl n ↦
      let same : ((c == sep) ≡ true) × (a ≡ []) × (b ≡ t) = ground (arith, n) in
      rw (same.1, same.2) (ground (arith, rsplit_once-none sep t n))
  | inr ((x, y), n) ↦
      let same : (a ≡ c ∷ x) × (b ≡ y) = ground (arith, n) in
      rw (same.0, same.1) (ground (arith, rsplit_once-some sep t x y n))
]

pub strip_prefix-append : (p r : Text) → strip_prefix p (p ++ r) ≡ some r
unfolding strip_prefix
strip_prefix-append [] r = refl
strip_prefix-append (c ∷ p) r = ground (arith, strip_prefix-append p r)

pub append-strip_prefix : (p t r : Text) → strip_prefix p t ≡ some r → t ≡ p ++ r
unfolding strip_prefix
append-strip_prefix [] t r h = ground arith
append-strip_prefix (c ∷ p) [] r h = ground arith
append-strip_prefix (c ∷ p) (d ∷ t) r h = ground (arith, append-strip_prefix p t r)
