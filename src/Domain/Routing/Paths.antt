-- ===== src/Domain/Routing/Paths.antt =====
-- Prefix paths (crates/edge-domain/src/lib.rs, `PathMatch::matches`).
use edge.Prelude.{
  arith, ◌++◌, false, true, ◌⊎◌, ◌≡◌, Option, ◌≢◌, ◌∷◌, some, ◌↔◌, [], refl, ◌∙◌, inl, Bool-cases,
  inr, Bool, sym, ◌||◌, none, ∨-true,
}
use edge.Domain.Routing.{PathMatch, path_matches, normalize_path, continues}
use edge.Text.{Text, strip_prefix, text_eq, text_eq_iff}
use edge.Text.Split.{append-strip_prefix, strip_prefix-append}

abbrev pub IsSegmentPrefix : Text → Text → Type 0
IsSegmentPrefix prefix path = (path ≡ prefix) ⊎ ((rest : Text) × (path ≡ prefix ++ b'/' ∷ rest))

continues-some : (o : Option Text) → continues o ≡ true → (rest : Text) × (o ≡ some (b'/' ∷ rest))
continues-some none h = ground arith
continues-some (some []) h = ground arith
continues-some (some (c ∷ t)) h = (t, ground arith)

segment_test : Text → Text → Bool
segment_test prefix path = text_eq path prefix || continues (strip_prefix prefix path)

segment_test-IsSegmentPrefix :
    (prefix path : Text) → segment_test prefix path ≡ true → IsSegmentPrefix prefix path
unfolding segment_test
segment_test-IsSegmentPrefix prefix path h = elim (Bool-cases (text_eq path prefix)) [
  | inl e ↦ inl ((text_eq_iff path prefix).0 e)
  | inr e ↦
      let (rest, q) = continues-some (strip_prefix prefix path) (ground arith) in
      inr (rest, append-strip_prefix prefix path (b'/' ∷ rest) q)
]

IsSegmentPrefix-segment_test :
    (prefix path : Text) → IsSegmentPrefix prefix path → segment_test prefix path ≡ true
unfolding segment_test
IsSegmentPrefix-segment_test prefix path (inl e) = rw ((text_eq_iff path prefix).1 e) refl
IsSegmentPrefix-segment_test prefix path (inr (rest, e)) =
    rw (e, strip_prefix-append prefix (b'/' ∷ rest))
      (∨-true (text_eq (prefix ++ b'/' ∷ rest) prefix))

not_slash : (prefix : Text) → prefix ≢ b'/' ∷ [] → text_eq prefix (b'/' ∷ []) ≡ false
not_slash prefix n = ground (arith, text_eq_iff prefix (b'/' ∷ []))

-- A prefix path other than `/` matches exactly the paths whose normal form is the prefix itself or
-- continues it with a `/`.
pub path_matches-IsSegmentPrefix :
    (m : PathMatch) (raw : Text)
    → m.exact ≡ false
    → m.prefix ≢ b'/' ∷ []
    → (path_matches m raw ≡ true) ↔ IsSegmentPrefix m.prefix (normalize_path raw)
unfolding path_matches segment_test
path_matches-IsSegmentPrefix m raw h n =
    let test : path_matches m raw ≡ segment_test m.prefix (normalize_path raw) =
      rw (h, not_slash m.prefix n) refl in
    (
      λ k. segment_test-IsSegmentPrefix m.prefix (normalize_path raw) (sym test ∙ k),
      λ k. test ∙ IsSegmentPrefix-segment_test m.prefix (normalize_path raw) k,
    )
