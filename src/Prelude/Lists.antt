-- ===== src/Prelude/Lists.antt =====
-- Vectors, slices and queues as lists, measured by native numbers.
use Prim.Native.Nat.{ℕ, zero, suc, ◌+◌, ◌-◌, ◌≤◌}
use mathlib.Core.Path.{◌≡◌, refl, ap, sym, subst, ◌∙◌}
use mathlib.Core.List.{List, [], ◌∷◌, ◌++◌, Memᴰ}
use mathlib.Core.Bool.{Bool, true, false, ◌&&◌, ◌||◌}
use native.Mathlib.Nat.{zero-add, suc-add}
use native.Mathlib.Omega.{arith}
use edge.Prelude.Tests.{if◌then◌else◌, Bool-cases}
use mathlib.Core.Logic.{inl, inr}

module _ {ℓ} {A : Type ℓ} where
  abbrev pub length : List A → ℕ
  length [] = 0
  length (x ∷ xs) = suc (length xs)

  abbrev pub take : ℕ → List A → List A
  take zero xs = []
  take (suc n) [] = []
  take (suc n) (x ∷ xs) = x ∷ take n xs

  abbrev pub drop : ℕ → List A → List A
  drop zero xs = xs
  drop (suc n) [] = []
  drop (suc n) (x ∷ xs) = drop n xs

  abbrev pub is_empty : List A → Bool
  is_empty [] = true
  is_empty (x ∷ xs) = false

  pub length-append : (xs ys : List A) → length (xs ++ ys) ≡ length xs + length ys
  length-append [] ys = omega arith
  length-append (x ∷ xs) ys = omega (arith, length-append xs ys)

  pub length-drop : (n : ℕ) (xs : List A) → length (drop n xs) ≡ length xs - n
  length-drop zero xs = omega arith
  length-drop (suc n) [] = omega arith
  length-drop (suc n) (x ∷ xs) = omega (arith, length-drop n xs)

  drop-nil : (n : ℕ) → drop n [] ≡ []
  drop-nil zero = refl
  drop-nil (suc n) = refl

  pub take-append-drop : (n : ℕ) (xs : List A) → take n xs ++ drop n xs ≡ xs
  take-append-drop zero xs = refl
  take-append-drop (suc n) [] = refl
  take-append-drop (suc n) (x ∷ xs) = ap (◌∷◌ x) (take-append-drop n xs)

  pub drop-drop : (n m : ℕ) (xs : List A) → drop (n + m) xs ≡ drop m (drop n xs)
  drop-drop zero m xs = rw zero-add
  drop-drop (suc n) m [] = drop-nil (suc n + m) ∙ sym (drop-nil m)
  drop-drop (suc n) m (x ∷ xs) = rw suc-add (drop-drop n m xs)

  pub drop_all : (n : ℕ) (xs : List A) → length xs ≤ n → drop n xs ≡ []
  drop_all n [] h = drop-nil n
  drop_all zero (x ∷ xs) h = absurd (omega arith)
  drop_all (suc n) (x ∷ xs) h = drop_all n xs (omega arith)

  pub drop-append : (n : ℕ) (xs ys : List A) → n ≤ length xs → drop n (xs ++ ys) ≡ drop n xs ++ ys
  drop-append zero xs ys h = refl
  drop-append (suc n) [] ys h = absurd (omega arith)
  drop-append (suc n) (x ∷ xs) ys h = drop-append n xs ys (omega arith)

  abbrev pub All {κ} : (A → Type κ) → List A → Type κ
  All P [] = Unit
  All P (x ∷ xs) = P x × All P xs

  abbrev pub all : (A → Bool) → List A → Bool
  all p [] = true
  all p (x ∷ xs) = p x && all p xs

  abbrev pub any : (A → Bool) → List A → Bool
  any p [] = false
  any p (x ∷ xs) = p x || any p xs

  pub append-nil_parts : (xs ys : List A) → xs ++ ys ≡ [] → (xs ≡ []) × (ys ≡ [])
  append-nil_parts [] ys h = (refl, h)
  append-nil_parts (x ∷ xs) ys h = cc

  pub All-lookup {κ} : (P : A → Type κ) {x : A} (xs : List A) → Memᴰ x xs → All P xs → P x
  All-lookup P [] m ps = absurd (elim m [ ])
  All-lookup P (y ∷ ys) (Memᴰ.head e) (p, ps) = subst P (sym e) p
  All-lookup P (y ∷ ys) (Memᴰ.tail m) (p, ps) = All-lookup P ys m ps

  pub any-append : (p : A → Bool) (xs ys : List A) → any p (xs ++ ys) ≡ (any p xs || any p ys)
  any-append p [] ys = refl
  any-append p (x ∷ xs) ys = ground (arith, any-append p xs ys)

  pub all-append : (p : A → Bool) (xs ys : List A) → all p (xs ++ ys) ≡ (all p xs && all p ys)
  all-append p [] ys = refl
  all-append p (x ∷ xs) ys = ground (arith, all-append p xs ys)

  -- `iter().filter(p)`
  abbrev pub filter : (A → Bool) → List A → List A
  filter p [] = []
  filter p (x ∷ xs) = if p x then x ∷ filter p xs else filter p xs

  pub filter_head :
      (p : A → Bool) (x : A) (xs : List A) → p x ≡ true → filter p (x ∷ xs) ≡ x ∷ filter p xs
  filter_head p x xs h = rw h refl

  pub filter_skip :
      (p : A → Bool) (x : A) (xs : List A) → p x ≡ false → filter p (x ∷ xs) ≡ filter p xs
  filter_skip p x xs h = rw h refl

  -- What a filter keeps stood in the list and passes the test.
  pub filter-Mem :
      (p : A → Bool) (u : A) (us : List A) → Memᴰ u (filter p us) → Memᴰ u us × (p u ≡ true)
  filter-Mem p u [] m = absurd (elim m [ ])
  filter-Mem p u (v ∷ us) m = elim (Bool-cases (p v)) [
    | inl e ↦ elim (subst (Memᴰ u) (filter_head p v us e) m) [
      | Memᴰ.head same ↦ (Memᴰ.head same, subst (λ w. p w ≡ true) (sym same) e)
      | Memᴰ.tail t ↦ let (here, holds) = filter-Mem p u us t in (Memᴰ.tail here, holds)
    ]
    | inr e ↦
        let (here, holds) = filter-Mem p u us (subst (Memᴰ u) (filter_skip p v us e) m) in
        (Memᴰ.tail here, holds)
  ]

  -- A second filter that keeps what the first one keeps.
  pub filter-filter :
      (p q : A → Bool)
      → ((x : A) → p x ≡ true → q x ≡ true)
      → (xs : List A) → filter q (filter p xs) ≡ filter p xs
  filter-filter p q h [] = refl
  filter-filter p q h (x ∷ xs) = elim (Bool-cases (p x)) [
    | inl e ↦
        ap (filter q) (filter_head p x xs e)
        ∙ filter_head q x (filter p xs) (h x e)
        ∙ ap (◌∷◌ x) (filter-filter p q h xs)
        ∙ sym (filter_head p x xs e)
    | inr e ↦
        ap (filter q) (filter_skip p x xs e) ∙ filter-filter p q h xs ∙ sym (filter_skip p x xs e)
  ]

  pub any_last : (p : A → Bool) (xs : List A) (x : A) → p x ≡ true → any p (xs ++ x ∷ []) ≡ true
  any_last p [] x h = rw h refl
  any_last p (y ∷ ys) x h = elim (Bool-cases (p y)) [
    | inl e ↦ rw e refl
    | inr e ↦ rw e (any_last p ys x h)
  ]

  pub any_first : (p : A → Bool) (xs ys : List A) → any p xs ≡ true → any p (xs ++ ys) ≡ true
  any_first p [] ys h = ground arith
  any_first p (x ∷ xs) ys h = elim (Bool-cases (p x)) [
    | inl e ↦ rw e refl
    | inr e ↦ rw e (any_first p xs ys (simp e at h))
  ]

  -- What is found among the elements is found among those that a filter keeps.
  pub any-filter :
      (p q : A → Bool)
      → ((x : A) → q x ≡ true → p x ≡ true)
      → (xs : List A) → any q xs ≡ true
      → any q (filter p xs) ≡ true
  any-filter p q h [] e = e
  any-filter p q h (x ∷ xs) e = elim (Bool-cases (q x)) [
    | inl t ↦ ap (any q) (filter_head p x xs (h x t)) ∙ rw t refl
    | inr f ↦
        let rest : any q (filter p xs) ≡ true = any-filter p q h xs (simp f at e) in
        elim (Bool-cases (p x)) [
          | inl t ↦ ap (any q) (filter_head p x xs t) ∙ rw f rest
          | inr g ↦ ap (any q) (filter_skip p x xs g) ∙ rest
        ]
  ]
