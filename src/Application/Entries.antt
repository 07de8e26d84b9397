-- ===== src/Application/Entries.antt =====
-- A `BTreeMap` whose keys are not numbers: the pairs in the order in which their keys came. The code reads
-- these maps by key only, or visits every entry where the order does not matter.
use edge.Prelude.{
  Bool, false, true, List, [], ◌∷◌, Option, none, some, ◌≡◌, ◌↔◌, all, ◌&&◌, ap, refl,
  if◌then◌else◌, arith, Bool-cases, inl, inr,
}
use edge.Domain.Availability.{UpstreamHealthKey}
use edge.Text.{text_eq, text_eq_iff}

abbrev pub Entries {ℓ κ} : Type ℓ → Type κ → Type (ℓ ⊔ κ)
Entries K V = List (K × V)

module _ {ℓ κ} {K : Type ℓ} {V : Type κ} (same : K → K → Bool) where
  unfoldable pub get : K → Entries K V → Option V
  get k [] = none
  get k ((j, v) ∷ m) = let rest = get k m in if same j k then some v else rest

  -- `insert`
  unfoldable pub put : K → V → Entries K V → Entries K V
  put k v [] = (k, v) ∷ []
  put k v ((j, w) ∷ m) = let rest = put k v m in if same j k then (j, v) ∷ m else (j, w) ∷ rest

  module _ (same_iff : (i j : K) → (same i j ≡ true) ↔ (i ≡ j)) where
    -- The key that was put is there with its value.
    pub get-put : (k : K) (v : V) (m : Entries K V) → get k (put k v m) ≡ some v
    unfolding get put
    get-put k v [] = rw ((same_iff k k).1 refl) refl
    get-put k v ((j, w) ∷ m) = elim (Bool-cases (same j k)) [
      | inl e ↦ ground (arith, e)
      | inr e ↦ ground (arith, e, get-put k v m)
    ]

    -- Every other key is as it was.
    pub get-put_other :
        (k i : K) (v : V) (m : Entries K V) → same k i ≡ false → get i (put k v m) ≡ get i m
    unfolding get put
    get-put_other k i v [] h = rw h refl
    get-put_other k i v ((j, w) ∷ m) h = elim (Bool-cases (same j k)) [
      | inl e ↦ let apart : same j i ≡ false = rw ((same_iff j k).0 e) h in ground (arith, e, apart)
      | inr e ↦ ground (arith, e, get-put_other k i v m h)
    ]

    -- A test on entries that all pass is passed by the new entry and the others.
    pub all-put :
        (p : K × V → Bool) (k : K) (v : V) (m : Entries K V)
        → p (k, v) ≡ true
        → all p m ≡ true
        → all p (put k v m) ≡ true
    unfolding put
    all-put p k v [] h a = ground (arith, h)
    all-put p k v ((j, w) ∷ m) h a = elim (Bool-cases (same j k)) [
      | inl e ↦ let here : p (j, v) ≡ true = rw ((same_iff j k).0 e) h in ground (arith, e, here, a)
      | inr e ↦
          let rest : all p (put k v m) ≡ true = all-put p k v m h (ground (arith, a)) in
          ground (arith, e, rest, a)
    ]

    pub all-get :
        (p : K × V → Bool) (k : K) (v : V) (m : Entries K V)
        → all p m ≡ true
        → get k m ≡ some v
        → p (k, v) ≡ true
    unfolding get
    all-get p k v [] a g = cc
    all-get p k v ((j, w) ∷ m) a g = elim (Bool-cases (same j k)) [
      | inl e ↦
          let found : w ≡ v = ground (arith, e, g) in
          rw (← (same_iff j k).0 e, ← found) (ground (arith, a))
      | inr e ↦ all-get p k v m (ground (arith, a)) (ground (arith, e, g))
    ]

abbrev pub same_key : UpstreamHealthKey → UpstreamHealthKey → Bool
same_key i j = text_eq i.service_id j.service_id && text_eq i.upstream_id j.upstream_id

pub same_key_iff : (i j : UpstreamHealthKey) → (same_key i j ≡ true) ↔ (i ≡ j)
same_key_iff i j = (
  λ h.
      let service : i.service_id ≡ j.service_id =
        (text_eq_iff i.service_id j.service_id).0 (ground (arith, h)) in
      let upstream : i.upstream_id ≡ j.upstream_id =
        (text_eq_iff i.upstream_id j.upstream_id).0 (ground (arith, h)) in
      cc (service, upstream),
  λ e.
      let service = (text_eq_iff i.service_id j.service_id).1 (ap (λ k. k.service_id) e) in
      let upstream = (text_eq_iff i.upstream_id j.upstream_id).1 (ap (λ k. k.upstream_id) e) in
      rw (service, upstream) refl,
)
