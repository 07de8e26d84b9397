-- ===== src/Prelude/Tables.antt =====
-- `BTreeMap` with native numbers for keys: an association list in ascending order of its keys.
use Prim.Native.Nat.{ℕ, suc, ◌≤◌, ◌<◌}
use mathlib.Core.Path.{◌≡◌, refl}
use mathlib.Core.Option.{Option, none, some}
use mathlib.Core.List.{List, [], ◌∷◌}
use native.Mathlib.Omega.{arith}
use edge.Prelude.Tests.{ltb, ◌==◌, if◌then◌else◌}

abbrev pub Table {ℓ} : Type ℓ → Type ℓ
Table V = List (ℕ × V)

module _ {ℓ} {V : Type ℓ} where
  unfoldable pub lookup : ℕ → Table V → Option V
  lookup k [] = none
  lookup k ((j, v) ∷ m) = if j == k then some v else lookup k m

  unfoldable pub insert : ℕ → V → Table V → Table V
  insert k v [] = (k, v) ∷ []
  insert k v ((j, w) ∷ m) =
      if ltb k j then (k, v) ∷ (j, w) ∷ m else if k == j then (k, v) ∷ m else (j, w) ∷ insert k v m

  unfoldable pub remove : ℕ → Table V → Table V
  remove k [] = []
  remove k ((j, v) ∷ m) = if j == k then m else (j, v) ∷ remove k m

  -- The keys ascend strictly from above `lo`.
  abbrev pub Ascends : ℕ → Table V → Type 0
  Ascends lo [] = Unit
  Ascends lo ((j, v) ∷ m) = (lo ≤ j) × Ascends (suc j) m

  abbrev pub KeysBelow : ℕ → Table V → Type 0
  KeysBelow hi [] = Unit
  KeysBelow hi ((j, v) ∷ m) = (j < hi) × KeysBelow hi m

  pub lookup-insert :
      (k i : ℕ) (v : V) (m : Table V)
      → lookup i (insert k v m) ≡ (if k == i then some v else lookup i m)
  unfolding lookup insert
  lookup-insert k i v [] = refl
  lookup-insert k i v ((j, w) ∷ m) = ground (arith, lookup-insert k i v m)

  pub lookup_below : (lo k : ℕ) (m : Table V) → Ascends lo m → k < lo → lookup k m ≡ none
  unfolding lookup
  lookup_below lo k [] a h = refl
  lookup_below lo k ((j, w) ∷ m) a h = ground (arith, lookup_below (suc j) k m a.1)

  pub lookup_above : (hi k : ℕ) (m : Table V) → KeysBelow hi m → hi ≤ k → lookup k m ≡ none
  unfolding lookup
  lookup_above hi k [] a h = refl
  lookup_above hi k ((j, w) ∷ m) a h = ground (arith, lookup_above hi k m a.1)

  pub lookup_ge : (lo k : ℕ) (v : V) (m : Table V) → Ascends lo m → lookup k m ≡ some v → lo ≤ k
  unfolding lookup
  lookup_ge lo k v [] a h = ground arith
  lookup_ge lo k v ((j, w) ∷ m) a h = ground (arith, lookup_ge (suc j) k v m a.1)

  pub lookup_lt : (hi k : ℕ) (v : V) (m : Table V) → KeysBelow hi m → lookup k m ≡ some v → k < hi
  unfolding lookup
  lookup_lt hi k v [] a h = ground arith
  lookup_lt hi k v ((j, w) ∷ m) a h = ground (arith, lookup_lt hi k v m a.1)

  pub lookup-remove :
      (lo k i : ℕ) (m : Table V)
      → Ascends lo m
      → lookup i (remove k m) ≡ (if k == i then none else lookup i m)
  unfolding lookup remove
  lookup-remove lo k i [] a = ground arith
  lookup-remove lo k i ((j, w) ∷ m) a =
      ground (arith, lookup-remove (suc j) k i m a.1, lookup_below (suc j) k m a.1)

  pub insert-Ascends :
      (lo k : ℕ) (v : V) (m : Table V) → Ascends lo m → lo ≤ k → Ascends lo (insert k v m)
  unfolding insert
  insert-Ascends lo k v [] a h = (h, tt)
  insert-Ascends lo k v ((j, w) ∷ m) a h = ground (arith, insert-Ascends (suc j) k v m a.1)

  pub Ascends-weaken : (lo hi : ℕ) (m : Table V) → lo ≤ hi → Ascends hi m → Ascends lo m
  Ascends-weaken lo hi [] h a = tt
  Ascends-weaken lo hi ((j, w) ∷ m) h a = (omega arith, a.1)

  pub remove-Ascends : (lo k : ℕ) (m : Table V) → Ascends lo m → Ascends lo (remove k m)
  unfolding remove
  remove-Ascends lo k [] a = tt
  remove-Ascends lo k ((j, w) ∷ m) a =
      ground (arith, remove-Ascends (suc j) k m a.1, Ascends-weaken lo (suc j) m)

  pub insert-KeysBelow :
      (hi k : ℕ) (v : V) (m : Table V) → KeysBelow hi m → k < hi → KeysBelow hi (insert k v m)
  unfolding insert
  insert-KeysBelow hi k v [] a h = (h, tt)
  insert-KeysBelow hi k v ((j, w) ∷ m) a h = ground (arith, insert-KeysBelow hi k v m a.1)

  pub remove-KeysBelow : (hi k : ℕ) (m : Table V) → KeysBelow hi m → KeysBelow hi (remove k m)
  unfolding remove
  remove-KeysBelow hi k [] a = tt
  remove-KeysBelow hi k ((j, w) ∷ m) a = ground (arith, remove-KeysBelow hi k m a.1)

  pub KeysBelow-weaken : (lo hi : ℕ) (m : Table V) → lo ≤ hi → KeysBelow lo m → KeysBelow hi m
  KeysBelow-weaken lo hi [] h a = tt
  KeysBelow-weaken lo hi ((j, w) ∷ m) h a = (omega arith, KeysBelow-weaken lo hi m h a.1)
