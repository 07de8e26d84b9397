-- ===== src/Runtime/Timers.antt =====
-- crates/edge-core/src/timer_queue.rs: deadlines in order. `sort_by_key` is the stable sort of the
-- standard library, written as an insertion sort.
use edge.Prelude.{
  ℕ, take, ◌++◌, [], leb, suc, ◌≤◌, List, map, arith, ◌<◌, ◌≡◌, refl, ◌∷◌, ltb, drop, if◌then◌else◌,
  ◌∙◌, inl, inr, subst, sym, Bool-cases, ap,
}

abbrev pub Timers : Type 0
Timers = List (ℕ × ℕ)

-- `x` was before all of the list in the input, so it goes before its equals.
abbrev insert_first : ℕ × ℕ → Timers → Timers
insert_first x [] = x ∷ []
insert_first x (y ∷ ys) = if leb x.0 y.0 then x ∷ y ∷ ys else y ∷ insert_first x ys

abbrev sort_by_deadline : Timers → Timers
sort_by_deadline [] = []
sort_by_deadline (x ∷ xs) = insert_first x (sort_by_deadline xs)

unfoldable pub schedule : ℕ → ℕ → Timers → Timers
schedule token deadline timers = sort_by_deadline (timers ++ ((deadline, token) ∷ []))

-- `position(|(deadline, _)| deadline > now)`, or the length.
abbrev split_at : ℕ → Timers → ℕ
split_at now [] = 0
split_at now ((deadline, _) ∷ timers) = if ltb now deadline then 0 else suc (split_at now timers)

unfoldable pub pop_expired : ℕ → Timers → List ℕ × Timers
pop_expired now timers =
    let split = split_at now timers in
    (map (λ (t : ℕ × ℕ). t.1) (take split timers), drop split timers)

-- The deadlines do not descend, from `lo` on.
abbrev pub Sorted : ℕ → Timers → Type 0
Sorted lo [] = Unit
Sorted lo ((deadline, _) ∷ timers) = (lo ≤ deadline) × Sorted deadline timers

-- The timers that are due, and those that are not.
abbrev pub due : ℕ → Timers → List ℕ
due now [] = []
due now ((deadline, token) ∷ timers) =
    if leb deadline now then token ∷ due now timers else due now timers

abbrev pub pending : ℕ → Timers → Timers
pending now [] = []
pending now ((deadline, token) ∷ timers) =
    if leb deadline now then pending now timers else (deadline, token) ∷ pending now timers

-- The place of a new timer: behind every deadline that is not later.
abbrev pub place : ℕ → ℕ → Timers → Timers
place token deadline [] = (deadline, token) ∷ []
place token deadline ((d, t) ∷ timers) =
    if leb d deadline
    then (d, t) ∷ place token deadline timers
    else (deadline, token) ∷ (d, t) ∷ timers

none_due :
    (lo now : ℕ) (timers : Timers)
    → Sorted lo timers
    → now < lo
    → (due now timers ≡ []) × (pending now timers ≡ timers)
none_due lo now [] s h = (refl, refl)
none_due lo now ((d, t) ∷ timers) s h = ground (arith, none_due d now timers s.1)

-- On timers in order, `pop_expired` returns exactly the tokens whose deadline is not after `now`, in the
-- order of the queue, and leaves exactly the others.
pub pop_expired-due :
    (lo now : ℕ) (timers : Timers)
    → Sorted lo timers
    → pop_expired now timers ≡ (due now timers, pending now timers)
unfolding pop_expired
pop_expired-due lo now [] s = refl
pop_expired-due lo now ((d, t) ∷ timers) s =
    ground (arith, pop_expired-due d now timers s.1, none_due d now timers s.1)

insert_first_least :
    (x : ℕ × ℕ) (timers : Timers) → Sorted x.0 timers → insert_first x timers ≡ x ∷ timers
insert_first_least x [] s = refl
insert_first_least x (y ∷ timers) s = ground arith

place-Sorted :
    (lo token deadline : ℕ) (timers : Timers)
    → Sorted lo timers
    → lo ≤ deadline
    → Sorted lo (place token deadline timers)
place-Sorted lo token deadline [] s h = (h, tt)
place-Sorted lo token deadline ((d, t) ∷ timers) s h =
    ground (arith, place-Sorted d token deadline timers s.1)

place_early :
    (lo token deadline : ℕ) (timers : Timers)
    → Sorted lo timers
    → deadline < lo
    → place token deadline timers ≡ (deadline, token) ∷ timers
place_early lo token deadline [] s h = refl
place_early lo token deadline ((d, t) ∷ timers) s h = ground arith

sort-place :
    (lo token deadline : ℕ) (timers : Timers)
    → Sorted lo timers
    → sort_by_deadline (timers ++ ((deadline, token) ∷ [])) ≡ place token deadline timers
sort-place lo token deadline [] s = refl
sort-place lo token deadline ((d, t) ∷ timers) s =
    let ih = sort-place d token deadline timers s.1 in
    elim (Bool-cases (leb d deadline)) [
      | inl h ↦
          let sorted = place-Sorted d token deadline timers s.1 (ground arith) in
          ap (insert_first (d, t)) ih
          ∙ insert_first_least (d, t) (place token deadline timers) sorted
          ∙ ground (arith, h)
      | inr h ↦
          let early = place_early d token deadline timers s.1 (ground arith) in
          ap (insert_first (d, t)) (ih ∙ early)
          ∙ ground (arith, h, insert_first_least (d, t) timers s.1)
    ]

-- On timers in order, `schedule` puts the new timer behind every timer whose deadline is not later and
-- leaves the order of the others as it was; the result is in order again.
pub schedule-place :
    (token deadline : ℕ) (timers : Timers)
    → Sorted 0 timers
    → (schedule token deadline timers ≡ place token deadline timers)
      × Sorted 0 (schedule token deadline timers)
unfolding schedule
schedule-place token deadline timers s =
    let same = sort-place 0 token deadline timers s in
    (same, subst (Sorted 0) (sym same) (place-Sorted 0 token deadline timers s (ground arith)))
