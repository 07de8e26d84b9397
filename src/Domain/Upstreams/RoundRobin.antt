-- ===== src/Domain/Upstreams/RoundRobin.antt =====
-- The fairness of the round robin (crates/edge-domain/src/lib.rs, `select_upstream`).
use native.Mathlib.Nat.{suc-mod, suc-add, zero-add, mod-add-mod, mod-eq_of_lt, mod_self, mod-lt}
use edge.Prelude.{
  ℕ, suc, take, map, filter, ◌∷◌, List, length, ◌%◌, ◌+◌, drop, [], ◌≡◌, zero, ◌≤◌, ◌<◌, refl,
  u64_max, ap, Option, arith, ◌∙◌, sym, wrap_u64, ◌++◌, ◌≢◌, ◌-◌, length-drop, subst,
}
use edge.Text.{Text}
use edge.Domain.Availability.{UpstreamAvailability}
use edge.Domain.Config.{Service, Upstream}
use edge.Domain.Upstreams.{
  may_select, nth, UpstreamSelection, select_upstream, selected, no_eligible_upstream,
  select_eligible, health_enabled,
}

-- The upstreams that `n` calls choose, each with the sequence that the one before returned.
abbrev choose_next : UpstreamSelection → (ℕ → List Text) → List Text
choose_next no_eligible_upstream rest = []
choose_next (selected id next_sequence) rest = id ∷ rest next_sequence

abbrev pub choices : Service → (Text → Option UpstreamAvailability) → ℕ → ℕ → List Text
choices service known zero sequence = []
choices service known (suc n) sequence =
    choose_next (select_upstream service known sequence) (choices service known n)

abbrev pub ids : List Upstream → List Text
ids = map (λ u. u.id)

abbrev pub eligible_of : Service → (Text → Option UpstreamAvailability) → List Upstream
eligible_of service known = filter (may_select (health_enabled service) known) service.upstreams

abbrev runs : List Upstream → ℕ → ℕ → List Text
runs us zero sequence = []
runs us (suc n) sequence = choose_next (select_eligible us sequence) (runs us n)

choose_next-ext :
    (s : UpstreamSelection) (f g : ℕ → List Text)
    → ((n : ℕ) → f n ≡ g n)
    → choose_next s f ≡ choose_next s g
choose_next-ext no_eligible_upstream f g h = refl
choose_next-ext (selected id next_sequence) f g h = ap (◌∷◌ id) (h next_sequence)

choices-runs :
    (service : Service) (known : Text → Option UpstreamAvailability) (n sequence : ℕ)
    → choices service known n sequence ≡ runs (eligible_of service known) n sequence
unfolding select_upstream
choices-runs service known zero sequence = refl
choices-runs service known (suc n) sequence =
    choose_next-ext (select_upstream service known sequence) (choices service known n)
      (runs (eligible_of service known) n) (choices-runs service known n)

nth-zero : (x : Upstream) (xs : List Upstream) → x ∷ xs ≡ nth x xs zero ∷ xs
nth-zero x [] = refl
nth-zero x (y ∷ ys) = refl

drop-nth :
    (x : Upstream) (xs : List Upstream) (i : ℕ)
    → i < length (x ∷ xs)
    → drop i (x ∷ xs) ≡ nth x xs i ∷ drop (suc i) (x ∷ xs)
drop-nth x xs zero h = nth-zero x xs
drop-nth x [] (suc i) h = absurd (omega arith)
drop-nth x (y ∷ ys) (suc i) h = drop-nth y ys i (omega arith)

ids_from :
    (x : Upstream) (xs : List Upstream) (n i : ℕ)
    → i < length (x ∷ xs)
    → ids (take (suc n) (drop i (x ∷ xs))) ≡ (nth x xs i).id ∷ ids (take n (drop (suc i) (x ∷ xs)))
ids_from x xs n i h = ap (λ us. ids (take (suc n) us)) (drop-nth x xs i h)

runs_from :
    (x : Upstream) (xs : List Upstream) (n sequence i : ℕ)
    → sequence % length (x ∷ xs) ≡ i
    → sequence < u64_max
    → runs (x ∷ xs) (suc n) sequence ≡ (nth x xs i).id ∷ runs (x ∷ xs) n (sequence + 1)
unfolding select_eligible
runs_from x xs n sequence i e b =
    let unwrapped : wrap_u64 (sequence + 1) ≡ sequence + 1 = omega arith in rw (e, unwrapped) refl

next_mod : (n s i : ℕ) → s % n ≡ i → i + 1 < n → (s + 1) % n ≡ suc i
next_mod n s i e h =
    let up : s + 1 ≡ suc s = omega arith in
    let low : suc i < n = omega arith in
    ap (λ k. k % n) up ∙ suc-mod s n ∙ ap (λ k. suc k % n) e ∙ mod-eq_of_lt low

-- A stretch that does not pass the end of the list.
stretch :
    (x : Upstream) (xs : List Upstream) (n sequence i : ℕ)
    → sequence % length (x ∷ xs) ≡ i
    → i + n ≤ length (x ∷ xs)
    → sequence + n ≤ u64_max
    → runs (x ∷ xs) n sequence ≡ ids (take n (drop i (x ∷ xs)))
stretch x xs zero sequence i e h b = refl
stretch x xs (suc zero) sequence i e h b =
    runs_from x xs 0 sequence i e (omega arith) ∙ sym (ids_from x xs 0 i (omega arith))
stretch x xs (suc (suc n)) sequence i e h b =
    let after : (sequence + 1) % length (x ∷ xs) ≡ suc i =
      next_mod (length (x ∷ xs)) sequence i e (omega arith) in
    runs_from x xs (suc n) sequence i e (omega arith)
    ∙ ap (◌∷◌ (nth x xs i).id)
        (stretch x xs (suc n) (sequence + 1) (suc i) after (omega arith) (omega arith))
    ∙ sym (ids_from x xs (suc n) i (omega arith))

runs-add :
    (x : Upstream) (xs : List Upstream) (a b sequence : ℕ)
    → sequence + a + b ≤ u64_max
    → runs (x ∷ xs) (a + b) sequence ≡ runs (x ∷ xs) a sequence ++ runs (x ∷ xs) b (sequence + a)
runs-add x xs zero b sequence h =
    let here : sequence ≡ sequence + 0 = omega arith in
    ap (λ n. runs (x ∷ xs) n sequence) (zero-add b) ∙ ap (runs (x ∷ xs) b) here
runs-add x xs (suc a) b sequence h =
    let i : ℕ = sequence % length (x ∷ xs) in
    let late : sequence + 1 + a ≡ sequence + suc a = omega arith in
    ap (λ n. runs (x ∷ xs) n sequence) (suc-add a b)
    ∙ runs_from x xs (a + b) sequence i refl (omega arith)
    ∙ ap (◌∷◌ (nth x xs i).id) (
        runs-add x xs a b (sequence + 1) (omega arith)
        ∙ ap (λ n. runs (x ∷ xs) a (sequence + 1) ++ runs (x ∷ xs) b n) late)
    ∙ ap (λ l. l ++ runs (x ∷ xs) b (sequence + suc a))
        (sym (runs_from x xs a sequence i refl (omega arith)))

take_all {ℓ} : {A : Type ℓ} (n : ℕ) (xs : List A) → length xs ≤ n → take n xs ≡ xs
take_all zero [] h = refl
take_all zero (x ∷ xs) h = absurd (omega arith)
take_all (suc n) [] h = refl
take_all (suc n) (x ∷ xs) h = ap (◌∷◌ x) (take_all n xs (omega arith))

complement_mod : (sequence n : ℕ) → 0 < n → (sequence + (n - sequence % n)) % n ≡ 0
complement_mod sequence n h =
    let below : sequence % n < n = mod-lt sequence h in
    let whole : sequence % n + (n - sequence % n) ≡ n = omega arith in
    sym (mod-add-mod sequence n (n - sequence % n)) ∙ ap (λ k. k % n) whole ∙ mod_self n

runs-rotation :
    (x : Upstream) (xs : List Upstream) (sequence i : ℕ)
    → sequence % length (x ∷ xs) ≡ i
    → sequence + length (x ∷ xs) ≤ u64_max
    → runs (x ∷ xs) (length (x ∷ xs)) sequence ≡ ids (drop i (x ∷ xs)) ++ ids (take i (x ∷ xs))
runs-rotation x xs sequence i e h =
    let n : ℕ = length (x ∷ xs) in
    let below : i < n = subst (λ k. k < n) e (mod-lt sequence (omega arith)) in
    let split : n ≡ (n - i) + i = omega arith in
    let again : (sequence + (n - i)) % n ≡ 0 =
      subst (λ k. (sequence + (n - k)) % n ≡ 0) e (complement_mod sequence n (omega arith)) in
    let all_from : take (n - i) (drop i (x ∷ xs)) ≡ drop i (x ∷ xs) =
      take_all (n - i) (drop i (x ∷ xs)) (omega (arith, length-drop i (x ∷ xs))) in
    ap (λ k. runs (x ∷ xs) k sequence) split
    ∙ runs-add x xs (n - i) i sequence (omega arith)
    ∙ ap (λ l. l ++ runs (x ∷ xs) i (sequence + (n - i)))
        (stretch x xs (n - i) sequence i e (omega arith) (omega arith) ∙ ap ids all_from)
    ∙ ap (◌++◌ (ids (drop i (x ∷ xs))))
        (stretch x xs i (sequence + (n - i)) 0 again (omega arith) (omega arith))

-- While the eligible upstreams stay the same and the sequence does not wrap around, as many calls as
-- there are eligible upstreams choose each of them once, in their order from the one that the first
-- sequence points at.
pub choices-rotation :
    (service : Service) (known : Text → Option UpstreamAvailability) (us : List Upstream)
    (sequence i : ℕ)
    → eligible_of service known ≡ us
    → us ≢ []
    → sequence % length us ≡ i
    → sequence + length us ≤ u64_max
    → choices service known (length us) sequence ≡ ids (drop i us) ++ ids (take i us)
choices-rotation service known [] sequence i e n m h = absurd (n refl)
choices-rotation service known (x ∷ xs) sequence i e n m h =
    choices-runs service known (length (x ∷ xs)) sequence
    ∙ ap (λ us. runs us (length (x ∷ xs)) sequence) e
    ∙ runs-rotation x xs sequence i m h
