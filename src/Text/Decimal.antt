-- ===== src/Text/Decimal.antt =====
-- Printing numbers in decimal, and reading them back.
use native.Mathlib.Nat.{pow-suc}
use edge.Prelude.{
  ℕ, true, false, Option, none, some, [], ◌∷◌, ◌++◌, ◌+◌, ◌*◌, ◌/◌, ◌%◌, ◌^◌, ◌≡◌, refl, arith,
  if◌then◌else◌, ltb, zero, suc, ◌<◌, ◌≤◌, u64_max, all, ◌∙◌, ap, Option-cases, inl, inr,
  Bool-cases, all-append, is_empty,
}
use edge.Text.{Text, from_str_radix, parse_digits, is_digit, digit_value, add_digit, parse_u16}

-- The decimal digits, at most `fuel` of them.
unfoldable pub decimal_digits : ℕ → ℕ → Text
decimal_digits zero n = []
decimal_digits (suc fuel) n =
    let front = decimal_digits fuel (n / 10) in
    if ltb n 10 then (48 + n) ∷ [] else front ++ (48 + n % 10) ∷ []

-- `format!("{}", n)` of a 64-bit number.
unfoldable pub to_decimal : ℕ → Text
unfolding decimal_digits
to_decimal n = decimal_digits 20 n

abbrev then_digits : Option ℕ → Text → Option ℕ
then_digits none t = none
then_digits (some n) t = parse_digits 10 n t

parse_digits-append :
    (acc : ℕ) (s t : Text) → parse_digits 10 acc (s ++ t) ≡ then_digits (parse_digits 10 acc s) t
unfolding parse_digits
parse_digits-append acc [] t = refl
parse_digits-append acc (c ∷ s) t = elim (Option-cases (add_digit 10 acc (digit_value 10 c))) [
  | inl e ↦ ground (arith, e)
  | inr (n, e) ↦ ground (arith, e, parse_digits-append n s t)
]

parse_digit :
    (acc d : ℕ)
    → d < 10
    → acc * 10 + d ≤ u64_max
    → parse_digits 10 acc ((48 + d) ∷ []) ≡ some (acc * 10 + d)
unfolding parse_digits
parse_digit acc d h b = ground arith

single : (n fuel : ℕ) → ltb n 10 ≡ true → decimal_digits (suc fuel) n ≡ (48 + n) ∷ []
unfolding decimal_digits
single n fuel e = rw e refl

longer :
    (n fuel : ℕ)
    → ltb n 10 ≡ false
    → decimal_digits (suc fuel) n ≡ decimal_digits fuel (n / 10) ++ (48 + n % 10) ∷ []
unfolding decimal_digits
longer n fuel e = rw e refl

parse_digits-decimal_digits :
    (fuel n : ℕ) → n < 10 ^ fuel → n ≤ u64_max → parse_digits 10 0 (decimal_digits fuel n) ≡ some n
unfolding decimal_digits parse_digits
parse_digits-decimal_digits zero n h b = let none_left : n ≡ 0 = omega arith in rw none_left refl
parse_digits-decimal_digits (suc fuel) n h b = elim (Bool-cases (ltb n 10)) [
  | inl e ↦
      let below : n < 10 = ground arith in
      let same : 0 * 10 + n ≡ n = omega arith in
      ap (parse_digits 10 0) (single n fuel e) ∙ parse_digit 0 n below (omega arith) ∙ ap some same
  | inr e ↦
      let whole : n / 10 * 10 + n % 10 ≡ n = omega arith in
      let bound : n / 10 < 10 ^ fuel = omega (arith, pow-suc 10 fuel) in
      ap (parse_digits 10 0) (longer n fuel e)
      ∙ (parse_digits-append 0 (decimal_digits fuel (n / 10)) ((48 + n % 10) ∷ [])
          ∙ ap (λ o. then_digits o ((48 + n % 10) ∷ []))
              (parse_digits-decimal_digits fuel (n / 10) bound (omega arith))
          ∙ parse_digit (n / 10) (n % 10) (omega arith) (omega arith)
          ∙ ap some whole)
]

decimal_digits-digits : (fuel n : ℕ) → all is_digit (decimal_digits fuel n) ≡ true
decimal_digits-digits zero n = unfold decimal_digits in refl
decimal_digits-digits (suc fuel) n = elim (Bool-cases (ltb n 10)) [
  | inl e ↦ ap (all is_digit) (single n fuel e) ∙ ground arith
  | inr e ↦
      ap (all is_digit) (longer n fuel e)
      ∙ all-append is_digit (decimal_digits fuel (n / 10)) ((48 + n % 10) ∷ [])
      ∙ ground (arith, decimal_digits-digits fuel (n / 10))
]

from_str_radix-digits :
    (t : Text)
    → all is_digit t ≡ true
    → is_empty t ≡ false
    → from_str_radix 10 t ≡ parse_digits 10 0 t
unfolding from_str_radix
from_str_radix-digits [] h e = ground arith
from_str_radix-digits (c ∷ []) h e = ground arith
from_str_radix-digits (c ∷ d ∷ t) h e = ground arith

append-not-empty : (s : Text) (c : ℕ) → is_empty (s ++ c ∷ []) ≡ false
append-not-empty [] c = refl
append-not-empty (d ∷ s) c = refl

decimal_digits-not-empty : (fuel n : ℕ) → is_empty (decimal_digits (suc fuel) n) ≡ false
decimal_digits-not-empty fuel n = elim (Bool-cases (ltb n 10)) [
  | inl e ↦ ap is_empty (single n fuel e)
  | inr e ↦
      ap is_empty (longer n fuel e) ∙ append-not-empty (decimal_digits fuel (n / 10)) (48 + n % 10)
]

pub to_decimal-digits : (n : ℕ) → all is_digit (to_decimal n) ≡ true
unfolding to_decimal
to_decimal-digits n = decimal_digits-digits 20 n

pub parse_u16-to_decimal : (n : ℕ) → n ≤ 65535 → parse_u16 (to_decimal n) ≡ some n
unfolding parse_u16 to_decimal
parse_u16-to_decimal n h =
    let read : from_str_radix 10 (decimal_digits 20 n) ≡ some n =
      from_str_radix-digits (decimal_digits 20 n) (decimal_digits-digits 20 n)
        (decimal_digits-not-empty 19 n)
      ∙ parse_digits-decimal_digits 20 n (omega arith) (omega arith) in
    ground (arith, read)
