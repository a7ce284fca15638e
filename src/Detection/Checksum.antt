-- ===== src/Detection/Checksum.antt =====
-- What the Luhn test of internal/contexts/detection/domain/luhn.go detects.
use mathlib.Core.List.{reverse, reverse-append, reverse-cons}
use kiwi_guard.Common.{
  ℕ, ◌+◌, ◌%◌, ◌<◌, ◌≡◌, ◌≢◌, ◌⊎◌, inl, inr, Bool-cases, refl, Bool, true, false, not, List, [],
  ◌∷◌, ◌++◌, append_assoc, arith,
}
use kiwi_guard.Common.Utf8.{Bytes, runes}
use kiwi_guard.Detection.Luhn.{collect_digits, weight, luhn_sum, valid_digits, valid_luhn}

luhn_sum-add :
    (digits : List ℕ) (double : Bool) (sum : ℕ)
    → luhn_sum digits double sum ≡ sum + luhn_sum digits double 0
unfolding luhn_sum
luhn_sum-add [] double sum = omega arith
luhn_sum-add (d ∷ digits) double sum = omega (
  arith,
  luhn_sum-add digits (not double) (sum + weight double d),
  luhn_sum-add digits (not double) (0 + weight double d),
)

-- The share of two neighbouring digits in the sum.
luhn_sum-split :
    (ls rs : List ℕ) (double : Bool) (sum : ℕ)
    → (rest : ℕ) × (p : Bool) × ((d e : ℕ)
        → luhn_sum (ls ++ d ∷ e ∷ rs) double sum ≡ rest + weight p d + weight (not p) e)
unfolding luhn_sum
luhn_sum-split [] rs double sum = (
  sum + luhn_sum rs (not (not double)) 0,
  double,
  λ d e.
      omega
        (arith, luhn_sum-add rs (not (not double)) (sum + weight double d + weight (not double) e)),
)
luhn_sum-split (a ∷ ls) rs double sum = luhn_sum-split ls rs (not double) (sum + weight double a)

luhn_sum-split_one :
    (ls rs : List ℕ) (double : Bool) (sum : ℕ)
    → (rest : ℕ) × (p : Bool) × ((d : ℕ) → luhn_sum (ls ++ d ∷ rs) double sum ≡ rest + weight p d)
unfolding luhn_sum
luhn_sum-split_one [] rs double sum = (
  sum + luhn_sum rs (not double) 0,
  double,
  λ d. omega (arith, luhn_sum-add rs (not double) (sum + weight double d)),
)
luhn_sum-split_one (a ∷ ls) rs double sum =
    luhn_sum-split_one ls rs (not double) (sum + weight double a)

reverse-middle : (xs ys : List ℕ) (d : ℕ) → reverse (xs ++ d ∷ ys) ≡ reverse ys ++ d ∷ reverse xs
reverse-middle xs ys d = simp (reverse-append, reverse-cons, append_assoc)

reverse-middle_two :
    (xs ys : List ℕ) (d e : ℕ) → reverse (xs ++ d ∷ e ∷ ys) ≡ reverse ys ++ e ∷ d ∷ reverse xs
reverse-middle_two xs ys d e = simp (reverse-append, reverse-cons, append_assoc)

weight_injective :
    (p : Bool) (rest d d' : ℕ)
    → d < 10
    → d' < 10
    → (rest + weight p d) % 10 ≡ 0
    → (rest + weight p d') % 10 ≡ 0
    → d ≡ d'
weight_injective true rest d d' h h' e e' = ground arith
weight_injective false rest d d' h h' e e' = ground arith

weight_swap :
    (p : Bool) (rest d e : ℕ)
    → d < 10
    → e < 10
    → (rest + weight p d + weight (not p) e) % 10 ≡ 0
    → (rest + weight p e + weight (not p) d) % 10 ≡ 0
    → (d ≡ e) ⊎ (((d ≡ 0) × (e ≡ 9)) ⊎ ((d ≡ 9) × (e ≡ 0)))
weight_swap true rest d e h h' q q' = ground arith
weight_swap false rest d e h h' q q' = ground arith

valid_digits-sum :
    (digits : List ℕ) → valid_digits digits ≡ true → luhn_sum (reverse digits) false 0 % 10 ≡ 0
unfolding valid_digits
valid_digits-sum digits h = ground arith

same_digit :
    (xs ys : List ℕ) (d d' : ℕ)
    → d < 10
    → d' < 10
    → valid_digits (xs ++ d ∷ ys) ≡ true
    → valid_digits (xs ++ d' ∷ ys) ≡ true
    → d ≡ d'
same_digit xs ys d d' h h' v v' =
    let (rest, p, split) = luhn_sum-split_one (reverse ys) (reverse xs) false 0 in
    weight_injective p rest d d' h h'
      (rw (reverse-middle xs ys d, split d) at (valid_digits-sum (xs ++ d ∷ ys) v))
      (rw (reverse-middle xs ys d', split d') at (valid_digits-sum (xs ++ d' ∷ ys) v'))

swapped_digits :
    (xs ys : List ℕ) (d e : ℕ)
    → d < 10
    → e < 10
    → valid_digits (xs ++ d ∷ e ∷ ys) ≡ true
    → valid_digits (xs ++ e ∷ d ∷ ys) ≡ true
    → (d ≡ e) ⊎ (((d ≡ 0) × (e ≡ 9)) ⊎ ((d ≡ 9) × (e ≡ 0)))
swapped_digits xs ys d e h h' v v' =
    let (rest, p, split) = luhn_sum-split (reverse ys) (reverse xs) false 0 in
    weight_swap p rest d e h h'
      (rw (reverse-middle_two xs ys e d, split d e) at (valid_digits-sum (xs ++ e ∷ d ∷ ys) v'))
      (rw (reverse-middle_two xs ys d e, split e d) at (valid_digits-sum (xs ++ d ∷ e ∷ ys) v))

valid_luhn_lem :
    (is_digit : ℕ → Bool) (value : Bytes)
    → valid_luhn is_digit value ≡ valid_digits (collect_digits is_digit (runes value))
unfolding valid_luhn
valid_luhn_lem is_digit value = refl

module _ (is_digit : ℕ → Bool) where
  -- Two texts whose digits differ in one place only, in decimal digits and whatever else is
  -- between the digits, are not both accepted by the Luhn test: if the first is, the second is
  -- refused.
  pub valid_luhn-substitution :
      (value value' : Bytes) (xs ys : List ℕ) (d d' : ℕ)
      → collect_digits is_digit (runes value) ≡ xs ++ d ∷ ys
      → collect_digits is_digit (runes value') ≡ xs ++ d' ∷ ys
      → d < 10
      → d' < 10
      → d ≢ d'
      → valid_luhn is_digit value ≡ true
      → valid_luhn is_digit value' ≡ false
  valid_luhn-substitution value value' xs ys d d' e e' h h' ne ok =
      elim (Bool-cases (valid_luhn is_digit value')) [
        | inl also ↦ absurd (
            ne (
              same_digit xs ys d d' h h' (rw (valid_luhn_lem is_digit value, e) at ok)
                (rw (valid_luhn_lem is_digit value', e') at also)))
        | inr refused ↦ refused
      ]

  -- If a text is accepted by the Luhn test, a text with two neighbouring decimal digits
  -- exchanged and the other digits the same is refused, where the two digits differ and are not
  -- 0 and 9.
  pub valid_luhn-transposition :
      (value value' : Bytes) (xs ys : List ℕ) (d e : ℕ)
      → collect_digits is_digit (runes value) ≡ xs ++ d ∷ e ∷ ys
      → collect_digits is_digit (runes value') ≡ xs ++ e ∷ d ∷ ys
      → d < 10
      → e < 10
      → d ≢ e
      → ¬ ((d ≡ 0) × (e ≡ 9))
      → ¬ ((d ≡ 9) × (e ≡ 0))
      → valid_luhn is_digit value ≡ true
      → valid_luhn is_digit value' ≡ false
  valid_luhn-transposition value value' xs ys d e p p' h h' ne low high ok =
      elim (Bool-cases (valid_luhn is_digit value')) [
        | inl also ↦
            elim (swapped_digits xs ys d e h h' (rw (valid_luhn_lem is_digit value, p) at ok)
              (rw (valid_luhn_lem is_digit value', p') at also)) [
                | inl same ↦ absurd (ne same)
                | inr (inl zero_nine) ↦ absurd (low zero_nine)
                | inr (inr nine_zero) ↦ absurd (high nine_zero)
              ]
        | inr refused ↦ refused
      ]
