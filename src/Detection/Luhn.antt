-- ===== src/Detection/Luhn.antt =====
-- internal/contexts/detection/domain/luhn.go: the Luhn checksum of a payment-card candidate.
use mathlib.Core.List.{reverse}
use kiwi_guard.Common.{
  ℕ, ◌+◌, ◌-◌, ◌*◌, ◌%◌, Bool, true, false, not, ◌&&◌, List, [], ◌∷◌, length, ltb, leb, ◌==◌,
  eq_nat, if◌then◌else◌,
}
use kiwi_guard.Common.Utf8.{Bytes, runes}

-- The digits of a text, other runes dropped. `is_digit` is `unicode.IsDigit`.
unfoldable pub collect_digits : (ℕ → Bool) → List ℕ → List ℕ
collect_digits is_digit [] = []
collect_digits is_digit (r ∷ rs) =
    let rest = collect_digits is_digit rs in if is_digit r then (r - b'0') ∷ rest else rest

-- What one digit adds to the sum.
abbrev pub weight : Bool → ℕ → ℕ
weight false digit = digit
weight true digit = if ltb 9 (digit * 2) then digit * 2 - 9 else digit * 2

-- The loop from the last digit to the first, over the reversed digits.
unfoldable pub luhn_sum : List ℕ → Bool → ℕ → ℕ
luhn_sum [] double sum = sum
luhn_sum (digit ∷ digits) double sum = luhn_sum digits (not double) (sum + weight double digit)

unfoldable pub valid_digits : List ℕ → Bool
unfolding luhn_sum
valid_digits digits =
    leb 13 (length digits) && leb (length digits) 19 && luhn_sum (reverse digits) false 0 % 10 == 0

unfoldable pub valid_luhn : (ℕ → Bool) → Bytes → Bool
unfolding collect_digits valid_digits runes
valid_luhn is_digit value = valid_digits (collect_digits is_digit (runes value))
