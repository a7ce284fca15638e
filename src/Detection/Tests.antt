-- ===== src/Detection/Tests.antt =====
-- Detectors of internal/contexts/detection/domain on concrete texts.
use kiwi_guard.Common.{
  ℕ, String, false, ◌&&◌, leb, List, [], ◌∷◌, ◌++◌, length, Result, ok, err, ◌≡◌, refl, arith, All,
}
use kiwi_guard.Common.Utf8.{Bytes, runes}
use kiwi_guard.Detection.{
  Engine, Definition, Input, Registry, CompileError, kind_regex, direction_input, compile,
  compile_all, match_all, normalize_definition, custom_pattern, normalize_categories,
}
use kiwi_guard.Detection.Luhn.{collect_digits, valid_luhn, valid_digits, luhn_sum}
use kiwi_guard.Detection.Checksum.{valid_luhn-substitution, valid_luhn-transposition}
use kiwi_guard.Detection.Matching.{FindsInBounds, IsReported, match_all-IsSound}

-- An engine whose every expression matches the whole text.
abbrev whole_text : Engine
whole_text = record {
  Regexp = String;
  compile_pattern = λ p. ok p;
  find_all = λ re text. (0, length text) ∷ [];
  hash_value = λ value. "digest";
  is_digit = λ r. leb b'0' r && leb r b'9';
}

abbrev word : Definition
word = record { key = "word"; kind = kind_regex; pattern = "x"; categories = [] }

abbrev hello : Input
hello = record { direction = direction_input; text = b'h' ∷ b'i' ∷ [] }

abbrev registry_of : Result CompileError Registry → Registry
registry_of (ok r) = r
registry_of (err e) = []

abbrev words : Registry
words = registry_of (compile_all whole_text (word ∷ []))

whole_text_in_bounds : FindsInBounds whole_text
whole_text_in_bounds re text = ((omega arith, omega arith), tt)

-- A test card number of sixteen digits, its groups set off by `sep`.
abbrev card : List ℕ → Bytes
card first =
    first
    ++ b'1' ∷ b'1' ∷ b'1' ∷ b'1' ∷ b'1' ∷ b'1' ∷ b'1' ∷ b'1' ∷ b'1' ∷ b'1' ∷ b'1' ∷ b'1' ∷ b'1'
      ∷ b'1' ∷ []

abbrev ones : List ℕ
ones = 1 ∷ 1 ∷ 1 ∷ 1 ∷ 1 ∷ 1 ∷ 1 ∷ 1 ∷ 1 ∷ 1 ∷ 1 ∷ 1 ∷ 1 ∷ 1 ∷ []

match_all-IsSound_example :
    All (IsReported whole_text (word ∷ []) hello.text) (match_all words hello)
unfolding compile_all compile normalize_definition custom_pattern normalize_categories
match_all-IsSound_example =
    match_all-IsSound whole_text whole_text_in_bounds (word ∷ []) words hello refl

substitution_example : valid_luhn whole_text.is_digit (card (b'5' ∷ b'1' ∷ [])) ≡ false
unfolding collect_digits valid_luhn valid_digits luhn_sum runes
substitution_example =
    valid_luhn-substitution whole_text.is_digit (card (b'4' ∷ b'1' ∷ [])) (card (b'5' ∷ b'1' ∷ []))
      [] (1 ∷ ones) 4 5 refl refl (omega arith) (omega arith) (λ h. omega arith) refl

transposition_example : valid_luhn whole_text.is_digit (card (b'1' ∷ b'4' ∷ [])) ≡ false
unfolding collect_digits valid_luhn valid_digits luhn_sum runes
transposition_example =
    valid_luhn-transposition whole_text.is_digit (card (b'4' ∷ b'1' ∷ [])) (card (b'1' ∷ b'4' ∷ []))
      [] ones 4 1 refl refl (omega arith) (omega arith) (λ h. omega arith) (λ h. omega (arith, h.0))
      (λ h. omega (arith, h.0)) refl
