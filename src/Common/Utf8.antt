-- ===== src/Common/Utf8.antt =====
-- Text as bytes, and Go's conversions between a string and its runes.
use Prim.Native.Nat.{ℕ, zero, suc, ◌+◌, ◌*◌, ◌/◌, ◌%◌}
use mathlib.Core.Bool.{Bool, true, false, ◌&&◌, ◌||◌}
use mathlib.Core.List.{List, [], ◌∷◌, ◌++◌}
use kiwi_guard.Common.Tests.{ltb, leb, if◌then◌else◌}

abbrev pub Bytes : Type 0
Bytes = List ℕ

abbrev between : ℕ → ℕ → ℕ → Bool
between lo hi b = leb lo b && leb b hi

abbrev is_continuation : ℕ → Bool
is_continuation = between 0x80 0xbf

-- The range of the second byte after the leading byte of a three- or four-byte sequence.
abbrev second_ok : ℕ → ℕ → Bool
second_ok lead b =
    if eqb lead 0xe0
    then between 0xa0 0xbf b
    else if eqb lead 0xed
    then between 0x80 0x9f b
    else if eqb lead 0xf0
    then between 0x90 0xbf b
    else if eqb lead 0xf4
    then between 0x80 0x8f b
    else is_continuation b
  where
    eqb : ℕ → ℕ → Bool
    eqb a c = leb a c && leb c a

abbrev pub rune_error : ℕ
rune_error = 0xfffd

-- The rune at the head of a string and the bytes that follow the first one in it; an invalid
-- sequence is one byte long and stands for U+FFFD.
decode_rune : ℕ → Bytes → ℕ × ℕ
decode_rune b0 (b1 ∷ b2 ∷ b3 ∷ _) =
    if ltb b0 0x80
    then (b0, 0)
    else if between 0xc2 0xdf b0 && is_continuation b1
    then (b0 % 0x20 * 0x40 + b1 % 0x40, 1)
    else if between 0xe0 0xef b0 && second_ok b0 b1 && is_continuation b2
    then (b0 % 0x10 * 0x1000 + b1 % 0x40 * 0x40 + b2 % 0x40, 2)
    else if between 0xf0 0xf4 b0 && second_ok b0 b1 && is_continuation b2 && is_continuation b3
    then (b0 % 0x08 * 0x40000 + b1 % 0x40 * 0x1000 + b2 % 0x40 * 0x40 + b3 % 0x40, 3)
    else (rune_error, 0)
decode_rune b0 (b1 ∷ b2 ∷ []) =
    if ltb b0 0x80
    then (b0, 0)
    else if between 0xc2 0xdf b0 && is_continuation b1
    then (b0 % 0x20 * 0x40 + b1 % 0x40, 1)
    else if between 0xe0 0xef b0 && second_ok b0 b1 && is_continuation b2
    then (b0 % 0x10 * 0x1000 + b1 % 0x40 * 0x40 + b2 % 0x40, 2)
    else (rune_error, 0)
decode_rune b0 (b1 ∷ []) =
    if ltb b0 0x80
    then (b0, 0)
    else if between 0xc2 0xdf b0 && is_continuation b1
    then (b0 % 0x20 * 0x40 + b1 % 0x40, 1)
    else (rune_error, 0)
decode_rune b0 [] = if ltb b0 0x80 then (b0, 0) else (rune_error, 0)

-- The first argument counts the bytes still to skip of the rune decoded last.
runes_from : ℕ → Bytes → List ℕ
runes_from n [] = []
runes_from (suc n) (b ∷ bs) = runes_from n bs
runes_from zero (b ∷ bs) = (decode_rune b bs).0 ∷ runes_from (decode_rune b bs).1 bs

-- `[]rune(s)`, and the runes of `for _, r := range s`.
unfoldable pub runes : Bytes → List ℕ
unfolding runes_from decode_rune
runes s = runes_from 0 s

abbrev pub is_scalar : ℕ → Bool
is_scalar r = ltb r 0xd800 || (leb 0xe000 r && ltb r 0x110000)

unfoldable pub encode_rune : ℕ → Bytes
encode_rune r =
    if ltb r 0x80
    then r ∷ []
    else if ltb r 0x800
    then (0xc0 + r / 0x40) ∷ (0x80 + r % 0x40) ∷ []
    else if ltb r 0x10000
    then (0xe0 + r / 0x1000) ∷ (0x80 + r / 0x40 % 0x40) ∷ (0x80 + r % 0x40) ∷ []
    else (0xf0 + r / 0x40000)
      ∷ (0x80 + r / 0x1000 % 0x40)
      ∷ (0x80 + r / 0x40 % 0x40)
      ∷ (0x80 + r % 0x40)
      ∷ []

-- `string(rs)`; a rune that is no scalar value is written as U+FFFD.
unfoldable pub encode : List ℕ → Bytes
unfolding encode_rune
encode [] = []
encode (r ∷ rs) = encode_rune (if is_scalar r then r else rune_error) ++ encode rs

-- `utf8.RuneStart(b)`: the byte is not a continuation byte.
abbrev pub rune_start : ℕ → Bool
rune_start b = if is_continuation b then false else true
