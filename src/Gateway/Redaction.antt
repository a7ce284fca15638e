-- ===== src/Gateway/Redaction.antt =====
-- internal/contexts/gateway/application/redaction.go: `RedactText`.
pub mod Masking
pub mod Merging
pub mod Refusal
pub mod Boundaries
pub mod Redacted
use kiwi_guard.Common.{
  ℕ, ℤ, pos, negsuc, pos_part, ltb_ℤ, leb_ℤ, Bool, true, false, not, ◌&&◌, ◌||◌, List, [], ◌∷◌,
  ◌++◌, ◌==◌, eq_nat, if◌then◌else◌, ltb, Result, ok, err, ◌>>=◌, length, drop, is_empty,
  sort_slice,
}
use kiwi_guard.Common.Utf8.{Bytes, rune_start}
use kiwi_guard.Detection.{slice}

-- The bytes of "[REDACTED]".
abbrev pub redaction_token : Bytes
redaction_token = b'[' ∷ b'R' ∷ b'E' ∷ b'D' ∷ b'A' ∷ b'C' ∷ b'T' ∷ b'E' ∷ b'D' ∷ b']' ∷ []

-- The offsets are Go ints: a provider may send negative ones.
pub record TextSpan : Type 0 where
  pub start : ℤ
  pub end : ℤ

pub data RedactError : Type 0 where
  invalid_boundary : RedactError

abbrev pub byte_at : Bytes → ℕ → ℕ
byte_at text i = elim (drop i text) [ [] ↦ 0 | b ∷ rest ↦ b ]

unfoldable pub valid_string_boundary : Bytes → ℕ → Bool
valid_string_boundary text offset =
    offset == 0 || offset == length text || rune_start (byte_at text offset)

-- The span is skipped: out of range, or empty.
abbrev pub out_of_range : Bytes → TextSpan → Bool
out_of_range text span =
    ltb_ℤ span.start (pos 0) || ltb_ℤ (pos (length text)) span.end || leb_ℤ span.end span.start

abbrev pub splits_rune : Bytes → TextSpan → Bool
splits_rune text span =
    not (valid_string_boundary text (pos_part span.start))
    || not (valid_string_boundary text (pos_part span.end))

-- The merged spans, a start and an end each; the last one grows or a new one is appended.
unfoldable pub push_span : ℕ → ℕ → List (ℕ × ℕ) → List (ℕ × ℕ)
push_span start end [] = (start, end) ∷ []
push_span start end ((s, e) ∷ []) =
    if ltb e start
    then (s, e) ∷ (start, end) ∷ []
    else if ltb e end
    then (s, end) ∷ []
    else (s, e) ∷ []
push_span start end (m ∷ n ∷ merged) = m ∷ push_span start end (n ∷ merged)

-- The loop over the sorted spans.
unfoldable pub merge_spans :
    Bytes → List TextSpan → List (ℕ × ℕ) → Result RedactError (List (ℕ × ℕ))
merge_spans text [] merged = ok merged
merge_spans text (span ∷ spans) merged =
    let rest = merge_spans text spans (
      if out_of_range text span
      then merged
      else push_span (pos_part span.start) (pos_part span.end) merged) in
    if not (out_of_range text span) && splits_rune text span then err invalid_boundary else rest

-- The loop that writes the result.
unfoldable pub write_spans : Bytes → ℕ → List (ℕ × ℕ) → Bytes
write_spans text offset [] = drop offset text
write_spans text offset ((start, end) ∷ merged) =
    slice text offset start ++ (redaction_token ++ write_spans text end merged)

abbrev pub starts_before : TextSpan → TextSpan → Bool
starts_before a b = ltb_ℤ a.start b.start

unfoldable pub redact_text : Bytes → List TextSpan → Result RedactError (Bytes × ℕ)
redact_text text spans = if is_empty spans then ok (text, 0) else do
  merged ← merge_spans text (sort_slice starts_before spans) []
  if is_empty merged then ok (text, 0) else ok (write_spans text 0 merged, length merged)
