-- ===== src/Gateway/Redaction/Redacted.antt =====
-- The text that `RedactText` (internal/contexts/gateway/application/redaction.go) returns.
use kiwi_guard.Common.{suc, ◌<◌, ◌↔◌}
use kiwi_guard.Common.{
  ℕ, ◌≡◌, refl, sym, ap, ◌∙◌, Bool, true, false, ◌||◌, List, [], ◌∷◌, Result, ok, err, ◌>>=◌,
  if◌then◌else◌, is_empty, length, any, arith, any-sort_slice, sort_slice,
}
use kiwi_guard.Common.Utf8.{Bytes}
use kiwi_guard.Gateway.Redaction.{
  TextSpan, RedactError, starts_before, merge_spans, write_spans, redact_text,
}
use kiwi_guard.Gateway.Redaction.Masking.{mask, mask_none, covers, IsSpaced, write_spans-mask}
use kiwi_guard.Gateway.Redaction.Merging.{covered_by, merge_spans-lem, sort_slice-IsAscending}
use kiwi_guard.Gateway.Redaction.Refusal.{refuses, is_err, merge_spans-refuses}

-- The positions that some span, not empty and in the text, covers.
abbrev pub covered : Bytes → List TextSpan → ℕ → Bool
covered text spans i = any (covered_by text i) spans

or_false : (b : Bool) → (b || false) ≡ b
or_false true = refl
or_false false = refl

module _ (text : Bytes) (spans : List TextSpan) where
  abbrev Masked : Result RedactError (Bytes × ℕ) → Type 0
  Masked r =
      (n : ℕ) × (r ≡ ok (mask (covered text spans) false 0 text, n))
      × ((n ≡ 0) ↔ ((i : ℕ) → covered text spans i ≡ false))

  finish-Masked :
      (m : Result RedactError (List (ℕ × ℕ)))
      → is_err m ≡ false
      → ((merged : List (ℕ × ℕ))
          → m ≡ ok merged
          → IsSpaced (length text) 0 merged × ((i : ℕ) → covers merged i ≡ covered text spans i))
      → Masked (
          m >>= λ merged.
          if is_empty merged then ok (text, 0) else ok (write_spans text 0 merged, length merged))
  finish-Masked (err e) h spec = cc
  finish-Masked (ok []) h spec = (
    0,
    ap (λ t. ok (t, 0))
        (sym (mask_none (covered text spans) 0 text (λ i p. sym ((spec [] refl).1 i)))),
    ((λ z i. sym ((spec [] refl).1 i)), λ none_covered. refl),
  )
  finish-Masked (ok ((s, e) ∷ merged)) h spec = (
    length ((s, e) ∷ merged),
    ap (λ t. ok (t, length ((s, e) ∷ merged)))
        (write_spans-mask (covered text spans) text 0 ((s, e) ∷ merged)
          (spec ((s, e) ∷ merged) refl).0 (λ i q. sym ((spec ((s, e) ∷ merged) refl).1 i))),
    (
      (λ z. absurd (let k : suc (length merged) ≡ 0 = z in omega arith)),
      λ none_covered. absurd (
          let clear : covers ((s, e) ∷ merged) s ≡ false =
            (spec ((s, e) ∷ merged) refl).1 s ∙ none_covered s in
          let lt : s < e = (spec ((s, e) ∷ merged) refl).0.1 in ground arith),
    ),
  )

-- Where no span that is not empty and lies in the text begins or ends inside a rune, the
-- redaction succeeds, and the text it returns is the given one with each longest run of covered
-- positions replaced by one redaction token and every other byte kept, in whatever order the
-- spans are given and however they overlap. A position is covered if a span that is not empty
-- and lies in the text holds it. The number returned is 0 exactly where no position is covered.
pub redact_text-mask :
    (text : Bytes) (spans : List TextSpan)
    → any (refuses text) spans ≡ false
    → (n : ℕ) × (redact_text text spans ≡ ok (mask (covered text spans) false 0 text, n))
      × ((n ≡ 0) ↔ ((i : ℕ) → covered text spans i ≡ false))
unfolding redact_text
redact_text-mask text [] h = (
  0,
  ap (λ t. ok (t, 0)) (sym (mask_none (covered text []) 0 text (λ i p. refl))),
  ((λ z i. refl), λ none_covered. refl),
)
redact_text-mask text (span ∷ spans) h =
    let sorted = sort_slice starts_before (span ∷ spans) in
    finish-Masked text (span ∷ spans) (merge_spans text sorted [])
      (merge_spans-refuses text sorted [] ∙ any-sort_slice starts_before _ (span ∷ spans) ∙ h)
      λ merged e.
        let (spaced, cover) =
          merge_spans-lem text 0 sorted [] merged (sort_slice-IsAscending (span ∷ spans)) tt tt e in
        (
          spaced,
          λ i.
              cover i
              ∙ or_false _
              ∙ any-sort_slice starts_before (covered_by text i) (span ∷ spans),
        )
