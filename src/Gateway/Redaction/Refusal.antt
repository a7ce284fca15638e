-- ===== src/Gateway/Redaction/Refusal.antt =====
-- Which spans `RedactText` (internal/contexts/gateway/application/redaction.go) refuses.
use kiwi_guard.Common.{
  ℕ, Bool, true, false, not, ◌&&◌, List, [], ◌∷◌, ◌≡◌, ◌↔◌, refl, ◌∙◌, if◌then◌else◌, Result, ok,
  err, ◌>>=◌, Bool-cases, inl, inr, any, any-sort_slice, sort_slice, is_empty, length,
}
use kiwi_guard.Common.Utf8.{Bytes}
use kiwi_guard.Gateway.Redaction.{
  TextSpan, RedactError, invalid_boundary, out_of_range, splits_rune, merge_spans, write_spans,
  starts_before, redact_text,
}

abbrev pub refuses : Bytes → TextSpan → Bool
refuses text span = not (out_of_range text span) && splits_rune text span

abbrev pub is_err {ℓ κ} : {E : Type ℓ} {A : Type κ} → Result E A → Bool
is_err (ok a) = false
is_err (err e) = true

module _ (text : Bytes) where
  pub merge_spans-refuses :
      (spans : List TextSpan) (merged : List (ℕ × ℕ))
      → is_err (merge_spans text spans merged) ≡ any (refuses text) spans
  unfolding merge_spans
  merge_spans-refuses [] merged = refl
  merge_spans-refuses (span ∷ spans) merged = elim (Bool-cases (refuses text span)) [
    | inl e ↦ rw e refl
    | inr e ↦ rw e (merge_spans-refuses spans _)
  ]

  finish-refuses :
      (m : Result RedactError (List (ℕ × ℕ)))
      → is_err {A = Bytes × ℕ} (
          m >>= λ merged.
          if is_empty merged then ok (text, 0) else ok (write_spans text 0 merged, length merged))
        ≡ is_err m
  finish-refuses (ok []) = refl
  finish-refuses (ok (p ∷ merged)) = refl
  finish-refuses (err e) = refl

  redact_text-refuses :
      (spans : List TextSpan) → is_err (redact_text text spans) ≡ any (refuses text) spans
  unfolding redact_text
  redact_text-refuses [] = refl
  redact_text-refuses (span ∷ spans) =
      finish-refuses (merge_spans text (sort_slice starts_before (span ∷ spans)) [])
      ∙ merge_spans-refuses (sort_slice starts_before (span ∷ spans)) []
      ∙ any-sort_slice starts_before (refuses text) (span ∷ spans)

is_err-invalid_iff :
    {A : Type 0} (m : Result RedactError A) → (m ≡ err invalid_boundary) ↔ (is_err m ≡ true)
is_err-invalid_iff (ok a) = ((λ h. cc), λ h. cc)
is_err-invalid_iff (err invalid_boundary) = ((λ h. refl), λ h. refl)

-- The redaction fails exactly where some span that is not empty and lies in the text begins or
-- ends where `valid_string_boundary` refuses, wherever that span stands in the list.
pub redact_text-invalid_iff :
    (text : Bytes) (spans : List TextSpan)
    → (redact_text text spans ≡ err invalid_boundary) ↔ (any (refuses text) spans ≡ true)
redact_text-invalid_iff text spans =
    rw (← redact_text-refuses text spans) (is_err-invalid_iff (redact_text text spans))
