-- ===== src/Gateway/Redaction/Merging.antt =====
-- The merged spans of `RedactText` (internal/contexts/gateway/application/redaction.go).
use kiwi_guard.Common.{
  ℕ, suc, ℤ, pos, negsuc, pos_part, ltb_ℤ, leb_ℤ, ◌≤◌, ◌<◌, Bool, true, false, not, ◌&&◌, ◌||◌,
  List, [], ◌∷◌, ◌≡◌, refl, ltb, leb, arith, Result, ok, err, Bool-cases, inl, inr, any,
  insert_sorted, sort_slice, All, All-mono, length, subst, ok-injective,
}
use kiwi_guard.Common.Utf8.{Bytes}
use kiwi_guard.Gateway.Redaction.{
  TextSpan, RedactError, invalid_boundary, out_of_range, splits_rune, merge_spans, push_span,
  starts_before,
}
use kiwi_guard.Gateway.Redaction.Masking.{covers, IsSpaced}

-- Starts that do not descend; a negative start counts as 0.
abbrev pub IsAscending : ℕ → List TextSpan → Type 0
IsAscending lo [] = Unit {0}
IsAscending lo (span ∷ spans) = (lo ≤ pos_part span.start) × IsAscending (pos_part span.start) spans

abbrev pub covered_by : Bytes → ℕ → TextSpan → Bool
covered_by text i span =
    not (out_of_range text span) && (leb (pos_part span.start) i && ltb i (pos_part span.end))

ltb_ℤ-pos_part :
    (a b : ℤ)
    → (ltb_ℤ a b ≡ true → pos_part a ≤ pos_part b) × (ltb_ℤ a b ≡ false → pos_part b ≤ pos_part a)
ltb_ℤ-pos_part (pos a) (pos b) = ground arith
ltb_ℤ-pos_part (pos a) (negsuc b) = ground arith
ltb_ℤ-pos_part (negsuc a) (pos b) = ground arith
ltb_ℤ-pos_part (negsuc a) (negsuc b) = ground arith

insert_sorted-IsAscending :
    (lo : ℕ) (x : TextSpan) (spans : List TextSpan)
    → lo ≤ pos_part x.start
    → IsAscending lo spans
    → IsAscending lo (insert_sorted starts_before x spans)
unfolding insert_sorted
insert_sorted-IsAscending lo x [] le h = (le, tt)
insert_sorted-IsAscending lo x (y ∷ ys) le h = elim (Bool-cases (starts_before y x)) [
  | inl e ↦ rw e (h.0, insert_sorted-IsAscending _ x ys ((ltb_ℤ-pos_part y.start x.start).0 e) h.1)
  | inr e ↦ rw e (le, ((ltb_ℤ-pos_part y.start x.start).1 e, h.1))
]

pub sort_slice-IsAscending :
    (spans : List TextSpan) → IsAscending 0 (sort_slice starts_before spans)
unfolding sort_slice
sort_slice-IsAscending [] = tt
sort_slice-IsAscending (x ∷ xs) =
    insert_sorted-IsAscending 0 x (sort_slice starts_before xs) (omega arith)
      (sort_slice-IsAscending xs)

in_range :
    (size : ℕ) (s e : ℤ)
    → (ltb_ℤ s (pos 0) || ltb_ℤ (pos size) e || leb_ℤ e s) ≡ false
    → (pos_part s < pos_part e) × (pos_part e ≤ size)
in_range size (pos s) (pos e) h = ground arith
in_range size (pos s) (negsuc e) h = ground arith
in_range size (negsuc s) (pos e) h = ground arith
in_range size (negsuc s) (negsuc e) h = ground arith

module _ (size start end : ℕ) (lt : start < end) (bound : end ≤ size) where
  push_span-IsSpaced :
      (lo : ℕ) (m : List (ℕ × ℕ))
      → lo ≤ start
      → All (λ (p : ℕ × ℕ). p.0 ≤ start) m
      → IsSpaced size lo m
      → IsSpaced size lo (push_span start end m)
  unfolding push_span
  push_span-IsSpaced lo [] le low h = (le, lt, bound, tt)
  push_span-IsSpaced lo ((s, e) ∷ []) le low h = ground arith
  push_span-IsSpaced lo ((s, e) ∷ (s', e') ∷ m) le low h = (
    h.0,
    h.1,
    h.2,
    push_span-IsSpaced (suc e) ((s', e') ∷ m) (omega (arith, h.3.0, low.1.0)) low.1 h.3,
  )

  push_span-covers :
      (m : List (ℕ × ℕ)) (i : ℕ)
      → All (λ (p : ℕ × ℕ). p.0 ≤ start) m
      → covers (push_span start end m) i ≡ (leb start i && ltb i end || covers m i)
  unfolding push_span
  push_span-covers [] i low = refl
  push_span-covers ((s, e) ∷ []) i low = ground arith
  push_span-covers ((s, e) ∷ (s', e') ∷ m) i low =
      ground (arith, push_span-covers ((s', e') ∷ m) i low.1)

  push_span-starts :
      (m : List (ℕ × ℕ))
      → All (λ (p : ℕ × ℕ). p.0 ≤ start) m
      → All (λ (p : ℕ × ℕ). p.0 ≤ start) (push_span start end m)
  unfolding push_span
  push_span-starts [] low = (omega arith, tt)
  push_span-starts ((s, e) ∷ []) low = ground arith
  push_span-starts ((s, e) ∷ (s', e') ∷ m) low = (low.0, push_span-starts ((s', e') ∷ m) low.1)

or_rotate : (a b c : Bool) → (a || (b || c)) ≡ ((b || a) || c)
or_rotate a b c = ground arith

module _ (text : Bytes) where
  -- The loop keeps the merged spans apart, and they cover what the spans cover.
  pub merge_spans-lem :
      (lo : ℕ) (spans : List TextSpan) (merged r : List (ℕ × ℕ))
      → IsAscending lo spans
      → IsSpaced (length text) 0 merged
      → All (λ (p : ℕ × ℕ). p.0 ≤ lo) merged
      → merge_spans text spans merged ≡ ok r
      → IsSpaced (length text) 0 r
        × ((i : ℕ) → covers r i ≡ (any (covered_by text i) spans || covers merged i))
  unfolding merge_spans
  merge_spans-lem lo [] merged r up h low eq =
      subst
        (λ m.
          IsSpaced (length text) 0 m
          × ((i : ℕ) → covers m i ≡ (any (covered_by text i) [] || covers merged i)))
        (ok-injective eq) (h, λ i. refl)
  merge_spans-lem lo (span ∷ spans) merged r up h low eq =
      elim (Bool-cases (out_of_range text span)) [
        | inl out ↦
            let (spaced, cover) =
              merge_spans-lem (pos_part span.start) spans merged r up.1 h
                (All-mono merged (λ p le. omega (arith, up.0)) low) (rw (out, merge_spans) at eq) in
            (spaced, λ i. rw (out, cover i) refl)
        | inr fits ↦ elim (Bool-cases (splits_rune text span)) [
          | inl split ↦ absurd (
              let refused : ◌≡◌ {A = Result RedactError (List (ℕ × ℕ))} (err invalid_boundary)
                  (ok r) =
                rw (fits, split, merge_spans) at eq in
              cc)
          | inr whole ↦
              let (lt, bound) = in_range (length text) span.start span.end fits in
              let start = pos_part span.start in
              let end = pos_part span.end in
              let low' =
                All-mono merged
                  (λ p (le : p.0 ≤ lo). let q : p.0 ≤ start = omega (arith, up.0) in q) low in
              let (spaced, cover) =
                merge_spans-lem start spans (push_span start end merged) r up.1
                  (push_span-IsSpaced (length text) start end lt bound 0 merged (omega arith) low'
                    h)
                  (push_span-starts (length text) start end lt bound merged low')
                  (rw (fits, whole, merge_spans) at eq) in
              (
                spaced,
                λ i.
                    rw
                      (
                        fits,
                        cover i,
                        push_span-covers (length text) start end lt bound merged i low',
                      )
                      (or_rotate (any (covered_by text i) spans) (leb start i && ltb i end)
                        (covers merged i)),
              )
        ]
      ]
