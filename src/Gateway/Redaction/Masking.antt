-- ===== src/Gateway/Redaction/Masking.antt =====
-- The loop of `RedactText` that writes the result (internal/contexts/gateway/application/redaction.go).
use kiwi_guard.Common.{
  ℕ, zero, suc, ◌+◌, ◌-◌, ◌≤◌, ◌<◌, ◌≡◌, refl, sym, ap, ◌∙◌, Bool, true, false, ◌&&◌, ◌||◌, List,
  [], ◌∷◌, ◌++◌, if◌then◌else◌, ltb, leb, length, take, drop, length-drop, drop-drop, ap₂, arith,
}
use kiwi_guard.Common.Utf8.{Bytes}
use kiwi_guard.Detection.{slice}
use kiwi_guard.Gateway.Redaction.{redaction_token, write_spans}

-- Text with each maximal run of covered positions replaced by one token. `inside` says that the
-- position before is covered.
unfoldable pub mask : (ℕ → Bool) → Bool → ℕ → Bytes → Bytes
mask covered inside i [] = []
mask covered inside i (b ∷ text) =
    let rest = mask covered (covered i) (suc i) text in
    if covered i then (if inside then rest else redaction_token ++ rest) else b ∷ rest

abbrev pub covers : List (ℕ × ℕ) → ℕ → Bool
covers [] i = false
covers ((s, e) ∷ m) i = leb s i && ltb i e || covers m i

-- Spans in order, none empty, with a position between any two, and none past the end.
abbrev pub IsSpaced : ℕ → ℕ → List (ℕ × ℕ) → Type 0
IsSpaced size lo [] = Unit {0}
IsSpaced size lo ((s, e) ∷ m) = (lo ≤ s) × (s < e) × (e ≤ size) × IsSpaced size (suc e) m

covers_below :
    (size lo : ℕ) (m : List (ℕ × ℕ)) (i : ℕ) → IsSpaced size lo m → i < lo → covers m i ≡ false
covers_below size lo [] i h lt = refl
covers_below size lo ((s, e) ∷ m) i h lt = ground (arith, covers_below size (suc e) m i h.3)

IsSpaced-lower :
    (size lo lo' : ℕ) (m : List (ℕ × ℕ)) → lo ≤ lo' → IsSpaced size lo' m → IsSpaced size lo m
IsSpaced-lower size lo lo' [] le h = tt
IsSpaced-lower size lo lo' ((s, e) ∷ m) le h = (omega (arith, h.0), h.1, h.2, h.3)

module _ (c : ℕ → Bool) where
  mask_inside : (i : ℕ) (text : Bytes) → c i ≡ false → mask c true i text ≡ mask c false i text
  unfolding mask
  mask_inside i [] h = refl
  mask_inside i (b ∷ text) h = rw h

  mask_clear :
      (n i : ℕ) (text : Bytes)
      → ((j : ℕ) → i ≤ j → j < i + n → c j ≡ false)
      → n ≤ length text
      → mask c false i text ≡ take n text ++ mask c false (i + n) (drop n text)
  unfolding mask
  mask_clear zero i text h le = ap (λ k. mask c false k text) (let e : i ≡ i + 0 = omega arith in e)
  mask_clear (suc n) i [] h le = absurd (omega arith)
  mask_clear (suc n) i (b ∷ text) h le = rw (h i (omega arith) (omega arith)) (
      ap (λ t. b ∷ t)
        (mask_clear n (suc i) text (λ j p q. h j (omega arith) (omega arith)) (omega arith)
          ∙ ap (λ k. take n text ++ mask c false k (drop n text))
              (let e : suc i + n ≡ i + suc n = omega arith in e)))

  mask_covered :
      (n i : ℕ) (text : Bytes)
      → ((j : ℕ) → i ≤ j → j < i + n → c j ≡ true)
      → n ≤ length text
      → mask c true i text ≡ mask c true (i + n) (drop n text)
  unfolding mask
  mask_covered zero i text h le =
      ap (λ k. mask c true k text) (let e : i ≡ i + 0 = omega arith in e)
  mask_covered (suc n) i [] h le = absurd (omega arith)
  mask_covered (suc n) i (b ∷ text) h le = rw (h i (omega arith) (omega arith)) (
      mask_covered n (suc i) text (λ j p q. h j (omega arith) (omega arith)) (omega arith)
      ∙ ap (λ k. mask c true k (drop n text)) (let e : suc i + n ≡ i + suc n = omega arith in e))

  mask_token :
      (n i : ℕ) (text : Bytes)
      → ((j : ℕ) → i ≤ j → j < i + suc n → c j ≡ true)
      → suc n ≤ length text
      → mask c false i text ≡ redaction_token ++ mask c true (i + suc n) (drop (suc n) text)
  unfolding mask
  mask_token n i [] h le = absurd (omega arith)
  mask_token n i (b ∷ text) h le = rw (h i (omega arith) (omega arith)) (
      ap (λ t. redaction_token ++ t)
        (mask_covered n (suc i) text (λ j p q. h j (omega arith) (omega arith)) (omega arith)
          ∙ ap (λ k. mask c true k (drop n text))
              (let e : suc i + n ≡ i + suc n = omega arith in e)))

module _ (c : ℕ → Bool) where
  pub mask_none :
      (i : ℕ) (text : Bytes) → ((j : ℕ) → i ≤ j → c j ≡ false) → mask c false i text ≡ text
  unfolding mask
  mask_none i [] h = refl
  mask_none i (b ∷ text) h =
      rw (h i (omega arith)) (ap (λ t. b ∷ t) (mask_none (suc i) text (λ j p. h j (omega arith))))

module _ (c : ℕ → Bool) (text : Bytes) where
  mask_gap :
      (offset s : ℕ)
      → offset ≤ s
      → s ≤ length text
      → ((j : ℕ) → offset ≤ j → j < s → c j ≡ false)
      → mask c false offset (drop offset text) ≡ slice text offset s ++ mask c false s (drop s text)
  mask_gap offset s le size h =
      let at : offset + (s - offset) ≡ s = omega arith in
      mask_clear c (s - offset) offset (drop offset text) (λ j p q. h j p (omega arith))
        (omega (arith, length-drop offset text))
      ∙ ap₂ (λ k t. slice text offset s ++ mask c false k t) at
          (drop-drop offset (s - offset) text ∙ ap (λ k. drop k text) at)

  mask_span :
      (s e : ℕ)
      → s < e
      → e ≤ length text
      → ((j : ℕ) → s ≤ j → j < e → c j ≡ true)
      → c e ≡ false
      → mask c false s (drop s text) ≡ redaction_token ++ mask c false e (drop e text)
  mask_span s e lt size h clear =
      let at : s + suc (e - s - 1) ≡ e = omega arith in
      mask_token c (e - s - 1) s (drop s text) (λ j p q. h j p (omega arith))
        (omega (arith, length-drop s text))
      ∙ ap₂ (λ k t. redaction_token ++ mask c true k t) at
          (drop-drop s (suc (e - s - 1)) text ∙ ap (λ k. drop k text) at)
      ∙ ap (λ t. redaction_token ++ t) (mask_inside c e (drop e text) clear)

  -- What the loop writes is the masked text, where the spans cover what `c` does from `offset` on.
  pub write_spans-mask :
      (offset : ℕ) (merged : List (ℕ × ℕ))
      → IsSpaced (length text) offset merged
      → ((i : ℕ) → offset ≤ i → c i ≡ covers merged i)
      → write_spans text offset merged ≡ mask c false offset (drop offset text)
  unfolding write_spans
  write_spans-mask offset [] h eq = sym (mask_none c offset (drop offset text) eq)
  write_spans-mask offset ((s, e) ∷ merged) h eq =
      let below = covers_below (length text) (suc e) merged in
      ap (λ t. slice text offset s ++ (redaction_token ++ t))
        (write_spans-mask e merged (IsSpaced-lower (length text) e (suc e) merged (omega arith) h.3)
          (λ i p. ground (arith, eq i)))
      ∙ sym (
          mask_gap offset s h.0 (omega (arith, h)) (λ j p q. ground (arith, eq j, below j))
          ∙ ap (λ t. slice text offset s ++ t)
              (mask_span s e h.1 h.2 (λ j p q. ground (arith, eq j))
                (ground (arith, eq e, below e))))
