-- ===== src/Detection/Matching.antt =====
-- What a compiled detector reports: internal/contexts/detection/domain/regex.go and types.go.
use kiwi_guard.Common.{
  ℕ, ◌≤◌, ◌≡◌, ◌≢◌, refl, String, Bool, true, false, List, [], ◌∷◌, Option, none, some, Result, ok,
  err, >>=-eq-ok, map_err, map_err-eq-ok, ◌==◌, eq_string, is_empty, filter, not, length, All,
  All-append, All-mono, In, In-map, In-append_left, In-append_right, ok-injective,
  is_empty-eq-false, subst, ap, eq_iff, arith, Bool-cases, inl, inr,
}
use kiwi_guard.Common.Utf8.{Bytes}
use kiwi_guard.Detection.Luhn.{valid_luhn}
use kiwi_guard.Detection.{
  kind_payment_card, default_regex_category, email_pattern, phone_pattern, payment_card_pattern,
  secret_pattern, CompileError, key_required, bad_definition, bad_pattern, custom_pattern,
  built_in_pattern, Definition, Input, Finding, Detector, Engine, Normalized, Registry,
  normalize_categories, slice, accepts, RegexDetector, normalize_definition, finding, findings_at,
  collect_findings, match, build, compile, compile_all, match_all,
}

filter-not_empty : (cs : List String) → All (λ c. c ≢ "") (filter (λ c. not (c == "")) cs)
filter-not_empty [] = tt
filter-not_empty (c ∷ cs) = ground (arith, eq_iff c "", filter-not_empty cs)

-- The categories of a detector are never empty, and none is the empty text.
normalize_categories-All :
    (cs : List String) (fallback : String)
    → fallback ≢ ""
    → (normalize_categories cs fallback ≢ []) × All (λ c. c ≢ "") (normalize_categories cs fallback)
unfolding normalize_categories
normalize_categories-All [] fallback h = ground arith
normalize_categories-All (c ∷ cs) fallback h = ground (arith, filter-not_empty (c ∷ cs))

module _ (g : Engine) where
  open g use {Regexp, compile_pattern, find_all, hash_value, is_digit}

  -- `regexp` returns matches that lie in the text.
  abbrev pub FindsInBounds : Type 0
  FindsInBounds =
      (re : Regexp) (text : Bytes)
      → All (λ (index : ℕ × ℕ). (index.0 ≤ index.1) × (index.1 ≤ length text)) (find_all re text)

  -- A finding lies in the text, carries the hash of the matched slice and not the slice, and is
  -- filed under a category; a payment card has passed the Luhn test.
  pub record IsSound (def : Definition) (text : Bytes) (f : Finding) : Type 0 where
    pub keyed : f.detector_key ≡ def.key
    pub ordered : f.start ≤ f.end
    pub inside : f.end ≤ length text
    pub hashed : f.value_hash ≡ hash_value (slice text f.start f.end)
    pub categorized : f.category ≢ ""
    pub checked :
        def.kind ≡ kind_payment_card → valid_luhn is_digit (slice text f.start f.end) ≡ true

  -- One of the definitions accounts for the finding.
  abbrev pub IsReported : List Definition → Bytes → Finding → Type 0
  IsReported defs text f = (def : Definition) × In def defs × IsSound def text f

  record IsNormal (def : Definition) (n : Normalized) : Type 0 where
    named : All (λ c. c ≢ "") n.categories
    carded : def.kind ≡ kind_payment_card → n.validator ≡ some (valid_luhn is_digit)

  custom_pattern-categories :
      (def : Definition) (n : Normalized) (fallback : String)
      → (fallback == "") ≡ false
      → custom_pattern def.pattern def.categories fallback ≡ ok n
      → All (λ c. c ≢ "") n.categories
  unfolding custom_pattern
  custom_pattern-categories def n fallback f h =
      ground (arith, normalize_categories-All def.categories fallback, eq_iff fallback "")

  built_in_pattern-categories :
      (def : Definition) (n : Normalized) (pattern fallback : String) (v : Option (Bytes → Bool))
      → (fallback == "") ≡ false
      → built_in_pattern def.pattern def.categories pattern fallback v ≡ ok n
      → All (λ c. c ≢ "") n.categories × (n.validator ≡ v)
  unfolding built_in_pattern
  built_in_pattern-categories def n pattern fallback v f h =
      ground (arith, normalize_categories-All def.categories fallback, eq_iff fallback "")

  normalize_definition-named :
      (def : Definition) (n : Normalized)
      → normalize_definition g def ≡ ok n
      → All (λ c. c ≢ "") n.categories
  unfolding normalize_definition
  normalize_definition-named def n h = ground (
    arith,
    custom_pattern-categories def n default_regex_category refl,
    built_in_pattern-categories def n email_pattern "pii.email" none refl,
    built_in_pattern-categories def n phone_pattern "pii.phone" none refl,
    built_in_pattern-categories def n payment_card_pattern "pii.payment_card"
        (some (valid_luhn is_digit)) refl,
    built_in_pattern-categories def n secret_pattern "secret.token" none refl,
  )

  normalize_definition-carded :
      (def : Definition) (n : Normalized)
      → def.kind ≡ kind_payment_card
      → normalize_definition g def ≡ ok n
      → n.validator ≡ some (valid_luhn is_digit)
  unfolding normalize_definition
  normalize_definition-carded def n k h =
      (built_in_pattern-categories def n payment_card_pattern "pii.payment_card"
        (some (valid_luhn is_digit)) refl (rw (k, normalize_definition) at h)).1

  compile-eq-ok :
      (def : Definition) (d : Detector)
      → compile g def ≡ ok d
      → (n : Normalized) × (re : Regexp) × (normalize_definition g def ≡ ok n)
        × (compile_pattern n.pattern ≡ ok re)
        × (d ≡ record { key = def.key; match = match g (build g def n re) })
  unfolding compile
  compile-eq-ok def d h = elim (Bool-cases (def.key == "")) [
    | inl e ↦ absurd (
        let k : ◌≡◌ {A = Result CompileError Detector} (err key_required) (ok d) =
          rw (e, compile) at h in
        cc)
    | inr e ↦
        let (n, p, h') =
          >>=-eq-ok (map_err (bad_definition def.key) (normalize_definition g def)) _
            (rw (e, compile) at h) in
        let (re, q, h'') =
          >>=-eq-ok (map_err (bad_pattern def.key) (compile_pattern n.pattern)) _ h' in
        (n, re, map_err-eq-ok _ _ p, map_err-eq-ok _ _ q, ground arith)
  ]

  module _ (def : Definition) (n : Normalized) (re : Regexp) (normal : IsNormal def n)
      (text : Bytes) where
    findings_at-IsSound :
        (start end : ℕ) (cs : List String)
        → start ≤ end
        → end ≤ length text
        → accepts n.validator (slice text start end) ≡ true
        → All (λ c. c ≢ "") cs
        → All
            (IsSound def text)
            (findings_at g (record (build g def n re) { categories = cs }) text start end)
    unfolding findings_at build
    findings_at-IsSound start end [] p q v h = tt
    findings_at-IsSound start end (c ∷ cs) p q v h = (
      record {
        keyed = refl;
        ordered = p;
        inside = q;
        hashed = refl;
        categorized = h.0;
        checked = λ k. rw (normal.carded k) at v;
      },
      findings_at-IsSound start end cs p q v h.1,
    )

    collect_findings-IsSound :
        (indexes : List (ℕ × ℕ))
        → All (λ (index : ℕ × ℕ). (index.0 ≤ index.1) × (index.1 ≤ length text)) indexes
        → All (IsSound def text) (collect_findings g (build g def n re) text indexes)
    unfolding collect_findings build
    collect_findings-IsSound [] h = tt
    collect_findings-IsSound ((start, end) ∷ indexes) h =
        elim (Bool-cases (accepts n.validator (slice text start end))) [
          | inl e ↦ rw e (
              All-append (IsSound def text) (findings_at g (build g def n re) text start end) _
                (findings_at-IsSound start end n.categories h.0.0 h.0.1 e normal.named)
                (collect_findings-IsSound indexes h.1))
          | inr e ↦ rw e (collect_findings-IsSound indexes h.1)
        ]

  match-IsSound :
      FindsInBounds
      → (def : Definition) (d : Detector) (input : Input) → compile g def ≡ ok d
      → All (IsSound def input.text) (d.match input)
  unfolding match build
  match-IsSound bounds def d input h =
      let (n, re, p, q, e) = compile-eq-ok def d h in
      let normal : IsNormal def n = record {
        named = normalize_definition-named def n p;
        carded = λ k. normalize_definition-carded def n k p;
      } in
      rw e (elim (Bool-cases (is_empty input.text)) [
        | inl none_left ↦ rw none_left tt
        | inr some_left ↦
            let sound : All (IsSound def input.text)
                (collect_findings g (build g def n re) input.text (find_all re input.text)) =
              collect_findings-IsSound def n re normal input.text (find_all re input.text)
                (bounds re input.text) in
            rw some_left sound
      ])

  -- Where the regular expressions' matches lie in the text, each finding of a registry comes
  -- from one of the definitions that the registry was compiled from: it has the key of the
  -- definition, lies in the text, carries the hash of the slice matched, is filed under a
  -- category that is not empty, and, where the definition is that of payment cards, its slice
  -- has passed the Luhn test.
  pub match_all-IsSound :
      FindsInBounds
      → (defs : List Definition) (r : Registry) (input : Input) → compile_all g defs ≡ ok r
      → All (IsReported defs input.text) (match_all r input)
  unfolding match_all compile_all
  match_all-IsSound bounds [] r input h =
      subst (λ s. All (IsReported [] input.text) (match_all s input)) (ok-injective h) tt
  match_all-IsSound bounds (def ∷ defs) r input h =
      let (d, p, h') = >>=-eq-ok (compile g def) _ h in
      let (rest, q, h'') = >>=-eq-ok (compile_all g defs) _ h' in
      subst (λ s. All (IsReported (def ∷ defs) input.text) (match_all s input)) (ok-injective h'')
        (All-append (IsReported (def ∷ defs) input.text) (d.match input) (match_all rest input)
          (All-mono (d.match input) (λ f s. (def, inl refl, s))
            (match-IsSound bounds def d input p))
          (All-mono (match_all rest input) (λ f s. (s.0, inr s.1, s.2))
            (match_all-IsSound bounds defs rest input q)))

  In-collect_findings :
      (d : RegexDetector g) (text : Bytes) (indexes : List (ℕ × ℕ)) (start end : ℕ) (c : String)
      → In (start, end) indexes
      → accepts d.validator (slice text start end) ≡ true
      → In c d.categories
      → In (finding g d text start end c) (collect_findings g d text indexes)
  unfolding collect_findings findings_at
  In-collect_findings d text [] start end c m v k = elim m [ ]
  In-collect_findings d text ((s, t) ∷ indexes) start end c (inl e) v k =
      let es : start ≡ s = ap (λ (x : ℕ × ℕ). x.0) e in
      let et : end ≡ t = ap (λ (x : ℕ × ℕ). x.1) e in
      rw (← es, ← et, v)
        (In-append_left _ (findings_at g d text start end) _
          (In-map (finding g d text start end) c d.categories k))
  In-collect_findings d text ((s, t) ∷ indexes) start end c (inr m) v k =
      let later = In-collect_findings d text indexes start end c m v k in
      elim (Bool-cases (accepts d.validator (slice text s t))) [
        | inl e ↦ rw e (In-append_right _ (findings_at g d text s t) _ later)
        | inr e ↦ rw e later
      ]

  -- In a text that is not empty, every match of a detector's expression that the detector's
  -- validator accepts is reported under each of the detector's categories.
  match_complete :
      (d : RegexDetector g) (input : Input) (start end : ℕ) (c : String)
      → input.text ≢ []
      → In (start, end) (find_all d.re input.text)
      → accepts d.validator (slice input.text start end) ≡ true
      → In c d.categories
      → In (finding g d input.text start end c) (match g d input)
  unfolding match
  match_complete d input start end c ne m v k =
      rw (is_empty-eq-false input.text ne)
        (In-collect_findings d input.text (find_all d.re input.text) start end c m v k)
