-- ===== src/Gateway/Redaction/Boundaries.antt =====
-- Where the runes of a text begin and end (`validStringBoundary` of
-- internal/contexts/gateway/application/redaction.go).
use kiwi_guard.Common.{
  ℕ, ℤ, pos, negsuc, ◌%◌, ◌/◌, zero, suc, ◌+◌, ◌-◌, ◌≤◌, ◌<◌, ◌≡◌, refl, sym, ap, ◌∙◌, subst, Bool,
  true, false, not, ◌&&◌, ◌||◌, List, [], ◌∷◌, ◌++◌, if◌then◌else◌, ltb, leb, leb→le, length-append,
  ◌==◌, eq_nat, length, any, arith, Bool-cases, inl, inr, pos_part, ◌↔◌, err, append-nil, fun_ext,
}
use kiwi_guard.Common.Utf8.{Bytes, encode, encode_rune, rune_start, is_scalar, rune_error}
use kiwi_guard.Gateway.Redaction.{
  TextSpan, invalid_boundary, out_of_range, valid_string_boundary, byte_at, redact_text,
}
use kiwi_guard.Gateway.Redaction.Refusal.{refuses, redact_text-invalid_iff}

-- The bytes of one rune.
pub record IsRune (xs : Bytes) : Type 0 where
  pub lead : ℕ
  pub tail : Bytes
  pub split : xs ≡ lead ∷ tail
  pub led : rune_start lead ≡ true
  pub continued : any rune_start tail ≡ false

continuation : (n : ℕ) → rune_start (0x80 + n % 0x40) ≡ false
continuation n = ground arith

encode_rune-IsRune : (r : ℕ) → IsRune (encode_rune r)
unfolding encode_rune
encode_rune-IsRune r = elim (Bool-cases (ltb r 0x80)) [
  | inl a ↦
      rw a (record { lead = r; tail = []; split = refl; led = ground arith; continued = refl })
  | inr a ↦ elim (Bool-cases (ltb r 0x800)) [
    | inl b ↦
        rw (a, b)
          (record {
            lead = _;
            tail = _;
            split = refl;
            led = ground arith;
            continued = rw (continuation r) refl;
          })
    | inr b ↦ elim (Bool-cases (ltb r 0x10000)) [
      | inl c ↦
          rw (a, b, c)
            (record {
              lead = _;
              tail = _;
              split = refl;
              led = ground arith;
              continued = rw (continuation (r / 0x40), continuation r) refl;
            })
      | inr c ↦
          rw (a, b, c)
            (record {
              lead = _;
              tail = _;
              split = refl;
              led = ground arith;
              continued =
                  rw (continuation (r / 0x1000), continuation (r / 0x40), continuation r) refl;
            })
    ]
  ]
]

-- The bytes of a rune in `encode`.
abbrev pub rune_bytes : ℕ → Bytes
rune_bytes r = encode (r ∷ [])

rune_bytes-IsRune : (r : ℕ) → IsRune (rune_bytes r)
unfolding encode
rune_bytes-IsRune r =
    subst IsRune (sym (append-nil _)) (encode_rune-IsRune (if is_scalar r then r else rune_error))

encode-cons : (r : ℕ) (rs : List ℕ) → encode (r ∷ rs) ≡ rune_bytes r ++ encode rs
unfolding encode
encode-cons r rs = ap (λ t. t ++ encode rs) (sym (append-nil _))

-- Whether an offset is the end of some first runes of a text.
unfoldable pub at_rune : List ℕ → ℕ → Bool
at_rune [] i = i == 0
at_rune (r ∷ rs) i =
    let rest = at_rune rs (i - length (rune_bytes r)) in
    i == 0 || (leb (length (rune_bytes r)) i && rest)

abbrev starts : Bytes → ℕ → Bool
starts text i = i == length text || rune_start (byte_at text i)

starts-cons : (x : ℕ) (zs : Bytes) (k : ℕ) → starts (x ∷ zs) (suc k) ≡ starts zs k
starts-cons x zs k =
    let same : (suc k == suc (length zs)) ≡ (k == length zs) = ground arith in rw same refl

starts-append : (xs ys : Bytes) (j : ℕ) → starts (xs ++ ys) (length xs + j) ≡ starts ys j
starts-append [] ys j = ap (starts ys) (let e : 0 + j ≡ j = omega arith in e)
starts-append (x ∷ xs) ys j =
    ap (starts (x ∷ xs ++ ys))
      (let e : suc (length xs) + j ≡ suc (length xs + j) = omega arith in e)
    ∙ starts-cons x (xs ++ ys) (length xs + j)
    ∙ starts-append xs ys j

starts-inside :
    (tail ys : Bytes) (j : ℕ)
    → any rune_start tail ≡ false
    → j < length tail
    → starts (tail ++ ys) j ≡ false
starts-inside [] ys j none lt = absurd (omega arith)
starts-inside (x ∷ tail) ys zero none lt =
    let positive : (0 == suc (length (tail ++ ys))) ≡ false = ground arith in
    rw positive (ground (arith, none))
starts-inside (x ∷ tail) ys (suc j) none lt =
    starts-cons x (tail ++ ys) j ∙ starts-inside tail ys j (ground (arith, none)) (omega arith)

at_rune-zero : (rs : List ℕ) → at_rune rs 0 ≡ true
unfolding at_rune
at_rune-zero [] = refl
at_rune-zero (r ∷ rs) = refl

-- The text of a rune and more.
starts-chunk :
    (lead : ℕ) (tail ys : Bytes) (i : ℕ) (rest : ℕ → Bool)
    → rune_start lead ≡ true
    → any rune_start tail ≡ false
    → i ≤ length (lead ∷ tail ++ ys)
    → ((j : ℕ) → j ≤ length ys → starts ys j ≡ rest j)
    → starts (lead ∷ tail ++ ys) i
      ≡ (i == 0 || (leb (length (lead ∷ tail)) i && rest (i - length (lead ∷ tail))))
starts-chunk lead tail ys zero rest led continued le ih =
    let positive : (0 == suc (length (tail ++ ys))) ≡ false = ground arith in
    rw (positive, led) refl
starts-chunk lead tail ys (suc i) rest led continued le ih =
    let positive : (suc i == 0) ≡ false = ground arith in
    elim (Bool-cases (leb (suc (length tail)) (suc i))) [
      | inl e ↦
          let j = suc i - suc (length tail) in
          let at : suc i ≡ suc (length tail) + j =
            omega (arith, leb→le (suc (length tail)) (suc i) e) in
          rw (positive, e)
            (ap (starts (lead ∷ tail ++ ys)) at
              ∙ starts-append (lead ∷ tail) ys j
              ∙ ih j (omega (arith, le, length-append tail ys)))
      | inr e ↦
          rw (positive, e)
            (starts-cons lead (tail ++ ys) i
              ∙ starts-inside tail ys i continued (ground (arith, e)))
    ]

abbrev Splits : Bytes → (ℕ → Bool) → ℕ → Bytes → Type 0
Splits ys rest i chunk =
    i ≤ length (chunk ++ ys)
    → starts (chunk ++ ys) i ≡ (i == 0 || (leb (length chunk) i && rest (i - length chunk)))

starts-runes : (rs : List ℕ) (i : ℕ) → i ≤ length (encode rs) → starts (encode rs) i ≡ at_rune rs i
unfolding at_rune encode
starts-runes [] zero le = refl
starts-runes [] (suc i) le = absurd (omega arith)
starts-runes (r ∷ rs) i le =
    let rune = rune_bytes-IsRune r in
    let split : Splits (encode rs) (at_rune rs) i (rune_bytes r) =
      subst (Splits (encode rs) (at_rune rs) i) (sym rune.split) (λ within.
        starts-chunk rune.lead rune.tail (encode rs) i (at_rune rs) rune.led rune.continued within
          (starts-runes rs)) in
    ap (λ t. starts t i) (encode-cons r rs)
    ∙ split (subst (λ t. i ≤ length t) (encode-cons r rs) le)

-- In the text of some runes, the offsets that `validStringBoundary` accepts are the ends of the
-- first runes.
pub valid_string_boundary-at_rune :
    (rs : List ℕ) (i : ℕ)
    → i ≤ length (encode rs)
    → valid_string_boundary (encode rs) i ≡ at_rune rs i
unfolding valid_string_boundary
valid_string_boundary-at_rune rs zero le = sym (at_rune-zero rs)
valid_string_boundary-at_rune rs (suc i) le =
    let positive : (suc i == 0) ≡ false = ground arith in rw positive (starts-runes rs (suc i) le)

-- A span of a text, not empty and in it, that begins or ends elsewhere than between runes.
abbrev pub splits : List ℕ → TextSpan → Bool
splits rs span =
    not (out_of_range (encode rs) span)
    && (not (at_rune rs (pos_part span.start)) || not (at_rune rs (pos_part span.end)))

in_range :
    (text : Bytes) (s e : ℤ)
    → out_of_range text (record { start = s; end = e }) ≡ false
    → (pos_part s ≤ length text) × (pos_part e ≤ length text)
in_range text (pos s) (pos e) within = (ground (arith, within), ground (arith, within))
in_range text (pos s) (negsuc e) within = (ground (arith, within), ground (arith, within))
in_range text (negsuc s) (pos e) within = (ground (arith, within), ground (arith, within))
in_range text (negsuc s) (negsuc e) within = (ground (arith, within), ground (arith, within))

refuses-splits : (rs : List ℕ) (span : TextSpan) → refuses (encode rs) span ≡ splits rs span
refuses-splits rs span = elim (Bool-cases (out_of_range (encode rs) span)) [
  | inl e ↦ rw e refl
  | inr e ↦
      let (start, end) = in_range (encode rs) span.start span.end e in
      rw
        (
          e,
          valid_string_boundary-at_rune rs (pos_part span.start) start,
          valid_string_boundary-at_rune rs (pos_part span.end) end,
        )
        refl
]

any-refuses :
    (rs : List ℕ) (spans : List TextSpan) → any (refuses (encode rs)) spans ≡ any (splits rs) spans
any-refuses rs spans = ap (λ (test : TextSpan → Bool). any test spans) (fun_ext (refuses-splits rs))

-- In a text that is the encoding of some runes, the redaction fails exactly where some span that is
-- not empty and lies in the text begins or ends elsewhere than after some first runes of the text,
-- wherever that span stands in the list.
pub redact_text-invalid_in_runes_iff :
    (rs : List ℕ) (spans : List TextSpan)
    → (redact_text (encode rs) spans ≡ err invalid_boundary) ↔ (any (splits rs) spans ≡ true)
redact_text-invalid_in_runes_iff rs spans =
    rw (← any-refuses rs spans) (redact_text-invalid_iff (encode rs) spans)
