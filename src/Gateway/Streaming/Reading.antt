-- ===== src/Gateway/Streaming/Reading.antt =====
-- The frames that the parser makes of a stream
-- (internal/contexts/gateway/adapters/http/openai/sse.go and streaming_handler.go).
use kiwi_guard.Common.{
  ℕ, zero, suc, ◌+◌, ◌≤◌, ◌<◌, Bool, true, false, List, [], ◌∷◌, ◌++◌, append_assoc, append-nil,
  Option, none, some, ltb, length, is_empty, ◌≡◌, ◌≢◌, refl, sym, ap, ◌∙◌, subst, ◌⊎◌, inl, inr,
  arith, Bool-cases, if◌then◌else◌,
}
use kiwi_guard.Common.Utf8.{Bytes}
use kiwi_guard.Gateway.Streaming.Sse.{
  Ending, at_eof, broken, SseParser, join, remaining, Parsed, parsed, eof, parse_failed, trim_line,
  end_frame, read_end, read_tail, read_frame, next, max_sse_frame_bytes,
}
use kiwi_guard.Gateway.Streaming.Session.{Next, frame, failed}

abbrev after_next : Parsed → Option (List Next) → Option (List Next)
after_next eof rest = some []
after_next (parse_failed deadline) rest = some (failed deadline ∷ [])
after_next (parsed f) none = none
after_next (parsed f) (some ns) = some (frame f ∷ ns)

-- The bytes of the frames.
abbrev pub bytes_of : List Next → Bytes
bytes_of [] = []
bytes_of (frame f ∷ ns) = f.raw ++ bytes_of ns
bytes_of (failed deadline ∷ ns) = bytes_of ns

-- There is no failure, and no frame says that it is the last.
abbrev pub IsOpen : List Next → Type 0
IsOpen [] = Unit
IsOpen (frame f ∷ ns) = (f.done ≡ false) × IsOpen ns
IsOpen (failed deadline ∷ ns) = ⊥

abbrev pub tail_size : Bytes → ℕ
tail_size [] = 0
tail_size (c ∷ cs) = 1

pub tail_size-le : (tail : Bytes) → tail_size tail ≤ 1
tail_size-le [] = omega arith
tail_size-le (c ∷ cs) = omega arith

-- The number of lines still to be read.
abbrev size : SseParser → ℕ
size p = length p.lines + tail_size p.tail

-- What is read is the first of the bytes, and the parser that is left is nearer its end.
abbrev Reads : Bytes → ℕ → Parsed × SseParser → Type 0
Reads total before (parsed f, p) =
    (f.raw ++ remaining p ≡ total)
    × ((p.done ≡ true) ⊎ (size p < before))
    × (f.done ≡ false → p.done ≡ true → remaining p ≡ [])
Reads total before (eof, p) = total ≡ []
Reads total before (parse_failed deadline, p) = Unit

clash : (b : Bool) → b ≡ false → b ≢ true
clash true h k = ground arith
clash false h k = ground arith

snoc-not_nil : (xs : List Bytes) (x : Bytes) → xs ++ x ∷ [] ≢ []
snoc-not_nil [] x e = ground arith
snoc-not_nil (y ∷ ys) x e = ground arith

assoc : (a b c d : Bytes) → (a ++ b) ++ (c ++ d) ≡ a ++ ((b ++ c) ++ d)
assoc a b c d = append_assoc a b (c ++ d) ∙ ap (λ t. a ++ t) (sym (append_assoc b c d))

Reads-mono :
    (total : Bytes) (m n : ℕ) (r : Parsed × SseParser) → m ≤ n → Reads total m r → Reads total n r
Reads-mono total m n (parsed f, p) h (bytes, inl d, end) = (bytes, inl d, end)
Reads-mono total m n (parsed f, p) h (bytes, inr l, end) = (bytes, inr (omega (arith, h, l)), end)
Reads-mono total m n (eof, p) h r = r
Reads-mono total m n (parse_failed deadline, p) h r = r

module _ (trim_space : Bytes → Bytes) (late : Bool) where
  read_end-Reads :
      (ending : Ending) (raw : Bytes) (acc : List Bytes) (n : ℕ)
      → (acc ≡ [] → raw ≡ [])
      → Reads raw n (read_end trim_space late ending raw acc)
  unfolding read_end end_frame
  read_end-Reads at_eof raw [] n h = h refl
  read_end-Reads at_eof raw (l ∷ ls) n h = (append-nil raw, inl refl, λ _ _. refl)
  read_end-Reads (broken deadline) raw acc n h = tt

  read_tail-Reads :
      (tail : Bytes) (ending : Ending) (raw : Bytes) (acc : List Bytes)
      → (acc ≡ [] → raw ≡ [])
      → Reads (raw ++ tail) (tail_size tail) (read_tail trim_space late tail ending raw acc)
  unfolding read_tail end_frame
  read_tail-Reads [] ending raw acc h =
      subst (λ t. Reads t 0 (read_end trim_space late ending raw acc)) (sym (append-nil raw))
        (read_end-Reads ending raw acc 0 h)
  read_tail-Reads (c ∷ cs) ending raw acc h =
      elim (Bool-cases (ltb max_sse_frame_bytes (length (raw ++ c ∷ cs)))) [
        | inl big ↦ rw (big) tt
        | inr small ↦ elim (Bool-cases (is_empty (trim_line (c ∷ cs)))) [
          | inl e ↦ rw (small, e) (append-nil _, inr (omega arith), λ _ _. refl)
          | inr e ↦
              rw (small, e)
                (read_end-Reads ending (raw ++ c ∷ cs) _ 1 (λ q. elim (snoc-not_nil acc _ q) [ ]))
        ]
      ]

  read_frame-Reads :
      (lines : List Bytes) (tail : Bytes) (ending : Ending) (raw : Bytes) (acc : List Bytes)
      → (acc ≡ [] → raw ≡ [])
      → Reads
          (raw ++ (join lines ++ tail))
          (length lines + tail_size tail)
          (read_frame trim_space late lines tail ending raw acc)
  unfolding read_frame end_frame
  read_frame-Reads [] tail ending raw acc h =
      Reads-mono _ _ _ (read_tail trim_space late tail ending raw acc) (omega arith)
        (read_tail-Reads tail ending raw acc h)
  read_frame-Reads (line ∷ lines) tail ending raw acc h =
      elim (Bool-cases (ltb max_sse_frame_bytes (length (raw ++ line)))) [
        | inl big ↦ rw (big) tt
        | inr small ↦ elim (Bool-cases (is_empty (trim_line line))) [
          | inl e ↦
              rw (small, e)
                (assoc raw line (join lines) tail, inr (omega arith), λ o q. elim (clash _ o q) [ ])
          | inr e ↦
              let left = length lines + tail_size tail in
              let acc' = acc ++ trim_line line ∷ [] in
              let more = read_frame trim_space late lines tail ending (raw ++ line) acc' in
              let reads =
                read_frame-Reads lines tail ending (raw ++ line) acc'
                  (λ q. elim (snoc-not_nil acc _ q) [ ]) in
              rw (small, e)
                (Reads-mono _ left (length (line ∷ lines) + tail_size tail) more (omega arith)
                  (subst (λ t. Reads t left more) (assoc raw line (join lines) tail) reads))
        ]
      ]

  next-Reads :
      (p : SseParser) → p.done ≡ false → Reads (remaining p) (size p) (next trim_space late p)
  unfolding next
  next-Reads p e =
      subst
        (λ b.
          Reads (remaining p) (size p)
            (if b then (eof, p) else read_frame trim_space late p.lines p.tail p.ending [] []))
        (sym e) (read_frame-Reads p.lines p.tail p.ending [] [] (λ _. refl))

  -- The calls of `Next` up to the first that returns no frame.
  unfoldable pub all_frames : ℕ → SseParser → Option (List Next)
  all_frames zero p = none
  all_frames (suc fuel) p =
      let (found, p') = next trim_space late p in
      let rest = all_frames fuel p' in after_next found rest

  -- The calls return, and the frames hold the first of the bytes: all of them where the stream stays
  -- open to its end.
  abbrev pub Yields : SseParser → Option (List Next) → Type 0
  Yields p result =
      (ns : List Next) × (rest : Bytes) × (result ≡ some ns)
      × (remaining p ≡ bytes_of ns ++ rest)
      × (IsOpen ns → (p.done ≡ true → remaining p ≡ []) → rest ≡ [])

  done-Yields : (fuel : ℕ) (p : SseParser) → 1 ≤ fuel → p.done ≡ true → Yields p (all_frames fuel p)
  unfolding next all_frames
  done-Yields zero p h d = ground arith
  done-Yields (suc fuel) p h d = rw (d) ([], remaining p, refl, refl, λ _ end. end refl)

  step-Yields :
      (fuel : ℕ) (p : SseParser) (r : Parsed × SseParser)
      → Reads (remaining p) (size p) r
      → ((p' : SseParser)
          → ((p'.done ≡ true) ⊎ (size p' < size p))
          → Yields p' (all_frames fuel p'))
      → Yields p (after_next r.0 (all_frames fuel r.1))
  step-Yields fuel p (eof, p') e ih = ([], remaining p, refl, refl, λ _ _. e)
  step-Yields fuel p (parse_failed deadline, p') e ih =
      (failed deadline ∷ [], remaining p, refl, refl, λ o _. elim o [ ])
  step-Yields fuel p (parsed f, p') (b, s, end) ih =
      let (ns, rest, is, all, whole) = ih p' s in
      (
        frame f ∷ ns,
        rest,
        ap (after_next (parsed f)) is,
        sym b ∙ ap (λ t. f.raw ++ t) all ∙ sym (append_assoc f.raw (bytes_of ns) rest),
        λ o _. whole o.1 (end o.0),
      )

  -- With one call more than there are lines, and one for the end, the calls return.
  pub all_frames-Yields :
      (fuel : ℕ) (p : SseParser) → size p + 1 < fuel → Yields p (all_frames fuel p)
  unfolding all_frames
  all_frames-Yields zero p h = ground arith
  all_frames-Yields (suc fuel) p h = elim (Bool-cases p.done) [
    | inl d ↦ done-Yields (suc fuel) p (omega arith) d
    | inr d ↦
        let reads = next-Reads p d in
        step-Yields fuel p (next trim_space late p) reads (λ p' s. elim s [
          | inl d' ↦ done-Yields fuel p' (omega (arith, h)) d'
          | inr l ↦ all_frames-Yields fuel p' (omega (arith, h, l))
        ])
  ]
