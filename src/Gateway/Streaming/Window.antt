-- ===== src/Gateway/Streaming/Window.antt =====
-- What the bounded state of a stream holds (internal/contexts/gateway/application/stream_buffer.go).
use kiwi_guard.Common.{
  ℕ, ◌+◌, ◌-◌, ◌≤◌, ◌<◌, ℤ, pos, leb_ℤ, Bool, true, false, List, [], ◌∷◌, ◌++◌, ◌&&◌, pos_part,
  ltb_ℤ, drop_all, ◌≡◌, refl, sym, ap, ◌∙◌, ltb, length, drop, length-append, length-drop,
  drop-drop, drop-append, arith, flat_map, Bool-cases, inl, inr, append_assoc, append-nil,
}
use kiwi_guard.Common.Utf8.{Bytes, runes}
use kiwi_guard.Gateway.Streaming.{
  StreamWindow, StreamBuffer, new_stream_buffer, keep_last, append_window, append_collector,
  observe_delta, collected_text,
}

-- The buffer after the deltas, in order.
abbrev pub observe_all : List Bytes → StreamBuffer → StreamBuffer
observe_all [] b = b
observe_all (delta ∷ deltas) b = observe_all deltas (observe_delta delta b).1

keep_last-eq : (limit : ℕ) (text : List ℕ) → keep_last limit text ≡ drop (length text - limit) text
keep_last-eq limit text = elim (Bool-cases (ltb limit (length text))) [
  | inl e ↦ rw e
  | inr e ↦ rw e (let z : length text - limit ≡ 0 = ground arith in sym (ap (λ k. drop k text) z))
]

keep_last-append :
    (limit : ℕ) (xs ys : List ℕ)
    → keep_last limit (keep_last limit xs ++ ys) ≡ keep_last limit (xs ++ ys)
keep_last-append limit xs ys =
    let k = length xs - limit in
    let kept : keep_last limit xs ++ ys ≡ drop k (xs ++ ys) =
      ap (λ t. t ++ ys) (keep_last-eq limit xs) ∙ sym (drop-append k xs ys (omega arith)) in
    let more : k + (length (drop k (xs ++ ys)) - limit) ≡ length (xs ++ ys) - limit =
      omega (arith, length-drop k (xs ++ ys), length-append xs ys) in
    ap (keep_last limit) kept
    ∙ keep_last-eq limit _
    ∙ drop-drop k _ (xs ++ ys)
    ∙ ap (λ n. drop n (xs ++ ys)) more
    ∙ sym (keep_last-eq limit (xs ++ ys))

append_window-eq :
    (limit : ℕ) (text : List ℕ) (delta : Bytes)
    → 0 < limit
    → append_window delta (record { limit = pos limit; text = text })
      ≡ record { limit = pos limit; text = keep_last limit (text ++ runes delta) }
unfolding append_window
append_window-eq limit text delta h =
    rw (let e : leb_ℤ (pos limit) (pos 0) ≡ false = ground arith in e)

keep_last-nil : (limit : ℕ) → keep_last limit [] ≡ []
keep_last-nil limit = keep_last-eq limit [] ∙ drop_all (0 - limit) [] (omega arith)

-- Deltas seen after `past`, the runes that the window had been given.
observe_all-window :
    (limit : ℕ) (past : List ℕ) (deltas : List Bytes) (b : StreamBuffer)
    → 0 < limit
    → b.window ≡ record { limit = pos limit; text = keep_last limit past }
    → (observe_all deltas b).window.text ≡ keep_last limit (past ++ flat_map runes deltas)
unfolding observe_delta
observe_all-window limit past [] b h e =
    ap (λ (w : StreamWindow). w.text) e ∙ sym (ap (keep_last limit) (append-nil past))
observe_all-window limit past (delta ∷ deltas) b h e =
    observe_all-window limit (past ++ runes delta) deltas (observe_delta delta b).1 h (
      ap (append_window delta) e
      ∙ append_window-eq limit (keep_last limit past) delta h
      ∙ ap (λ t. record { limit = pos limit; text = t })
          (keep_last-append limit past (runes delta)))
    ∙ ap (keep_last limit) (append_assoc past (runes delta) (flat_map runes deltas))

-- With a positive limit, the detection window of a stream holds the last `limit` of all the
-- runes that have come, those of each delta read by itself, however many deltas there were.
pub window-suffix :
    (limit : ℕ) (collection : ℤ) (deltas : List Bytes)
    → 0 < limit
    → (observe_all deltas (new_stream_buffer (pos limit) collection)).window.text
      ≡ drop (length (flat_map runes deltas) - limit) (flat_map runes deltas)
unfolding new_stream_buffer
window-suffix limit collection deltas h =
    observe_all-window limit [] deltas (new_stream_buffer (pos limit) collection) h
      (ap (λ t. record { limit = pos limit; text = t }) (sym (keep_last-nil limit)))
    ∙ keep_last-eq limit (flat_map runes deltas)

-- The deltas that the collector takes.
abbrev pub all_accepted : List Bytes → StreamBuffer → Bool
all_accepted [] b = true
all_accepted (delta ∷ deltas) b =
    (observe_delta delta b).0.collection_accepted && all_accepted deltas (observe_delta delta b).1

append_collector-lem :
    (text buf : Bytes) (limit : ℤ)
    → let r = append_collector text (record { limit = limit; buf = buf }) in
      (r.1.limit ≡ limit)
      × (length buf ≤ pos_part limit → length r.1.buf ≤ pos_part limit)
      × (r.0 ≡ true → r.1.buf ≡ buf ++ text)
unfolding append_collector
append_collector-lem text buf limit = elim (Bool-cases (leb_ℤ limit (pos 0))) [
  | inl e ↦ rw e (refl, (λ h. h), λ h. cc)
  | inr e ↦ elim (Bool-cases (ltb_ℤ limit (pos (length buf + length text)))) [
    | inl f ↦ rw (e, f) (refl, (λ h. h), λ h. cc)
    | inr f ↦
        let fits : length buf + length text ≤ pos_part limit = ground arith in
        rw (e, f) (refl, (λ h. omega (arith, length-append buf text)), λ h. refl)
  ]
]

and_left : (a b : Bool) → (a && b) ≡ true → a ≡ true
and_left a b h = ground arith

and_right : (a b : Bool) → (a && b) ≡ true → b ≡ true
and_right a b h = ground arith

observe_all-collected :
    (deltas : List Bytes) (b : StreamBuffer)
    → (length b.collector.buf ≤ pos_part b.collector.limit
        → length (observe_all deltas b).collector.buf ≤ pos_part b.collector.limit)
      × (all_accepted deltas b ≡ true
          → (observe_all deltas b).collector.buf ≡ b.collector.buf ++ flat_map (λ d. d) deltas)
unfolding observe_delta
observe_all-collected [] b = (λ h. h, λ h. sym (append-nil _))
observe_all-collected (delta ∷ deltas) b =
    let (same, bound, added) = append_collector-lem delta b.collector.buf b.collector.limit in
    let b' = (observe_delta delta b).1 in
    let (below, joined) = observe_all-collected deltas b' in
    (
      (λ h. (rw same at below) (bound h)),
      λ h.
          joined (and_right _ _ h)
          ∙ ap (λ t. t ++ flat_map (λ d. d) deltas) (added (and_left _ _ h))
          ∙ append_assoc b.collector.buf delta _,
    )

-- The text collected from a new buffer never exceeds its byte budget, and if every delta has
-- been accepted it is all the text that has come.
pub collected-bounded :
    (window : ℤ) (budget : ℕ) (deltas : List Bytes)
    → (length (collected_text (observe_all deltas (new_stream_buffer window (pos budget))))
        ≤ budget)
      × (all_accepted deltas (new_stream_buffer window (pos budget)) ≡ true
          → collected_text (observe_all deltas (new_stream_buffer window (pos budget)))
            ≡ flat_map (λ d. d) deltas)
unfolding collected_text new_stream_buffer
collected-bounded window budget deltas =
    let (below, joined) = observe_all-collected deltas (new_stream_buffer window (pos budget)) in
    (below (omega arith), joined)
