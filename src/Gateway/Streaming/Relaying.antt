-- ===== src/Gateway/Streaming/Relaying.antt =====
-- A streamed response from the bytes of the upstream to those written to the client
-- (internal/contexts/gateway/adapters/http/openai/sse.go and streaming_handler.go).
use kiwi_guard.Common.{
  ℕ, ◌+◌, ℤ, pos, String, Bool, true, false, ◌||◌, ◌==◌, eq_nat, List, [], ◌∷◌, ◌++◌, append_assoc,
  append-nil, Option, none, some, Result, ok, err, length, is_empty, ◌≡◌, refl, sym, ap, ◌∙◌, inl,
  inr, arith, Bool-cases,
}
use kiwi_guard.Common.Utf8.{Bytes}
use kiwi_guard.Gateway.Streaming.{StreamBuffer, new_stream_buffer}
use kiwi_guard.Gateway.Streaming.Sse.{
  SseFrame, Ending, new_sse_parser, join, split_lines, before_lines,
}
use kiwi_guard.Gateway.Streaming.Session.{Next, frame, failed, Peers, Session, handle_streaming}
use kiwi_guard.Gateway.Streaming.Passing.{
  drop_last, released, ended, passes, buffer_after, judged, passing, raws,
}
use kiwi_guard.Gateway.Streaming.Release.{handle_streaming-Writes}
use kiwi_guard.Gateway.Streaming.Closing.{IsClosed, handle_streaming-IsClosed}
use kiwi_guard.Gateway.Streaming.Reading.{
  bytes_of, IsOpen, tail_size-le, all_frames, all_frames-Yields,
}

before_lines-join :
    (c : ℕ) (r : List Bytes × Bytes)
    → join (before_lines c r).0 ++ (before_lines c r).1 ≡ c ∷ (join r.0 ++ r.1)
before_lines-join c ([], tail) = refl
before_lines-join c (l ∷ ls, tail) = refl

split_lines-join : (xs : Bytes) → join (split_lines xs).0 ++ (split_lines xs).1 ≡ xs
split_lines-join [] = refl
split_lines-join (c ∷ cs) = elim (Bool-cases (c == 10)) [
  | inl e ↦ rw e (ap (λ t. c ∷ t) (split_lines-join cs))
  | inr e ↦ rw e (before_lines-join c (split_lines cs) ∙ ap (λ t. c ∷ t) (split_lines-join cs))
]

-- The first of the bytes.
abbrev pub IsStart : Bytes → Bytes → Type 0
IsStart xs ys = (rest : Bytes) × (ys ≡ xs ++ rest)

IsStart-trans : (xs ys zs : Bytes) → IsStart xs ys → IsStart ys zs → IsStart xs zs
IsStart-trans xs ys zs (a, e) (b, f) = (a ++ b, f ∙ ap (λ t. t ++ b) e ∙ append_assoc xs a b)

join-append : (xs ys : List Bytes) → join (xs ++ ys) ≡ join xs ++ join ys
join-append [] ys = refl
join-append (x ∷ xs) ys =
    ap (λ t. x ++ t) (join-append xs ys) ∙ sym (append_assoc x (join xs) (join ys))

drop_last-IsStart : (fs : List SseFrame) → IsStart (join (raws (drop_last fs))) (join (raws fs))
drop_last-IsStart [] = ([], refl)
drop_last-IsStart (f ∷ []) = (f.raw ++ [], refl)
drop_last-IsStart (f ∷ g ∷ fs) =
    let (rest, e) = drop_last-IsStart (g ∷ fs) in
    (rest, ap (λ t. f.raw ++ t) e ∙ sym (append_assoc f.raw _ rest))

released-IsStart :
    (fs : List SseFrame) (clean : Bool)
    → IsStart (join (raws (released (fs, clean)))) (join (raws fs))
released-IsStart fs true = ([], sym (append-nil _))
released-IsStart fs false = drop_last-IsStart fs

module _ (env : Peers) where
  ended-IsStart :
      (f : SseFrame) (last : Bool) (rest : List SseFrame × Bool) (bs : Bytes)
      → IsStart (join (raws rest.0)) bs
      → IsStart (join (raws (ended f last rest).0)) (f.raw ++ bs)
  ended-IsStart f true rest bs h = (bs, ap (λ t. t ++ bs) (sym (append-nil f.raw)))
  ended-IsStart f false rest bs (more, e) =
      (more, ap (λ t. f.raw ++ t) e ∙ sym (append_assoc f.raw _ more))

  judged-IsStart :
      (b : StreamBuffer) (r : Result String Bytes) (f : SseFrame) (rest : List SseFrame × Bool)
      (bs : Bytes)
      → IsStart (join (raws rest.0)) bs
      → IsStart (join (raws (judged env b r f rest).0)) (f.raw ++ bs)
  judged-IsStart b (err e) f rest bs h = (f.raw ++ bs, refl)
  judged-IsStart b (ok delta) f rest bs h =
      elim (Bool-cases (is_empty delta || passes env b delta)) [
        | inl e ↦ rw e (ended-IsStart f f.done rest bs h)
        | inr e ↦ rw e (f.raw ++ bs, refl)
      ]

  passing-IsStart :
      (ns : List Next) (b : StreamBuffer) → IsStart (join (raws (passing env ns b).0)) (bytes_of ns)
  passing-IsStart [] b = ([], refl)
  passing-IsStart (failed deadline ∷ ns) b = (bytes_of ns, refl)
  passing-IsStart (frame f ∷ ns) b =
      judged-IsStart b (env.parse_delta f) f _ (bytes_of ns)
        (passing-IsStart ns (buffer_after env b (env.parse_delta f)))

-- A streamed response as a whole: the parser on the body, and the loop on its frames.
module _ (env : Peers) (trim_space : Bytes → Bytes) (late : Bool) (max_body_bytes : ℤ)
    (body : Bytes) (ending : Ending) where
  abbrev pub frames_of : Option (List Next)
  frames_of =
      all_frames trim_space late (length (split_lines body).0 + 3) (new_sse_parser body ending)

  abbrev pub relayed : Option (List Next) → Option Session
  relayed none = none
  relayed (some ns) = some (handle_streaming env max_body_bytes ns)

  frames_of-Yields :
      (ns : List Next) × (rest : Bytes) × (frames_of ≡ some ns)
      × (body ≡ bytes_of ns ++ rest)
      × (IsOpen ns → rest ≡ [])
  unfolding new_sse_parser
  frames_of-Yields =
      let (ns, rest, is, all, whole) =
        all_frames-Yields trim_space late (length (split_lines body).0 + 3)
          (new_sse_parser body ending) (omega (arith, tail_size-le (split_lines body).1)) in
      (ns, rest, is, sym (split_lines-join body) ∙ all, λ o. whole o (λ d. ground (arith, d)))

  -- Whatever the body of an upstream's stream is, however its reader ends and whatever the
  -- policy and the client do, the parser reads the body to an end, and all that is written to the
  -- client is whole frames that make up the first bytes of the body, unchanged, and then at most
  -- the notice that names the termination; other bytes come last only where the termination is
  -- that of a write to the client that has failed.
  pub relay-IsStart :
      (s : Session) × (relayed frames_of ≡ some s) × IsStart (join s.written) body × IsClosed s
  relay-IsStart =
      let (ns, rest, is, all, whole) = frames_of-Yields in
      let buffer = new_stream_buffer (pos 4096) max_body_bytes in
      let s = handle_streaming env max_body_bytes ns in
      let passed = passing env ns buffer in
      let (more, e) = (handle_streaming-Writes env max_body_bytes ns).0 in
      let written : IsStart (join s.written) (join (raws (released passed))) =
        (join more, ap join e ∙ join-append s.written more) in
      (
        s,
        ap relayed is,
        IsStart-trans _ _ _ written (
            IsStart-trans _ _ _ (released-IsStart passed.0 passed.1)
              (IsStart-trans _ _ _ (passing-IsStart env ns buffer) (rest, all))),
        handle_streaming-IsClosed env max_body_bytes ns,
      )
