-- ===== src/Gateway/Streaming/Closing.antt =====
-- What a streamed response writes beside its whole frames
-- (internal/contexts/gateway/adapters/http/openai/streaming_handler.go and http_helpers.go).
use kiwi_guard.Common.{
  ℕ, suc, ◌-◌, ℤ, pos, String, Bool, true, false, not, List, [], ◌∷◌, ◌++◌, append-nil, Option,
  none, some, Result, ok, err, ◌==◌, eq_string, eq_iff, if◌then◌else◌, is_empty, length, take,
  drop_all, ◌≡◌, ◌≢◌, ◌⊎◌, refl, sym, ap, ◌∙◌, arith, Bool-cases, inl, inr,
}
use kiwi_guard.Common.Utf8.{Bytes}
use kiwi_guard.Gateway.Streaming.{new_stream_buffer, plan_frame, observe_delta}
use kiwi_guard.Gateway.Streaming.Sse.{SseFrame, join}
use kiwi_guard.Gateway.Streaming.Session.{
  check_delta, Next, frame, failed, Peers, Session, sse_termination, weave, sent, cut, new_session,
  streaming_read_termination, write_frame, write_held, forward_frame, handle_delta, handle_frame,
  handle_next, handle_all, flush, finish, handle_streaming,
}
use kiwi_guard.Gateway.Streaming.Passing.{passes, passing, released, raws, Writes}
use kiwi_guard.Gateway.Streaming.Refusal.{IsNamed, check_delta-passes, check_delta-Refused}
use kiwi_guard.Gateway.Streaming.Release.{
  handle_streaming-Writes, sse_parse_error-IsNamed, streaming_read_termination-IsNamed,
  client_write_error-IsNamed,
}

-- Nothing but whole frames has been written.
abbrev Quiet : Session → Type 0
Quiet s = s.others ≡ []

-- What may be written after the whole frames: the notice of the termination, or a part of a frame.
abbrev Close : Session → Bytes → Type 0
Close s bytes = (bytes ≡ sse_termination s.termination) ⊎ (s.termination ≡ "client_write_error")

-- One more thing has been written, after the whole frames.
record Closed (s : Session) : Type 0 where
  pub bytes : Bytes
  pub once : s.others ≡ (length s.written, bytes) ∷ []
  pub named : s.termination ≢ ""
  pub close : Close s bytes

abbrev Settled : Session → Type 0
Settled s = Quiet s ⊎ Closed s

-- After a write: quiet where it has succeeded.
abbrev Wrote : Bool × Session → Type 0
Wrote (true, s) = Quiet s
Wrote (false, s) = Closed s

-- After the body of the loop: quiet where the loop goes on.
abbrev Looped : Bool × Session → Type 0
Looped (true, s) = Quiet s
Looped (false, s) = Settled s

noted :
    (s : Session) (os : List (ℕ × Bytes)) (b : ℕ × Bytes)
    → Quiet s
    → os ≡ s.others ++ b ∷ []
    → os ≡ b ∷ []
noted s os b quiet e = e ∙ ap (λ xs. xs ++ b ∷ []) quiet

module _ (env : Peers) where
  write_frame-Wrote : (f : SseFrame) (s : Session) → Quiet s → Wrote (write_frame env f s)
  unfolding write_frame
  write_frame-Wrote f s quiet = elim (Bool-cases (env.accepts s.written f.raw)) [
    | inl e ↦ rw e quiet
    | inr e ↦ rw e (record {
      bytes = take (env.part s.written f.raw) f.raw;
      once = noted s _ _ quiet refl;
      named = client_write_error-IsNamed env;
      close = inr refl;
    })
  ]

  write_held-Wrote : (p : Option SseFrame) (s : Session) → Quiet s → Wrote (write_held env p s)
  unfolding write_held
  write_held-Wrote none s quiet = quiet
  write_held-Wrote (some f) s quiet = write_frame-Wrote f s quiet

  -- The end of `forward_frame`, by the write of the frame held and the one of the last frame.
  after_held :
      (complete : Bool) (held : Bool × Session) (s2 : Session) (last : Bool × Session)
      → Wrote held
      → (Quiet held.1 → Quiet s2 × Wrote last)
      → Looped (
          if not held.0
          then (false, held.1)
          else if complete
          then (false, if last.0 then record last.1 { pending = none } else last.1)
          else (true, s2))
  after_held complete (false, s1) s2 last closed more = inr closed
  after_held true (true, s1) s2 (true, s3) quiet more = inl (more quiet).1
  after_held true (true, s1) s2 (false, s3) quiet more = inr (more quiet).1
  after_held false (true, s1) s2 last quiet more = (more quiet).0

  -- A frame that is written after the one held, and is the last or not.
  forward_held :
      (complete : Bool) (f : SseFrame) (s : Session)
      → Quiet s
      → (let held = write_held env s.pending s in
          let s2 : Session = record held.1 { pending = some f } in
          let last = write_frame env f s2 in
          Looped (
            if not held.0
            then (false, held.1)
            else if complete
            then (false, if last.0 then record last.1 { pending = none } else last.1)
            else (true, s2)))
  forward_held complete f s quiet =
      let held = write_held env s.pending s in
      let s2 : Session = record held.1 { pending = some f } in
      after_held complete held s2 (write_frame env f s2) (write_held-Wrote s.pending s quiet)
        (λ q. (q, write_frame-Wrote f s2 q))

  forward_frame-Looped :
      (v : SseFrame) (last : Bool) (t : Session) (h : Option SseFrame)
      → Quiet t
      → Looped (forward_frame env (record v { done = last }) (record t { pending = h }))
  unfolding forward_frame plan_frame
  forward_frame-Looped v true t none quiet =
      forward_held true (record v { done = true }) (record t { pending = none }) quiet
  forward_frame-Looped v false t none quiet = quiet
  forward_frame-Looped v true t (some g) quiet =
      forward_held true (record v { done = true }) (record t { pending = some g }) quiet
  forward_frame-Looped v false t (some g) quiet =
      forward_held false (record v { done = false }) (record t { pending = some g }) quiet

  cut-Closed : (reason : String) (s : Session) → IsNamed reason → Quiet s → Closed (cut reason s)
  cut-Closed reason s named quiet = record {
    bytes = sse_termination reason;
    once = noted s _ _ quiet refl;
    named = named;
    close = inl refl;
  }

  handle_delta-Looped :
      (delta : Result String Bytes) (f : SseFrame) (s : Session)
      → Quiet s
      → Looped (handle_delta env delta f s)
  unfolding handle_delta
  handle_delta-Looped (err e) f s quiet =
      let closed = cut-Closed "sse_parse_error" s (sse_parse_error-IsNamed env) quiet in
      inr (record {
        bytes = closed.bytes;
        once = closed.once;
        named = closed.named;
        close = closed.close;
      })
  handle_delta-Looped (ok delta) f s quiet = elim (Bool-cases (is_empty delta)) [
    | inl q ↦ rw q (forward_frame-Looped f f.done s s.pending quiet)
    | inr q ↦ elim (Bool-cases (passes env s.buffer delta)) [
      | inl z ↦
          rw (q, check_delta-passes env delta s q z)
            (forward_frame-Looped f f.done
              (record s {
                buffer = (observe_delta delta s.buffer).1;
                decision = env.evaluate_window (observe_delta delta s.buffer).0.window_text;
              })
              s.pending quiet)
      | inr z ↦
          let (stops, same, named, once) = check_delta-Refused env delta s q z in
          let cut_short = (check_delta env delta s).1 in
          let notice = sse_termination cut_short.termination in
          rw (q, stops)
            (inr (record {
              bytes = notice;
              once =
                  noted s cut_short.others (length s.written, notice) quiet once
                  ∙ ap (λ (ws : List Bytes). (length ws, notice) ∷ []) (sym same);
              named = named;
              close = inl refl;
            }))
    ]
  ]

  Closed-Settled :
      (s t : Session)
      → Closed s
      → t.others ≡ s.others
      → t.written ≡ s.written
      → t.termination ≡ s.termination
      → Settled t
  Closed-Settled s t closed o w e = inr (record {
    bytes = closed.bytes;
    once = o ∙ closed.once ∙ ap (λ (ws : List Bytes). (length ws, closed.bytes) ∷ []) (sym w);
    named = rw e closed.named;
    close = rw e closed.close;
  })

  onward :
      (ns : List Next) (r : Bool × Session)
      → ((s : Session) → Quiet s → Settled (handle_all env ns s))
      → Looped r
      → Settled (if r.0 then handle_all env ns r.1 else r.1)
  onward ns (true, s) ih quiet = ih s quiet
  onward ns (false, s) ih settled = settled

  handle_all-Settled : (ns : List Next) (s : Session) → Quiet s → Settled (handle_all env ns s)
  unfolding handle_all handle_next handle_frame
  handle_all-Settled [] s quiet = inl quiet
  handle_all-Settled (failed deadline ∷ ns) s quiet =
      Closed-Settled (cut (streaming_read_termination deadline) s) _
        (cut-Closed _ s (streaming_read_termination-IsNamed env deadline) quiet) refl refl refl
  handle_all-Settled (frame f ∷ ns) s quiet =
      let counted : Session = record s { stream_chunks = suc s.stream_chunks } in
      onward ns (handle_delta env (env.parse_delta f) f counted) (handle_all-Settled ns)
        (handle_delta-Looped (env.parse_delta f) f counted quiet)

  Wrote-Settled : (r : Bool × Session) → Wrote r → Settled r.1
  Wrote-Settled (true, s) quiet = inl quiet
  Wrote-Settled (false, s) closed = inr closed

  flush-Settled : (s : Session) → Settled s → Settled (flush env s)
  unfolding flush
  flush-Settled s (inl quiet) = elim (Bool-cases (s.termination == "")) [
    | inl e ↦ rw e (Wrote-Settled _ (write_held-Wrote s.pending s quiet))
    | inr e ↦ rw e (inl quiet)
  ]
  flush-Settled s (inr closed) = elim (Bool-cases (s.termination == "")) [
    | inl e ↦ absurd (closed.named ((eq_iff s.termination "").0 e))
    | inr e ↦ rw e (inr closed)
  ]

  finish-Settled : (s : Session) → Settled s → Settled (finish env s)
  unfolding finish
  finish-Settled s settled = elim (flush-Settled s settled) [
    | inl quiet ↦ inl quiet
    | inr closed ↦ Closed-Settled (flush env s) _ closed refl refl refl
  ]

-- All that a session has written is its whole frames and then nothing, the notice of its termination,
-- or, where its termination is that of a failed write, other bytes.
abbrev pub IsClosed : Session → Type 0
IsClosed s =
    (rest : Bytes) × (sent s ≡ join s.written ++ rest)
    × ((rest ≡ [])
        ⊎ (rest ≡ sse_termination s.termination)
        ⊎ (s.termination ≡ "client_write_error"))

take_whole : (ws : List Bytes) → take (length ws) ws ≡ ws
take_whole [] = refl
take_whole (w ∷ ws) = ap (λ xs. w ∷ xs) (take_whole ws)

weave-last :
    (ws : List Bytes) (bytes : Bytes) → weave 0 ws ((length ws, bytes) ∷ []) ≡ join ws ++ bytes
unfolding weave
weave-last ws bytes =
    let at : length ws - 0 ≡ length ws = omega arith in
    rw (at, take_whole ws, drop_all (length ws) ws (omega arith))
      (ap (λ t. join ws ++ t) (append-nil bytes))

Settled-IsClosed : (s : Session) → Settled s → IsClosed s
unfolding sent weave
Settled-IsClosed s (inl quiet) = ([], rw quiet (sym (append-nil _)), inl refl)
Settled-IsClosed s (inr closed) = (
  closed.bytes,
  ap (weave 0 s.written) closed.once ∙ weave-last s.written closed.bytes,
  inr closed.close,
)

pub handle_streaming-IsClosed :
    (env : Peers) (max_body_bytes : ℤ) (inputs : List Next)
    → IsClosed (handle_streaming env max_body_bytes inputs)
unfolding handle_streaming new_session
handle_streaming-IsClosed env max_body_bytes inputs =
    Settled-IsClosed _
      (finish-Settled env _ (handle_all-Settled env inputs (new_session max_body_bytes) refl))

-- Whatever frames, failures and write errors come, all that a streamed response writes to the
-- client is frames, each whole, and then at most the notice that names the termination, whose own
-- write errors are ignored; other bytes come last only where the termination is that of a write
-- to the client that has failed.
-- The whole frames are a prefix of the frames released, and all of them if the client takes all
-- writes. Released are, in their order, the frames before the first that cannot be read, is
-- blocked or needs redaction by the window of its delta, or exceeds the text budget: all of them
-- where there is no such frame before the end or before a frame that is marked as last, and else
-- all but the last of them, which is held back.
pub handle_streaming-sent :
    (env : Peers) (max_body_bytes : ℤ) (inputs : List Next)
    → Writes env
        (handle_streaming env max_body_bytes inputs)
        (raws (released (passing env inputs (new_stream_buffer (pos 4096) max_body_bytes))))
      × IsClosed (handle_streaming env max_body_bytes inputs)
handle_streaming-sent env max_body_bytes inputs = (
  handle_streaming-Writes env max_body_bytes inputs,
  handle_streaming-IsClosed env max_body_bytes inputs,
)
