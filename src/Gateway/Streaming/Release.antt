-- ===== src/Gateway/Streaming/Release.antt =====
-- Which frames of a stream reach the client
-- (internal/contexts/gateway/adapters/http/openai/streaming_handler.go).
use kiwi_guard.Common.{
  ℕ, ℤ, pos, suc, String, Bool, true, false, List, [], ◌∷◌, ◌++◌, append_assoc, append-nil, Option,
  none, some, Result, ok, err, ◌==◌, eq_string, eq_iff, if◌then◌else◌, is_empty, ◌≡◌, ◌≢◌, refl,
  sym, ap, ◌∙◌, subst, arith, Bool-cases, inl, inr,
}
use kiwi_guard.Common.Utf8.{Bytes}
use kiwi_guard.Policy.Types.{Decision}
use kiwi_guard.Gateway.Streaming.{StreamBuffer, new_stream_buffer, observe_delta, plan_frame}
use kiwi_guard.Gateway.Streaming.Sse.{SseFrame}
use kiwi_guard.Gateway.Streaming.Session.{
  flush, handle_delta, Next, frame, failed, streaming_read_termination, Peers, Session, new_session,
  write_frame, write_held, forward_frame, handle_frame, handle_next, handle_all, finish,
  handle_streaming, allowed_decision,
}
use kiwi_guard.Gateway.Streaming.Passing.{
  released, ended, IsPrefix, passes, buffer_after, judged, passing, raws, Delivers, Writes,
}
use kiwi_guard.Gateway.Streaming.Refusal.{IsNamed, check_delta-passes, check_delta-Refused}

module _ (env : Peers) where
  open env use {parse_delta, evaluate_window, accepts}

  finish-cut : (s : Session) → s.termination ≢ "" → (finish env s).written ≡ s.written
  unfolding finish flush
  finish-cut s h = elim (Bool-cases (s.termination == "")) [
    | inl e ↦ ground (arith, h ((eq_iff _ _).0 e))
    | inr e ↦ rw (e)
  ]

  -- A session that has not been cut.
  abbrev running :
      StreamBuffer
      → Option SseFrame
      → List Bytes
      → Decision
      → Bool
      → ℕ
      → ℕ
      → List (ℕ × Bytes)
      → Session
  running b p w d o c r n = record {
    buffer = b;
    pending = p;
    decision = d;
    termination = "";
    partial_output = o;
    stream_chunks = c;
    response_bytes = r;
    written = w;
    others = n;
  }

  abbrev held : Option SseFrame → List SseFrame
  held none = []
  held (some f) = f ∷ []

  -- Nothing more is written after a failed write.
  stuck :
      (s : Session) (w xs : List Bytes) (x : Bytes)
      → (finish env s).written ≡ w
      → accepts w x ≡ false
      → Writes env (finish env s) (w ++ x ∷ xs)
  stuck s w xs x e h =
      ((x ∷ xs, ap (λ v. v ++ x ∷ xs) (sym e)), λ t. ground (arith, sym (t w x) ∙ h))

  finish-Writes :
      (b : StreamBuffer) (p : Option SseFrame) (w : List Bytes) (d : Decision) (o : Bool) (c r : ℕ)
      (n : List (ℕ × Bytes))
      → Writes env (finish env (running b p w d o c r n)) (w ++ raws (held p))
  unfolding finish flush write_held write_frame
  finish-Writes b none w d o c r n = (([], refl), λ t. sym (append-nil w))
  finish-Writes b (some f) w d o c r n = elim (Bool-cases (accepts w f.raw)) [
    | inl a ↦ rw (a) (([], sym (append-nil _)), λ t. refl)
    | inr a ↦ rw (a) (((f.raw ∷ [], refl), λ t. ground (arith, sym (t w f.raw) ∙ a)))
  ]

  abbrev go_on : List Next → Bool × Session → Session
  go_on ns (goes_on, s) = if goes_on then handle_all env ns s else s

  cut-Writes :
      (s : Session) (w xs : List Bytes)
      → s.termination ≢ ""
      → s.written ≡ w
      → IsPrefix (finish env s).written (w ++ xs)
  cut-Writes s w xs h e = (xs, ap (λ v. v ++ xs) (sym (finish-cut s h ∙ e)))

  released-cons :
      (g f : SseFrame) (rest : List SseFrame) (clean : Bool)
      → raws (released (g ∷ f ∷ rest, clean)) ≡ g.raw ∷ raws (released (f ∷ rest, clean))
  released-cons g f rest true = refl
  released-cons g f rest false = refl

  pub client_write_error-IsNamed : IsNamed "client_write_error"
  client_write_error-IsNamed = λ q. ground (arith, (eq_iff "client_write_error" "").1 q)

  finish-ended :
      (b : StreamBuffer) (w : List Bytes) (d : Decision) (o : Bool) (c r : ℕ) (n : List (ℕ × Bytes))
      → Writes env (finish env (running b none w d o c r n)) w
  finish-ended b w d o c r n =
      subst (Writes env (finish env (running b none w d o c r n))) (append-nil w)
        (finish-Writes b none w d o c r n)

  cut-Stuck :
      (s : Session) (w xs : List Bytes) (x : Bytes)
      → s.termination ≢ ""
      → s.written ≡ w
      → accepts w x ≡ false
      → Writes env (finish env s) (w ++ x ∷ xs)
  cut-Stuck s w xs x h e a = stuck s w xs x (finish-cut s h ∙ e) a

  past :
      (out w : List Bytes) (x : Bytes) (ys : List Bytes)
      → Delivers env out ((w ++ x ∷ []) ++ ys)
      → Delivers env out (w ++ x ∷ ys)
  past out w x ys h = subst (Delivers env out) (append_assoc w (x ∷ []) ys) h

  -- The end of a body, where the rest of the stream writes what is expected of it.
  module _ (ns : List Next) (rest : List SseFrame × Bool) (b : StreamBuffer) (d : Decision)
      (o : Bool) (c : ℕ) (n : List (ℕ × Bytes)) where
    abbrev GoesOn : SseFrame → Type 0
    GoesOn f =
        (w : List Bytes) (r : ℕ)
        → Writes env (finish env (handle_all env ns (running b (some f) w d o c r n)))
            (w ++ raws (released (f ∷ rest.0, rest.1)))

    forward_frame-Writes :
        (v : SseFrame) (last : Bool) (h : Option SseFrame) (w : List Bytes) (r : ℕ)
        → (let f : SseFrame = record v { done = last } in
            GoesOn f
            → Writes env
                (finish env (go_on ns (forward_frame env f (running b h w d o c r n))))
                (w ++ raws (released (held h ++ (ended f last rest).0, (ended f last rest).1))))
    unfolding forward_frame write_held write_frame plan_frame
    forward_frame-Writes v true none w r ih = elim (Bool-cases (accepts w v.raw)) [
      | inl a ↦ rw a (finish-ended b _ d o c _ n)
      | inr a ↦ rw a (cut-Stuck _ w [] v.raw client_write_error-IsNamed refl a)
    ]
    forward_frame-Writes v false none w r ih = ih w r
    forward_frame-Writes v true (some g) w r ih = elim (Bool-cases (accepts w g.raw)) [
      | inr a ↦ rw a (cut-Stuck _ w (v.raw ∷ []) g.raw client_write_error-IsNamed refl a)
      | inl a ↦ elim (Bool-cases (accepts (w ++ g.raw ∷ []) v.raw)) [
        | inl a' ↦ rw (a, a') (past _ w _ _ (finish-ended b _ d o c _ n))
        | inr a' ↦
            rw (a, a')
              (past _ w _ _
                (cut-Stuck _ (w ++ g.raw ∷ []) [] v.raw client_write_error-IsNamed refl a'))
      ]
    ]
    forward_frame-Writes v false (some g) w r ih = elim (Bool-cases (accepts w g.raw)) [
      | inl a ↦ rw (a, released-cons g _ rest.0 rest.1) (past _ w _ _ (ih (w ++ g.raw ∷ []) _))
      | inr a ↦
          rw (a, released-cons g _ rest.0 rest.1)
            (cut-Stuck _ w _ g.raw client_write_error-IsNamed refl a)
    ]

  refused-Writes :
      (s : Session) (w : List Bytes) (h : Option SseFrame)
      → s.termination ≢ ""
      → s.written ≡ w
      → Writes env (finish env s) (w ++ raws (released (held h ++ [], false)))
  refused-Writes s w none h e = (
    ([], ap (λ v. v ++ []) (sym (finish-cut s h ∙ e))),
    λ t. finish-cut s h ∙ e ∙ sym (append-nil w),
  )
  refused-Writes s w (some f) h e = (
    ([], ap (λ v. v ++ []) (sym (finish-cut s h ∙ e))),
    λ t. finish-cut s h ∙ e ∙ sym (append-nil w),
  )

  pub sse_parse_error-IsNamed : IsNamed "sse_parse_error"
  sse_parse_error-IsNamed = λ q. ground (arith, (eq_iff "sse_parse_error" "").1 q)

  pub streaming_read_termination-IsNamed :
      (deadline : Bool) → IsNamed (streaming_read_termination deadline)
  unfolding streaming_read_termination
  streaming_read_termination-IsNamed true = λ q. ground (arith, (eq_iff "upstream_timeout" "").1 q)
  streaming_read_termination-IsNamed false = sse_parse_error-IsNamed

  -- A frame, where the rest of the stream writes what is expected of it.
  handle_delta-Writes :
      (delta : Result String Bytes) (f : SseFrame) (ns : List Next) (rest : List SseFrame × Bool)
      → (b : StreamBuffer) (h : Option SseFrame) (w : List Bytes) (d : Decision) (o : Bool)
        (c r : ℕ) (n : List (ℕ × Bytes))
      → ((d' : Decision) → GoesOn ns rest (buffer_after env b delta) d' o c n f)
      → (let expected : List SseFrame × Bool = judged env b delta f rest in
          Writes env
            (finish env (go_on ns (handle_delta env delta f (running b h w d o c r n))))
            (w ++ raws (released (held h ++ expected.0, expected.1))))
  unfolding handle_delta
  handle_delta-Writes (err x) f ns rest b h w d o c r n ih =
      refused-Writes _ w h sse_parse_error-IsNamed refl
  handle_delta-Writes (ok delta) f ns rest b h w d o c r n ih = elim (Bool-cases (is_empty delta)) [
    | inl q ↦
        let same : buffer_after env b (ok delta) ≡ b = rw q refl in
        rw q (
          forward_frame-Writes ns rest b d o c n f f.done h w r
            (subst (λ b'. GoesOn ns rest b' d o c n f) same (ih d)))
    | inr q ↦ elim (Bool-cases (passes env b delta)) [
      | inl z ↦
          let next : buffer_after env b (ok delta) ≡ (observe_delta delta b).1 = rw q refl in
          let decision = evaluate_window (observe_delta delta b).0.window_text in
          rw (q, z, check_delta-passes env delta (running b h w d o c r n) q z)
            (forward_frame-Writes ns rest (observe_delta delta b).1 decision o c n f f.done h w r
              (subst (λ b'. GoesOn ns rest b' decision o c n f) next (ih decision)))
      | inr z ↦
          let (stops, same, named, noted) =
            check_delta-Refused env delta (running b h w d o c r n) q z in
          rw (q, z, stops) (refused-Writes _ w h named same)
    ]
  ]

  handle_all-Writes :
      (ns : List Next) (b : StreamBuffer) (h : Option SseFrame) (w : List Bytes) (d : Decision)
      (o : Bool) (c r : ℕ) (n : List (ℕ × Bytes))
      → (let expected : List SseFrame × Bool = passing env ns b in
          Writes env
            (finish env (handle_all env ns (running b h w d o c r n)))
            (w ++ raws (released (held h ++ expected.0, expected.1))))
  unfolding handle_all handle_next handle_frame
  handle_all-Writes [] b none w d o c r n = finish-Writes b none w d o c r n
  handle_all-Writes [] b (some f) w d o c r n = finish-Writes b (some f) w d o c r n
  handle_all-Writes (failed deadline ∷ ns) b h w d o c r n =
      refused-Writes _ w h (streaming_read_termination-IsNamed deadline) refl
  handle_all-Writes (frame f ∷ ns) b h w d o c r n =
      handle_delta-Writes (parse_delta f) f ns _ b h w d o (suc c) r n (λ d' w' r'.
        handle_all-Writes ns (buffer_after env b (parse_delta f)) (some f) w' d' o (suc c) r' n)

  -- The frames that are written whole are the released ones, or the first of these.
  pub handle_streaming-Writes :
      (max_body_bytes : ℤ) (inputs : List Next)
      → Writes env
          (handle_streaming env max_body_bytes inputs)
          (raws (released (passing env inputs (new_stream_buffer (pos 4096) max_body_bytes))))
  unfolding handle_streaming new_session
  handle_streaming-Writes max_body_bytes inputs =
      handle_all-Writes inputs (new_stream_buffer (pos 4096) max_body_bytes) none []
        allowed_decision false 0 0 []
