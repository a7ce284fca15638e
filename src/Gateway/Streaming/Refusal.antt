-- ===== src/Gateway/Streaming/Refusal.antt =====
-- The policy on one delta: it lets the stream go on, or cuts it
-- (internal/contexts/gateway/adapters/http/openai/streaming_handler.go).
use kiwi_guard.Common.{
  length, ◌++◌, [], ◌∷◌, String, Bool, true, false, not, ◌&&◌, ◌==◌, eq_string, eq_iff, is_empty,
  ◌≡◌, ◌≢◌, refl, sym, ap, ◌∙◌, subst, arith, Bool-cases, inl, inr,
}
use kiwi_guard.Common.Utf8.{Bytes}
use kiwi_guard.Policy.Types.{Decision, action_block, action_redact}
use kiwi_guard.Gateway.Streaming.{
  observe_delta, plan_delta, plan_stream_policy, only, continue, terminate, Plan,
}
use kiwi_guard.Gateway.Lifecycle.{
  classify_streaming_delta, classify_streaming_policy, classify_streaming_collection,
}
use kiwi_guard.Gateway.Streaming.Session.{sse_termination, follow_plan, Peers, Session, check_delta}
use kiwi_guard.Gateway.Streaming.Passing.{passes}

-- The decision and the collector let the stream go on.
abbrev lets_pass : Decision → Bool → Bool
lets_pass d accepted = not (d.action == action_block) && not (d.action == action_redact) && accepted

abbrev pub stopping : String → Bool → Plan
stopping reason force = record (only terminate) {
  force_blocked_output = force;
  termination_reason = reason;
}

plan_stream_policy-passes :
    (d : Decision) (accepted : Bool)
    → lets_pass d accepted ≡ true
    → plan_stream_policy d accepted ≡ only continue
unfolding plan_stream_policy classify_streaming_delta classify_streaming_policy
    classify_streaming_collection
plan_stream_policy-passes d accepted h = elim (Bool-cases (d.action == action_block)) [
  | inl e ↦ elim (Bool-cases (d.action == action_redact)) [
    | inl r ↦ ground arith
    | inr r ↦ ground arith
  ]
  | inr e ↦ ground arith
]

abbrev pub IsNamed : String → Type 0
IsNamed reason = reason ≢ ""

stream_blocked-IsNamed : IsNamed "stream_blocked"
stream_blocked-IsNamed = λ q. ground (arith, (eq_iff "stream_blocked" "").1 q)

unsupported_redaction-IsNamed : IsNamed "unsupported_redaction"
unsupported_redaction-IsNamed = λ q. ground (arith, (eq_iff "unsupported_redaction" "").1 q)

too_large-IsNamed : IsNamed "stream_output_too_large"
too_large-IsNamed = λ q. ground (arith, (eq_iff "stream_output_too_large" "").1 q)

plan_stream_policy-stops :
    (d : Decision) (accepted : Bool)
    → lets_pass d accepted ≡ false
    → (reason : String) × (force : Bool) × (plan_stream_policy d accepted ≡ stopping reason force)
      × (reason ≢ "")
unfolding plan_stream_policy classify_streaming_delta classify_streaming_policy
    classify_streaming_collection
plan_stream_policy-stops d accepted h = elim (Bool-cases (d.action == action_block)) [
  | inl e ↦ ("stream_blocked", not accepted, rw (e), stream_blocked-IsNamed)
  | inr e ↦ elim (Bool-cases (d.action == action_redact)) [
    | inl r ↦ ("unsupported_redaction", not accepted, rw (e, r), unsupported_redaction-IsNamed)
    | inr r ↦ elim (Bool-cases accepted) [
      | inl a ↦ let z : lets_pass d accepted ≡ true = rw (e, r, a) in cc
      | inr a ↦ ("stream_output_too_large", true, rw (e, r, a), too_large-IsNamed)
    ]
  ]
]

module _ (env : Peers) where
  open env use {parse_delta, evaluate_window, accepts}

  check_delta-eq :
      (delta : Bytes) (s : Session)
      → is_empty delta ≡ false
      → check_delta env delta s
        ≡ follow_plan
            (plan_stream_policy
              (evaluate_window (observe_delta delta s.buffer).0.window_text)
              (observe_delta delta s.buffer).0.collection_accepted)
            (record s {
              buffer = (observe_delta delta s.buffer).1;
              decision = evaluate_window (observe_delta delta s.buffer).0.window_text;
            })
  unfolding check_delta plan_delta
  check_delta-eq delta s e = rw (e)

  pub check_delta-passes :
      (delta : Bytes) (s : Session)
      → is_empty delta ≡ false
      → passes env s.buffer delta ≡ true
      → check_delta env delta s ≡ (
        true,
        record s {
          buffer = (observe_delta delta s.buffer).1;
          decision = evaluate_window (observe_delta delta s.buffer).0.window_text;
        },
      )
  unfolding follow_plan
  check_delta-passes delta s e h =
      check_delta-eq delta s e
      ∙ ap
          (λ p. follow_plan p (record s {
            buffer = (observe_delta delta s.buffer).1;
            decision = evaluate_window (observe_delta delta s.buffer).0.window_text;
          }))
          (plan_stream_policy-passes _ _ h)

  abbrev pub Refused : Session → Bool × Session → Type 0
  Refused s (goes_on, s') =
      (goes_on ≡ false)
      × (s'.written ≡ s.written)
      × (s'.termination ≢ "")
      × (s'.others ≡ s.others ++ (length s.written, sse_termination s'.termination) ∷ [])

  follow_plan-Refused :
      (reason : String) (force : Bool) (s : Session)
      → reason ≢ ""
      → Refused s (follow_plan (stopping reason force) s)
  unfolding follow_plan
  follow_plan-Refused reason true s h = (refl, refl, h, refl)
  follow_plan-Refused reason false s h = (refl, refl, h, refl)

  pub check_delta-Refused :
      (delta : Bytes) (s : Session)
      → is_empty delta ≡ false
      → passes env s.buffer delta ≡ false
      → Refused s (check_delta env delta s)
  check_delta-Refused delta s e h =
      let (reason, force, is, named) = plan_stream_policy-stops _ _ h in
      subst (Refused s)
        (sym (
          check_delta-eq delta s e
          ∙ ap
              (λ p. follow_plan p (record s {
                buffer = (observe_delta delta s.buffer).1;
                decision = evaluate_window (observe_delta delta s.buffer).0.window_text;
              }))
              is))
        (follow_plan-Refused reason force _ named)
