-- ===== src/Gateway/Evaluation/Failing.antt =====
-- Providers of verdicts that fail (internal/contexts/gateway/application/traffic_evaluation.go, and
-- fallback.go of internal/contexts/verdict/domain).
use kiwi_guard.Common.{
  String, true, Option, none, some, ◌==◌, eq_string, eq_iff, Bool-cases, ◌≡◌, ◌≢◌, refl, sym, ap,
  ◌∙◌, inl, inr, subst,
}
use kiwi_guard.Policy.Types.{ModelSignal, action_allow, action_block}
use kiwi_guard.Policy.Compile.{Snapshot}
use kiwi_guard.Policy.Evaluate.{evaluate, Visit, evaluate_snapshot, no_signal}
use kiwi_guard.Verdict.{
  VerdictResult, VerdictProvider, FallbackOptions, Surroundings, fallback_result, fall_back,
  with_fallback,
}
use kiwi_guard.Gateway.ModelSignal.{
  PolicySnapshot, policy_action, model_signal_from_verdict, evaluate_policy,
  evaluate_policy-fails_closed, decision_from_model_signal, known_policy_action,
}
use kiwi_guard.Gateway.Evaluation.{
  TrafficEvaluationInput, Course, TrafficEvaluation, policy_decision, decided, verdict_request,
  evaluate_policy_only, after_verdict, evaluate_inline, evaluate_traffic, execution_async_shadow,
}
use kiwi_guard.Gateway.Evaluation.Raising.{
  request, visit, visit_same, invalid_nothing, conclude-local, local_lem,
}

silent-allows :
    (signal : ModelSignal)
    → signal.fallback_used ≡ true
    → signal.fallback_action ≡ ""
    → (decision_from_model_signal signal).action ≡ action_allow
unfolding decision_from_model_signal known_policy_action
silent-allows signal used nothing = rw (used, nothing) refl

silent_lem :
    (s : Snapshot) (input : TrafficEvaluationInput) (signal : ModelSignal)
    → signal.fallback_used ≡ true
    → signal.fallback_action ≡ ""
    → (evaluate_snapshot s (request input signal)).action ≡ (visit s input no_signal).action
unfolding evaluate_snapshot
silent_lem s input signal used nothing =
    conclude-local s (request input signal) (visit s input signal)
      (rw (used, nothing) invalid_nothing)
    ∙ ap (λ (v : Visit). v.action) (visit_same s input signal no_signal)

fall_back-failure :
    (opts : FallbackOptions) (around : Surroundings) (message : String)
    (answer : VerdictResult × Option String)
    → answer.1 ≡ some message
    → around.cancelled ≡ none
    → fall_back opts around answer ≡ (fallback_result opts around message, none)
unfolding fall_back
fall_back-failure opts around message (result, error) fails running =
    rw (fails, fall_back, running) refl

module _ (u : TrafficEvaluation) (course : Course) (input : TrafficEvaluationInput)
    (provider : VerdictProvider) where
  after_failure-blocks :
      (result : VerdictResult) (message : String)
      → u.snapshot ≢ some none
      → policy_action input.fallback_action ≡ ""
      → (after_verdict u course input (result, some message)).decision.action ≡ action_block
  unfolding after_verdict decided policy_decision
  after_failure-blocks result message held unknown =
      evaluate_policy-fails_closed u.snapshot _ result message input.fallback_action held unknown
        refl

  -- If a route is not evaluated as a shadow, its provider of verdicts fails on a text, and the
  -- route has no fallback action that is known, then the evaluation decides to block the text,
  -- whatever the rules and the result beside the error say. It supposes that the interface of the
  -- snapshot does not hold a nil pointer: it holds a snapshot, or is nil itself.
  pub evaluate_traffic-fails_closed :
      (message : String)
      → u.snapshot ≢ some none
      → input.execution ≢ execution_async_shadow
      → input.verdict_provider ≡ some provider
      → (provider (verdict_request input)).1 ≡ some message
      → policy_action input.fallback_action ≡ ""
      → (evaluate_traffic u course input).0.decision.action ≡ action_block
  unfolding evaluate_traffic evaluate_inline
  evaluate_traffic-fails_closed message held inline given fails unknown =
      elim (Bool-cases (input.execution == execution_async_shadow)) [
        | inl e ↦ absurd (inline ((eq_iff input.execution execution_async_shadow).0 e))
        | inr e ↦
            let answer = provider (verdict_request input) in
            rw (e, given, evaluate_inline)
              (subst
                (λ error.
                  (after_verdict u course input (answer.0, error)).decision.action ≡ action_block)
                (sym fails) (after_failure-blocks answer.0 message held unknown))
      ]

  -- The decision of a signal that has fallen back to no action.
  silent-local :
      (snapshot : PolicySnapshot) (signal : ModelSignal)
      → signal.fallback_used ≡ true
      → signal.fallback_action ≡ ""
      → policy_action input.fallback_action ≡ ""
      → let v : TrafficEvaluation = record u { snapshot = snapshot } in
        (policy_decision v course input signal).action
        ≡ (policy_decision v course input no_signal).action
  unfolding policy_decision evaluate_policy evaluate evaluate_snapshot decision_from_model_signal
      known_policy_action
  silent-local none signal used nothing unknown =
      rw (nothing, unknown) (silent-allows (record signal { fallback_action = "" }) used refl)
  silent-local (some none) signal used nothing unknown = refl
  silent-local (some (some s)) signal used nothing unknown =
      rw (nothing, unknown)
        (silent_lem s input (record signal { fallback_action = "" }) used refl
          ∙ sym (local_lem s input ""))

  after_fallback-local :
      (opts : FallbackOptions) (around : Surroundings) (message : String)
      → policy_action input.fallback_action ≡ ""
      → (after_verdict u course input (fallback_result opts around message, none)).decision.action
        ≡ (evaluate_policy_only u course input).decision.action
  unfolding after_verdict evaluate_policy_only decided model_signal_from_verdict fallback_result
  after_fallback-local opts around message unknown = silent-local u.snapshot _ refl unknown unknown

  -- If the provider of a route that is not evaluated as a shadow is one that falls back, the
  -- provider inside it fails before the caller's context ends, and the route has no fallback
  -- action that is known, then the evaluation decides on the action of the local policy alone,
  -- whatever action is configured for falling back.
  pub evaluate_traffic-ignores_fallback :
      (opts : FallbackOptions) (around : Surroundings) (message : String)
      → input.execution ≢ execution_async_shadow
      → input.verdict_provider ≡ some (with_fallback opts around provider)
      → around.cancelled ≡ none
      → (provider (verdict_request input)).1 ≡ some message
      → policy_action input.fallback_action ≡ ""
      → (evaluate_traffic u course input).0.decision.action
        ≡ (evaluate_policy_only u course input).decision.action
  unfolding evaluate_traffic evaluate_inline with_fallback
  evaluate_traffic-ignores_fallback opts around message inline given running fails unknown =
      elim (Bool-cases (input.execution == execution_async_shadow)) [
        | inl e ↦ absurd (inline ((eq_iff input.execution execution_async_shadow).0 e))
        | inr e ↦
            rw
              (
                e,
                given,
                evaluate_inline,
                fall_back-failure opts around message (provider (verdict_request input)) fails
                    running,
              )
              (after_fallback-local opts around message unknown)
      ]
