-- ===== src/Gateway/Evaluation/Tests.antt =====
-- The evaluation of a text by a provider of verdicts that fails, alone and behind one that falls back
-- (internal/contexts/gateway/application/traffic_evaluation.go).
use kiwi_guard.Common.{
  ◌≤◌, pos, true, [], ◌∷◌, none, some, ◌≡◌, ◌≢◌, refl, arith, ◌==◌, eq_string, eq_iff,
}
use kiwi_guard.Policy.Types.{action_block, action_priority}
use kiwi_guard.Verdict.{VerdictProvider, FallbackOptions, Surroundings, no_result, with_fallback}
use kiwi_guard.Gateway.ModelSignal.{policy_action}
use kiwi_guard.Gateway.Evaluation.{
  TrafficEvaluationInput, Course, TrafficEvaluation, evaluate_policy_only, evaluate_traffic,
  execution_async_shadow,
}
use kiwi_guard.Gateway.Evaluation.Raising.{evaluate_traffic-raises}
use kiwi_guard.Gateway.Evaluation.Failing.{
  evaluate_traffic-fails_closed, evaluate_traffic-ignores_fallback,
}

abbrev broken : VerdictProvider
broken request = (no_result, some "connection refused")

abbrev allowing : VerdictProvider
allowing request = (record no_result { suggested_action = "allow" }, none)

abbrev blocking_fallback : FallbackOptions
blocking_fallback = record { provider_name = "guard"; timeout = pos 5; action = "block" }

abbrev at_ease : Surroundings
at_ease = record { elapsed = pos 3; cancelled = none }

abbrev chat_text : VerdictProvider → TrafficEvaluationInput
chat_text provider = record {
  request_id = "r1";
  correlation_id = "c1";
  route_key = "chat";
  provider_key = "openai";
  model = "gpt";
  direction = "input";
  text = b'h' ∷ [];
  execution = "sync";
  fallback_action = "";
  verdict_provider = some provider;
}

abbrev prompt : Course
prompt = record { policy_elapsed = pos 1; verdict_elapsed = pos 2; expired = none }

abbrev unconfigured : TrafficEvaluation
unconfigured = record { snapshot = none; observed = true }

sync_inline : "sync" ≢ execution_async_shadow
sync_inline e =
    let equal : ("sync" == execution_async_shadow) ≡ true =
      (eq_iff "sync" execution_async_shadow).1 e in
    ground arith

evaluate_traffic-raises_example :
    action_priority (evaluate_policy_only unconfigured prompt (chat_text allowing)).decision.action
    ≤ action_priority (evaluate_traffic unconfigured prompt (chat_text allowing)).0.decision.action
evaluate_traffic-raises_example = evaluate_traffic-raises unconfigured prompt (chat_text allowing)

evaluate_traffic-fails_closed_example :
    (evaluate_traffic unconfigured prompt (chat_text broken)).0.decision.action ≡ action_block
unfolding policy_action
evaluate_traffic-fails_closed_example =
    evaluate_traffic-fails_closed unconfigured prompt (chat_text broken) broken "connection refused"
      (λ h. cc) sync_inline refl refl refl

abbrev behind_fallback : TrafficEvaluationInput
behind_fallback = chat_text (with_fallback blocking_fallback at_ease broken)

evaluate_traffic-ignores_fallback_example :
    (evaluate_traffic unconfigured prompt behind_fallback).0.decision.action
    ≡ (evaluate_policy_only unconfigured prompt behind_fallback).decision.action
unfolding policy_action
evaluate_traffic-ignores_fallback_example =
    evaluate_traffic-ignores_fallback unconfigured prompt behind_fallback broken blocking_fallback
      at_ease "connection refused" sync_inline refl refl refl refl
