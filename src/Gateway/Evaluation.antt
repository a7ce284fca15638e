-- ===== src/Gateway/Evaluation.antt =====
-- internal/contexts/gateway/application/traffic_evaluation.go: a verdict and the policy on one side of
-- an exchange, inline or, for a shadow, beside it.
pub mod Raising
pub mod Failing
mod Tests
use kiwi_guard.Common.{
  ℤ, pos, String, Bool, true, false, ◌==◌, eq_string, Option, none, some, if◌then◌else◌,
}
use kiwi_guard.Common.Utf8.{Bytes}
use kiwi_guard.Detection.{Direction}
use kiwi_guard.Policy.Types.{ModelSignal, Decision}
use kiwi_guard.Policy.Evaluate.{no_signal}
use kiwi_guard.Verdict.{
  VerdictRequest, VerdictResult, VerdictProvider, no_result, positive_duration,
}
use kiwi_guard.Gateway.ModelSignal.{
  PolicyEvaluationInput, PolicySnapshot, policy_action, model_signal_from_verdict, evaluate_policy,
}

abbrev pub execution_async_shadow : String
execution_async_shadow = "async_shadow"

pub record TrafficEvaluationInput : Type 0 where
  pub request_id : String
  pub correlation_id : String
  pub route_key : String
  pub provider_key : String
  pub model : String
  pub direction : Direction
  pub text : Bytes
  pub execution : String
  pub fallback_action : String
  pub verdict_provider : Option VerdictProvider

pub record TrafficEvaluationResult : Type 0 where
  pub direction : Direction
  pub text : Bytes
  pub verdict : VerdictResult
  pub decision : Decision
  pub detector_latency : ℤ
  pub verdict_latency : ℤ

-- What the clock and the contexts do: the time that the policy and the verdict take, and the cause for
-- which the context of a shadow ends before its provider answers.
pub record Course : Type 0 where
  pub policy_elapsed : ℤ
  pub verdict_elapsed : ℤ
  pub expired : Option String

unfoldable pub verdict_request : TrafficEvaluationInput → VerdictRequest
verdict_request input = record {
  request_id = input.request_id;
  correlation_id = input.correlation_id;
  route_key = input.route_key;
  provider_key = input.provider_key;
  model = input.model;
  direction = input.direction;
  text = input.text;
}

-- `evaluateVerdictBounded`: the answer, unless the context ends first.
unfoldable pub bounded_verdict :
    Option String → VerdictProvider → VerdictRequest → VerdictResult × Option String
bounded_verdict (some cause) provider request = (no_result, some cause)
bounded_verdict none provider request = provider request

-- The use case: its snapshot, and whether it has an observer of shadows.
pub record TrafficEvaluation : Type 0 where
  pub snapshot : PolicySnapshot
  pub observed : Bool

module _ (u : TrafficEvaluation) (course : Course) (input : TrafficEvaluationInput) where
  unfoldable pub policy_decision : ModelSignal → Decision
  policy_decision signal = evaluate_policy u.snapshot (record {
    route_key = input.route_key;
    provider_key = input.provider_key;
    model = input.model;
    direction = input.direction;
    text = input.text;
    model_signal = signal;
    fallback_action = policy_action input.fallback_action;
  })

  -- The result with the decision that a signal leads to, after a verdict that took some time.
  unfoldable pub decided : VerdictResult → ℤ → ModelSignal → TrafficEvaluationResult
  unfolding policy_decision positive_duration
  decided verdict verdict_latency signal = record {
    direction = input.direction;
    text = input.text;
    verdict = verdict;
    decision = policy_decision signal;
    detector_latency = positive_duration course.policy_elapsed;
    verdict_latency = verdict_latency;
  }

  -- `EvaluatePolicyOnly`, and what `Evaluate` does without a verdict.
  unfoldable pub evaluate_policy_only : TrafficEvaluationResult
  unfolding decided
  evaluate_policy_only = decided no_result (pos 0) no_signal

  -- The result that the answer of a provider leads to.
  unfoldable pub after_verdict : VerdictResult × Option String → TrafficEvaluationResult
  unfolding decided
  after_verdict (result, error) =
      decided result (positive_duration course.verdict_elapsed)
        (model_signal_from_verdict result error input.fallback_action)

  -- What the observer of a shadow is given in the end, if a shadow is started.
  unfoldable pub async_shadow : Option VerdictProvider → Option TrafficEvaluationResult
  unfolding after_verdict bounded_verdict verdict_request
  async_shadow none = none
  async_shadow (some provider) =
      if u.observed
      then some (after_verdict (bounded_verdict course.expired provider (verdict_request input)))
      else none

  unfoldable pub evaluate_inline : Option VerdictProvider → TrafficEvaluationResult
  unfolding after_verdict verdict_request evaluate_policy_only
  evaluate_inline none = evaluate_policy_only
  evaluate_inline (some provider) = after_verdict (provider (verdict_request input))

  -- `Evaluate`: what is enforced, and the shadow.
  unfoldable pub evaluate_traffic : TrafficEvaluationResult × Option TrafficEvaluationResult
  unfolding async_shadow evaluate_inline
  evaluate_traffic =
      if input.execution == execution_async_shadow
      then (evaluate_policy_only, async_shadow input.verdict_provider)
      else (evaluate_inline input.verdict_provider, none)
