-- ===== src/Gateway/Evaluation/Raising.antt =====
-- What a verdict does to the decision of the local policy
-- (internal/contexts/gateway/application/traffic_evaluation.go).
use kiwi_guard.Common.{
  ◌≤◌, String, false, Option, none, some, ◌==◌, eq_string, Bool-cases, ◌≡◌, refl, ap, ◌∙◌, arith,
  inl, inr, lookup,
}
use kiwi_guard.Policy.Types.{ModelSignal, EvaluationRequest, action_priority, valid_action}
use kiwi_guard.Policy.Compile.{Snapshot}
use kiwi_guard.Policy.Evaluate.{
  evaluate, Visit, conclude, evaluate_snapshot, matches_scope, visit_rule, for_each_candidate_rule,
  model_action, no_signal, first_visit,
}
use kiwi_guard.Verdict.{VerdictProvider}
use kiwi_guard.Gateway.ModelSignal.{
  PolicySnapshot, policy_action, evaluate_policy, known_policy_action, decision_from_model_signal,
}
use kiwi_guard.Gateway.Evaluation.{
  TrafficEvaluationInput, Course, TrafficEvaluation, policy_decision, decided, evaluate_policy_only,
  after_verdict, evaluate_inline, evaluate_traffic, execution_async_shadow,
}

pub invalid_nothing : valid_action "" ≡ false
unfolding valid_action lookup
invalid_nothing = refl

-- A signal without an action leaves the local action.
pub conclude-local :
    (s : Snapshot) (req : EvaluationRequest) (v : Visit)
    → valid_action (model_action req.model_signal) ≡ false
    → (conclude s req v).action ≡ v.action
unfolding conclude
conclude-local s req v invalid = rw invalid refl

conclude-le :
    (s : Snapshot) (req : EvaluationRequest) (v : Visit)
    → action_priority v.action ≤ action_priority (conclude s req v).action
unfolding conclude
conclude-le s req v = ground arith

-- A request, by its signal.
abbrev pub request : TrafficEvaluationInput → ModelSignal → EvaluationRequest
request input signal = record {
  route_key = input.route_key;
  provider = input.provider_key;
  model = input.model;
  direction = input.direction;
  text = input.text;
  model_signal = signal;
}

abbrev pub visit : Snapshot → TrafficEvaluationInput → ModelSignal → Visit
visit s input signal =
    for_each_candidate_rule s (request input signal) (visit_rule (request input signal))
      (first_visit s)

-- The rules do not see the signal.
pub visit_same :
    (s : Snapshot) (input : TrafficEvaluationInput) (a b : ModelSignal)
    → visit s input a ≡ visit s input b
unfolding for_each_candidate_rule visit_rule matches_scope
visit_same s input a b = refl

-- The decision of no signal is to allow where there is no snapshot.
pub allow_lem :
    (fallback : String)
    → action_priority
        (decision_from_model_signal (record no_signal { fallback_action = fallback })).action
      ≡ 0
unfolding decision_from_model_signal known_policy_action action_priority lookup
allow_lem fallback = refl

-- The snapshot's decision of no signal is the local action.
pub local_lem :
    (s : Snapshot) (input : TrafficEvaluationInput) (fallback : String)
    → (evaluate_snapshot s (request input (record no_signal { fallback_action = fallback }))).action
      ≡ (visit s input no_signal).action
unfolding evaluate_snapshot
local_lem s input fallback =
    let silent : ModelSignal = record no_signal { fallback_action = fallback } in
    conclude-local s (request input silent) (visit s input silent) invalid_nothing
    ∙ ap (λ (v : Visit). v.action) (visit_same s input silent no_signal)

local-le :
    (s : Snapshot) (input : TrafficEvaluationInput) (signal : ModelSignal)
    → action_priority (visit s input no_signal).action
      ≤ action_priority (evaluate_snapshot s (request input signal)).action
unfolding evaluate_snapshot
local-le s input signal =
    rw (visit_same s input no_signal signal)
      (conclude-le s (request input signal) (visit s input signal))

module _ (u : TrafficEvaluation) (course : Course) (input : TrafficEvaluationInput) where
  policy_decision-le :
      (snapshot : PolicySnapshot) (signal : ModelSignal)
      → let v : TrafficEvaluation = record u { snapshot = snapshot } in
        action_priority (policy_decision v course input no_signal).action
        ≤ action_priority (policy_decision v course input signal).action
  unfolding policy_decision evaluate_policy evaluate
  policy_decision-le none signal = omega (arith, allow_lem (policy_action input.fallback_action))
  policy_decision-le (some none) signal = omega arith
  policy_decision-le (some (some s)) signal =
      rw (local_lem s input (policy_action input.fallback_action)) (local-le s input _)

  decided-le :
      (signal : ModelSignal)
      → action_priority (policy_decision u course input no_signal).action
        ≤ action_priority (policy_decision u course input signal).action
  decided-le signal = policy_decision-le u.snapshot signal

  evaluate_inline-le :
      (provider : Option VerdictProvider)
      → action_priority (evaluate_policy_only u course input).decision.action
        ≤ action_priority (evaluate_inline u course input provider).decision.action
  unfolding evaluate_policy_only evaluate_inline decided after_verdict
  evaluate_inline-le none = omega arith
  evaluate_inline-le (some provider) = decided-le _

  -- Whatever the provider of verdicts answers or fails with, inline or as a shadow, and with a
  -- snapshot or without: the action that the evaluation of traffic decides on is no weaker than
  -- the one of the local policy alone.
  pub evaluate_traffic-raises :
      action_priority (evaluate_policy_only u course input).decision.action
      ≤ action_priority (evaluate_traffic u course input).0.decision.action
  unfolding evaluate_traffic
  evaluate_traffic-raises = elim (Bool-cases (input.execution == execution_async_shadow)) [
    | inl e ↦ rw e (omega arith)
    | inr e ↦ rw e (evaluate_inline-le input.verdict_provider)
  ]
