-- ===== src/Gateway/ModelSignal.antt =====
-- internal/contexts/gateway/application/usecases.go: the verdict of a model as a signal to the policy,
-- and the evaluation of traffic against a snapshot or, without one, the signal alone.
use kiwi_guard.Common.{
  ◌≤◌, String, Bool, true, false, not, ◌||◌, ◌&&◌, [], Option, none, some, ◌==◌, eq_string,
  if◌then◌else◌, ltb, ◌≡◌, ◌≢◌, refl, sym, subst, lookup, arith, Bool-cases, inl, inr,
}
use kiwi_guard.Common.Utf8.{Bytes}
use kiwi_guard.Detection.{Direction}
use kiwi_guard.Verdict.{VerdictResult}
use kiwi_guard.Policy.Types.{
  Action, ModelSignal, EvaluationRequest, Decision, action_allow, action_block, action_redact,
  action_shadow_log, action_priority, valid_action,
}
use kiwi_guard.Policy.Compile.{Snapshot}
use kiwi_guard.Policy.Evaluate.{evaluate, Visit, conclude, evaluate_snapshot}
use kiwi_guard.Policy.Blocking.{block_unique, block-priority}

pub record PolicyEvaluationInput : Type 0 where
  pub route_key : String
  pub provider_key : String
  pub model : String
  pub direction : Direction
  pub text : Bytes
  pub model_signal : ModelSignal
  pub fallback_action : Action

-- The routing actions have the spelling of the policy's.
unfoldable pub policy_action : String → Action
policy_action action =
    if action == "allow"
    then action_allow
    else if action == "block"
    then action_block
    else if action == "redact"
    then action_redact
    else if action == "shadow_log"
    then action_shadow_log
    else ""

unfoldable pub known_policy_action : Action → Bool
known_policy_action action =
    action == action_allow
    || action == action_block
    || action == action_redact
    || action == action_shadow_log

abbrev pub is_failure : Option String → Bool
is_failure none = false
is_failure (some message) = true

abbrev pub message_or : String → Option String → String
message_or error none = error
message_or error (some message) = message

-- The second argument is the provider's error, by its message.
unfoldable pub model_signal_from_verdict : VerdictResult → Option String → String → ModelSignal
model_signal_from_verdict result err fallback = record {
  suggested_action = policy_action result.suggested_action;
  risk_level = result.risk_level;
  categories = result.categories;
  confidence = result.confidence;
  fallback_action =
      if is_failure err && policy_action fallback == ""
      then action_block
      else policy_action fallback;
  fallback_used = result.fallback_used || is_failure err;
  error = message_or result.error err;
}

unfoldable pub decision_from_model_signal : ModelSignal → Decision
decision_from_model_signal signal =
    let chosen = if signal.fallback_used then signal.fallback_action else signal.suggested_action in
    let action = if not (known_policy_action chosen) then action_allow else chosen in
    record {
      action = action;
      default_action = action_allow;
      rule_hits = [];
      findings = [];
      model_signal = signal;
      model_signal_applied = not (action == action_allow);
      snapshot_hash = "";
      bundle_keys = [];
    }

-- `PolicySnapshot`, the interface: it is nil, or it holds a pointer to a snapshot, which may be nil.
abbrev pub PolicySnapshot : Type 0
PolicySnapshot = Option (Option Snapshot)

-- `PolicyEvaluator.Evaluate`
unfoldable pub evaluate_policy : PolicySnapshot → PolicyEvaluationInput → Decision
unfolding evaluate
evaluate_policy snapshot input =
    let signal =
      if input.model_signal.fallback_action == ""
      then record input.model_signal { fallback_action = input.fallback_action }
      else input.model_signal in
    elim snapshot [
      | none ↦ decision_from_model_signal signal
      | some pointer ↦ evaluate pointer (record {
        route_key = input.route_key;
        provider = input.provider_key;
        model = input.model;
        direction = input.direction;
        text = input.text;
        model_signal = signal;
      })
    ]

valid_block : valid_action action_block ≡ true
unfolding valid_action lookup
valid_block = refl

abbrev IsBlocking : ModelSignal → Type 0
IsBlocking signal = (signal.fallback_used ≡ true) × (signal.fallback_action ≡ action_block)

conclude-blocks :
    (s : Snapshot) (req : EvaluationRequest) (v : Visit)
    → IsBlocking req.model_signal
    → (conclude s req v).action ≡ action_block
unfolding conclude
conclude-blocks s req v (used, blocks) =
    elim (Bool-cases (ltb (action_priority v.action) (action_priority action_block))) [
      | inl e ↦ rw (used, blocks, valid_block, e) refl
      | inr e ↦
          let strong : 3 ≤ action_priority v.action = ground (arith, block-priority) in
          rw (used, blocks, valid_block, e) (block_unique v.action strong)
    ]

decision-blocks :
    (signal : ModelSignal)
    → IsBlocking signal
    → (decision_from_model_signal signal).action ≡ action_block
unfolding decision_from_model_signal known_policy_action
decision-blocks signal (used, blocks) = rw (used, blocks) refl

model_signal_from_verdict-IsBlocking :
    (result : VerdictResult) (message fallback : String)
    → policy_action fallback ≡ ""
    → IsBlocking (model_signal_from_verdict result (some message) fallback)
unfolding model_signal_from_verdict
model_signal_from_verdict-IsBlocking result message fallback unknown =
    rw unknown (ground arith, refl)

abbrev completed : PolicyEvaluationInput → ModelSignal
completed input =
    if input.model_signal.fallback_action == ""
    then record input.model_signal { fallback_action = input.fallback_action }
    else input.model_signal

completed-IsBlocking :
    (input : PolicyEvaluationInput) → IsBlocking input.model_signal → IsBlocking (completed input)
completed-IsBlocking input (used, blocks) =
    let given : (input.model_signal.fallback_action == "") ≡ false = rw blocks refl in
    rw given (used, blocks)

-- If the verdict provider fails and the route has no fallback action that is known, then
-- traffic evaluated with the signal of that failure is blocked, with a snapshot or with a nil
-- interface, whatever the rules and the provider's result say.
pub evaluate_policy-fails_closed :
    (snapshot : PolicySnapshot) (input : PolicyEvaluationInput) (result : VerdictResult)
    (message fallback : String)
    → snapshot ≢ some none
    → policy_action fallback ≡ ""
    → input.model_signal ≡ model_signal_from_verdict result (some message) fallback
    → (evaluate_policy snapshot input).action ≡ action_block
unfolding evaluate_policy evaluate evaluate_snapshot
evaluate_policy-fails_closed none input result message fallback held unknown signal =
    decision-blocks (completed input) (
      completed-IsBlocking input (
        subst IsBlocking (sym signal)
          (model_signal_from_verdict-IsBlocking result message fallback unknown)))
evaluate_policy-fails_closed (some none) input result message fallback held unknown signal =
    absurd (held refl)
evaluate_policy-fails_closed (some (some s)) input result message fallback held unknown signal =
    conclude-blocks s _ _ (
      completed-IsBlocking input (
        subst IsBlocking (sym signal)
          (model_signal_from_verdict-IsBlocking result message fallback unknown)))
