-- ===== src/Gateway/Plans/InputRequest.antt =====
-- internal/contexts/gateway/application/input_request.go
use kiwi_guard.Common.{ℕ, String, Bool, true, not, if◌then◌else◌}
use kiwi_guard.Common.Utf8.{Bytes}
use kiwi_guard.Policy.Types.{Decision}
use kiwi_guard.Gateway.Types.{RejectReason}
use kiwi_guard.Gateway.Lifecycle.{classify_input_request}
use kiwi_guard.Gateway.Plans.Zero.{not_evaluated}

pub data Action : Type 0 where
  block redact send : Action

pub record Plan : Type 0 where
  pub action : Action
  pub reason : RejectReason
  pub termination_reason : String

unfoldable pub block_input_request : RejectReason → String → Plan
block_input_request reason termination = record {
  action = block;
  reason = reason;
  termination_reason = termination;
}

unfoldable pub plan_policy : Decision → Plan
unfolding classify_input_request block_input_request
plan_policy decision =
    let lifecycle =
      classify_input_request
        (record not_evaluated { policy_evaluated = true; decision = decision }) in
    if not lifecycle.allowed
    then block_input_request lifecycle.reason ""
    else if lifecycle.redaction_needed
    then record { action = redact; reason = ""; termination_reason = "" }
    else record { action = send; reason = ""; termination_reason = "" }

pub record RedactionFacts : Type 0 where
  pub decision : Decision
  pub text : Bytes
  pub redactions : ℕ
  pub failed : Bool

unfoldable pub plan_redaction : RedactionFacts → Plan
unfolding classify_input_request block_input_request
plan_redaction input =
    let lifecycle = classify_input_request (record not_evaluated {
      policy_evaluated = true;
      decision = input.decision;
      redaction_attempted = true;
      redaction_text = input.text;
      redaction_count = input.redactions;
      redaction_failed = input.failed;
    }) in
    if not lifecycle.allowed
    then block_input_request lifecycle.reason "redaction_failed"
    else record { action = send; reason = ""; termination_reason = "" }
