-- ===== src/Gateway/Plans/OutputResponse.antt =====
-- internal/contexts/gateway/application/output_response.go
use kiwi_guard.Common.{ℕ, String, Bool, true, false, not, if◌then◌else◌}
use kiwi_guard.Common.Utf8.{Bytes}
use kiwi_guard.Policy.Types.{Decision}
use kiwi_guard.Gateway.Types.{RejectReason, UpstreamResponseInput}
use kiwi_guard.Gateway.Lifecycle.{classify_output_response}
use kiwi_guard.Gateway.Plans.Zero.{not_evaluated}

pub data Action : Type 0 where
  block extract_text evaluate_policy redact send : Action

pub record Plan : Type 0 where
  pub action : Action
  pub reason : RejectReason
  pub emit_policy_decision : Bool
  pub termination_reason : String

unfoldable pub block_output_response : RejectReason → Bool → String → Plan
block_output_response reason emit_policy_decision termination = record {
  action = block;
  reason = reason;
  emit_policy_decision = emit_policy_decision;
  termination_reason = termination;
}

abbrev upstream_of : ℕ → UpstreamResponseInput
upstream_of status_code = record {
  status_code = status_code;
  read_failed = false;
  too_large = false;
  decode_failed = false;
}

-- Arguments: the status code, `ReadFailed` and `TooLarge`.
unfoldable pub plan_body_read : ℕ → Bool → Bool → Plan
unfolding classify_output_response block_output_response
plan_body_read status_code read_failed too_large =
    let lifecycle = classify_output_response (record {
      upstream = record (upstream_of status_code) {
        read_failed = read_failed;
        too_large = too_large;
      };
      policy = not_evaluated;
    }) in
    if not lifecycle.allowed
    then block_output_response lifecycle.reason false lifecycle.reason
    else record {
      action = extract_text;
      reason = "";
      emit_policy_decision = false;
      termination_reason = "";
    }

-- Arguments: the status code and `DecodeFailed`.
unfoldable pub plan_extraction : ℕ → Bool → Plan
unfolding classify_output_response block_output_response
plan_extraction status_code decode_failed =
    let lifecycle = classify_output_response (record {
      upstream = record (upstream_of status_code) { decode_failed = decode_failed };
      policy = not_evaluated;
    }) in
    if not lifecycle.allowed
    then block_output_response lifecycle.reason false lifecycle.reason
    else record {
      action = evaluate_policy;
      reason = "";
      emit_policy_decision = false;
      termination_reason = "";
    }

unfoldable pub plan_policy : ℕ → Decision → Plan
unfolding classify_output_response block_output_response
plan_policy status_code decision =
    let lifecycle = classify_output_response (record {
      upstream = upstream_of status_code;
      policy = record not_evaluated { policy_evaluated = true; decision = decision };
    }) in
    if not lifecycle.allowed
    then block_output_response lifecycle.reason true ""
    else if lifecycle.redaction_needed
    then record {
      action = redact;
      reason = "";
      emit_policy_decision = true;
      termination_reason = "";
    }
    else record { action = send; reason = ""; emit_policy_decision = true; termination_reason = "" }

pub record RedactionFacts : Type 0 where
  pub status_code : ℕ
  pub decision : Decision
  pub text : Bytes
  pub redactions : ℕ
  pub failed : Bool

unfoldable pub plan_redaction : RedactionFacts → Plan
unfolding classify_output_response block_output_response
plan_redaction input =
    let lifecycle = classify_output_response (record {
      upstream = upstream_of input.status_code;
      policy = record not_evaluated {
        policy_evaluated = true;
        decision = input.decision;
        redaction_attempted = true;
        redaction_text = input.text;
        redaction_count = input.redactions;
        redaction_failed = input.failed;
      };
    }) in
    if not lifecycle.allowed
    then block_output_response lifecycle.reason true "redaction_failed"
    else record { action = send; reason = ""; emit_policy_decision = true; termination_reason = "" }
