-- ===== src/Gateway/Lifecycle.antt =====
-- internal/contexts/gateway/application/lifecycle.go: the decisions of `LifecycleUseCase`.
use kiwi_guard.Common.{
  String, Bool, true, false, not, ◌&&◌, ◌||◌, ◌==◌, eq_string, eq_nat, if◌then◌else◌, leb, is_empty,
}
use kiwi_guard.Detection.{Direction, direction_input, direction_output}
use kiwi_guard.Policy.Types.{Decision, action_block, action_redact}
use kiwi_guard.Gateway.Types.{
  RejectReason, reject_unsupported_path, reject_missing_provider, reject_audit_sink_unhealthy,
  reject_missing_model_mapping, reject_invalid_json, reject_invalid_request,
  reject_request_too_large, reject_redaction_failed, reject_upstream_error,
  reject_upstream_response_too_large, reject_blocked_input, reject_blocked_output,
  LifecycleDecision, ModelMappingInput, ModelMappingResult, DecodedRequestInput, EnforcementResult,
  ExchangeInfrastructureInput, PolicyEnforcementInput, PolicyEnforcementResult,
  RequestLifecycleInput, LifecycleResult, UpstreamResponseInput, OutputResponseLifecycleInput,
  UpstreamExchangeInput, UpstreamExchangeResult, RequestBodyInput, RedactionInput,
  StreamingLifecycleDecision, StreamingDeltaInput,
}

abbrev pub allow : LifecycleDecision
allow = record { allowed = true; reason = "" }

abbrev pub reject : RejectReason → LifecycleDecision
reject reason = record { allowed = false; reason = reason }

unfoldable pub route_available : Bool → LifecycleDecision
route_available found = if not found then reject reject_unsupported_path else allow

unfoldable pub provider_available : Bool → LifecycleDecision
provider_available found = if not found then reject reject_missing_provider else allow

unfoldable pub audit_healthy : Bool → LifecycleDecision
audit_healthy healthy = if not healthy then reject reject_audit_sink_unhealthy else allow

unfoldable pub classify_exchange_infrastructure : ExchangeInfrastructureInput → LifecycleDecision
unfolding provider_available audit_healthy
classify_exchange_infrastructure input =
    let decision = provider_available input.provider_found in
    if not decision.allowed then decision else audit_healthy input.audit_healthy

unfoldable pub resolve_model_mapping : ModelMappingInput → ModelMappingResult
resolve_model_mapping input =
    if not input.found
    then record {
      allowed = false;
      reason = reject_missing_model_mapping;
      requested_model = input.requested_model;
      mapped_model = "";
      upstream_model = "";
    }
    else record {
      allowed = true;
      reason = "";
      requested_model = input.requested_model;
      mapped_model = input.mapped_model;
      upstream_model = input.upstream_model;
    }

unfoldable pub classify_decoded_request : DecodedRequestInput → ModelMappingResult
unfolding resolve_model_mapping
classify_decoded_request input =
    if input.decode_failed
    then record {
      allowed = false;
      reason = reject_invalid_json;
      requested_model = "";
      mapped_model = "";
      upstream_model = "";
    }
    else resolve_model_mapping input.model_mapping

unfoldable pub blocked_reason : Direction → RejectReason
blocked_reason direction =
    if direction == direction_input
    then reject_blocked_input
    else if direction == direction_output
    then reject_blocked_output
    else "blocked"

unfoldable pub redaction_reason : RejectReason → String → RejectReason
redaction_reason reason fallback =
    if not (reason == "")
    then reason
    else if fallback == ""
    then reject_redaction_failed
    else fallback

unfoldable pub classify_enforcement : Direction → Decision → EnforcementResult
unfolding blocked_reason
classify_enforcement direction decision =
    if decision.action == action_block
    then record {
      blocked = true;
      redaction_needed = false;
      reason = blocked_reason direction;
      allow_observation = false;
    }
    else if decision.action == action_redact
    then record { blocked = false; redaction_needed = true; reason = ""; allow_observation = false }
    else record { blocked = false; redaction_needed = false; reason = ""; allow_observation = true }

unfoldable pub classify_redaction : RedactionInput → LifecycleDecision
classify_redaction input =
    if input.failed || (input.redactions == 0 && not (is_empty input.text))
    then reject reject_redaction_failed
    else allow

unfoldable pub classify_policy_enforcement : PolicyEnforcementInput → PolicyEnforcementResult
unfolding classify_enforcement classify_redaction redaction_reason
classify_policy_enforcement input =
    let enforcement = classify_enforcement input.direction input.decision in
    let redaction = classify_redaction (record {
      text = input.redaction_text;
      redactions = input.redaction_count;
      failed = input.redaction_failed;
    }) in
    let result : PolicyEnforcementResult = record {
      blocked = enforcement.blocked;
      redaction_needed = enforcement.redaction_needed;
      reason = enforcement.reason;
      allow_observation = enforcement.allow_observation;
      redaction_rejected = false;
    } in
    if enforcement.blocked || (not enforcement.redaction_needed || not input.redaction_attempted)
    then result
    else if redaction.allowed
    then record result { allow_observation = true }
    else record result {
      redaction_rejected = true;
      reason = redaction_reason redaction.reason input.redaction_failure_tag;
    }

-- `ClassifyInputPolicyEnforcement` and `ClassifyOutputPolicyEnforcement` set the direction.
unfoldable pub classify_input_policy_enforcement : PolicyEnforcementInput → PolicyEnforcementResult
unfolding classify_policy_enforcement
classify_input_policy_enforcement input =
    classify_policy_enforcement (record input { direction = direction_input })

unfoldable pub classify_output_policy_enforcement : PolicyEnforcementInput → PolicyEnforcementResult
unfolding classify_policy_enforcement
classify_output_policy_enforcement input =
    classify_policy_enforcement (record input { direction = direction_output })

abbrev allowed_result : LifecycleResult
allowed_result = record {
  allowed = true;
  reason = "";
  policy_decision_observed = false;
  redaction_needed = false;
  redaction_rejected = false;
}

-- The enforcement input that both lifecycles build; its direction is set by the callee.
abbrev enforcement_input : RequestLifecycleInput → PolicyEnforcementInput
enforcement_input input = record {
  direction = "";
  decision = input.decision;
  redaction_attempted = input.redaction_attempted;
  redaction_text = input.redaction_text;
  redaction_count = input.redaction_count;
  redaction_failed = input.redaction_failed;
  redaction_failure_tag = input.redaction_failure_tag;
}

-- The end of both lifecycles.
abbrev enforced_result : Bool → PolicyEnforcementResult → LifecycleResult
enforced_result attempted enforcement =
    let result : LifecycleResult = record {
      allowed = true;
      reason = "";
      policy_decision_observed = true;
      redaction_needed = enforcement.redaction_needed && not attempted;
      redaction_rejected = enforcement.redaction_rejected;
    } in
    if enforcement.blocked || enforcement.redaction_rejected
    then record result { allowed = false; reason = enforcement.reason }
    else result

unfoldable pub classify_input_request : RequestLifecycleInput → LifecycleResult
unfolding classify_input_policy_enforcement
classify_input_request input =
    if not input.policy_evaluated
    then allowed_result
    else enforced_result input.redaction_attempted
        (classify_input_policy_enforcement (enforcement_input input))

unfoldable pub classify_request_body : RequestBodyInput → LifecycleDecision
classify_request_body input =
    if input.read_failed
    then reject reject_invalid_request
    else if input.too_large
    then reject reject_request_too_large
    else allow

unfoldable pub classify_upstream_response : UpstreamResponseInput → LifecycleDecision
classify_upstream_response input =
    if input.read_failed
    then reject reject_upstream_error
    else if input.too_large
    then reject reject_upstream_response_too_large
    else if leb 400 input.status_code
    then reject reject_upstream_error
    else if input.decode_failed
    then reject reject_upstream_error
    else allow

unfoldable pub classify_output_response : OutputResponseLifecycleInput → LifecycleResult
unfolding classify_upstream_response classify_output_policy_enforcement
classify_output_response input =
    let decision = classify_upstream_response input.upstream in
    if not decision.allowed
    then record allowed_result { allowed = decision.allowed; reason = decision.reason }
    else if not input.policy.policy_evaluated
    then allowed_result
    else enforced_result input.policy.redaction_attempted
        (classify_output_policy_enforcement (enforcement_input input.policy))

-- The argument is `ProjectionFailed`.
unfoldable pub classify_upstream_request : Bool → LifecycleDecision
classify_upstream_request projection_failed =
    if projection_failed then reject reject_invalid_request else allow

unfoldable pub classify_upstream_exchange : UpstreamExchangeInput → UpstreamExchangeResult
classify_upstream_exchange input =
    if input.forward_failed
    then record { allowed = false; reason = reject_upstream_error; stream = false }
    else if input.stream && leb 400 input.status_code
    then record { allowed = false; reason = reject_upstream_error; stream = false }
    else record { allowed = true; reason = ""; stream = input.stream }

abbrev pub proceed : StreamingLifecycleDecision
proceed = record { terminated = false; termination_reason = "" }

unfoldable pub classify_streaming_policy : Decision → StreamingLifecycleDecision
classify_streaming_policy decision =
    if decision.action == action_block
    then record { terminated = true; termination_reason = "stream_blocked" }
    else if decision.action == action_redact
    then record { terminated = true; termination_reason = "unsupported_redaction" }
    else proceed

unfoldable pub classify_streaming_collection : Bool → StreamingLifecycleDecision
classify_streaming_collection appended =
    if not appended
    then record { terminated = true; termination_reason = "stream_output_too_large" }
    else proceed

unfoldable pub classify_streaming_delta : StreamingDeltaInput → StreamingLifecycleDecision
unfolding classify_streaming_policy classify_streaming_collection
classify_streaming_delta input =
    let policy_decision = classify_streaming_policy input.policy_decision in
    if not input.delta_observed
    then proceed
    else if policy_decision.terminated
    then policy_decision
    else classify_streaming_collection input.collection_accepted
