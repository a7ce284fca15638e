-- ===== src/Gateway/Types.antt =====
-- internal/contexts/gateway/application/types.go: reject reasons, and the inputs and results of the
-- lifecycle decisions. A struct embedded in another is written out as its fields.
use kiwi_guard.Common.{ℕ, String, Bool}
use kiwi_guard.Common.Utf8.{Bytes}
use kiwi_guard.Detection.{Direction}
use kiwi_guard.Policy.Types.{Decision}

abbrev pub RejectReason : Type 0
RejectReason = String

abbrev pub reject_unsupported_path : RejectReason
reject_unsupported_path = "unsupported_path"

abbrev pub reject_missing_provider : RejectReason
reject_missing_provider = "missing_provider"

abbrev pub reject_audit_sink_unhealthy : RejectReason
reject_audit_sink_unhealthy = "audit_sink_unhealthy"

abbrev pub reject_missing_model_mapping : RejectReason
reject_missing_model_mapping = "missing_model_mapping"

abbrev pub reject_invalid_client_key : RejectReason
reject_invalid_client_key = "invalid_client_key"

abbrev pub reject_missing_limit_policy : RejectReason
reject_missing_limit_policy = "missing_limit_policy"

abbrev pub reject_rate_limit_exceeded : RejectReason
reject_rate_limit_exceeded = "rate_limit_exceeded"

abbrev pub reject_concurrency_limit_exceeded : RejectReason
reject_concurrency_limit_exceeded = "concurrency_limit_exceeded"

abbrev pub reject_invalid_json : RejectReason
reject_invalid_json = "invalid_json"

abbrev pub reject_invalid_request : RejectReason
reject_invalid_request = "invalid_request"

abbrev pub reject_request_too_large : RejectReason
reject_request_too_large = "request_too_large"

abbrev pub reject_redaction_failed : RejectReason
reject_redaction_failed = "redaction_failed"

abbrev pub reject_upstream_error : RejectReason
reject_upstream_error = "upstream_error"

abbrev pub reject_upstream_response_too_large : RejectReason
reject_upstream_response_too_large = "upstream_response_too_large"

abbrev pub reject_blocked_input : RejectReason
reject_blocked_input = "blocked_input"

abbrev pub reject_blocked_output : RejectReason
reject_blocked_output = "blocked_output"

pub record LifecycleDecision : Type 0 where
  pub allowed : Bool
  pub reason : RejectReason

pub record ModelMappingInput : Type 0 where
  pub requested_model : String
  pub mapped_model : String
  pub upstream_model : String
  pub found : Bool

pub record ModelMappingResult : Type 0 where
  pub allowed : Bool
  pub reason : RejectReason
  pub requested_model : String
  pub mapped_model : String
  pub upstream_model : String

pub record DecodedRequestInput : Type 0 where
  pub decode_failed : Bool
  pub model_mapping : ModelMappingInput

pub record EnforcementResult : Type 0 where
  pub blocked : Bool
  pub redaction_needed : Bool
  pub reason : RejectReason
  pub allow_observation : Bool

pub record ExchangeInfrastructureInput : Type 0 where
  pub provider_found : Bool
  pub audit_healthy : Bool

pub record PolicyEnforcementInput : Type 0 where
  pub direction : Direction
  pub decision : Decision
  pub redaction_attempted : Bool
  pub redaction_text : Bytes
  pub redaction_count : ℕ
  pub redaction_failed : Bool
  pub redaction_failure_tag : String

pub record PolicyEnforcementResult : Type 0 where
  pub blocked : Bool
  pub redaction_needed : Bool
  pub reason : RejectReason
  pub allow_observation : Bool
  pub redaction_rejected : Bool

-- `InputRequestLifecycleInput`; the output's is this one and the upstream facts.
pub record RequestLifecycleInput : Type 0 where
  pub policy_evaluated : Bool
  pub decision : Decision
  pub redaction_attempted : Bool
  pub redaction_text : Bytes
  pub redaction_count : ℕ
  pub redaction_failed : Bool
  pub redaction_failure_tag : String

-- `InputRequestLifecycleResult` and `OutputResponseLifecycleResult`, which have the same fields.
pub record LifecycleResult : Type 0 where
  pub allowed : Bool
  pub reason : RejectReason
  pub policy_decision_observed : Bool
  pub redaction_needed : Bool
  pub redaction_rejected : Bool

pub record UpstreamResponseInput : Type 0 where
  pub status_code : ℕ
  pub read_failed : Bool
  pub too_large : Bool
  pub decode_failed : Bool

pub record OutputResponseLifecycleInput : Type 0 where
  pub upstream : UpstreamResponseInput
  pub policy : RequestLifecycleInput

pub record UpstreamExchangeInput : Type 0 where
  pub forward_failed : Bool
  pub status_code : ℕ
  pub stream : Bool

pub record UpstreamExchangeResult : Type 0 where
  pub allowed : Bool
  pub reason : RejectReason
  pub stream : Bool

pub record RequestBodyInput : Type 0 where
  pub read_failed : Bool
  pub too_large : Bool

pub record RedactionInput : Type 0 where
  pub text : Bytes
  pub redactions : ℕ
  pub failed : Bool

pub record StreamingLifecycleDecision : Type 0 where
  pub terminated : Bool
  pub termination_reason : String

pub record StreamingDeltaInput : Type 0 where
  pub delta_observed : Bool
  pub policy_decision : Decision
  pub collection_accepted : Bool
