-- ===== src/Gateway/Plans/Zero.antt =====
-- The zero values that callers of the lifecycle leave out (internal/contexts/gateway/application).
use kiwi_guard.Common.{false, []}
use kiwi_guard.Policy.Types.{Decision}
use kiwi_guard.Policy.Evaluate.{no_signal}
use kiwi_guard.Gateway.Types.{RequestLifecycleInput}

-- The zero `Decision`, where a caller leaves the field out.
abbrev pub no_decision : Decision
no_decision = record {
  action = "";
  default_action = "";
  rule_hits = [];
  findings = [];
  model_signal = no_signal;
  model_signal_applied = false;
  snapshot_hash = "";
  bundle_keys = [];
}

abbrev pub not_evaluated : RequestLifecycleInput
not_evaluated = record {
  policy_evaluated = false;
  decision = no_decision;
  redaction_attempted = false;
  redaction_text = [];
  redaction_count = 0;
  redaction_failed = false;
  redaction_failure_tag = "";
}
