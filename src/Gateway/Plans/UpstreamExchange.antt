-- ===== src/Gateway/Plans/UpstreamExchange.antt =====
-- internal/contexts/gateway/application/upstream_exchange.go
use kiwi_guard.Common.{ℕ, Bool, false, not, if◌then◌else◌}
use kiwi_guard.Gateway.Types.{RejectReason}
use kiwi_guard.Gateway.Lifecycle.{classify_upstream_exchange}

pub data Action : Type 0 where
  block handle_stream handle_response : Action

pub record Plan : Type 0 where
  pub action : Action
  pub reason : RejectReason

unfoldable pub block_upstream_exchange : RejectReason → Plan
block_upstream_exchange reason = record { action = block; reason = reason }

unfoldable pub plan_forward : Bool → Plan
unfolding classify_upstream_exchange block_upstream_exchange
plan_forward forward_failed =
    let upstream =
      classify_upstream_exchange
        (record { forward_failed = forward_failed; status_code = 0; stream = false }) in
    if not upstream.allowed
    then block_upstream_exchange upstream.reason
    else record { action = handle_response; reason = "" }

unfoldable pub plan_response : ℕ → Bool → Plan
unfolding classify_upstream_exchange block_upstream_exchange
plan_response status_code stream =
    let upstream =
      classify_upstream_exchange
        (record { forward_failed = false; status_code = status_code; stream = stream }) in
    if not upstream.allowed
    then block_upstream_exchange upstream.reason
    else if upstream.stream
    then record { action = handle_stream; reason = "" }
    else record { action = handle_response; reason = "" }
