-- ===== src/Gateway/Plans/ExchangePreparation.antt =====
-- internal/contexts/gateway/application/exchange_preparation.go
use kiwi_guard.Common.{String, Bool, not, if◌then◌else◌}
use kiwi_guard.Gateway.Types.{RejectReason, DecodedRequestInput, ExchangeInfrastructureInput}
use kiwi_guard.Gateway.Lifecycle.{
  route_available, classify_exchange_infrastructure, classify_decoded_request,
}

pub data Action : Type 0 where
  block continue : Action

pub record Plan : Type 0 where
  pub action : Action
  pub reason : RejectReason
  pub requested_model : String
  pub mapped_model : String
  pub upstream_model : String

abbrev continue_plan : Plan
continue_plan = record {
  action = continue;
  reason = "";
  requested_model = "";
  mapped_model = "";
  upstream_model = "";
}

unfoldable pub block_exchange_preparation : RejectReason → Plan
block_exchange_preparation reason = record continue_plan { action = block; reason = reason }

unfoldable pub plan_route_availability : Bool → Plan
unfolding route_available block_exchange_preparation
plan_route_availability found =
    let decision = route_available found in
    if not decision.allowed then block_exchange_preparation decision.reason else continue_plan

unfoldable pub plan_infrastructure : ExchangeInfrastructureInput → Plan
unfolding classify_exchange_infrastructure block_exchange_preparation
plan_infrastructure input =
    let decision = classify_exchange_infrastructure input in
    if not decision.allowed then block_exchange_preparation decision.reason else continue_plan

unfoldable pub plan_decoded_request : DecodedRequestInput → Plan
unfolding classify_decoded_request
plan_decoded_request input =
    let models = classify_decoded_request input in
    let plan : Plan = record {
      action = continue;
      reason = "";
      requested_model = models.requested_model;
      mapped_model = models.mapped_model;
      upstream_model = models.upstream_model;
    } in
    if not models.allowed then record plan { action = block; reason = models.reason } else plan
