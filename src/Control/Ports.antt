-- ===== src/Control/Ports.antt =====
-- internal/contexts/control/application/types.go: the interfaces of the repositories and of the
-- notifier. A repository is a state `S`; a call that may write returns the state it leaves.
use kiwi_guard.Common.{ℤ, String, List, Option, Result}
use kiwi_guard.Control.Types.{
  ConfigStatus, PolicyBundle, PolicyActivationRequest, PolicyActivationResponse, ModelMapping,
  VerdictProvider, GatewayClient, CreateGatewayClientRequest, CreateGatewayClientResponse,
  RouteLimit, ClientRouteLimit, ControlError,
}

abbrev pub Read : Type 0 → Type 0 → Type 0
Read S A = S → Result ControlError A

abbrev pub Write : Type 0 → Type 0
Write S = S → Option ControlError × S

abbrev pub Update : Type 0 → Type 0 → Type 0
Update S A = S → Result ControlError A × S

pub record Repository (S : Type 0) : Type 0 where
  pub config_status : Read S ConfigStatus
  pub list_policy_bundles : Read S (List PolicyBundle)
  pub create_policy_bundle : PolicyBundle → Write S
  pub activate_policy_bundles : PolicyActivationRequest → Update S PolicyActivationResponse
  pub list_model_mappings : Read S (List ModelMapping)
  pub put_model_mapping : ModelMapping → Write S
  pub list_verdict_providers : Read S (List VerdictProvider)
  pub put_verdict_provider : VerdictProvider → Write S
  pub list_gateway_clients : Read S (List GatewayClient)
  pub create_gateway_client : CreateGatewayClientRequest → Update S CreateGatewayClientResponse
  pub patch_gateway_client : GatewayClient → Update S GatewayClient
  pub revoke_gateway_client : String → Update S GatewayClient
  pub list_route_limits : Read S (List RouteLimit)
  pub put_route_limit : RouteLimit → Update S RouteLimit
  pub list_client_route_limits : String → Read S (List ClientRouteLimit)
  pub put_client_route_limit : ClientRouteLimit → Update S ClientRouteLimit
  pub delete_client_route_limit : String → String → Write S

-- `NotifyConfigActivated`: whether it fails for a revision.
pub record Notifier : Type 0 where
  pub notify_config_activated : ℤ → Option String
