-- ===== src/Control/Types.antt =====
-- internal/contexts/control/application/types.go: the contracts of the control plane and the errors of
-- its use cases.
use kiwi_guard.Common.{ℤ, String, Bool, List}
use kiwi_guard.Common.Utf8.{Bytes}
use kiwi_guard.Policy.Types.{Decision}
use kiwi_guard.Policy.Compile.{SnapshotError}

pub record ConfigStatus : Type 0 where
  pub active_policy_bundle_keys : List String
  pub policy_snapshot_hash : String

pub record Detector : Type 0 where
  pub key : String
  pub kind : String
  pub pattern : String
  pub categories : List String

pub record Scope : Type 0 where
  pub route_key : String
  pub provider : String
  pub model : String
  pub direction : String

pub record Rule : Type 0 where
  pub key : String
  pub enabled : Bool
  pub severity : String
  pub action : String
  pub detector_keys : List String
  pub scope : Scope

pub record PolicyBundle : Type 0 where
  pub key : String
  pub version : String
  pub source : String
  pub default_action : String
  pub detectors : List Detector
  pub rules : List Rule

pub record PolicyActivationRequest : Type 0 where
  pub keys : List String
  pub reason : String
  pub snapshot_hash : String

pub record PolicyActivationResponse : Type 0 where
  pub active_keys : List String
  pub hash : String
  pub notification_error : String
  pub revision_number : ℤ

pub record PolicyDryRunRequest : Type 0 where
  pub route_key : String
  pub provider : String
  pub model : String
  pub direction : String
  pub text : Bytes
  pub bundle : PolicyBundle

pub record PolicyDryRunResponse : Type 0 where
  pub decision : Decision

pub record ModelMapping : Type 0 where
  pub id : String
  pub route_key : String
  pub provider : String
  pub model : String
  pub enabled : Bool

pub record VerdictProvider : Type 0 where
  pub id : String
  pub name : String
  pub endpoint : String
  pub credential_ref : String
  pub mode : String
  pub enabled : Bool

pub record GatewayClient : Type 0 where
  pub id : String
  pub name : String
  pub status : String
  pub key_prefix : String
  pub notes : String

pub record CreateGatewayClientRequest : Type 0 where
  pub id : String
  pub name : String
  pub status : String
  pub notes : String

pub record CreateGatewayClientResponse : Type 0 where
  pub client : GatewayClient
  pub key : String

pub record RouteLimit : Type 0 where
  pub route_key : String
  pub requests_per_window : ℤ
  pub window_seconds : ℤ
  pub max_concurrent_requests : ℤ
  pub max_body_bytes : ℤ
  pub enabled : Bool

pub record ClientRouteLimit : Type 0 where
  pub client_id : String
  pub route_key : String
  pub requests_per_window : ℤ
  pub window_seconds : ℤ
  pub max_concurrent_requests : ℤ
  pub max_body_bytes : ℤ
  pub enabled : Bool

-- The messages of the input that validation refuses, with what they name.
pub data InputError : Type 0 where
  bad_source : String → InputError
  bad_default_action : String → InputError
  bad_detector_kind : String → String → InputError
  bad_severity : String → String → InputError
  bad_rule_action : String → String → InputError
  bad_scope_direction : String → String → InputError
  bad_direction : InputError
  bad_snapshot : SnapshotError → InputError
  bad_mode : InputError
  bad_client_status : InputError
  bad_limit_values : InputError
  client_name_required : InputError
  client_id_required : InputError
  route_key_required : InputError

-- `failed` has the message of an error of another part.
pub data ControlError : Type 0 where
  invalid_input : InputError → ControlError
  gateway_client_not_found : ControlError
  gateway_client_already_exists : ControlError
  policy_bundle_not_found : ControlError
  failed : String → ControlError
