-- ===== src/Runtime/Types.antt =====
-- internal/contexts/runtime/application/types.go: the active configuration, independent of storage.
-- Durations are in nanoseconds; the sample rate is a float64 that is only copied: its bits.
use kiwi_guard.Common.{ℕ, ℤ, String, Bool, List}
use kiwi_guard.Common.Utf8.{Bytes}
use kiwi_guard.Policy.Types.{Bundle}

pub record RuntimeRevision : Type 0 where
  pub number : ℤ

pub record RouteConfig : Type 0 where
  pub key : String
  pub method : String
  pub path : String
  pub provider_key : String
  pub requested_model : String
  pub mapped_model : String
  pub upstream_model : String
  pub execution_mode : String
  pub fallback_action : String
  pub disabled : Bool

pub record ProviderConfig : Type 0 where
  pub key : String
  pub base_url : String
  pub api_key : String
  pub credential_ref : String
  pub headers : List (String × String)
  pub timeout : ℤ
  pub disabled : Bool

pub record ModelMappingConfig : Type 0 where
  pub key : String
  pub route_key : String
  pub provider_key : String
  pub requested_model : String
  pub mapped_model : String
  pub upstream_model : String
  pub disabled : Bool

pub record VerdictProviderConfig : Type 0 where
  pub key : String
  pub name : String
  pub endpoint : String
  pub credential_ref : String
  pub enabled : Bool
  pub timeout : ℤ

pub record RouteVerdictProviderBindingConfig : Type 0 where
  pub route_key : String
  pub verdict_provider_key : String
  pub execution_mode : String
  pub disabled : Bool
  pub priority : ℤ

pub record SinkConfig : Type 0 where
  pub id : String
  pub key : String
  pub kind : String
  pub disabled : Bool
  pub config : Bytes

pub record RetentionPolicyConfig : Type 0 where
  pub id : String
  pub key : String
  pub sink_key : String
  pub event_type : String
  pub retention_days : ℤ

pub record RawCaptureConfig : Type 0 where
  pub id : String
  pub route_key : String
  pub direction : String
  pub enabled : Bool
  pub sample_rate : ℕ
  pub redaction_mode : String

pub record GatewayClientConfig : Type 0 where
  pub id : String
  pub name : String
  pub status : String
  pub key_prefix : String
  pub key_hash : String

pub record RouteLimitConfig : Type 0 where
  pub route_key : String
  pub requests_per_window : ℤ
  pub window : ℤ
  pub max_concurrent_requests : ℤ
  pub max_body_bytes : ℤ
  pub disabled : Bool

pub record ClientRouteLimitOverrideConfig : Type 0 where
  pub client_id : String
  pub route_key : String
  pub requests_per_window : ℤ
  pub window : ℤ
  pub max_concurrent_requests : ℤ
  pub max_body_bytes : ℤ
  pub disabled : Bool

pub record RuntimeConfig : Type 0 where
  pub revision : RuntimeRevision
  pub routes : List RouteConfig
  pub providers : List ProviderConfig
  pub model_mappings : List ModelMappingConfig
  pub verdict_providers : List VerdictProviderConfig
  pub route_verdict_provider_bindings : List RouteVerdictProviderBindingConfig
  pub sinks : List SinkConfig
  pub retention : List RetentionPolicyConfig
  pub policy_bundles : List Bundle
  pub raw_capture : List RawCaptureConfig
  pub gateway_clients : List GatewayClientConfig
  pub route_limits : List RouteLimitConfig
  pub client_route_limit_overrides : List ClientRouteLimitOverrideConfig
