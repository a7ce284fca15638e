-- ===== src/Gateway/Configuration/Building.antt =====
-- `BuildConfig` of internal/contexts/gateway/adapters/http/openai/gateway_config.go: the whole
-- configuration of the gateway, made of the runtime's. The event writer and the audit gate, which are
-- passed on, are of any type.
pub mod Protection
mod Tests
use kiwi_guard.Common.{
  ℕ, ℤ, String, Bool, not, ◌&&◌, ◌||◌, ◌==◌, eq_string, List, [], ◌∷◌, map, is_empty, Option,
  Result, ok, err, ◌>>=◌, map_err, >>=-eq-ok, map_err-eq-ok, ok-injective, In, ◌≡◌, refl, ap, sym,
  ◌∙◌, subst, arith,
}
use kiwi_guard.Policy.Compile.{Snapshot}
use kiwi_guard.Runtime.Types.{RuntimeConfig, RawCaptureConfig, GatewayClientConfig}
use kiwi_guard.Gateway.Limits.{RouteLimitPolicy}
use kiwi_guard.Gateway.Limits.Resolver.{ClientRouteLimitOverride}
use kiwi_guard.Gateway.Configuration.Limiting.{
  LimitError, has_key, route_limit_route_keys, protected_route_keys, gateway_route_limit_policies,
  gateway_client_route_limit_overrides,
}
use kiwi_guard.Gateway.Configuration.Routing.{Route, DuplicateMappings, gateway_routes}
use kiwi_guard.Gateway.Configuration.Routing.Protection.{gateway_routes-require_client_auth}
use kiwi_guard.Gateway.Configuration.Providers.{
  CredentialResolver, CredentialError, Provider, HttpProvider, Compiled, Bound,
  VerdictProviderError, gateway_providers, gateway_verdict_providers,
  route_verdict_bindings_by_route, apply_global_verdict_provider_fallback,
}

pub record RawCapturePolicy : Type 0 where
  pub id : String
  pub route_key : String
  pub direction : String
  pub enabled : Bool
  pub sample_rate : ℕ
  pub redaction_mode : String

unfoldable pub gateway_raw_capture_policies : List RawCaptureConfig → List RawCapturePolicy
gateway_raw_capture_policies = map (λ (capture : RawCaptureConfig). record {
  id = capture.id;
  route_key = capture.route_key;
  direction = capture.direction;
  enabled = capture.enabled;
  sample_rate = capture.sample_rate;
  redaction_mode = capture.redaction_mode;
})

pub record Client : Type 0 where
  pub id : String
  pub name : String
  pub status : String
  pub key_prefix : String
  pub key_hash : String

unfoldable pub gateway_client : GatewayClientConfig → Client
gateway_client client = record {
  id = client.id;
  name = client.name;
  status = client.status;
  key_prefix = client.key_prefix;
  key_hash = client.key_hash;
}

unfoldable pub gateway_clients : List GatewayClientConfig → List Client
unfolding gateway_client
gateway_clients [] = []
gateway_clients (client ∷ clients) = gateway_client client ∷ gateway_clients clients

pub data BuildError : Type 0 where
  verdict_provider_failed : VerdictProviderError → BuildError
  verdict_bindings_failed : VerdictProviderError → BuildError
  route_limits_failed : LimitError → BuildError
  overrides_failed : LimitError → BuildError
  provider_failed : CredentialError → BuildError
  routes_failed : DuplicateMappings → BuildError

pub record CompileOptions (W G : Type 0) : Type 0 where
  pub max_body_bytes : ℤ
  pub upstream_timeout : ℤ
  pub verdict_timeout : ℤ
  pub event_writer : W
  pub audit_gate : G
  pub credential_resolver : CredentialResolver

pub record Config (W G : Type 0) : Type 0 where
  pub config_revision_number : ℤ
  pub max_body_bytes : ℤ
  pub upstream_timeout : ℤ
  pub verdict_timeout : ℤ
  pub routes : List Route
  pub providers : List Provider
  pub snapshot : Option Snapshot
  pub verdict_provider : Option HttpProvider
  pub verdict_providers : Compiled
  pub event_writer : W
  pub audit_gate : G
  pub raw_capture_policies : List RawCapturePolicy
  pub clients : List Client
  pub route_limits : List RouteLimitPolicy
  pub client_route_limit_overrides : List ClientRouteLimitOverride

module _ {W G : Type 0} (input : RuntimeConfig) (opts : CompileOptions W G)
    (snapshot : Option Snapshot) where
  -- The configuration but for its routes.
  unfoldable pub config_without_routes :
      Compiled
      → Option HttpProvider
      → List RouteLimitPolicy
      → List ClientRouteLimitOverride
      → List Provider
      → Config W G
  unfolding gateway_raw_capture_policies gateway_clients
  config_without_routes by_key global limits overrides providers = record {
    config_revision_number = input.revision.number;
    max_body_bytes = opts.max_body_bytes;
    upstream_timeout = opts.upstream_timeout;
    verdict_timeout = opts.verdict_timeout;
    routes = [];
    providers = providers;
    snapshot = snapshot;
    verdict_provider = global;
    verdict_providers = by_key;
    event_writer = opts.event_writer;
    audit_gate = opts.audit_gate;
    raw_capture_policies = gateway_raw_capture_policies input.raw_capture;
    clients = gateway_clients input.gateway_clients;
    route_limits = limits;
    client_route_limit_overrides = overrides;
  }

  -- The routes, once all else is compiled.
  unfoldable pub with_routes : Bound → Config W G → Result BuildError (Config W G)
  unfolding gateway_routes protected_route_keys
  with_routes bindings cfg =
      map_err routes_failed (
        gateway_routes input.routes input.model_mappings bindings
          (protected_route_keys input.routes input.gateway_clients cfg.route_limits))
      >>= (λ routes. ok (record cfg { routes = routes }))

  unfoldable pub build_config : Result BuildError (Config W G)
  unfolding gateway_verdict_providers route_verdict_bindings_by_route
      apply_global_verdict_provider_fallback gateway_route_limit_policies
      gateway_client_route_limit_overrides gateway_providers config_without_routes with_routes
  build_config =
      map_err verdict_provider_failed
        (gateway_verdict_providers opts.credential_resolver input.verdict_providers)
      >>= (λ by_key.
          map_err verdict_bindings_failed
            (route_verdict_bindings_by_route input.route_verdict_provider_bindings by_key)
          >>= (λ bindings.
              map_err verdict_provider_failed
                (apply_global_verdict_provider_fallback by_key bindings)
              >>= (λ global.
                  map_err route_limits_failed
                    (gateway_route_limit_policies input.routes input.route_limits)
                  >>= (λ limits.
                      map_err overrides_failed (
                        gateway_client_route_limit_overrides input.routes input.gateway_clients
                          input.client_route_limit_overrides (route_limit_route_keys limits))
                      >>= (λ overrides.
                          map_err provider_failed
                            (gateway_providers opts.credential_resolver input.providers)
                          >>= (λ providers.
                              with_routes bindings (
                                config_without_routes by_key global limits overrides
                                  providers)))))))
