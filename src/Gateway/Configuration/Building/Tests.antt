-- ===== src/Gateway/Configuration/Building/Tests.antt =====
-- An example of a whole configuration, with a client, a limited route and a verdict provider.
use kiwi_guard.Common.{
  pos, String, Bool, true, false, not, ◌&&◌, ◌||◌, ◌==◌, eq_string, [], ◌∷◌, none, some, ok,
  sort_slice, insert_sorted, lookup, insert, inl, is_empty, ◌≡◌, refl,
}
use kiwi_guard.Runtime.Types.{RuntimeConfig}
use kiwi_guard.Gateway.Configuration.Limiting.{
  has_key, route_limit_route_keys, collect, check_limits, check_limit, check_overrides,
  enabled_route_keys, known_client_ids, valid_limit_values, limit_policy, protected_route_keys,
  gateway_route_limit_policies, gateway_client_route_limit_overrides,
}
use kiwi_guard.Gateway.Configuration.Routing.{
  Route, gateway_route, enabled_routes, gateway_routes, model_mappings_by_route, add_mappings,
  mapped_route, bound_route,
}
use kiwi_guard.Gateway.Configuration.Providers.{
  HttpProvider, gateway_providers, gateway_verdict_providers, add_verdict_providers,
  add_verdict_provider, verdict_provider_key, verdict_provider_api_key, resolved_credential,
  found_credential, route_verdict_bindings_by_route, bind_routes,
  apply_global_verdict_provider_fallback,
}
use kiwi_guard.Gateway.Configuration.Building.{
  CompileOptions, Config, build_config, with_routes, config_without_routes, gateway_clients,
  gateway_client, gateway_raw_capture_policies,
}
use kiwi_guard.Gateway.Configuration.Building.Protection.{build_config-AsksForKey}

abbrev input : RuntimeConfig
input = record {
  revision = record { number = pos 4 };
  routes =
      record {
        key = "chat";
        method = "POST";
        path = "/v1/chat/completions";
        provider_key = "p";
        requested_model = "";
        mapped_model = "";
        upstream_model = "";
        execution_mode = "inline";
        fallback_action = "block";
        disabled = false;
      }
      ∷ [];
  providers = [];
  model_mappings = [];
  verdict_providers =
      record {
        key = "v";
        name = "Verdicts";
        endpoint = "https://v";
        credential_ref = "secret";
        timeout = pos 5;
        enabled = true;
      }
      ∷ [];
  route_verdict_provider_bindings = [];
  sinks = [];
  retention = [];
  policy_bundles = [];
  raw_capture = [];
  gateway_clients =
      record { id = "c"; name = "Client"; status = "active"; key_prefix = "kgc_c"; key_hash = "" }
      ∷ [];
  route_limits =
      record {
        route_key = "chat";
        requests_per_window = pos 10;
        window = pos 60;
        max_concurrent_requests = pos 2;
        max_body_bytes = pos 1000;
        disabled = false;
      }
      ∷ [];
  client_route_limit_overrides = [];
}

abbrev opts : CompileOptions Bool String
opts = record {
  max_body_bytes = pos 1000;
  upstream_timeout = pos 30;
  verdict_timeout = pos 5;
  event_writer = true;
  audit_gate = "gate";
  credential_resolver = some (λ (ref : String). ok "token");
}

abbrev route : Route
route = record {
  key = "chat";
  method = "POST";
  path = "/v1/chat/completions";
  provider_key = "p";
  verdict_provider_key = "";
  model_mapping = record { requested = ""; mapped = ""; upstream = "" };
  execution = "inline";
  fallback = "block";
  require_client_auth = true;
}

abbrev verdict_provider : HttpProvider
verdict_provider = record {
  name = "Verdicts";
  endpoint = "https://v";
  api_key = "token";
  timeout = pos 5;
}

abbrev cfg : Config Bool String
cfg = record {
  config_revision_number = pos 4;
  max_body_bytes = pos 1000;
  upstream_timeout = pos 30;
  verdict_timeout = pos 5;
  routes = route ∷ [];
  providers = [];
  snapshot = none;
  verdict_provider = some verdict_provider;
  verdict_providers = ("v", verdict_provider) ∷ [];
  event_writer = true;
  audit_gate = "gate";
  raw_capture_policies = [];
  clients =
      record { id = "c"; name = "Client"; status = "active"; key_prefix = "kgc_c"; key_hash = "" }
      ∷ [];
  route_limits =
      record {
        route_key = "chat";
        requests_per_window = pos 10;
        window = pos 60;
        max_concurrent_requests = pos 2;
        max_body_bytes = pos 1000;
        enabled = true;
      }
      ∷ [];
  client_route_limit_overrides = [];
}

built : build_config input opts none ≡ ok cfg
unfolding build_config with_routes config_without_routes gateway_clients gateway_client
    gateway_raw_capture_policies gateway_verdict_providers add_verdict_providers
    add_verdict_provider verdict_provider_key verdict_provider_api_key resolved_credential
    found_credential route_verdict_bindings_by_route bind_routes
    apply_global_verdict_provider_fallback gateway_route_limit_policies check_limits collect
    check_limit has_key enabled_route_keys known_client_ids valid_limit_values limit_policy
    gateway_client_route_limit_overrides check_overrides gateway_providers gateway_routes
    protected_route_keys route_limit_route_keys model_mappings_by_route add_mappings enabled_routes
    gateway_route mapped_route bound_route lookup insert sort_slice insert_sorted
built = refl

build_config-AsksForKey_example : true ≡ (
    has_key (route_limit_route_keys cfg.route_limits) route.key
    || (not (is_empty cfg.clients) && not (route.key == "")))
build_config-AsksForKey_example = build_config-AsksForKey input opts none cfg route built (inl refl)
