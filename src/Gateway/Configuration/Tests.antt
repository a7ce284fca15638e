-- ===== src/Gateway/Configuration/Tests.antt =====
-- Bindings of a route to verdict providers, by priority (gateway_config.go).
use kiwi_guard.Common.{
  sort_slice, insert_sorted, some, insert, ℤ, pos, String, false, eq_string, [], ◌∷◌, ok, lookup,
  ◌≡◌, refl,
}
use kiwi_guard.Runtime.Types.{RouteVerdictProviderBindingConfig}
use kiwi_guard.Gateway.Configuration.Providers.{
  HttpProvider, Compiled, bind_route, bind_routes, route_verdict_bindings_by_route,
}
use kiwi_guard.Gateway.Configuration.Providers.Bindings.{
  IsBinding, route_verdict_bindings_by_route-IsBinding,
}

abbrev binding : String → ℤ → RouteVerdictProviderBindingConfig
binding provider priority = record {
  route_key = "chat";
  verdict_provider_key = provider;
  execution_mode = "";
  disabled = false;
  priority = priority;
}

abbrev verdict_provider : HttpProvider
verdict_provider = record { name = "v"; endpoint = "https://v"; api_key = ""; timeout = pos 0 }

abbrev verdict_providers : Compiled
verdict_providers = ("v", verdict_provider) ∷ ("w", verdict_provider) ∷ []

bindings-compiled :
    route_verdict_bindings_by_route
      (binding "v" (pos 2) ∷ binding "w" (pos 1) ∷ [])
      verdict_providers
    ≡ ok (("chat", binding "w" (pos 1)) ∷ [])
unfolding route_verdict_bindings_by_route bind_routes bind_route lookup insert sort_slice
    insert_sorted
bindings-compiled = refl

binding-found :
    lookup {K = String} "chat" (("chat", binding "w" (pos 1)) ∷ []) ≡ some (binding "w" (pos 1))
unfolding lookup
binding-found = refl

route_verdict_bindings_by_route-IsBinding_example :
    IsBinding verdict_providers "chat" (binding "w" (pos 1))
route_verdict_bindings_by_route-IsBinding_example =
    route_verdict_bindings_by_route-IsBinding (binding "v" (pos 2) ∷ binding "w" (pos 1) ∷ [])
      verdict_providers (("chat", binding "w" (pos 1)) ∷ []) "chat" (binding "w" (pos 1))
      bindings-compiled binding-found
