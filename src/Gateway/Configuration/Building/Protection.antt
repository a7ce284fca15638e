-- ===== src/Gateway/Configuration/Building/Protection.antt =====
-- Which routes of a gateway's configuration ask for a client key
-- (`BuildConfig` of internal/contexts/gateway/adapters/http/openai/gateway_config.go).
use kiwi_guard.Common.{
  not, ◌&&◌, ◌||◌, ◌==◌, eq_string, List, [], ◌∷◌, is_empty, Option, ok, >>=-eq-ok, map_err,
  map_err-eq-ok, ok-injective, In, ◌≡◌, refl, ap, sym, ◌∙◌, subst,
}
use kiwi_guard.Policy.Compile.{Snapshot}
use kiwi_guard.Runtime.Types.{RuntimeConfig, GatewayClientConfig}
use kiwi_guard.Gateway.Configuration.Limiting.{
  has_key, route_limit_route_keys, gateway_route_limit_policies,
  gateway_client_route_limit_overrides,
}
use kiwi_guard.Gateway.Configuration.Routing.{Route}
use kiwi_guard.Gateway.Configuration.Routing.Protection.{gateway_routes-require_client_auth}
use kiwi_guard.Gateway.Configuration.Providers.{
  Bound, gateway_providers, gateway_verdict_providers, route_verdict_bindings_by_route,
  apply_global_verdict_provider_fallback,
}
use kiwi_guard.Gateway.Configuration.Building.{
  CompileOptions, Config, gateway_clients, verdict_provider_failed, verdict_bindings_failed,
  route_limits_failed, overrides_failed, provider_failed, routes_failed, with_routes,
  config_without_routes, build_config,
}

gateway_clients-is_empty :
    (clients : List GatewayClientConfig) → is_empty (gateway_clients clients) ≡ is_empty clients
unfolding gateway_clients
gateway_clients-is_empty [] = refl
gateway_clients-is_empty (c ∷ cs) = refl

-- A route that has a limit in the configuration asks for a key, and where it has clients all do.
abbrev pub AsksForKey : {W G : Type 0} → Config W G → Route → Type 0
AsksForKey cfg r = r.require_client_auth ≡ (
    has_key (route_limit_route_keys cfg.route_limits) r.key
    || (not (is_empty cfg.clients) && not (r.key == "")))

module _ {W G : Type 0} (input : RuntimeConfig) (opts : CompileOptions W G)
    (snapshot : Option Snapshot) where
  with_routes-AsksForKey :
      (bindings : Bound) (draft cfg : Config W G) (r : Route)
      → draft.clients ≡ gateway_clients input.gateway_clients
      → with_routes input opts snapshot bindings draft ≡ ok cfg
      → In r cfg.routes
      → AsksForKey cfg r
  unfolding with_routes
  with_routes-AsksForKey bindings draft cfg r c h m =
      let (routes, compiled, made) = >>=-eq-ok (map_err routes_failed _) _ h in
      let is : record draft { routes = routes } ≡ cfg = ok-injective made in
      let auth =
        gateway_routes-require_client_auth input.routes input.model_mappings bindings
          input.gateway_clients draft.route_limits routes r (map_err-eq-ok routes_failed _ compiled)
          (subst (λ (x : Config W G). In r x.routes) (sym is) m) in
      let same : is_empty draft.clients ≡ is_empty input.gateway_clients =
        ap is_empty c ∙ gateway_clients-is_empty input.gateway_clients in
      subst (λ (x : Config W G). AsksForKey x r) is
        (auth
          ∙ ap
              (λ b.
                has_key (route_limit_route_keys draft.route_limits) r.key
                || (not b && not (r.key == "")))
              (sym same))

  -- If the configuration of the gateway builds, a route of it asks for a client key exactly if
  -- the configuration has a limit for the route's key, or it has clients and the route's key is
  -- not empty.
  pub build_config-AsksForKey :
      (cfg : Config W G) (r : Route)
      → build_config input opts snapshot ≡ ok cfg
      → In r cfg.routes
      → AsksForKey cfg r
  unfolding build_config config_without_routes
  build_config-AsksForKey cfg r h m =
      let (by_key, _, h1) =
        >>=-eq-ok
          (map_err verdict_provider_failed
            (gateway_verdict_providers opts.credential_resolver input.verdict_providers))
          _ h in
      let (bindings, _, h2) =
        >>=-eq-ok
          (map_err verdict_bindings_failed
            (route_verdict_bindings_by_route input.route_verdict_provider_bindings by_key))
          _ h1 in
      let (global, _, h3) =
        >>=-eq-ok
          (map_err verdict_provider_failed (apply_global_verdict_provider_fallback by_key bindings))
          _ h2 in
      let (limits, _, h4) =
        >>=-eq-ok
          (map_err route_limits_failed
            (gateway_route_limit_policies input.routes input.route_limits))
          _ h3 in
      let (overrides, _, h5) =
        >>=-eq-ok
          (map_err overrides_failed (
            gateway_client_route_limit_overrides input.routes input.gateway_clients
              input.client_route_limit_overrides (route_limit_route_keys limits)))
          _ h4 in
      let (providers, _, h6) =
        >>=-eq-ok
          (map_err provider_failed (gateway_providers opts.credential_resolver input.providers)) _
          h5 in
      with_routes-AsksForKey bindings
        (config_without_routes input opts snapshot by_key global limits overrides providers) cfg r
        refl h6 m
