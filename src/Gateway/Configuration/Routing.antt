-- ===== src/Gateway/Configuration/Routing.antt =====
-- internal/contexts/gateway/adapters/http/openai/gateway_config.go: the routes, with their model
-- mappings, verdict providers and protection; and internal/contexts/routing/domain/types.go.
pub mod Protection
use kiwi_guard.Common.{
  String, Bool, true, false, not, ◌&&◌, ◌||◌, ◌==◌, eq_string, List, [], ◌∷◌, Option, none, some,
  Result, ok, err, ◌>>=◌, if◌then◌else◌, lookup, insert,
}
use kiwi_guard.Runtime.Types.{RouteConfig, ModelMappingConfig, RouteVerdictProviderBindingConfig}
use kiwi_guard.Gateway.Configuration.Limiting.{has_key}

pub record ModelMapping : Type 0 where
  pub requested : String
  pub mapped : String
  pub upstream : String

-- `Execution` and `Fallback` are strings.
pub record Route : Type 0 where
  pub key : String
  pub method : String
  pub path : String
  pub provider_key : String
  pub verdict_provider_key : String
  pub model_mapping : ModelMapping
  pub execution : String
  pub fallback : String
  pub require_client_auth : Bool

pub record ResolvedModelMapping : Type 0 where
  pub requested : String
  pub mapped : String
  pub upstream : String
  pub found : Bool

-- The first of two that is not empty.
abbrev or_else : String → String → String
or_else a b = if a == "" then b else a

unfoldable pub resolve : String → ModelMapping → ResolvedModelMapping
resolve requested m =
    let mapped = or_else m.mapped requested in
    let upstream =
      if not (m.upstream == "") && (m.requested == "" || m.requested == requested)
      then m.upstream
      else mapped in
    if not (m.requested == "") && not (m.requested == requested)
    then record { requested = ""; mapped = ""; upstream = ""; found = false }
    else record {
      requested = requested;
      mapped = mapped;
      upstream = or_else upstream requested;
      found = true;
    }

pub record RouteModelMapping : Type 0 where
  pub key : String
  pub provider_key : String
  pub mapping : ModelMapping

-- A route with two active model mappings, by its key and theirs.
pub record DuplicateMappings : Type 0 where
  pub route : String
  pub first : String
  pub second : String

unfoldable pub route_mapping : ModelMappingConfig → RouteModelMapping
route_mapping r = record {
  key = r.key;
  provider_key = r.provider_key;
  mapping = record {
    requested = r.requested_model;
    mapped = r.mapped_model;
    upstream = r.upstream_model;
  };
}

unfoldable pub add_mapping :
    ModelMappingConfig
    → Option RouteModelMapping
    → List (String × RouteModelMapping)
    → Result DuplicateMappings (List (String × RouteModelMapping))
unfolding route_mapping
add_mapping r none mappings = ok (insert r.route_key (route_mapping r) mappings)
add_mapping r (some existing) mappings =
    err (record { route = r.route_key; first = existing.key; second = r.key })

-- The loop, with the mappings so far.
unfoldable pub add_mappings :
    List ModelMappingConfig
    → List (String × RouteModelMapping)
    → Result DuplicateMappings (List (String × RouteModelMapping))
unfolding add_mapping
add_mappings [] mappings = ok mappings
add_mappings (r ∷ rs) mappings =
    if r.disabled || r.route_key == ""
    then add_mappings rs mappings
    else add_mapping r (lookup r.route_key mappings) mappings >>= add_mappings rs

unfoldable pub model_mappings_by_route :
    List ModelMappingConfig → Result DuplicateMappings (List (String × RouteModelMapping))
unfolding add_mappings
model_mappings_by_route records = add_mappings records []

-- The model mapping of a route, and its provider.
unfoldable pub mapped_route : RouteConfig → Option RouteModelMapping → ModelMapping × String
mapped_route r none = (
  record { requested = r.requested_model; mapped = r.mapped_model; upstream = r.upstream_model },
  r.provider_key,
)
mapped_route r (some m) = (m.mapping, or_else m.provider_key r.provider_key)

-- The verdict provider of a route, and its execution mode.
unfoldable pub bound_route :
    RouteConfig → Option RouteVerdictProviderBindingConfig → String × String
bound_route r none = ("", r.execution_mode)
bound_route r (some b) = (b.verdict_provider_key, or_else b.execution_mode r.execution_mode)

module _ (mappings : List (String × RouteModelMapping))
    (bindings : List (String × RouteVerdictProviderBindingConfig)) (protected : List String) where
  unfoldable pub gateway_route : RouteConfig → Route
  unfolding mapped_route bound_route has_key
  gateway_route r =
      let (mapping, provider_key) = mapped_route r (lookup r.key mappings) in
      let (verdict_provider_key, execution) = bound_route r (lookup r.key bindings) in
      record {
        key = r.key;
        method = r.method;
        path = r.path;
        provider_key = provider_key;
        verdict_provider_key = verdict_provider_key;
        model_mapping = mapping;
        execution = execution;
        fallback = r.fallback_action;
        require_client_auth = has_key protected r.key;
      }

  unfoldable pub enabled_routes : List RouteConfig → List Route
  unfolding gateway_route
  enabled_routes [] = []
  enabled_routes (r ∷ rs) =
      let rest = enabled_routes rs in if r.disabled then rest else gateway_route r ∷ rest

unfoldable pub gateway_routes :
    List RouteConfig
    → List ModelMappingConfig
    → List (String × RouteVerdictProviderBindingConfig)
    → List String
    → Result DuplicateMappings (List Route)
unfolding model_mappings_by_route enabled_routes
gateway_routes routes records bindings protected =
    model_mappings_by_route records
    >>= (λ mappings. ok (enabled_routes mappings bindings protected routes))
