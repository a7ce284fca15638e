-- ===== src/Gateway/Configuration/Limiting.antt =====
-- internal/contexts/gateway/adapters/http/openai/gateway_config.go: the limits, and the routes that
-- they protect.
use kiwi_guard.Common.{
  ℤ, pos, ltb_ℤ, String, Bool, true, false, not, ◌&&◌, ◌||◌, ◌==◌, eq_string, List, [], ◌∷◌, ◌++◌,
  map, Result, ok, err, ◌>>=◌, if◌then◌else◌, is_empty,
}
use kiwi_guard.Runtime.Types.{
  RouteConfig, GatewayClientConfig, RouteLimitConfig, ClientRouteLimitOverrideConfig,
}
use kiwi_guard.Gateway.Limits.{RouteLimitPolicy}
use kiwi_guard.Gateway.Limits.Resolver.{ClientRouteLimitOverride}

pub data LimitError : Type 0 where
  limit_of_unknown_route : String → LimitError
  limit_values : String → LimitError
  override_of_unknown_route : String → LimitError
  override_of_unknown_client : String → LimitError
  override_without_limit : String → LimitError
  override_values : String → String → LimitError

-- The loops over records: those to skip are passed over, and the first error ends the loop.
module _ {E A B : Type 0} (skip : A → Bool) (check : A → Result E B) where
  unfoldable pub collect : List A → Result E (List B)
  collect [] = ok []
  collect (x ∷ xs) =
      let rest = collect xs in
      if skip x then rest else check x >>= (λ b. rest >>= (λ bs. ok (b ∷ bs)))

-- A set of keys is the list of them.
unfoldable pub has_key : List String → String → Bool
has_key [] key = false
has_key (k ∷ ks) key = k == key || has_key ks key

unfoldable pub enabled_route_keys : List RouteConfig → List String
enabled_route_keys [] = []
enabled_route_keys (r ∷ rs) =
    let rest = enabled_route_keys rs in if r.disabled || r.key == "" then rest else r.key ∷ rest

unfoldable pub known_client_ids : List GatewayClientConfig → List String
known_client_ids [] = []
known_client_ids (c ∷ cs) =
    let rest = known_client_ids cs in if c.id == "" then rest else c.id ∷ rest

unfoldable pub route_limit_route_keys : List RouteLimitPolicy → List String
route_limit_route_keys policies = map (λ (p : RouteLimitPolicy). p.route_key) policies

unfoldable pub protected_route_keys :
    List RouteConfig → List GatewayClientConfig → List RouteLimitPolicy → List String
unfolding route_limit_route_keys enabled_route_keys
protected_route_keys routes clients limits =
    if is_empty clients
    then route_limit_route_keys limits
    else route_limit_route_keys limits ++ enabled_route_keys routes

unfoldable pub valid_limit_values : ℤ → ℤ → ℤ → ℤ → Bool
valid_limit_values requests window concurrent body =
    ltb_ℤ (pos 0) requests && ltb_ℤ (pos 0) window && ltb_ℤ (pos 0) concurrent && ltb_ℤ (pos 0) body

unfoldable pub limit_policy : RouteLimitConfig → RouteLimitPolicy
limit_policy r = record {
  route_key = r.route_key;
  requests_per_window = r.requests_per_window;
  window = r.window;
  max_concurrent_requests = r.max_concurrent_requests;
  max_body_bytes = r.max_body_bytes;
  enabled = true;
}

-- A record that is not disabled, with the keys of the enabled routes.
unfoldable pub check_limit : List String → RouteLimitConfig → Result LimitError RouteLimitPolicy
unfolding has_key valid_limit_values limit_policy
check_limit routes r =
    if not (has_key routes r.route_key)
    then err (limit_of_unknown_route r.route_key)
    else if not (
        valid_limit_values r.requests_per_window r.window r.max_concurrent_requests
          r.max_body_bytes)
    then err (limit_values r.route_key)
    else ok (limit_policy r)

unfoldable pub check_limits :
    List String → List RouteLimitConfig → Result LimitError (List RouteLimitPolicy)
unfolding check_limit collect
check_limits routes records =
    collect (λ (r : RouteLimitConfig). r.disabled) (check_limit routes) records

unfoldable pub gateway_route_limit_policies :
    List RouteConfig → List RouteLimitConfig → Result LimitError (List RouteLimitPolicy)
unfolding enabled_route_keys check_limits
gateway_route_limit_policies routes limits = check_limits (enabled_route_keys routes) limits

unfoldable pub limit_override : ClientRouteLimitOverrideConfig → ClientRouteLimitOverride
limit_override r = record {
  client_id = r.client_id;
  route_key = r.route_key;
  requests_per_window = r.requests_per_window;
  window = r.window;
  max_concurrent_requests = r.max_concurrent_requests;
  max_body_bytes = r.max_body_bytes;
  enabled = true;
}

unfoldable pub check_override :
    List String
    → List String
    → List String
    → ClientRouteLimitOverrideConfig
    → Result LimitError ClientRouteLimitOverride
unfolding has_key valid_limit_values limit_override
check_override routes clients limited r =
    if not (has_key routes r.route_key)
    then err (override_of_unknown_route r.route_key)
    else if not (has_key clients r.client_id)
    then err (override_of_unknown_client r.client_id)
    else if not (has_key limited r.route_key)
    then err (override_without_limit r.route_key)
    else if not (
        valid_limit_values r.requests_per_window r.window r.max_concurrent_requests
          r.max_body_bytes)
    then err (override_values r.client_id r.route_key)
    else ok (limit_override r)

unfoldable pub check_overrides :
    List String
    → List String
    → List String
    → List ClientRouteLimitOverrideConfig
    → Result LimitError (List ClientRouteLimitOverride)
unfolding check_override collect
check_overrides routes clients limited records =
    collect (λ (r : ClientRouteLimitOverrideConfig). r.disabled)
      (check_override routes clients limited) records

unfoldable pub gateway_client_route_limit_overrides :
    List RouteConfig
    → List GatewayClientConfig
    → List ClientRouteLimitOverrideConfig
    → List String
    → Result LimitError (List ClientRouteLimitOverride)
unfolding enabled_route_keys known_client_ids check_overrides
gateway_client_route_limit_overrides routes clients overrides limited =
    check_overrides (enabled_route_keys routes) (known_client_ids clients) limited overrides
