-- ===== src/Gateway/Limits/Resolver.antt =====
-- internal/contexts/gateway/adapters/http/openai/limits.go: `limitResolver`, the policy that applies
-- to a client on a route.
use kiwi_guard.Common.{
  ◌<◌, ℤ, pos, pos_part, ltb_ℤ, String, Bool, true, false, not, ◌&&◌, List, [], ◌∷◌, Option, none,
  some, some-injective, ◌≡◌, ◌∙◌, negsuc, subst, ◌==◌, eq_string, if◌then◌else◌, lookup, insert,
  lookup-insert, arith, Bool-cases, Option-cases, inl, inr,
}
use kiwi_guard.Gateway.Limits.{RouteLimitPolicy, limit_key}

pub record ClientRouteLimitOverride : Type 0 where
  pub client_id : String
  pub route_key : String
  pub requests_per_window : ℤ
  pub window : ℤ
  pub max_concurrent_requests : ℤ
  pub max_body_bytes : ℤ
  pub enabled : Bool

-- What the resolver reads of a route.
pub record LimitedRoute : Type 0 where
  pub key : String
  pub require_client_auth : Bool

-- `protected_routes` is a set: the keys of its map.
pub record LimitResolver : Type 0 where
  pub protected_routes : List (String × Unit {0})
  pub route_policies : List (String × RouteLimitPolicy)
  pub overrides : List (String × RouteLimitPolicy)

abbrev pub positive : ℤ → Bool
positive n = ltb_ℤ (pos 0) n

unfoldable pub valid_route_limit_policy : RouteLimitPolicy → Bool
valid_route_limit_policy policy =
    policy.enabled
    && not (policy.route_key == "")
    && positive policy.requests_per_window
    && positive policy.window
    && positive policy.max_concurrent_requests
    && positive policy.max_body_bytes

unfoldable pub valid_client_route_limit_override : ClientRouteLimitOverride → Bool
valid_client_route_limit_override override =
    override.enabled
    && not (override.client_id == "")
    && not (override.route_key == "")
    && positive override.requests_per_window
    && positive override.window
    && positive override.max_concurrent_requests
    && positive override.max_body_bytes

-- The three loops of `newLimitResolver`.
unfoldable pub add_routes : List LimitedRoute → LimitResolver → LimitResolver
add_routes [] r = r
add_routes (route ∷ routes) r = add_routes routes (
    if not (route.key == "") && route.require_client_auth
    then record r { protected_routes = insert route.key tt r.protected_routes }
    else r)

unfoldable pub add_policies : List RouteLimitPolicy → LimitResolver → LimitResolver
add_policies [] r = r
add_policies (policy ∷ policies) r = add_policies policies (
    if not (valid_route_limit_policy policy) then r else record r {
      route_policies = insert policy.route_key policy r.route_policies;
      protected_routes = insert policy.route_key tt r.protected_routes;
    })

abbrev pub policy_of : ClientRouteLimitOverride → RouteLimitPolicy
policy_of override = record {
  route_key = override.route_key;
  requests_per_window = override.requests_per_window;
  window = override.window;
  max_concurrent_requests = override.max_concurrent_requests;
  max_body_bytes = override.max_body_bytes;
  enabled = override.enabled;
}

unfoldable pub add_overrides : List ClientRouteLimitOverride → LimitResolver → LimitResolver
add_overrides [] r = r
add_overrides (override ∷ overrides) r = add_overrides overrides (
    if not (valid_client_route_limit_override override) then r else record r {
      overrides =
          insert (limit_key override.client_id override.route_key) (policy_of override) r.overrides;
    })

abbrev pub no_limits : LimitResolver
no_limits = record { protected_routes = []; route_policies = []; overrides = [] }

unfoldable pub new_limit_resolver :
    List LimitedRoute → List RouteLimitPolicy → List ClientRouteLimitOverride → LimitResolver
new_limit_resolver routes policies overrides =
    add_overrides overrides (add_policies policies (add_routes routes no_limits))

unfoldable pub route_protected : String → LimitResolver → Bool
route_protected route_key r = elim (lookup route_key r.protected_routes) [
  | none ↦ false
  | some u ↦ true
]

-- An override counts only where the route has a policy.
unfoldable pub effective_policy : String → String → LimitResolver → Option RouteLimitPolicy
effective_policy client_id route_key r = elim (lookup route_key r.route_policies) [
  | none ↦ none
  | some policy ↦ elim (lookup (limit_key client_id route_key) r.overrides) [
    | none ↦ some policy
    | some override ↦ some override
  ]
]

-- Every policy in a map is one that passes the check.
abbrev AreValid : List (String × RouteLimitPolicy) → Type 0
AreValid m =
    (key : String) (p : RouteLimitPolicy)
    → lookup key m ≡ some p
    → valid_route_limit_policy p ≡ true

insert-AreValid :
    (key : String) (p : RouteLimitPolicy) (m : List (String × RouteLimitPolicy))
    → valid_route_limit_policy p ≡ true
    → AreValid m
    → AreValid (insert key p m)
insert-AreValid key p m v h asked q e = elim (Bool-cases (key == asked)) [
  | inl same ↦
      let found : some p ≡ some q = rw (lookup-insert key asked p m, same) at e in
      subst (λ r. valid_route_limit_policy r ≡ true) (some-injective _ _ found) v
  | inr other ↦ h asked q (rw (lookup-insert key asked p m, other) at e)
]

policy_of-valid :
    (override : ClientRouteLimitOverride)
    → valid_client_route_limit_override override ≡ true
    → valid_route_limit_policy (policy_of override) ≡ true
unfolding valid_client_route_limit_override valid_route_limit_policy
policy_of-valid override h = ground arith

record IsSafe (r : LimitResolver) : Type 0 where
  of_routes : AreValid r.route_policies
  of_overrides : AreValid r.overrides

add_routes-IsSafe :
    (routes : List LimitedRoute) (r : LimitResolver) → IsSafe r → IsSafe (add_routes routes r)
unfolding add_routes
add_routes-IsSafe [] r h = h
add_routes-IsSafe (route ∷ routes) r h =
    elim (Bool-cases (not (route.key == "") && route.require_client_auth)) [
      | inl e ↦ rw e (
          add_routes-IsSafe routes _
            (record { of_routes = h.of_routes; of_overrides = h.of_overrides }))
      | inr e ↦ rw e (add_routes-IsSafe routes r h)
    ]

add_policies-IsSafe :
    (policies : List RouteLimitPolicy) (r : LimitResolver)
    → IsSafe r
    → IsSafe (add_policies policies r)
unfolding add_policies
add_policies-IsSafe [] r h = h
add_policies-IsSafe (policy ∷ policies) r h = elim (Bool-cases (valid_route_limit_policy policy)) [
  | inl e ↦ rw e (
      add_policies-IsSafe policies _ (record {
        of_routes = insert-AreValid policy.route_key policy r.route_policies e h.of_routes;
        of_overrides = h.of_overrides;
      }))
  | inr e ↦ rw e (add_policies-IsSafe policies r h)
]

add_overrides-IsSafe :
    (overrides : List ClientRouteLimitOverride) (r : LimitResolver)
    → IsSafe r
    → IsSafe (add_overrides overrides r)
unfolding add_overrides
add_overrides-IsSafe [] r h = h
add_overrides-IsSafe (override ∷ overrides) r h =
    elim (Bool-cases (valid_client_route_limit_override override)) [
      | inl e ↦ rw e (
          add_overrides-IsSafe overrides _ (record {
            of_routes = h.of_routes;
            of_overrides =
                insert-AreValid (limit_key override.client_id override.route_key)
                  (policy_of override) r.overrides (policy_of-valid override e) h.of_overrides;
          }))
      | inr e ↦ rw e (add_overrides-IsSafe overrides r h)
    ]

effective_policy-safe :
    (client route : String) (r : LimitResolver) (p : RouteLimitPolicy)
    → IsSafe r
    → effective_policy client route r ≡ some p
    → valid_route_limit_policy p ≡ true
unfolding effective_policy
effective_policy-safe client route r p safe h =
    elim (Option-cases (lookup route r.route_policies)) [
      | inl e ↦ absurd (let k : none ≡ some p = rw (e, effective_policy) at h in cc)
      | inr (q, e) ↦ elim (Option-cases (lookup (limit_key client route) r.overrides)) [
        | inl f ↦
            let k : some q ≡ some p = rw (e, f, effective_policy) at h in
            safe.of_routes route p (e ∙ k)
        | inr (o, f) ↦
            let k : some o ≡ some p = rw (e, f, effective_policy) at h in
            safe.of_overrides (limit_key client route) p (f ∙ k)
      ]
    ]

positive-lt : (n : ℤ) → positive n ≡ true → 0 < pos_part n
positive-lt (pos n) h = ground arith
positive-lt (negsuc n) h = ground arith

valid_route_limit_policy-positive :
    (p : RouteLimitPolicy)
    → valid_route_limit_policy p ≡ true
    → (p.enabled ≡ true)
      × (positive p.requests_per_window ≡ true)
      × (positive p.window ≡ true)
      × (positive p.max_concurrent_requests ≡ true)
      × (positive p.max_body_bytes ≡ true)
unfolding valid_route_limit_policy
valid_route_limit_policy-positive p h = ground arith

no_limits-IsSafe : IsSafe no_limits
unfolding lookup
no_limits-IsSafe = record { of_routes = λ key p h. cc; of_overrides = λ key p h. cc }

-- Whatever the configuration holds, a policy that applies to a client on a route is enabled and
-- has a positive number of requests, window, number of concurrent requests and number of body
-- bytes.
effective_policy-valid :
    (routes : List LimitedRoute) (policies : List RouteLimitPolicy)
    (overrides : List ClientRouteLimitOverride) (client route : String) (p : RouteLimitPolicy)
    → effective_policy client route (new_limit_resolver routes policies overrides) ≡ some p
    → (p.enabled ≡ true)
      × (0 < pos_part p.requests_per_window)
      × (0 < pos_part p.window)
      × (0 < pos_part p.max_concurrent_requests)
      × (0 < pos_part p.max_body_bytes)
unfolding new_limit_resolver
effective_policy-valid routes policies overrides client route p h =
    let safe =
      add_overrides-IsSafe overrides _
        (add_policies-IsSafe policies _ (add_routes-IsSafe routes no_limits no_limits-IsSafe)) in
    let (enabled, requests, window, concurrent, bytes) =
      valid_route_limit_policy-positive p (effective_policy-safe client route _ p safe h) in
    (
      enabled,
      positive-lt _ requests,
      positive-lt _ window,
      positive-lt _ concurrent,
      positive-lt _ bytes,
    )
