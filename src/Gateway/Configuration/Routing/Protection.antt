-- ===== src/Gateway/Configuration/Routing/Protection.antt =====
-- Which routes of a compiled configuration require a client key
-- (internal/contexts/gateway/adapters/http/openai/gateway_config.go).
use kiwi_guard.Common.{
  String, Bool, true, false, not, ◌&&◌, ◌||◌, ◌==◌, eq_string, List, [], ◌∷◌, ◌++◌, In, is_empty,
  ok, >>=-eq-ok, ok-injective, if◌then◌else◌, ◌≡◌, refl, sym, ap, ◌∙◌, subst, inl, inr, arith,
  Bool-cases, eq_iff,
}
use kiwi_guard.Runtime.Types.{
  RouteConfig, ModelMappingConfig, RouteVerdictProviderBindingConfig, GatewayClientConfig,
}
use kiwi_guard.Gateway.Limits.{RouteLimitPolicy}
use kiwi_guard.Gateway.Configuration.Limiting.{
  has_key, enabled_route_keys, route_limit_route_keys, protected_route_keys,
}
use kiwi_guard.Gateway.Configuration.Acceptance.{HasNames, enabled_route_keys-HasNames}
use kiwi_guard.Gateway.Configuration.Routing.{
  Route, RouteModelMapping, model_mappings_by_route, gateway_route, enabled_routes, gateway_routes,
}

has_key-append :
    (xs ys : List String) (k : String) → has_key (xs ++ ys) k ≡ (has_key xs k || has_key ys k)
unfolding has_key
has_key-append [] ys k = refl
has_key-append (x ∷ xs) ys k = elim (Bool-cases (x == k)) [
  | inl e ↦ rw (e) refl
  | inr e ↦ rw (e) (has_key-append xs ys k)
]

-- A key of an enabled route stays one with a further route.
enabled-more :
    (c : RouteConfig) (cs : List RouteConfig) (k : String)
    → has_key (enabled_route_keys cs) k ≡ true
    → has_key (enabled_route_keys (c ∷ cs)) k ≡ true
unfolding has_key enabled_route_keys
enabled-more c cs k h = elim (Bool-cases (c.disabled || c.key == "")) [
  | inl e ↦ rw (e) h
  | inr e ↦ elim (Bool-cases (c.key == k)) [ inl q ↦ rw (e, q) refl | inr q ↦ rw (e, q) h ]
]

enabled-first :
    (c : RouteConfig) (cs : List RouteConfig)
    → c.disabled ≡ false
    → (c.key == "") ≡ false
    → has_key (enabled_route_keys (c ∷ cs)) c.key ≡ true
unfolding has_key enabled_route_keys
enabled-first c cs d n = rw (d, n, (eq_iff c.key c.key).1 refl) refl

module _ (mappings : List (String × RouteModelMapping))
    (bindings : List (String × RouteVerdictProviderBindingConfig)) (protected : List String) where
  -- A compiled route has the protection of its key, and its key is that of an enabled route.
  abbrev IsFrom : List RouteConfig → Route → Type 0
  IsFrom routes r =
      (r.require_client_auth ≡ has_key protected r.key)
      × ((r.key == "") ≡ false → has_key (enabled_route_keys routes) r.key ≡ true)

  enabled_routes-IsFrom :
      (routes : List RouteConfig) (r : Route)
      → In r (enabled_routes mappings bindings protected routes)
      → IsFrom routes r
  unfolding enabled_routes gateway_route
  enabled_routes-IsFrom [] r m = elim m [ ]
  enabled_routes-IsFrom (c ∷ cs) r m = go (enabled_routes-IsFrom cs r) c.disabled refl m
    where
      go :
          (In r (enabled_routes mappings bindings protected cs) → IsFrom cs r)
          → (d : Bool) → c.disabled ≡ d
          → In r (
              if d
              then enabled_routes mappings bindings protected cs
              else gateway_route mappings bindings protected c
                ∷ enabled_routes mappings bindings protected cs)
          → IsFrom (c ∷ cs) r
      go ih true q k = ((ih k).0, λ n. enabled-more c cs r.key ((ih k).1 n))
      go ih false q (inl e) = subst (IsFrom (c ∷ cs)) (sym e) (refl, enabled-first c cs q)
      go ih false q (inr k) = ((ih k).0, λ n. enabled-more c cs r.key ((ih k).1 n))

or-false : (b : Bool) → (b || false) ≡ b
or-false true = refl
or-false false = refl

has_key-eq :
    (keys : List String) (k : String)
    → HasNames keys
    → ((k == "") ≡ false → has_key keys k ≡ true)
    → has_key keys k ≡ not (k == "")
has_key-eq keys k named h = elim (Bool-cases (k == "")) [
  | inr n ↦ rw (n) (h n)
  | inl q ↦ elim (Bool-cases (has_key keys k)) [
    | inl m ↦ ground (arith, sym q ∙ named k m)
    | inr m ↦ rw (q) m
  ]
]

protected_route_keys-eq :
    (routes : List RouteConfig) (limits : List RouteLimitPolicy)
    (clients : List GatewayClientConfig) (k : String)
    → ((k == "") ≡ false → has_key (enabled_route_keys routes) k ≡ true)
    → has_key (protected_route_keys routes clients limits) k
      ≡ (has_key (route_limit_route_keys limits) k || (not (is_empty clients) && not (k == "")))
unfolding protected_route_keys
protected_route_keys-eq routes limits [] k e = sym (or-false _)
protected_route_keys-eq routes limits (c ∷ cs) k e =
    has_key-append (route_limit_route_keys limits) (enabled_route_keys routes) k
    ∙ ap (λ b. has_key (route_limit_route_keys limits) k || b)
        (has_key-eq (enabled_route_keys routes) k (enabled_route_keys-HasNames routes) e)

-- A compiled route asks for a client key exactly if its key is that of one of the limits, or some
-- client is configured and the route's key is not empty.
pub gateway_routes-require_client_auth :
    (routes : List RouteConfig) (records : List ModelMappingConfig)
    (bindings : List (String × RouteVerdictProviderBindingConfig))
    (clients : List GatewayClientConfig) (limits : List RouteLimitPolicy) (compiled : List Route)
    (r : Route)
    → gateway_routes routes records bindings (protected_route_keys routes clients limits)
      ≡ ok compiled
    → In r compiled
    → r.require_client_auth ≡ (
        has_key (route_limit_route_keys limits) r.key
        || (not (is_empty clients) && not (r.key == "")))
unfolding gateway_routes
gateway_routes-require_client_auth routes records bindings clients limits compiled r h m =
    let protected = protected_route_keys routes clients limits in
    let (mappings, found, made) = >>=-eq-ok (model_mappings_by_route records) _ h in
    let (auth, enabled) =
      enabled_routes-IsFrom mappings bindings protected routes r
        (subst (In r) (sym (ok-injective made)) m) in
    auth ∙ protected_route_keys-eq routes limits clients r.key enabled
