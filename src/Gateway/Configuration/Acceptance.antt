-- ===== src/Gateway/Configuration/Acceptance.antt =====
-- The limits of a compiled configuration and the resolver that they are given to
-- (internal/contexts/gateway/adapters/http/openai/gateway_config.go and limits.go).
use kiwi_guard.Common.{
  String, Bool, true, false, not, ◌||◌, ◌==◌, eq_string, List, [], ◌∷◌, map, filter, Result, ok,
  err, ◌>>=◌, >>=-eq-ok, ok-injective, if◌then◌else◌, ◌≡◌, refl, sym, ap₂, ◌∙◌, subst, All, inl,
  inr, arith, Bool-cases, eq_iff,
}
use kiwi_guard.Runtime.Types.{
  RouteConfig, GatewayClientConfig, RouteLimitConfig, ClientRouteLimitOverrideConfig,
}
use kiwi_guard.Gateway.Limits.{RouteLimitPolicy}
use kiwi_guard.Gateway.Limits.Resolver.{
  ClientRouteLimitOverride, valid_route_limit_policy, valid_client_route_limit_override,
}
use kiwi_guard.Gateway.Configuration.Limiting.{
  LimitError, collect, has_key, enabled_route_keys, known_client_ids, valid_limit_values,
  limit_policy, check_limit, check_limits, gateway_route_limit_policies, limit_override,
  check_override, check_overrides, gateway_client_route_limit_overrides,
}

abbrev active_limits : List RouteLimitConfig → List RouteLimitConfig
active_limits records = filter (λ (r : RouteLimitConfig). not r.disabled) records

abbrev active_overrides : List ClientRouteLimitOverrideConfig → List ClientRouteLimitOverrideConfig
active_overrides records = filter (λ (r : ClientRouteLimitOverrideConfig). not r.disabled) records

-- No key of the set is empty.
abbrev pub HasNames : List String → Type 0
HasNames keys = (key : String) → has_key keys key ≡ true → (key == "") ≡ false

has_key-nil : HasNames []
unfolding has_key
has_key-nil key m = ground arith

has_key-cons : (k : String) (ks : List String) → (k == "") ≡ false → HasNames ks → HasNames (k ∷ ks)
unfolding has_key
has_key-cons k ks e h key m = elim (Bool-cases (k == key)) [
  | inl q ↦ subst (λ x. (x == "") ≡ false) ((eq_iff k key).0 q) e
  | inr q ↦ h key (sym (rw (q) refl) ∙ m)
]

pub enabled_route_keys-HasNames : (routes : List RouteConfig) → HasNames (enabled_route_keys routes)
unfolding enabled_route_keys
enabled_route_keys-HasNames [] = has_key-nil
enabled_route_keys-HasNames (r ∷ rs) = elim (Bool-cases (r.disabled || r.key == "")) [
  | inl e ↦ rw (e) (enabled_route_keys-HasNames rs)
  | inr e ↦
      rw (e)
        (has_key-cons r.key (enabled_route_keys rs) (ground arith) (enabled_route_keys-HasNames rs))
]

known_client_ids-HasNames :
    (clients : List GatewayClientConfig) → HasNames (known_client_ids clients)
unfolding known_client_ids
known_client_ids-HasNames [] = has_key-nil
known_client_ids-HasNames (c ∷ cs) = elim (Bool-cases (c.id == "")) [
  | inl e ↦ rw (e) (known_client_ids-HasNames cs)
  | inr e ↦ rw (e) (has_key-cons c.id (known_client_ids cs) e (known_client_ids-HasNames cs))
]

guard-ok :
    {A : Type 0} (b : Bool) (e : LimitError) (m : Result LimitError A) (a : A)
    → (if not b then err e else m) ≡ ok a
    → (b ≡ true) × (m ≡ ok a)
guard-ok true e m a h = (refl, h)
guard-ok false e m a h = ground arith

module _ {A B : Type 0} (skip : A → Bool) (check : A → Result LimitError B) (make : A → B)
    (Good : B → Type 0)
    (checked : (x : A) (b : B) → check x ≡ ok b → (make x ≡ b) × Good (make x)) where
  -- The records that are not skipped are all made into values, and all these are good.
  collect-ok :
      (xs : List A) (bs : List B)
      → collect skip check xs ≡ ok bs
      → (bs ≡ map make (filter (λ x. not (skip x)) xs)) × All Good bs
  unfolding collect
  collect-ok [] bs e = subst (λ v. (v ≡ []) × All Good v) (ok-injective e) (refl, tt)
  collect-ok (x ∷ xs) bs e = go (collect-ok xs) (skip x) refl e
    where
      go :
          ((cs : List B)
            → collect skip check xs ≡ ok cs
            → (cs ≡ map make (filter (λ y. not (skip y)) xs)) × All Good cs)
          → (s : Bool) → skip x ≡ s
          → (if s
              then collect skip check xs
              else check x >>= (λ b. collect skip check xs >>= (λ bs'. ok (b ∷ bs'))))
            ≡ ok bs
          → (bs ≡ map make (filter (λ y. not (skip y)) (x ∷ xs))) × All Good bs
      go ih true q k = rw (q) (ih bs k)
      go ih false q k =
          let (b, made, k') = >>=-eq-ok (check x) _ k in
          let (cs, rest, k'') = >>=-eq-ok (collect skip check xs) _ k' in
          let (all, good) = ih cs rest in
          let (is, fine) = checked x b made in
          subst (λ v. (v ≡ map make (filter (λ y. not (skip y)) (x ∷ xs))) × All Good v)
            (ok-injective k'')
            (rw (q) (ap₂ (λ y ys. y ∷ ys) (sym is) all), (subst Good is fine, good))

-- The resolver takes the policy, and its route is enabled.
abbrev IsLimit : List String → RouteLimitPolicy → Type 0
IsLimit routes p = (valid_route_limit_policy p ≡ true) × (has_key routes p.route_key ≡ true)

-- The resolver takes the override, its route is enabled and has a limit, and its client is known.
abbrev IsOverride : List String → List String → List String → ClientRouteLimitOverride → Type 0
IsOverride routes clients limited o =
    (valid_client_route_limit_override o ≡ true)
    × (has_key routes o.route_key ≡ true)
    × (has_key clients o.client_id ≡ true)
    × (has_key limited o.route_key ≡ true)

module _ (routes : List String) (named : HasNames routes) where
  check_limit-ok :
      (r : RouteLimitConfig) (p : RouteLimitPolicy)
      → check_limit routes r ≡ ok p
      → (limit_policy r ≡ p) × IsLimit routes (limit_policy r)
  unfolding check_limit valid_limit_values valid_route_limit_policy limit_policy
  check_limit-ok r p h =
      let (k, h') = guard-ok (has_key routes r.route_key) _ _ _ h in
      let (v, made) =
        guard-ok
          (valid_limit_values r.requests_per_window r.window r.max_concurrent_requests
            r.max_body_bytes)
          _ _ _ h' in
      (ok-injective made, (rw (named r.route_key k) v, k))

  check_override-ok :
      (clients limited : List String) (r : ClientRouteLimitOverrideConfig)
      (o : ClientRouteLimitOverride)
      → HasNames clients
      → check_override routes clients limited r ≡ ok o
      → (limit_override r ≡ o) × IsOverride routes clients limited (limit_override r)
  unfolding check_override valid_limit_values valid_client_route_limit_override limit_override
  check_override-ok clients limited r o known h =
      let (k, h1) = guard-ok (has_key routes r.route_key) _ _ _ h in
      let (c, h2) = guard-ok (has_key clients r.client_id) _ _ _ h1 in
      let (l, h3) = guard-ok (has_key limited r.route_key) _ _ _ h2 in
      let (v, made) =
        guard-ok
          (valid_limit_values r.requests_per_window r.window r.max_concurrent_requests
            r.max_body_bytes)
          _ _ _ h3 in
      (ok-injective made, (rw (known r.client_id c, named r.route_key k) v, k, c, l))

-- If the limits of the routes compile, the result is the records that are not disabled, in
-- their order, and each of them is valid for the limit resolver and names an enabled route.
gateway_route_limit_policies-IsLimit :
    (routes : List RouteConfig) (records : List RouteLimitConfig) (policies : List RouteLimitPolicy)
    → gateway_route_limit_policies routes records ≡ ok policies
    → (policies ≡ map limit_policy (active_limits records))
      × All (IsLimit (enabled_route_keys routes)) policies
unfolding gateway_route_limit_policies check_limits
gateway_route_limit_policies-IsLimit routes records policies h =
    let keys = enabled_route_keys routes in
    collect-ok (λ (r : RouteLimitConfig). r.disabled) (check_limit keys) limit_policy (IsLimit keys)
      (check_limit-ok keys (enabled_route_keys-HasNames routes)) records policies h

-- If the overrides of the limits compile, the result is the records that are not disabled, in
-- their order, and each of them is valid for the limit resolver and names an enabled route, a
-- known client and a route with a limit.
gateway_client_route_limit_overrides-IsOverride :
    (routes : List RouteConfig) (clients : List GatewayClientConfig)
    (records : List ClientRouteLimitOverrideConfig) (limited : List String)
    (overrides : List ClientRouteLimitOverride)
    → gateway_client_route_limit_overrides routes clients records limited ≡ ok overrides
    → (overrides ≡ map limit_override (active_overrides records))
      × All (IsOverride (enabled_route_keys routes) (known_client_ids clients) limited) overrides
unfolding gateway_client_route_limit_overrides check_overrides
gateway_client_route_limit_overrides-IsOverride routes clients records limited overrides h =
    let keys = enabled_route_keys routes in
    let known = known_client_ids clients in
    collect-ok (λ (r : ClientRouteLimitOverrideConfig). r.disabled)
      (check_override keys known limited) limit_override (IsOverride keys known limited)
      (λ r o.
        check_override-ok keys (enabled_route_keys-HasNames routes) known limited r o
          (known_client_ids-HasNames clients))
      records overrides h
