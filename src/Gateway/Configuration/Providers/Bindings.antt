-- ===== src/Gateway/Configuration/Providers/Bindings.antt =====
-- The verdict providers that routes are bound to
-- (internal/contexts/gateway/adapters/http/openai/gateway_config.go).
use kiwi_guard.Common.{
  String, Bool, true, false, ◌||◌, ◌==◌, eq_string, List, [], ◌∷◌, Option, none, some,
  some-injective, Result, ok, err, ◌>>=◌, >>=-eq-ok, ok-injective, if◌then◌else◌, sort_slice, ltb_ℤ,
  lookup, insert, lookup-insert, ◌≡◌, refl, sym, ◌∙◌, subst, arith, eq_iff,
}
use kiwi_guard.Runtime.Types.{RouteVerdictProviderBindingConfig}
use kiwi_guard.Gateway.Configuration.Providers.{
  HttpProvider, Compiled, Bound, VerdictProviderError, bind_route, bind_routes,
  route_verdict_bindings_by_route,
}

-- The binding is one of this route, is not disabled, and its provider is compiled.
abbrev pub IsBinding : Compiled → String → RouteVerdictProviderBindingConfig → Type 0
IsBinding providers route b =
    (b.route_key ≡ route)
    × (b.disabled ≡ false)
    × ((provider : HttpProvider) × (lookup b.verdict_provider_key providers ≡ some provider))

abbrev AreBindings : Compiled → Bound → Type 0
AreBindings providers bindings =
    (route : String) (b : RouteVerdictProviderBindingConfig)
    → lookup route bindings ≡ some b
    → IsBinding providers route b

nothing : (providers : Compiled) → AreBindings providers []
unfolding lookup
nothing providers r c e = ground arith

insert-AreBindings :
    (providers : Compiled) (r : RouteVerdictProviderBindingConfig) (bindings : Bound)
    (provider : HttpProvider)
    → r.disabled ≡ false
    → lookup r.verdict_provider_key providers ≡ some provider
    → AreBindings providers bindings
    → AreBindings providers (insert r.route_key r bindings)
insert-AreBindings providers r bindings provider d found h route b m =
    go (r.route_key == route) refl (sym (lookup-insert r.route_key route r bindings) ∙ m)
  where
    go :
        (c : Bool)
        → (r.route_key == route) ≡ c
        → (if c then some r else lookup route bindings) ≡ some b
        → IsBinding providers route b
    go true q is =
        subst (IsBinding providers route) (some-injective _ _ is)
          ((eq_iff r.route_key route).0 q, d, (provider, found))
    go false q is = h route b is

not_err :
    {A : Type 0} (c : Bool) (e : VerdictProviderError) (m : Result VerdictProviderError A) (a : A)
    → (if c then err e else m) ≡ ok a
    → m ≡ ok a
not_err true e m a h = ground arith
not_err false e m a h = h

bind_route-AreBindings :
    (providers : Compiled) (r : RouteVerdictProviderBindingConfig) (bindings after : Bound)
    (earlier : Option RouteVerdictProviderBindingConfig) (provider : Option HttpProvider)
    → r.disabled ≡ false
    → lookup r.verdict_provider_key providers ≡ provider
    → AreBindings providers bindings
    → bind_route r earlier provider bindings ≡ ok after
    → AreBindings providers after
unfolding bind_route
bind_route-AreBindings providers r bindings after (some e) provider d found h k =
    subst (AreBindings providers) (ok-injective k) h
bind_route-AreBindings providers r bindings after none none d found h k =
    let clash = not_err (r.verdict_provider_key == "") _ _ after k in ground (arith, clash)
bind_route-AreBindings providers r bindings after none (some provider) d found h k =
    let made = not_err (r.verdict_provider_key == "") _ _ after k in
    subst (AreBindings providers) (ok-injective made)
      (insert-AreBindings providers r bindings provider d found h)

bind_routes-AreBindings :
    (providers : Compiled) (rs : List RouteVerdictProviderBindingConfig) (bindings after : Bound)
    → AreBindings providers bindings
    → bind_routes providers rs bindings ≡ ok after
    → AreBindings providers after
unfolding bind_routes
bind_routes-AreBindings providers [] bindings after h k =
    subst (AreBindings providers) (ok-injective k) h
bind_routes-AreBindings providers (r ∷ rs) bindings after h k =
    go (bind_routes-AreBindings providers rs) (r.disabled || r.route_key == "") refl k
  where
    go :
        ((bs after' : Bound)
          → AreBindings providers bs
          → bind_routes providers rs bs ≡ ok after'
          → AreBindings providers after')
        → (c : Bool) → (r.disabled || r.route_key == "") ≡ c
        → (if c
            then bind_routes providers rs bindings
            else bind_route r
                (lookup r.route_key bindings)
                (lookup r.verdict_provider_key providers)
                bindings
              >>= bind_routes providers rs)
          ≡ ok after
        → AreBindings providers after
    go ih true q e = ih bindings after h e
    go ih false q e =
        let (bs, made, rest) =
          >>=-eq-ok
            (bind_route r (lookup r.route_key bindings) (lookup r.verdict_provider_key providers)
              bindings)
            _ e in
        let enabled : r.disabled ≡ false = ground (arith, q) in
        ih bs after
          (bind_route-AreBindings providers r bindings bs (lookup r.route_key bindings) _ enabled
            refl h made)
          rest

-- If the bindings of the routes to the verdict providers compile, the binding that is then
-- found for a route is one of that route, is not disabled, and names a compiled verdict
-- provider.
pub route_verdict_bindings_by_route-IsBinding :
    (records : List RouteVerdictProviderBindingConfig) (providers : Compiled) (bindings : Bound)
    (route : String) (b : RouteVerdictProviderBindingConfig)
    → route_verdict_bindings_by_route records providers ≡ ok bindings
    → lookup route bindings ≡ some b
    → IsBinding providers route b
unfolding route_verdict_bindings_by_route
route_verdict_bindings_by_route-IsBinding records providers bindings route b h m =
    bind_routes-AreBindings providers
      (sort_slice (λ (x y : RouteVerdictProviderBindingConfig). ltb_ℤ x.priority y.priority)
        records)
      [] bindings (nothing providers) h route b m
