-- ===== src/Gateway/Configuration/Providers.antt =====
-- internal/contexts/gateway/adapters/http/openai/gateway_config.go: the providers with their
-- credentials, and the verdict providers that the routes are bound to.
pub mod Bindings
use kiwi_guard.Common.{
  ℕ, ℤ, ltb_ℤ, String, Bool, true, false, not, ◌||◌, ◌==◌, eq_string, List, [], ◌∷◌, Option, none,
  some, Result, ok, err, ◌>>=◌, if◌then◌else◌, lookup, insert, sort_slice, is_empty,
}
use kiwi_guard.Runtime.Types.{
  ProviderConfig, VerdictProviderConfig, RouteVerdictProviderBindingConfig,
}
use kiwi_guard.Gateway.Configuration.Limiting.{collect}

-- `CredentialResolver`, which may be nil.
abbrev pub CredentialResolver : Type 0
CredentialResolver = Option (String → Result String String)

-- The error of the credential of a provider, by its key: none is found, or the resolver fails.
pub data CredentialError : Type 0 where
  credential_not_found : String → CredentialError
  credential_failed : String → String → CredentialError

unfoldable pub found_credential : String → Result String String → Result CredentialError String
found_credential key (err e) = err (credential_failed key e)
found_credential key (ok value) = if value == "" then err (credential_not_found key) else ok value

unfoldable pub resolved_credential :
    String → String → CredentialResolver → Result CredentialError String
unfolding found_credential
resolved_credential key ref none = err (credential_not_found key)
resolved_credential key ref (some resolve) = found_credential key (resolve ref)

unfoldable pub provider_api_key :
    CredentialResolver → ProviderConfig → Result CredentialError String
unfolding resolved_credential
provider_api_key resolver p =
    if p.credential_ref == ""
    then ok p.api_key
    else resolved_credential p.key p.credential_ref resolver

pub record Provider : Type 0 where
  pub key : String
  pub base_url : String
  pub api_key : String
  pub headers : List (String × String)
  pub timeout : ℤ

unfoldable pub gateway_providers :
    CredentialResolver → List ProviderConfig → Result CredentialError (List Provider)
unfolding collect provider_api_key
gateway_providers resolver providers =
    collect (λ (p : ProviderConfig). p.disabled)
      (λ (p : ProviderConfig). provider_api_key resolver p >>= (λ api_key. ok (record {
        key = p.key;
        base_url = p.base_url;
        api_key = api_key;
        headers = p.headers;
        timeout = p.timeout;
      })))
      providers

-- `HTTPProviderOptions`, less the HTTP client, which is the default one.
pub record HttpProvider : Type 0 where
  pub name : String
  pub endpoint : String
  pub api_key : String
  pub timeout : ℤ

pub data VerdictProviderError : Type 0 where
  missing_key : String → VerdictProviderError
  duplicate_key : String → VerdictProviderError
  verdict_credential : CredentialError → VerdictProviderError
  multiple_providers : VerdictProviderError
  binding_without_provider : String → VerdictProviderError
  unknown_provider : String → String → VerdictProviderError

unfoldable pub verdict_provider_key : VerdictProviderConfig → String
verdict_provider_key p = if p.key == "" then p.name else p.key

unfoldable pub verdict_provider_api_key :
    CredentialResolver → VerdictProviderConfig → Result CredentialError String
unfolding resolved_credential verdict_provider_key
verdict_provider_api_key resolver p =
    if p.credential_ref == ""
    then ok ""
    else resolved_credential (verdict_provider_key p) p.credential_ref resolver

abbrev pub Compiled : Type 0
Compiled = List (String × HttpProvider)

-- An enabled provider with an endpoint, by what stands under its key and by its credential.
unfoldable pub add_verdict_provider :
    VerdictProviderConfig
    → Option HttpProvider
    → Result CredentialError String
    → Compiled
    → Result VerdictProviderError Compiled
unfolding verdict_provider_key
add_verdict_provider p (some other) credential by_key = err (duplicate_key (verdict_provider_key p))
add_verdict_provider p none (err e) by_key = err (verdict_credential e)
add_verdict_provider p none (ok api_key) by_key = ok (
    insert (verdict_provider_key p)
      (record { name = p.name; endpoint = p.endpoint; api_key = api_key; timeout = p.timeout })
      by_key)

unfoldable pub add_verdict_providers :
    CredentialResolver
    → List VerdictProviderConfig
    → Compiled
    → Result VerdictProviderError Compiled
unfolding add_verdict_provider verdict_provider_api_key
add_verdict_providers resolver [] by_key = ok by_key
add_verdict_providers resolver (p ∷ ps) by_key =
    let key = verdict_provider_key p in
    if not p.enabled || p.endpoint == ""
    then add_verdict_providers resolver ps by_key
    else if key == ""
    then err (missing_key p.name)
    else add_verdict_provider p (lookup key by_key) (verdict_provider_api_key resolver p) by_key
      >>= add_verdict_providers resolver ps

unfoldable pub gateway_verdict_providers :
    CredentialResolver → List VerdictProviderConfig → Result VerdictProviderError Compiled
unfolding add_verdict_providers
gateway_verdict_providers resolver providers = add_verdict_providers resolver providers []

abbrev pub Bound : Type 0
Bound = List (String × RouteVerdictProviderBindingConfig)

-- The global provider.
unfoldable pub apply_global_verdict_provider_fallback :
    Compiled → Bound → Result VerdictProviderError (Option HttpProvider)
apply_global_verdict_provider_fallback by_key (binding ∷ bindings) = ok none
apply_global_verdict_provider_fallback [] [] = ok none
apply_global_verdict_provider_fallback ((key, provider) ∷ []) [] = ok (some provider)
apply_global_verdict_provider_fallback (first ∷ second ∷ rest) [] = err multiple_providers

-- A record that is not disabled, by what the route is bound to and by its provider.
unfoldable pub bind_route :
    RouteVerdictProviderBindingConfig
    → Option RouteVerdictProviderBindingConfig
    → Option HttpProvider
    → Bound
    → Result VerdictProviderError Bound
bind_route r (some earlier) provider bindings = ok bindings
bind_route r none provider bindings =
    if r.verdict_provider_key == ""
    then err (binding_without_provider r.route_key)
    else elim provider [
      | none ↦ err (unknown_provider r.route_key r.verdict_provider_key)
      | some found ↦ ok (insert r.route_key r bindings)
    ]

unfoldable pub bind_routes :
    Compiled → List RouteVerdictProviderBindingConfig → Bound → Result VerdictProviderError Bound
unfolding bind_route
bind_routes providers [] bindings = ok bindings
bind_routes providers (r ∷ rs) bindings =
    if r.disabled || r.route_key == ""
    then bind_routes providers rs bindings
    else bind_route r (lookup r.route_key bindings) (lookup r.verdict_provider_key providers)
        bindings
      >>= bind_routes providers rs

-- The bindings in the order of their priorities, equal ones as they come.
unfoldable pub route_verdict_bindings_by_route :
    List RouteVerdictProviderBindingConfig → Compiled → Result VerdictProviderError Bound
unfolding bind_routes
route_verdict_bindings_by_route records providers =
    bind_routes providers
      (sort_slice (λ (a b : RouteVerdictProviderBindingConfig). ltb_ℤ a.priority b.priority)
        records)
      []
