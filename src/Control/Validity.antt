-- ===== src/Control/Validity.antt =====
-- What the control plane stores (internal/contexts/control/application/usecases.go and memory.go):
-- calls on the service over the repository in memory, and the invariant that they keep.
mod Checks
mod Storing
pub mod Keeping
use kiwi_guard.Common.{
  ℕ, ℤ, pos, ◌≤ℤ◌, String, Bool, true, false, List, [], ◌∷◌, Option, none, some, Result, ok, err,
  ◌≡◌, ◌≢◌, refl, ap, sym, subst, ◌∙◌, arith, eq_iff, ◌==◌, eq_string, Bool-cases, if◌then◌else◌,
  lookup, insert, erase, inl, inr, All, All-mono,
}
use kiwi_guard.Detection.{Engine}
use kiwi_guard.Policy.Types.{Bundle, is_some}
use kiwi_guard.Policy.Compile.{Snapshot}
use kiwi_guard.Clients.{Crypto, Entropy}
use kiwi_guard.Control.Types.{
  PolicyBundle, PolicyActivationRequest, ModelMapping, VerdictProvider, GatewayClient,
  CreateGatewayClientRequest, RouteLimit, ClientRouteLimit,
}
use kiwi_guard.Control.Ports.{Notifier}
use kiwi_guard.Control.Memory.{
  Dict, Memory, new_memory, inner, put_model_mapping, create_policy_bundle, activate_policy_bundles,
  put_verdict_provider, patch_gateway_client, revoke_gateway_client, put_route_limit,
  put_client_route_limit, delete_client_route_limit, create_gateway_client, memory_repository,
}
use kiwi_guard.Control.Service.{
  compile_policy_bundle, create_bundle, activate_bundles, put_provider, create_client, patch_client,
  revoke_client, put_limit, put_client_limit, delete_client_limit,
}
use kiwi_guard.Control.Validation.{valid_gateway_client_status, valid_limit_values}
use kiwi_guard.Control.Entries.{
  Entries, Entries-insert, Entries-erase, Entries-lookup, Distinct, Distinct-insert, known-insert,
}

-- The calls of the service that may write.
pub data Call : Type 0 where
  create_bundle_call : PolicyBundle → Call
  activate_call : PolicyActivationRequest → Call
  put_mapping_call : ModelMapping → Call
  put_provider_call : VerdictProvider → Call
  create_client_call : CreateGatewayClientRequest → Call
  patch_client_call : GatewayClient → Call
  revoke_client_call : String → Call
  put_limit_call : RouteLimit → Call
  put_client_limit_call : ClientRouteLimit → Call
  delete_client_limit_call : String → String → Call

abbrev pub Positive : ℤ → Type 0
Positive n = pos 1 ≤ℤ n

abbrev pub IsMapping : String → ModelMapping → Type 0
IsMapping id m = m.id ≡ id

abbrev pub IsProvider : String → VerdictProvider → Type 0
IsProvider id p = (p.id ≡ id) × (p.mode ≡ "inline")

abbrev pub IsClient : String → GatewayClient → Type 0
IsClient id c = (c.id ≡ id) × (c.name ≢ "") × (valid_gateway_client_status c.status ≡ true)

abbrev pub IsLimit : String → RouteLimit → Type 0
IsLimit key l =
    (l.route_key ≡ key)
    × (l.route_key ≢ "")
    × Positive l.requests_per_window
    × Positive l.window_seconds
    × Positive l.max_concurrent_requests
    × Positive l.max_body_bytes

abbrev pub IsClientLimit : String → String → ClientRouteLimit → Type 0
IsClientLimit id key l =
    (l.client_id ≡ id)
    × (l.route_key ≡ key)
    × (l.route_key ≢ "")
    × Positive l.requests_per_window
    × Positive l.window_seconds
    × Positive l.max_concurrent_requests
    × Positive l.max_body_bytes

-- The limits of a client that is known.
abbrev pub AreClientLimits : Dict GatewayClient → String → Dict ClientRouteLimit → Type 0
AreClientLimits clients id m = (is_some (lookup id clients) ≡ true) × Entries (IsClientLimit id) m

abbrev pub AreKnown : Dict PolicyBundle → List String → Type 0
AreKnown bundles keys = All (λ key. is_some (lookup key bundles) ≡ true) keys

module _ (g : Engine) (digest : List Bundle → Result String String) where
  abbrev pub IsBundle : String → PolicyBundle → Type 0
  IsBundle key b = (b.key ≡ key) × (s : Snapshot) × (compile_policy_bundle g digest b ≡ ok s)

  -- Every part is stored under its own key and has been validated, every bundle compiles, each
  -- active key names a bundle, and each client with limits is known.
  pub record IsValid (r : Memory) : Type 0 where
    pub bundles_valid : Entries IsBundle r.bundles
    pub bundles_distinct : Distinct r.bundles
    pub active_known : AreKnown r.bundles r.active_bundle_keys
    pub mappings_valid : Entries IsMapping r.model_mappings
    pub providers_valid : Entries IsProvider r.verdict_providers
    pub clients_valid : Entries IsClient r.gateway_clients
    pub limits_valid : Entries IsLimit r.route_limits
    pub client_limits_valid : Entries (AreClientLimits r.gateway_clients) r.client_route_limits

module _ (crypto : Crypto) (entropy : ℕ → Entropy) (g : Engine)
    (digest : List Bundle → Result String String) (notifier : Option Notifier) where
  -- The repository after a call, whatever the call answers.
  unfoldable pub step : Call → Memory → Memory
  step (create_bundle_call b) r =
      (create_bundle g digest (memory_repository crypto entropy g digest) b r).1
  step (activate_call q) r =
      (activate_bundles g digest (memory_repository crypto entropy g digest) notifier q r).1
  step (put_mapping_call m) r = (put_model_mapping m r).1
  step (put_provider_call p) r = (put_provider (memory_repository crypto entropy g digest) p r).1
  step (create_client_call q) r = (create_client (memory_repository crypto entropy g digest) q r).1
  step (patch_client_call c) r = (patch_client (memory_repository crypto entropy g digest) c r).1
  step (revoke_client_call id) r =
      (revoke_client (memory_repository crypto entropy g digest) id r).1
  step (put_limit_call l) r = (put_limit (memory_repository crypto entropy g digest) l r).1
  step (put_client_limit_call l) r =
      (put_client_limit (memory_repository crypto entropy g digest) l r).1
  step (delete_client_limit_call id key) r =
      (delete_client_limit (memory_repository crypto entropy g digest) id key r).1

  unfoldable pub run : List Call → Memory → Memory
  unfolding step
  run [] r = r
  run (call ∷ calls) r = run calls (step call r)
