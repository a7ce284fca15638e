-- ===== src/Control/Validity/Keeping.antt =====
-- Each call on the service (internal/contexts/control/application/usecases.go) over the repository in
-- memory keeps what the repository holds valid.
use kiwi_guard.Common.{
  ℕ, String, not, ◌&&◌, List, [], ◌∷◌, Option, none, some, Result, ok, err, Result-cases, ◌≡◌, refl,
  arith, ◌==◌, eq_string, Bool-cases, Option-cases, inl, inr,
}
use kiwi_guard.Detection.{Engine}
use kiwi_guard.Policy.Types.{Bundle}
use kiwi_guard.Clients.{Crypto, Entropy}
use kiwi_guard.Control.Types.{
  PolicyBundle, PolicyActivationRequest, PolicyActivationResponse, VerdictProvider, GatewayClient,
  CreateGatewayClientRequest, RouteLimit, ClientRouteLimit, ControlError,
}
use kiwi_guard.Control.Ports.{Notifier}
use kiwi_guard.Control.Memory.{
  Memory, new_memory, activate_policy_bundles, patch_gateway_client, revoke_gateway_client,
  memory_repository,
}
use kiwi_guard.Control.Service.{
  compile_policy_bundle, notified, activation_snapshot_hash, create_bundle, activate_bundles,
  normalize_verdict_provider, put_provider, create_client, patch_client, revoke_client, put_limit,
  put_client_limit, delete_client_limit,
}
use kiwi_guard.Control.Validation.{
  check_client, validate_client, validate_request, normalize_request, validate_route_limit,
  validate_client_route_limit,
}
use kiwi_guard.Control.Validity.{
  Call, create_bundle_call, activate_call, put_mapping_call, put_provider_call, create_client_call,
  patch_client_call, revoke_client_call, put_limit_call, put_client_limit_call,
  delete_client_limit_call, IsValid, step, run,
}
use kiwi_guard.Control.Validity.Checks.{
  check_client-none, validate_client-none, validate_route_limit-none,
  validate_client_route_limit-none,
}
use kiwi_guard.Control.Validity.Storing.{
  Keeps, patch_found-Keeps, revoke_found-Keeps, create_gateway_client-Keeps,
  create_policy_bundle-Keeps, activate_policy_bundles-Keeps, put_model_mapping-Keeps,
  put_verdict_provider-Keeps, put_route_limit-Keeps, put_client_route_limit-Keeps,
  delete_client_route_limit-Keeps,
}

module _ (g : Engine) (digest : List Bundle → Result String String) where
  notified-state :
      (notifier : Option Notifier) (p : Result ControlError PolicyActivationResponse × Memory)
      → (notified notifier p).1 ≡ p.1
  unfolding notified
  notified-state notifier (err e, r) = refl
  notified-state none (ok response, r) = refl
  notified-state (some notifier) (ok response, r) = ground arith

  module _ (crypto : Crypto) (entropy : ℕ → Entropy) (notifier : Option Notifier) where
    create_bundle-Keeps :
        (b : PolicyBundle) (r : Memory)
        → Keeps g digest r
            (create_bundle g digest (memory_repository crypto entropy g digest) b r).1
    unfolding create_bundle
    create_bundle-Keeps b r v = elim (Result-cases (compile_policy_bundle g digest b)) [
      | inl (e, refused) ↦ rw (create_bundle, refused) v
      | inr (s, compiled) ↦
          rw (create_bundle, compiled) (create_policy_bundle-Keeps g digest b s r compiled v)
    ]

    activate_bundles-Keeps :
        (q : PolicyActivationRequest) (r : Memory)
        → Keeps g digest r
            (activate_bundles g digest (memory_repository crypto entropy g digest) notifier q r).1
    unfolding activate_bundles
    activate_bundles-Keeps q r v =
        elim (Result-cases (
          activation_snapshot_hash g digest (memory_repository crypto entropy g digest) q.keys r)) [
            | inl (e, refused) ↦ rw (activate_bundles, refused) v
            | inr (hash, found) ↦
                let request : PolicyActivationRequest = record q { snapshot_hash = hash } in
                rw
                  (
                    activate_bundles,
                    found,
                    notified-state notifier (activate_policy_bundles request r),
                  )
                  (activate_policy_bundles-Keeps g digest request r v)
          ]

    put_provider-Keeps :
        (p : VerdictProvider) (r : Memory)
        → Keeps g digest r (put_provider (memory_repository crypto entropy g digest) p r).1
    unfolding put_provider normalize_verdict_provider
    put_provider-Keeps p r v = elim (Bool-cases (not (p.mode == "") && not (p.mode == "inline"))) [
      | inl other ↦ rw (put_provider, normalize_verdict_provider, other) v
      | inr usual ↦
          rw (put_provider, normalize_verdict_provider, usual)
            (put_verdict_provider-Keeps g digest _ r refl v)
    ]

    create_client-Keeps :
        (q : CreateGatewayClientRequest) (r : Memory)
        → Keeps g digest r (create_client (memory_repository crypto entropy g digest) q r).1
    unfolding create_client validate_request
    create_client-Keeps q r v =
        let normal = normalize_request q in
        elim (Option-cases (check_client normal.name normal.status)) [
          | inr (e, refused) ↦ rw (create_client, refused) v
          | inl valid ↦
              let (given, known) = check_client-none normal.name normal.status valid in
              rw (create_client, valid)
                (create_gateway_client-Keeps g digest crypto entropy normal r given known v)
        ]

    patch_client-Keeps :
        (c : GatewayClient) (r : Memory)
        → Keeps g digest r (patch_client (memory_repository crypto entropy g digest) c r).1
    unfolding patch_client patch_gateway_client
    patch_client-Keeps c r v = elim (Option-cases (validate_client c)) [
      | inr (e, refused) ↦ rw (patch_client, refused) v
      | inl valid ↦
          let (given, known) = validate_client-none c valid in
          rw (patch_client, valid) (patch_found-Keeps g digest c r _ given known v)
    ]

    revoke_client-Keeps :
        (id : String) (r : Memory)
        → Keeps g digest r (revoke_client (memory_repository crypto entropy g digest) id r).1
    unfolding revoke_client revoke_gateway_client
    revoke_client-Keeps id r v = elim (Bool-cases (id == "")) [
      | inl e ↦ rw e v
      | inr e ↦ rw e (revoke_found-Keeps g digest id r _ refl v)
    ]

    put_limit-Keeps :
        (l : RouteLimit) (r : Memory)
        → Keeps g digest r (put_limit (memory_repository crypto entropy g digest) l r).1
    unfolding put_limit
    put_limit-Keeps l r v = elim (Option-cases (validate_route_limit l)) [
      | inr (e, refused) ↦ rw (put_limit, refused) v
      | inl valid ↦
          rw (put_limit, valid)
            (put_route_limit-Keeps g digest l r (validate_route_limit-none l valid) v)
    ]

    put_client_limit-Keeps :
        (l : ClientRouteLimit) (r : Memory)
        → Keeps g digest r (put_client_limit (memory_repository crypto entropy g digest) l r).1
    unfolding put_client_limit
    put_client_limit-Keeps l r v = elim (Option-cases (validate_client_route_limit l)) [
      | inr (e, refused) ↦ rw (put_client_limit, refused) v
      | inl valid ↦
          rw (put_client_limit, valid)
            (put_client_route_limit-Keeps g digest l r (validate_client_route_limit-none l valid) v)
    ]

    delete_client_limit-Keeps :
        (id key : String) (r : Memory)
        → Keeps g digest r
            (delete_client_limit (memory_repository crypto entropy g digest) id key r).1
    unfolding delete_client_limit
    delete_client_limit-Keeps id key r v = elim (Bool-cases (id == "")) [
      | inl e ↦ rw e v
      | inr e ↦ elim (Bool-cases (key == "")) [
        | inl f ↦ rw (e, f) v
        | inr f ↦ rw (e, f) (delete_client_route_limit-Keeps g digest id key r v)
      ]
    ]

    step-Keeps :
        (call : Call) (r : Memory) → Keeps g digest r (step crypto entropy g digest notifier call r)
    unfolding step
    step-Keeps (create_bundle_call b) r v = create_bundle-Keeps b r v
    step-Keeps (activate_call q) r v = activate_bundles-Keeps q r v
    step-Keeps (put_mapping_call m) r v = put_model_mapping-Keeps g digest m r v
    step-Keeps (put_provider_call p) r v = put_provider-Keeps p r v
    step-Keeps (create_client_call q) r v = create_client-Keeps q r v
    step-Keeps (patch_client_call c) r v = patch_client-Keeps c r v
    step-Keeps (revoke_client_call id) r v = revoke_client-Keeps id r v
    step-Keeps (put_limit_call l) r v = put_limit-Keeps l r v
    step-Keeps (put_client_limit_call l) r v = put_client_limit-Keeps l r v
    step-Keeps (delete_client_limit_call id key) r v = delete_client_limit-Keeps id key r v

    run-Keeps :
        (calls : List Call) (r : Memory)
        → Keeps g digest r (run crypto entropy g digest notifier calls r)
    unfolding run
    run-Keeps [] r v = v
    run-Keeps (call ∷ calls) r v = run-Keeps calls _ (step-Keeps call r v)

    -- Whatever calls are made on the service over a new repository in memory, whatever the key
    -- generator gives and whether or not the notifier fails: every bundle stored is under its key
    -- and compiles, every active key names a stored bundle, every verdict provider has the mode
    -- inline, every client has a name and a known status, every limit is positive in its four
    -- values and names its route, and each client with limits of its own is stored.
    pub run-IsValid :
        (calls : List Call)
        → IsValid g digest (run crypto entropy g digest notifier calls new_memory)
    unfolding new_memory
    run-IsValid calls = run-Keeps calls new_memory new_memory-IsValid
      where
        new_memory-IsValid : IsValid g digest new_memory
        new_memory-IsValid = ground arith
