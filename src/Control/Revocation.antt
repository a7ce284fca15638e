-- ===== src/Control/Revocation.antt =====
-- A client of the control plane that is revoked (internal/contexts/control/application/usecases.go and
-- memory.go).
use kiwi_guard.Common.{
  ℕ, String, List, [], ◌∷◌, Option, none, some, Result, ok, err, ◌≡◌, refl, ap, sym, ◌∙◌, arith,
  eq_iff, ◌==◌, eq_string, Bool-cases, Option-cases, lookup, insert, lookup-insert, inl, inr,
}
use kiwi_guard.Detection.{Engine}
use kiwi_guard.Policy.Types.{Bundle}
use kiwi_guard.Clients.{KeyMaterial, Crypto, Entropy, status_revoked}
use kiwi_guard.Control.Types.{
  PolicyBundle, PolicyActivationRequest, PolicyActivationResponse, VerdictProvider, GatewayClient,
  CreateGatewayClientRequest, RouteLimit, ClientRouteLimit, ControlError,
}
use kiwi_guard.Control.Ports.{Notifier}
use kiwi_guard.Control.Memory.{
  Memory, put_model_mapping, create_policy_bundle, activate_policy_bundles, put_verdict_provider,
  patch_found, patch_gateway_client, revoke_found, revoke_gateway_client, put_route_limit,
  put_client_route_limit, delete_client_route_limit, add_client, create_named,
  create_gateway_client, memory_repository,
}
use kiwi_guard.Control.Service.{
  notified, create_bundle, activate_bundles, put_provider, create_client, patch_client,
  revoke_client, put_limit, put_client_limit, delete_client_limit,
}
use kiwi_guard.Control.Validation.{validate_request, validate_client}
use kiwi_guard.Control.Validity.{
  Call, create_bundle_call, activate_call, put_mapping_call, put_provider_call, create_client_call,
  patch_client_call, revoke_client_call, put_limit_call, put_client_limit_call,
  delete_client_limit_call, step, run,
}

-- The client is stored, with the status revoked.
abbrev pub IsRevoked : String → Memory → Type 0
IsRevoked id r =
    (c : GatewayClient) × (lookup id r.gateway_clients ≡ some c) × (c.status ≡ status_revoked)

module _ (id : String) where
  abbrev Stays : Memory → Memory → Type 0
  Stays r r' = IsRevoked id r → IsRevoked id r'

  set_client-Stays :
      (j : String) (c : GatewayClient) (n : ℕ) (r : Memory)
      → (j ≡ id → c.status ≡ status_revoked)
      → Stays r
          (record r { gateway_clients = insert j c r.gateway_clients; next_client_number = n })
  set_client-Stays j c n r keeps (was, found, revoked) = elim (Bool-cases (j == id)) [
    | inl e ↦ (c, lookup-insert j id c r.gateway_clients ∙ rw e, keeps ((eq_iff j id).0 e))
    | inr e ↦ (was, lookup-insert j id c r.gateway_clients ∙ rw e found, revoked)
  ]

  patch_found-Stays :
      (c : GatewayClient) (r : Memory) (found : Option GatewayClient)
      → lookup c.id r.gateway_clients ≡ found
      → Stays r (patch_found c r found).1
  unfolding patch_found
  patch_found-Stays c r none e was = was
  patch_found-Stays c r (some existing) e (k, found, revoked) =
      set_client-Stays c.id _ r.next_client_number r
        (λ same.
          let it : some existing ≡ some k =
            sym e ∙ ap (λ j. lookup j r.gateway_clients) same ∙ found in
          ground (arith, eq_iff existing.status status_revoked))
        (k, found, revoked)

  revoke_found-Stays :
      (j : String) (r : Memory) (found : Option GatewayClient) → Stays r (revoke_found j r found).1
  unfolding revoke_found
  revoke_found-Stays j r none was = was
  revoke_found-Stays j r (some c) was =
      set_client-Stays j _ r.next_client_number r (λ same. refl) was

  add_client-Stays :
      (crypto : Crypto) (entropy : ℕ → Entropy) (q : CreateGatewayClientRequest)
      (made : Result String (String × KeyMaterial)) (r : Memory)
      → lookup q.id r.gateway_clients ≡ none
      → Stays r (add_client crypto entropy q made r).1
  unfolding add_client
  add_client-Stays crypto entropy q (err e) r free was = was
  add_client-Stays crypto entropy q (ok (key, material)) r free (k, found, revoked) =
      set_client-Stays q.id _ r.next_client_number r
        (λ same.
          let clash : none ≡ some k =
            sym free ∙ ap (λ j. lookup j r.gateway_clients) same ∙ found in
          absurd (cc))
        (k, found, revoked)

  create_named-Stays :
      (crypto : Crypto) (entropy : ℕ → Entropy) (q : CreateGatewayClientRequest) (r : Memory)
      → Stays r (create_named crypto entropy q r).1
  unfolding create_named
  create_named-Stays crypto entropy q r was = elim (Option-cases (lookup q.id r.gateway_clients)) [
    | inr (c, taken) ↦ rw (create_named, taken) was
    | inl free ↦ rw (create_named, free) (add_client-Stays crypto entropy q _ r free was)
  ]

  create_gateway_client-Stays :
      (crypto : Crypto) (entropy : ℕ → Entropy) (q : CreateGatewayClientRequest) (r : Memory)
      → Stays r (create_gateway_client crypto entropy q r).1
  unfolding create_gateway_client
  create_gateway_client-Stays crypto entropy q r was = create_named-Stays crypto entropy _ _ was

  module _ (crypto : Crypto) (entropy : ℕ → Entropy) (g : Engine)
      (digest : List Bundle → Result String String) (notifier : Option Notifier) where
    -- The other calls leave the clients alone.
    create_bundle-clients :
        (b : PolicyBundle) (r : Memory)
        → (create_bundle g digest (memory_repository crypto entropy g digest) b r).1.gateway_clients
          ≡ r.gateway_clients
    unfolding create_bundle create_policy_bundle
    create_bundle-clients b r = ground arith

    notified-clients :
        (p : Result ControlError PolicyActivationResponse × Memory)
        → (notified notifier p).1.gateway_clients ≡ p.1.gateway_clients
    unfolding notified
    notified-clients p = ground arith

    activate_bundles-clients :
        (q : PolicyActivationRequest) (r : Memory)
        → (activate_bundles g digest
            (memory_repository crypto entropy g digest)
            notifier
            q
            r).1.gateway_clients
          ≡ r.gateway_clients
    unfolding activate_bundles activate_policy_bundles notified
    activate_bundles-clients q r = ground arith

    put_provider-clients :
        (p : VerdictProvider) (r : Memory)
        → (put_provider (memory_repository crypto entropy g digest) p r).1.gateway_clients
          ≡ r.gateway_clients
    unfolding put_provider put_verdict_provider
    put_provider-clients p r = ground arith

    put_limit-clients :
        (l : RouteLimit) (r : Memory)
        → (put_limit (memory_repository crypto entropy g digest) l r).1.gateway_clients
          ≡ r.gateway_clients
    unfolding put_limit put_route_limit
    put_limit-clients l r = ground arith

    put_client_limit-clients :
        (l : ClientRouteLimit) (r : Memory)
        → (put_client_limit (memory_repository crypto entropy g digest) l r).1.gateway_clients
          ≡ r.gateway_clients
    unfolding put_client_limit put_client_route_limit
    put_client_limit-clients l r = ground arith

    delete_client_limit-clients :
        (j key : String) (r : Memory)
        → (delete_client_limit
            (memory_repository crypto entropy g digest)
            j
            key
            r).1.gateway_clients
          ≡ r.gateway_clients
    unfolding delete_client_limit delete_client_route_limit
    delete_client_limit-clients j key r = ground arith

    create_client-Stays :
        (q : CreateGatewayClientRequest) (r : Memory)
        → Stays r (create_client (memory_repository crypto entropy g digest) q r).1
    unfolding create_client
    create_client-Stays q r was = elim (Option-cases (validate_request q).0) [
      | inr (e, refused) ↦ rw (create_client, refused) was
      | inl valid ↦ rw (create_client, valid) (create_gateway_client-Stays crypto entropy _ r was)
    ]

    patch_client-Stays :
        (c : GatewayClient) (r : Memory)
        → Stays r (patch_client (memory_repository crypto entropy g digest) c r).1
    unfolding patch_client patch_gateway_client
    patch_client-Stays c r was = elim (Option-cases (validate_client c)) [
      | inr (e, refused) ↦ rw (patch_client, refused) was
      | inl valid ↦ rw (patch_client, valid) (patch_found-Stays c r _ refl was)
    ]

    revoke_client-Stays :
        (j : String) (r : Memory)
        → Stays r (revoke_client (memory_repository crypto entropy g digest) j r).1
    unfolding revoke_client revoke_gateway_client
    revoke_client-Stays j r was = elim (Bool-cases (j == "")) [
      | inl e ↦ rw e was
      | inr e ↦ rw e (revoke_found-Stays j r _ was)
    ]

    step-Stays : (call : Call) (r : Memory) → Stays r (step crypto entropy g digest notifier call r)
    unfolding step put_model_mapping
    step-Stays (create_bundle_call b) r was = rw (create_bundle-clients b r) was
    step-Stays (activate_call q) r was = rw (activate_bundles-clients q r) was
    step-Stays (put_mapping_call m) r was = was
    step-Stays (put_provider_call p) r was = rw (put_provider-clients p r) was
    step-Stays (create_client_call q) r was = create_client-Stays q r was
    step-Stays (patch_client_call c) r was = patch_client-Stays c r was
    step-Stays (revoke_client_call j) r was = revoke_client-Stays j r was
    step-Stays (put_limit_call l) r was = rw (put_limit-clients l r) was
    step-Stays (put_client_limit_call l) r was = rw (put_client_limit-clients l r) was
    step-Stays (delete_client_limit_call j key) r was = rw (delete_client_limit-clients j key r) was

    -- A client that is revoked stays in the repository with the status revoked, whatever calls
    -- are made on the service afterwards.
    pub run-IsRevoked :
        (calls : List Call) (r : Memory)
        → IsRevoked id r
        → IsRevoked id (run crypto entropy g digest notifier calls r)
    unfolding run
    run-IsRevoked [] r was = was
    run-IsRevoked (call ∷ calls) r was = run-IsRevoked calls _ (step-Stays call r was)
