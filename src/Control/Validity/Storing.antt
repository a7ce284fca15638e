-- ===== src/Control/Validity/Storing.antt =====
-- What the writes of the repository in memory (internal/contexts/control/application/memory.go) keep,
-- where what they are given is valid.
use kiwi_guard.Common.{
  ℕ, ◌+◌, String, true, List, [], ◌∷◌, Option, none, some, Result, ok, err, ◌≡◌, ◌≢◌, refl, arith,
  eq_iff, eq_string, Bool-cases, Option-cases, lookup, insert, erase, inl, inr, All-mono,
}
use kiwi_guard.Detection.{Engine}
use kiwi_guard.Policy.Types.{Bundle, is_some}
use kiwi_guard.Policy.Compile.{Snapshot}
use kiwi_guard.Clients.{KeyMaterial, Crypto, Entropy, status_revoked}
use kiwi_guard.Control.Types.{
  PolicyBundle, PolicyActivationRequest, ModelMapping, VerdictProvider, GatewayClient,
  CreateGatewayClientRequest, RouteLimit, ClientRouteLimit,
}
use kiwi_guard.Control.Memory.{
  Dict, Memory, inner, all_known, put_model_mapping, create_policy_bundle, activate_policy_bundles,
  put_verdict_provider, patch_found, revoke_found, put_route_limit, put_client_route_limit,
  delete_limit, delete_client_route_limit, add_client, create_named, create_gateway_client,
}
use kiwi_guard.Control.Service.{compile_policy_bundle}
use kiwi_guard.Control.Validation.{valid_gateway_client_status}
use kiwi_guard.Control.Entries.{
  Entries, Entries-insert, Entries-erase, Entries-lookup, Entries-mono, Distinct-insert,
  known-insert,
}
use kiwi_guard.Control.Validity.{
  IsMapping, IsProvider, IsClient, IsLimit, IsClientLimit, AreClientLimits, AreKnown, IsBundle,
  IsValid,
}

module _ (g : Engine) (digest : List Bundle → Result String String) where
  abbrev pub Keeps : Memory → Memory → Type 0
  Keeps r r' = IsValid g digest r → IsValid g digest r'

  known_after :
      (k : String) (b : PolicyBundle) (m : Dict PolicyBundle) (keys : List String)
      → AreKnown m keys
      → AreKnown (insert k b m) keys
  known_after k b m keys = All-mono keys (λ j. known-insert k j b m)

  pub create_policy_bundle-Keeps :
      (b : PolicyBundle) (s : Snapshot) (r : Memory)
      → compile_policy_bundle g digest b ≡ ok s
      → Keeps r (create_policy_bundle b r).1
  unfolding create_policy_bundle
  create_policy_bundle-Keeps b s r compiled v =
      let new =
        Entries-insert (IsBundle g digest) b.key b r.bundles v.bundles_valid (refl, s, compiled) in
      let distinct = Distinct-insert b.key b r.bundles v.bundles_distinct in
      let known = known_after b.key b r.bundles r.active_bundle_keys v.active_known in ground arith

  all_known-AreKnown :
      (keys : List String) (m : Dict PolicyBundle) → all_known keys m ≡ true → AreKnown m keys
  unfolding all_known
  all_known-AreKnown [] m h = tt
  all_known-AreKnown (k ∷ keys) m h = ground (arith, all_known-AreKnown keys m)

  pub activate_policy_bundles-Keeps :
      (q : PolicyActivationRequest) (r : Memory) → Keeps r (activate_policy_bundles q r).1
  unfolding activate_policy_bundles
  activate_policy_bundles-Keeps q r v = ground (arith, all_known-AreKnown q.keys r.bundles)

  pub put_model_mapping-Keeps : (m : ModelMapping) (r : Memory) → Keeps r (put_model_mapping m r).1
  unfolding put_model_mapping
  put_model_mapping-Keeps m r v =
      let new = Entries-insert IsMapping m.id m r.model_mappings v.mappings_valid refl in
      ground arith

  pub put_verdict_provider-Keeps :
      (p : VerdictProvider) (r : Memory) → p.mode ≡ "inline" → Keeps r (put_verdict_provider p r).1
  unfolding put_verdict_provider
  put_verdict_provider-Keeps p r inline v =
      let new =
        Entries-insert IsProvider p.id p r.verdict_providers v.providers_valid (refl, inline) in
      ground arith

  pub put_route_limit-Keeps :
      (l : RouteLimit) (r : Memory) → IsLimit l.route_key l → Keeps r (put_route_limit l r).1
  unfolding put_route_limit
  put_route_limit-Keeps l r good v =
      let new = Entries-insert IsLimit l.route_key l r.route_limits v.limits_valid good in
      ground arith

  set_client-Keeps :
      (id : String) (c : GatewayClient) (n : ℕ) (r : Memory)
      → IsClient id c
      → Keeps r
          (record r { gateway_clients = insert id c r.gateway_clients; next_client_number = n })
  set_client-Keeps id c n r good v =
      let new = Entries-insert IsClient id c r.gateway_clients v.clients_valid good in
      let limits =
        Entries-mono {Q = AreClientLimits (insert id c r.gateway_clients)} r.client_route_limits
          (λ k m limited. (known-insert id k c r.gateway_clients limited.0, limited.1))
          v.client_limits_valid in
      ground arith

  pub patch_found-Keeps :
      (c : GatewayClient) (r : Memory) (found : Option GatewayClient)
      → c.name ≢ ""
      → valid_gateway_client_status c.status ≡ true
      → Keeps r (patch_found c r found).1
  unfolding patch_found valid_gateway_client_status
  patch_found-Keeps c r none given known v = v
  patch_found-Keeps c r (some existing) given known v =
      set_client-Keeps c.id _ r.next_client_number r
        (refl, given, ground (arith, eq_iff existing.status status_revoked)) v

  pub revoke_found-Keeps :
      (id : String) (r : Memory) (found : Option GatewayClient)
      → lookup id r.gateway_clients ≡ found
      → Keeps r (revoke_found id r found).1
  unfolding revoke_found valid_gateway_client_status
  revoke_found-Keeps id r none e v = v
  revoke_found-Keeps id r (some c) e v =
      let was = Entries-lookup IsClient id c r.gateway_clients v.clients_valid e in
      set_client-Keeps id _ r.next_client_number r (refl, was.1, refl) v

  add_client-Keeps :
      (crypto : Crypto) (entropy : ℕ → Entropy) (q : CreateGatewayClientRequest)
      (made : Result String (String × KeyMaterial)) (r : Memory)
      → q.name ≢ ""
      → valid_gateway_client_status q.status ≡ true
      → Keeps r (add_client crypto entropy q made r).1
  unfolding add_client
  add_client-Keeps crypto entropy q (err e) r given known v = v
  add_client-Keeps crypto entropy q (ok (key, material)) r given known v =
      set_client-Keeps q.id _ r.next_client_number r (refl, given, known) v

  create_named-Keeps :
      (crypto : Crypto) (entropy : ℕ → Entropy) (q : CreateGatewayClientRequest) (r : Memory)
      → q.name ≢ ""
      → valid_gateway_client_status q.status ≡ true
      → Keeps r (create_named crypto entropy q r).1
  unfolding create_named
  create_named-Keeps crypto entropy q r given known v =
      elim (Bool-cases (is_some (lookup q.id r.gateway_clients))) [
        | inl taken ↦ rw taken v
        | inr free ↦ rw free (add_client-Keeps crypto entropy q _ r given known v)
      ]

  pub create_gateway_client-Keeps :
      (crypto : Crypto) (entropy : ℕ → Entropy) (q : CreateGatewayClientRequest) (r : Memory)
      → q.name ≢ ""
      → valid_gateway_client_status q.status ≡ true
      → Keeps r (create_gateway_client crypto entropy q r).1
  unfolding create_gateway_client
  create_gateway_client-Keeps crypto entropy q r given known v =
      let numbered : IsValid g digest (record r { next_client_number = r.next_client_number + 1 }) =
        ground arith in
      create_named-Keeps crypto entropy _ _ given known numbered

  set_limits-Keeps :
      (id : String) (m : Dict ClientRouteLimit) (r : Memory)
      → is_some (lookup id r.gateway_clients) ≡ true
      → Entries (IsClientLimit id) m
      → Keeps r (record r { client_route_limits = insert id m r.client_route_limits })
  set_limits-Keeps id m r known good v =
      let new =
        Entries-insert (AreClientLimits r.gateway_clients) id m r.client_route_limits
          v.client_limits_valid (known, good) in
      ground arith

  limits_of :
      (id : String) (r : Memory)
      → IsValid g digest r
      → Entries (IsClientLimit id) (inner (lookup id r.client_route_limits))
  limits_of id r v = elim (Option-cases (lookup id r.client_route_limits)) [
    | inl e ↦ rw e tt
    | inr (m, e) ↦ rw e (
        (Entries-lookup (AreClientLimits r.gateway_clients) id m r.client_route_limits
          v.client_limits_valid e).1)
  ]

  pub put_client_route_limit-Keeps :
      (l : ClientRouteLimit) (r : Memory)
      → IsClientLimit l.client_id l.route_key l
      → Keeps r (put_client_route_limit l r).1
  unfolding put_client_route_limit
  put_client_route_limit-Keeps l r good v =
      elim (Bool-cases (is_some (lookup l.client_id r.gateway_clients))) [
        | inr unknown ↦ rw unknown v
        | inl known ↦ rw known (
            set_limits-Keeps l.client_id _ r known
              (Entries-insert (IsClientLimit l.client_id) l.route_key l _
                (limits_of l.client_id r v) good)
              v)
      ]

  pub delete_client_route_limit-Keeps :
      (id key : String) (r : Memory) → Keeps r (delete_client_route_limit id key r).1
  unfolding delete_client_route_limit delete_limit
  delete_client_route_limit-Keeps id key r v =
      elim (Bool-cases (is_some (lookup id r.gateway_clients))) [
        | inr unknown ↦ rw unknown v
        | inl known ↦ elim (Option-cases (lookup id r.client_route_limits)) [
          | inl e ↦ rw (known, delete_limit, e) v
          | inr (m, e) ↦
              rw (known, delete_limit, e)
                (set_limits-Keeps id (erase key m) r known
                  (Entries-erase (IsClientLimit id) key m (rw e at (limits_of id r v))) v)
        ]
      ]
