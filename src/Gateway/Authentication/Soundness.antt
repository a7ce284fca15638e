-- ===== src/Gateway/Authentication/Soundness.antt =====
-- What an accepted key says of the clients in the registry
-- (internal/contexts/gateway/adapters/http/openai/client_auth.go), and of an admission.
use kiwi_guard.Common.{
  String, Bool, true, List, [], ◌∷◌, Option, none, some, ◌≡◌, refl, sym, subst, arith, eq_iff, ◌==◌,
  eq_string, Bool-cases, In, lookup, insert, lookup-insert, ◌⊎◌, inl, inr, some-injective,
}
use kiwi_guard.Clients.{Crypto, verify_key, status_enabled}
use kiwi_guard.Gateway.Limits.{LimitState}
use kiwi_guard.Gateway.Limits.Resolver.{LimitResolver}
use kiwi_guard.Gateway.Admission.{AdmissionInput, admit_protected_route}
use kiwi_guard.Gateway.Admission.Reservation.{with_limits, admit_protected_route-cases}
use kiwi_guard.Gateway.Configuration.Building.{Client}
use kiwi_guard.Gateway.Authentication.{
  before_last_dot, register, new_client_registry, Registry, by_status, verified, find_client,
  authenticate, authenticate_client,
}

-- A configured client that a key belongs to.
pub record IsKeyOf (c : Crypto) (clients : List Client) (key id : String) : Type 0 where
  pub client : Client
  pub listed : In client clients
  pub named : client.id ≡ id
  pub enabled : client.status ≡ status_enabled
  pub prefixed : before_last_dot key ≡ some client.key_prefix
  pub checked : verify_key c key client.key_hash ≡ true

register-In :
    (clients : List Client) (r : Registry) (prefix : String) (k : Client)
    → lookup prefix (register clients r) ≡ some k
    → ((In k clients × (k.key_prefix ≡ prefix)) ⊎ (lookup prefix r ≡ some k))
unfolding register
register-In [] r prefix k h = inr h
register-In (x ∷ clients) r prefix k h = elim (Bool-cases (x.key_prefix == "")) [
  | inl e ↦ elim (register-In clients r prefix k (rw e at h)) [
    | inl found ↦ inl (inr found.0, found.1)
    | inr old ↦ inr old
  ]
  | inr e ↦ elim (register-In clients (insert x.key_prefix x r) prefix k (rw e at h)) [
    | inl found ↦ inl (inr found.0, found.1)
    | inr new ↦ elim (Bool-cases (x.key_prefix == prefix)) [
      | inl same ↦
          let it : x ≡ k =
            some-injective x k (rw (lookup-insert x.key_prefix prefix x r, same) at new) in
          inl (
            inl (sym it),
            subst (λ (y : Client). y.key_prefix ≡ prefix) it ((eq_iff x.key_prefix prefix).0 same),
          )
      | inr other ↦ inr (rw (lookup-insert x.key_prefix prefix x r, other) at new)
    ]
  ]
]

by_status-enabled :
    (k : Client) → (by_status k).1 ≡ "" → (k.status ≡ status_enabled) × ((by_status k).0 ≡ k)
unfolding by_status
by_status-enabled k h = ground (
  arith,
  eq_iff k.status status_enabled,
  eq_iff "disabled_client_key" "",
  eq_iff "revoked_client_key" "",
)

module _ (c : Crypto) (clients : List Client) where
  verified-IsKeyOf :
      (key prefix : String) (found : Option Client)
      → before_last_dot key ≡ some prefix
      → lookup prefix (new_client_registry clients) ≡ found
      → (verified c (new_client_registry clients) key found).1 ≡ ""
      → IsKeyOf c clients key (verified c (new_client_registry clients) key found).0.id
  unfolding verified new_client_registry lookup
  verified-IsKeyOf key prefix none cut e h = absurd (ground (arith, eq_iff "invalid_client_key" ""))
  verified-IsKeyOf key prefix (some k) cut e h = elim (Bool-cases (verify_key c key k.key_hash)) [
    | inr bad ↦ absurd (
        let same : ◌≡◌ {A = String} "invalid_client_key" "" = rw (bad, verified) at h in
        ground (arith, eq_iff "invalid_client_key" ""))
    | inl good ↦
        let (enabled, same) = by_status-enabled k (rw (good, verified) at h) in
        elim (register-In clients [] prefix k e) [
          | inl (among, at_prefix) ↦
              rw (good, same)
                (record {
                  client = k;
                  listed = among;
                  named = refl;
                  enabled = enabled;
                  prefixed = rw at_prefix cut;
                  checked = good;
                })
          | inr old ↦ absurd (cc)
        ]
  ]

  found-IsKeyOf :
      (key : String) (cut : Option String)
      → before_last_dot key ≡ cut
      → (find_client c (new_client_registry clients) key cut).1 ≡ ""
      → IsKeyOf c clients key (find_client c (new_client_registry clients) key cut).0.id
  unfolding find_client
  found-IsKeyOf key none cut h = absurd (ground (arith, eq_iff "invalid_client_key" ""))
  found-IsKeyOf key (some prefix) cut h = verified-IsKeyOf key prefix _ cut refl h

  -- The client of a key that is accepted.
  authenticate-IsKeyOf :
      (key : String)
      → (authenticate c (new_client_registry clients) key).1 ≡ ""
      → IsKeyOf c clients key (authenticate c (new_client_registry clients) key).0.id
  unfolding authenticate
  authenticate-IsKeyOf key h = elim (Bool-cases (key == "")) [
    | inl e ↦ absurd (
        let same : ◌≡◌ {A = String} "missing_client_key" "" = rw (e, authenticate) at h in
        ground (arith, eq_iff "missing_client_key" ""))
    | inr e ↦ rw e (found-IsKeyOf key (before_last_dot key) refl (rw (e, authenticate) at h))
  ]

  authenticate_client-IsKeyOf :
      (key : String)
      → (authenticate_client c (new_client_registry clients) key).1 ≡ ""
      → IsKeyOf c clients key (authenticate_client c (new_client_registry clients) key).0.id
  unfolding authenticate_client
  authenticate_client-IsKeyOf key h =
      let found = authenticate c (new_client_registry clients) key in
      elim (Bool-cases (found.1 == "")) [
        | inl e ↦ rw e (authenticate-IsKeyOf key ((eq_iff found.1 "").0 e))
        | inr e ↦ absurd (ground (arith, eq_iff found.1 "", rw (e, authenticate_client) at h))
      ]

  -- With the registry of the configured clients and the limits of the server, a request is
  -- admitted only as a configured client whose status is enabled, which the admission names,
  -- whose key prefix is the key up to its last dot, and whose hash the key verifies against.
  pub admit_protected_route-IsKeyOf :
      (resolver : LimitResolver) (audit : Option Bool) (input : AdmissionInput) (s : LimitState)
      → let u = with_limits (authenticate_client c (new_client_registry clients)) resolver audit in
        (admit_protected_route u input s).0.allowed ≡ true
        → IsKeyOf c clients input.client_key (admit_protected_route u input s).0.client_id
  admit_protected_route-IsKeyOf resolver audit input s granted =
      let check = authenticate_client c (new_client_registry clients) in
      elim (admit_protected_route-cases check resolver audit input s) [
        | inl refused ↦ absurd (ground (arith, refused.denied))
        | inr admitted ↦
            rw admitted.identified
              (authenticate_client-IsKeyOf input.client_key admitted.authenticated)
      ]
