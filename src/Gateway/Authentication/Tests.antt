-- ===== src/Gateway/Authentication/Tests.antt =====
-- Runs of the registry of clients and of the generated keys, and the theorems on them at inputs.
use kiwi_guard.Common.{
  String, true, [], ◌∷◌, none, Result, ok, err, ◌≡◌, refl, ◌==◌, eq_nat, eq_string, if◌then◌else◌,
  lookup, insert, pos, Bool-cases, inl, inr, length, ℕ,
}
use kiwi_guard.Common.Utf8.{Bytes}
use kiwi_guard.Clients.{KeyMaterial, Crypto, Entropy, sha256_size, verify_key, generate_key}
use kiwi_guard.Gateway.Configuration.Building.{Client}
use kiwi_guard.Gateway.Authentication.{
  before_last_dot, new_client_registry, by_status, authenticate, authenticate_client,
}
use kiwi_guard.Gateway.Limits.{
  RouteLimitPolicy, LimitState, Release, new_limit_state, allow_rate, acquire_concurrency,
}
use kiwi_guard.Gateway.Limits.Resolver.{
  LimitResolver, new_limit_resolver, effective_policy, add_routes, add_policies, add_overrides,
  valid_route_limit_policy,
}
use kiwi_guard.Gateway.Admission.{
  AdmissionInput, AdmissionUseCase, admit_protected_route, effective_limit_policy,
}
use kiwi_guard.Gateway.Admission.Reservation.{with_limits}
use kiwi_guard.Gateway.Authentication.Soundness.{IsKeyOf, admit_protected_route-IsKeyOf}
use kiwi_guard.Gateway.Authentication.RoundTrip.{IsCrypto, generate_key-authenticate}

abbrev digest_of : ℕ → Bytes
digest_of n =
    n ∷ n ∷ n ∷ n ∷ n ∷ n ∷ n ∷ n ∷ n ∷ n ∷ n ∷ n ∷ n ∷ n ∷ n ∷ n ∷ n ∷ n ∷ n ∷ n ∷ n ∷ n ∷ n ∷ n
    ∷ n ∷ n ∷ n ∷ n ∷ n ∷ n ∷ n ∷ n ∷ []

abbrev alpha_key : String
alpha_key = "kgc_team.a_cHJl.c2Vj"

-- A digest that knows one key, with its hexadecimal text.
abbrev digest : String → Bytes
digest key = if key == alpha_key then digest_of 1 else digest_of 0

abbrev hex : Bytes → String
hex [] = ""
hex (b ∷ bs) = if b == 1 then "01" else "00"

abbrev unhex : String → Result String Bytes
unhex s = if s == "01" then ok (digest_of 1) else if s == "00" then ok (digest_of 0) else err "hex"

abbrev base64_of : Bytes → String
base64_of [] = "cHJl"
base64_of (b ∷ bs) = "c2Vj"

abbrev crypto : Crypto
crypto = record { sha256 = digest; hex_encode = hex; hex_decode = unhex; base64 = base64_of }

digest-length : (key : String) → length (digest key) ≡ sha256_size
digest-length key = elim (Bool-cases (key == alpha_key)) [ inl e ↦ rw e refl | inr e ↦ rw e refl ]

unhex-hex : (key : String) → unhex (hex (digest key)) ≡ ok (digest key)
unhex-hex key = elim (Bool-cases (key == alpha_key)) [ inl e ↦ rw e refl | inr e ↦ rw e refl ]

base64_of-no_dot : (bytes : Bytes) → before_last_dot (base64_of bytes) ≡ none
unfolding before_last_dot
base64_of-no_dot [] = refl
base64_of-no_dot (b ∷ bs) = refl

crypto-IsCrypto : IsCrypto crypto
crypto-IsCrypto = record {
  digest_size = digest-length;
  hex_round = unhex-hex;
  no_dot = base64_of-no_dot;
}

abbrev random : Entropy
random = record { prefix = ok []; secret = ok (7 ∷ []) }

abbrev material : KeyMaterial
material = record { prefix = "kgc_team.a_cHJl"; hash = "sha256:01" }

abbrev client : Client
client = record {
  id = "team.a";
  name = "Team A";
  status = "enabled";
  key_prefix = "kgc_team.a_cHJl";
  key_hash = "sha256:01";
}

abbrev revoked : Client
revoked = record client { id = "old"; status = "revoked" }

generates : generate_key crypto random "team.a" ≡ ok (alpha_key, material)
unfolding generate_key
generates = refl

accepts :
    authenticate_client crypto (new_client_registry (revoked ∷ client ∷ [])) alpha_key
    ≡ (record { id = "team.a" }, "")
unfolding authenticate_client new_client_registry insert verify_key before_last_dot by_status
accepts = refl

refuses_revoked :
    authenticate_client crypto (new_client_registry (client ∷ revoked ∷ [])) alpha_key
    ≡ (record { id = "" }, "revoked_client_key")
unfolding authenticate_client new_client_registry insert verify_key before_last_dot by_status
refuses_revoked = refl

refuses_wrong :
    authenticate_client crypto (new_client_registry (client ∷ [])) "kgc_team.a_cHJl.other"
    ≡ (record { id = "" }, "invalid_client_key")
unfolding authenticate_client new_client_registry insert verify_key before_last_dot by_status
refuses_wrong = refl

generate_key-authenticate_example :
    authenticate crypto (new_client_registry (revoked ∷ client ∷ [])) alpha_key ≡ by_status client
generate_key-authenticate_example =
    generate_key-authenticate crypto crypto-IsCrypto random "team.a" alpha_key material
      (revoked ∷ []) [] client generates refl refl tt

abbrev chat_policy : RouteLimitPolicy
chat_policy = record {
  route_key = "chat";
  requests_per_window = pos 2;
  window = pos 10;
  max_concurrent_requests = pos 1;
  max_body_bytes = pos 100;
  enabled = true;
}

abbrev chat_input : AdmissionInput
chat_input = record {
  client_key = alpha_key;
  route_key = "chat";
  default_max_body_bytes = pos 50;
  now = 5;
}

abbrev chat_resolver : LimitResolver
chat_resolver = new_limit_resolver [] (chat_policy ∷ []) []

abbrev chat_use_case : AdmissionUseCase LimitState Release
chat_use_case =
    with_limits (authenticate_client crypto (new_client_registry (client ∷ []))) chat_resolver none

admits : (admit_protected_route chat_use_case chat_input new_limit_state).0.allowed ≡ true
unfolding admit_protected_route effective_limit_policy allow_rate acquire_concurrency
    authenticate_client new_client_registry verify_key before_last_dot new_limit_resolver add_routes
    add_policies add_overrides valid_route_limit_policy insert lookup effective_policy
admits = refl

admit_protected_route-IsKeyOf_example :
    IsKeyOf crypto
      (client ∷ [])
      alpha_key
      (admit_protected_route chat_use_case chat_input new_limit_state).0.client_id
admit_protected_route-IsKeyOf_example =
    admit_protected_route-IsKeyOf crypto (client ∷ []) chat_resolver none chat_input new_limit_state
      admits
