-- ===== src/Gateway/Authentication/RoundTrip.antt =====
-- Keys that `GenerateKey` (internal/contexts/clients/domain/key.go) makes, at the registry of
-- internal/contexts/gateway/adapters/http/openai/client_auth.go.
use Prim.Native.Char.{Char, code}
use text.Mathlib.TextLemmas.{nil-append, cons-append, append-eq-nil_iff}
use kiwi_guard.Common.{
  String, ◌<>◌, true, List, [], ◌∷◌, ◌++◌, none, some, Result, ok, err, ◌≡◌, ◌≢◌, refl, ap, sym,
  ◌∙◌, subst, arith, eq_iff, ◌==◌, eq_nat, eq_string, eqb_nat_iff, Bool-cases, length, All, lookup,
  insert, lookup-insert, eq_refl, ok-injective, inl, inr,
}
use kiwi_guard.Common.Utf8.{Bytes}
use kiwi_guard.Clients.{
  KeyMaterial, Crypto, Entropy, key_hash_scheme, sha256_size, cut_prefix, equal_bytes, hash_key,
  verify_digest, verify_key, verify_hash, key_prefix_of, join_key, generate_key,
}
use kiwi_guard.Gateway.Configuration.Building.{Client}
use kiwi_guard.Gateway.Authentication.{
  before_last_dot, register, new_client_registry, Registry, by_status, verified, find_client,
  authenticate,
}

-- A digest has 32 bytes and survives its hexadecimal text, and the alphabet of the base64 encoding
-- has no dot.
pub record IsCrypto (c : Crypto) : Type 0 where
  pub digest_size : (key : String) → length (c.sha256 key) ≡ sha256_size
  pub hex_round : (key : String) → c.hex_decode (c.hex_encode (c.sha256 key)) ≡ ok (c.sha256 key)
  pub no_dot : (bytes : Bytes) → before_last_dot (c.base64 bytes) ≡ none

cut_prefix-append : (p s : String) → cut_prefix (p <> s) p ≡ some s
unfolding cut_prefix
cut_prefix-append String.[] s = rw (nil-append s)
cut_prefix-append (String.◌∷◌ c p) s =
    rw (cons-append c p s, (eqb_nat_iff (code c) (code c)).1 refl) (cut_prefix-append p s)

equal_bytes_refl : (xs : Bytes) → equal_bytes xs xs ≡ true
unfolding equal_bytes
equal_bytes_refl [] = refl
equal_bytes_refl (x ∷ xs) = ground (arith, equal_bytes_refl xs)

abbrev dot : Char
dot = "."

-- The last dot is the one before a text without dots.
before_last_dot-append :
    (p s : String) → before_last_dot s ≡ none → before_last_dot (p <> ("." <> s)) ≡ some p
unfolding before_last_dot
before_last_dot-append String.[] s h =
    rw (nil-append ("." <> s)) (rw (cons-append dot "" s, nil-append s, before_last_dot, h) refl)
before_last_dot-append (String.◌∷◌ c p) s h =
    rw (cons-append c p ("." <> s), before_last_dot, before_last_dot-append p s h)

-- The client that a prefix finds is the last one registered with it.
register-lookup :
    (clients : List Client) (r : Registry) (prefix : String)
    → All (λ (k : Client). k.key_prefix ≢ prefix) clients
    → lookup prefix (register clients r) ≡ lookup prefix r
unfolding register
register-lookup [] r prefix h = refl
register-lookup (k ∷ clients) r prefix h = elim (Bool-cases (k.key_prefix == "")) [
  | inl e ↦ rw e (register-lookup clients r prefix h.1)
  | inr e ↦ rw e (
      register-lookup clients (insert k.key_prefix k r) prefix h.1
      ∙ lookup-insert k.key_prefix prefix k r
      ∙ ground (arith, h.0, eq_iff k.key_prefix prefix))
]

registered_first :
    (after : List Client) (client : Client) (r : Registry)
    → client.key_prefix ≢ ""
    → All (λ (k : Client). k.key_prefix ≢ client.key_prefix) after
    → lookup client.key_prefix (register (client ∷ after) r) ≡ some client
unfolding register
registered_first after client r given last = elim (Bool-cases (client.key_prefix == "")) [
  | inl e ↦ absurd (given ((eq_iff client.key_prefix "").0 e))
  | inr e ↦ rw e (
      register-lookup after (insert client.key_prefix client r) client.key_prefix last
      ∙ lookup-insert client.key_prefix client.key_prefix client r
      ∙ rw (eq_refl client.key_prefix))
]

registered :
    (before after : List Client) (client : Client) (r : Registry)
    → client.key_prefix ≢ ""
    → All (λ (k : Client). k.key_prefix ≢ client.key_prefix) after
    → lookup client.key_prefix (register (before ++ client ∷ after) r) ≡ some client
unfolding register
registered [] after client r given last = registered_first after client r given last
registered (k ∷ before) after client r given last = registered before after client _ given last

module _ (c : Crypto) (laws : IsCrypto c) where
  verify_key-hash_key : (key : String) → verify_key c key (hash_key c key) ≡ true
  unfolding verify_key hash_key
  verify_key-hash_key key = rw (
    cut_prefix-append key_hash_scheme (c.hex_encode (c.sha256 key)),
    verify_hash,
    laws.hex_round key,
    verify_digest,
    laws.digest_size key,
    equal_bytes_refl (c.sha256 key),
  )

  -- The parts of a key that has been made.
  record IsMade (id key : String) (m : KeyMaterial) : Type 0 where
    secret : Bytes
    prefixed : m.prefix ≢ ""
    joined : key ≡ m.prefix <> ("." <> c.base64 secret)
    hashed : m.hash ≡ hash_key c key

  made_lem :
      (id : String) (bytes secret : Bytes) (p : String × KeyMaterial)
      → join_key c id (ok bytes) (ok secret) ≡ ok p
      → IsMade id p.0 p.1
  unfolding join_key key_prefix_of
  made_lem id bytes secret p h =
      let given : key_prefix_of c id bytes ≢ "" =
        λ e. ground (arith, eq_iff "kgc_" "", (append-eq-nil_iff.0 e).0) in
      subst (λ (q : String × KeyMaterial). IsMade id q.0 q.1) (ok-injective h)
        (record { secret = secret; prefixed = given; joined = refl; hashed = refl })

  join_key-IsMade :
      (id : String) (bytes secret : Result String Bytes) (p : String × KeyMaterial)
      → join_key c id bytes secret ≡ ok p
      → IsMade id p.0 p.1
  unfolding join_key
  join_key-IsMade id (err e) secret p h = absurd (cc)
  join_key-IsMade id (ok bytes) (err e) p h = absurd (cc)
  join_key-IsMade id (ok bytes) (ok secret) p h = made_lem id bytes secret p h

  found :
      {id : String} (key : String) (m : KeyMaterial) (before after : List Client) (client : Client)
      → IsMade id key m
      → client.key_prefix ≡ m.prefix
      → client.key_hash ≡ m.hash
      → All (λ (k : Client). k.key_prefix ≢ client.key_prefix) after
      → authenticate c (new_client_registry (before ++ client ∷ after)) key ≡ by_status client
  unfolding authenticate new_client_registry find_client verified before_last_dot
  found key m before after client made prefix hash last =
      let cut : before_last_dot key ≡ some m.prefix =
        rw made.joined (before_last_dot-append m.prefix _ (laws.no_dot made.secret)) in
      let kept : lookup m.prefix (register (before ++ client ∷ after) []) ≡ some client =
        rw (← prefix) (registered before after client [] (rw prefix made.prefixed) last) in
      let checked : verify_key c key client.key_hash ≡ true =
        rw (hash, made.hashed) (verify_key-hash_key key) in
      elim (Bool-cases (key == "")) [
        | inl e ↦ absurd (
            let uncut : before_last_dot "" ≡ some m.prefix =
              ap before_last_dot (sym ((eq_iff key "").0 e)) ∙ cut in
            cc)
        | inr e ↦ rw (e, cut, find_client, kept, verified, checked)
      ]

  -- A client registered with the prefix and the hash of a key that `GenerateKey` has made, and
  -- with a prefix that no client after it has, is the one found by that key; its status decides
  -- the answer. This holds whatever characters its identifier has.
  pub generate_key-authenticate :
      (random : Entropy) (id key : String) (m : KeyMaterial) (before after : List Client)
      (client : Client)
      → generate_key c random id ≡ ok (key, m)
      → client.key_prefix ≡ m.prefix
      → client.key_hash ≡ m.hash
      → All (λ (k : Client). k.key_prefix ≢ client.key_prefix) after
      → authenticate c (new_client_registry (before ++ client ∷ after)) key ≡ by_status client
  unfolding generate_key authenticate new_client_registry find_client
  generate_key-authenticate random id key m before after client made prefix hash last =
      elim (Bool-cases (id == "")) [
        | inl e ↦ absurd (
            let k : ◌≡◌ {A = Result String (String × KeyMaterial)} (err "client id is required")
                (ok (key, m)) =
              rw (e, generate_key) at made in
            cc)
        | inr e ↦
            let parts =
              join_key-IsMade id random.prefix random.secret (key, m)
                (rw (e, generate_key) at made) in
            found key m before after client parts prefix hash last
      ]
