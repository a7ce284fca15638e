-- ===== src/Clients.antt =====
-- internal/contexts/clients/domain: the keys of the gateway's clients, how they are made and checked.
use Prim.Native.Char.{code}
use kiwi_guard.Common.{
  ℕ, String, ◌<>◌, Bool, true, false, ◌&&◌, [], ◌∷◌, Option, none, some, Result, ok, err, ◌==◌,
  eq_nat, eq_string, if◌then◌else◌, length,
}
use kiwi_guard.Common.Utf8.{Bytes}

abbrev pub Status : Type 0
Status = String

abbrev pub status_enabled : Status
status_enabled = "enabled"

abbrev pub status_disabled : Status
status_disabled = "disabled"

abbrev pub status_revoked : Status
status_revoked = "revoked"

pub record KeyMaterial : Type 0 where
  pub prefix : String
  pub hash : String

-- What `crypto/sha256`, `encoding/hex` and `encoding/base64` compute. `base64` is `RawURLEncoding`.
pub record Crypto : Type 0 where
  pub sha256 : String → Bytes
  pub hex_encode : Bytes → String
  pub hex_decode : String → Result String Bytes
  pub base64 : Bytes → String

-- What `crypto/rand` gives to the two reads of a call.
pub record Entropy : Type 0 where
  pub prefix : Result String Bytes
  pub secret : Result String Bytes

abbrev pub key_hash_scheme : String
key_hash_scheme = "sha256:"

abbrev pub sha256_size : ℕ
sha256_size = 32

-- `strings.CutPrefix`: what follows the prefix, if it is there.
unfoldable pub cut_prefix : String → String → Option String
cut_prefix s String.[] = some s
cut_prefix String.[] (String.◌∷◌ c p) = none
cut_prefix (String.◌∷◌ d s) (String.◌∷◌ c p) = if code d == code c then cut_prefix s p else none

-- `subtle.ConstantTimeCompare(a, b) == 1`.
unfoldable pub equal_bytes : Bytes → Bytes → Bool
equal_bytes [] [] = true
equal_bytes (x ∷ xs) (y ∷ ys) = x == y && equal_bytes xs ys
equal_bytes _ _ = false

module _ (c : Crypto) where
  unfoldable pub hash_key : String → String
  hash_key key = key_hash_scheme <> c.hex_encode (c.sha256 key)

  -- The end of `VerifyKey`, by the stored digest.
  unfoldable pub verify_digest : String → Result String Bytes → Bool
  unfolding equal_bytes
  verify_digest key (err e) = false
  verify_digest key (ok stored) = length stored == sha256_size && equal_bytes (c.sha256 key) stored

  unfoldable pub verify_hash : String → Option String → Bool
  unfolding verify_digest
  verify_hash key none = false
  verify_hash key (some hash_hex) = verify_digest key (c.hex_decode hash_hex)

  unfoldable pub verify_key : String → String → Bool
  unfolding cut_prefix verify_hash
  verify_key key stored_hash = verify_hash key (cut_prefix stored_hash key_hash_scheme)

  unfoldable pub key_prefix_of : String → Bytes → String
  key_prefix_of client_id bytes = "kgc_" <> (client_id <> ("_" <> c.base64 bytes))

  -- The key and its material, made of the bytes that the reads give.
  unfoldable pub join_key :
      String → Result String Bytes → Result String Bytes → Result String (String × KeyMaterial)
  unfolding key_prefix_of hash_key
  join_key client_id (err e) secret = err ("generate key prefix: " <> e)
  join_key client_id (ok prefix_bytes) (err e) = err ("generate key secret: " <> e)
  join_key client_id (ok prefix_bytes) (ok secret_bytes) =
      let prefix = key_prefix_of client_id prefix_bytes in
      let key = prefix <> ("." <> c.base64 secret_bytes) in
      ok (key, record { prefix = prefix; hash = hash_key key })

  unfoldable pub generate_key : Entropy → String → Result String (String × KeyMaterial)
  unfolding join_key
  generate_key random client_id =
      if client_id == ""
      then err "client id is required"
      else join_key client_id random.prefix random.secret
