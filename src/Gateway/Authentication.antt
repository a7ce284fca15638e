-- ===== src/Gateway/Authentication.antt =====
-- internal/contexts/gateway/adapters/http/openai/client_auth.go: the registry of clients by the prefix
-- of their keys.
pub mod RoundTrip
pub mod Soundness
mod Tests
use Prim.Native.Char.{code}
use kiwi_guard.Common.{
  String, Bool, true, not, List, [], ◌∷◌, Option, none, some, ◌==◌, eq_nat, eq_string,
  if◌then◌else◌, lookup, insert,
}
use kiwi_guard.Clients.{Crypto, verify_key, status_enabled, status_disabled, status_revoked}
use kiwi_guard.Gateway.Types.{RejectReason}
use kiwi_guard.Gateway.Admission.{ClientIdentity}
use kiwi_guard.Gateway.Configuration.Building.{Client}

-- `key[:strings.LastIndex(key, ".")]`.
unfoldable pub before_last_dot : String → Option String
before_last_dot String.[] = none
before_last_dot (String.◌∷◌ c s) = elim (before_last_dot s) [
  | some rest ↦ some (String.◌∷◌ c rest)
  | none ↦ if code c == b'.' then some "" else none
]

abbrev pub Registry : Type 0
Registry = List (String × Client)

-- The loop of `newClientRegistry`.
unfoldable pub register : List Client → Registry → Registry
register [] clients_by_prefix = clients_by_prefix
register (client ∷ clients) clients_by_prefix = register clients (
    if client.key_prefix == ""
    then clients_by_prefix
    else insert client.key_prefix client clients_by_prefix)

unfoldable pub new_client_registry : List Client → Registry
unfolding register
new_client_registry clients = register clients []

abbrev pub no_client : Client
no_client = record { id = ""; name = ""; status = ""; key_prefix = ""; key_hash = "" }

-- The `switch` on the status.
unfoldable pub by_status : Client → Client × String
by_status client =
    if client.status == status_enabled
    then (client, "")
    else if client.status == status_disabled
    then (no_client, "disabled_client_key")
    else if client.status == status_revoked
    then (no_client, "revoked_client_key")
    else (no_client, "disabled_client_key")

module _ (c : Crypto) (clients_by_prefix : Registry) where
  unfoldable pub verified : String → Option Client → Client × String
  unfolding by_status
  verified key none = (no_client, "invalid_client_key")
  verified key (some client) =
      if not (verify_key c key client.key_hash)
      then (no_client, "invalid_client_key")
      else by_status client

  unfoldable pub find_client : String → Option String → Client × String
  unfolding verified lookup
  find_client key none = (no_client, "invalid_client_key")
  find_client key (some prefix) = verified key (lookup prefix clients_by_prefix)

  unfoldable pub authenticate : String → Client × String
  unfolding before_last_dot find_client
  authenticate key =
      if key == "" then (no_client, "missing_client_key") else find_client key (before_last_dot key)

  unfoldable pub authenticate_client : String → ClientIdentity × RejectReason
  unfolding authenticate
  authenticate_client key =
      let found = authenticate key in
      if not (found.1 == "")
      then (record { id = "" }, found.1)
      else (record { id = found.0.id }, "")
