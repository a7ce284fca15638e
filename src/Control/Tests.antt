-- ===== src/Control/Tests.antt =====
-- The control plane over the repository in memory on concrete calls, and the theorems on them at
-- inputs.
use kiwi_guard.Common.{
  ℕ, pos, leb, String, true, List, [], ◌∷◌, length, eq_string, insert, lookup, sort_slice, some,
  Option, Result, ok, err, ◌≡◌, refl,
}
use kiwi_guard.Detection.{
  Engine, compile, normalize_definition, custom_pattern, normalize_categories,
}
use kiwi_guard.Policy.Types.{Bundle, action_allow, action_block}
use kiwi_guard.Policy.Types
use kiwi_guard.Policy.Canonical.{canonical_bundles, canonical_bundle}
use kiwi_guard.Policy.Compile.{
  active_rules, detectors_for_rule, compile_rule, compile_rules, compile_detectors,
  compile_detector_map, compile_bundle, compile_bundles, hash_bundles, compile_snapshot,
}
use kiwi_guard.Clients.{Crypto, Entropy, generate_key}
use kiwi_guard.Control.Types.{
  PolicyBundle, PolicyActivationRequest, PolicyActivationResponse, GatewayClient,
  CreateGatewayClientRequest, gateway_client_already_exists,
}
use kiwi_guard.Control.Ports.{Notifier}
use kiwi_guard.Control.Memory.{
  Memory, new_memory, memory_repository, create_policy_bundle, activate_policy_bundles, values,
  all_known, create_gateway_client, revoke_gateway_client,
}
use kiwi_guard.Control.Service.{
  create_bundle, activate_bundles, activation_snapshot_hash, compile_policy_bundle, create_client,
  revoke_client,
}
use kiwi_guard.Control.Validation.{
  validate_bundle, valid_source, valid_action, valid_severity, valid_detector_kind, valid_direction,
  to_policy_bundle, validate_request, valid_gateway_client_status,
}
use kiwi_guard.Control.Validity.{
  Call, create_bundle_call, activate_call, create_client_call, patch_client_call,
  revoke_client_call, put_limit_call, IsValid, run,
}
use kiwi_guard.Control.Validity.Keeping.{run-IsValid}
use kiwi_guard.Control.Revocation.{IsRevoked, run-IsRevoked}
use kiwi_guard.Control.Activation.{IsActivated, activate_bundles-IsActivated}
use kiwi_guard.Control.Status.{HasSnapshot, run-HasSnapshot}

abbrev engine : Engine
engine = record {
  Regexp = String;
  compile_pattern = λ p. ok p;
  find_all = λ re text. (0, length text) ∷ [];
  hash_value = λ value. "digest";
  is_digit = λ r. leb b'0' r;
}

abbrev digest : List Bundle → Result String String
digest [] = ok "no bundles"
digest (b ∷ bs) = ok b.version

abbrev crypto : Crypto
crypto = record {
  sha256 = λ key. [];
  hex_encode = λ bytes. "00";
  hex_decode = λ s. ok [];
  base64 = λ bytes. "cHJl";
}

abbrev entropy : ℕ → Entropy
entropy n = record { prefix = ok (n ∷ []); secret = ok (n ∷ n ∷ []) }

abbrev broken : Option Notifier
broken = some (record { notify_config_activated = λ revision. some "channel closed" })

abbrev bundle : PolicyBundle
bundle = record {
  key = "base";
  version = "1";
  source = "user";
  default_action = "allow";
  detectors = record { key = "word"; kind = "regex"; pattern = "x"; categories = [] } ∷ [];
  rules =
      record {
        key = "no-words";
        enabled = true;
        severity = "high";
        action = "block";
        detector_keys = "word" ∷ [];
        scope = record { route_key = ""; provider = ""; model = ""; direction = "input" };
      }
      ∷ [];
}

abbrev activation : PolicyActivationRequest
activation = record { keys = "base" ∷ []; reason = "first"; snapshot_hash = "" }

abbrev request : CreateGatewayClientRequest
request = record { id = " team "; name = "Team"; status = ""; notes = "" }

abbrev enabled_again : GatewayClient
enabled_again = record {
  id = "team";
  name = "Team";
  status = "enabled";
  key_prefix = "";
  notes = "";
}

abbrev revoked_memory : Memory
revoked_memory =
    run crypto entropy engine digest broken
      (create_client_call request ∷ revoke_client_call "team" ∷ []) new_memory

-- A blank in a request's identifier is trimmed; a status that is left out is enabled.
creates :
    lookup "team"
      (run crypto entropy engine digest broken
        (create_client_call request ∷ [])
        new_memory).gateway_clients
    ≡ some (record {
      id = "team";
      name = "Team";
      status = "enabled";
      key_prefix = "kgc_team_cHJl";
      notes = "";
    })
unfolding run create_client create_gateway_client validate_request valid_gateway_client_status
    generate_key new_memory lookup insert
creates = refl

was-IsRevoked : IsRevoked "team" revoked_memory
unfolding run create_client revoke_client create_gateway_client revoke_gateway_client
    validate_request valid_gateway_client_status generate_key new_memory lookup insert
was-IsRevoked = (
  record {
    id = "team";
    name = "Team";
    status = "revoked";
    key_prefix = "kgc_team_cHJl";
    notes = "";
  },
  refl,
  refl,
)

run-IsRevoked_example :
    IsRevoked "team" (
      run crypto entropy engine digest broken (patch_client_call enabled_again ∷ []) revoked_memory)
run-IsRevoked_example =
    run-IsRevoked "team" crypto entropy engine digest broken (patch_client_call enabled_again ∷ [])
      revoked_memory was-IsRevoked

abbrev calls : List Call
calls =
    create_bundle_call bundle
    ∷ activate_call activation
    ∷ create_client_call request
    ∷ put_limit_call (record {
      route_key = "chat";
      requests_per_window = pos 0;
      window_seconds = pos 60;
      max_concurrent_requests = pos 1;
      max_body_bytes = pos 100;
      enabled = true;
    })
    ∷ []

run-IsValid_example :
    IsValid engine digest (run crypto entropy engine digest broken calls new_memory)
run-IsValid_example = run-IsValid engine digest crypto entropy broken calls

digest-total : (bundles : List Bundle) → (hash : String) × (digest bundles ≡ ok hash)
digest-total [] = ("no bundles", refl)
digest-total (b ∷ bs) = (b.version, refl)

run-HasSnapshot_example :
    HasSnapshot engine digest crypto entropy
      (run crypto entropy engine digest broken calls new_memory)
run-HasSnapshot_example = run-HasSnapshot engine digest crypto entropy broken digest-total calls

abbrev stored : Memory
stored = run crypto entropy engine digest broken (create_bundle_call bundle ∷ []) new_memory

abbrev activated : PolicyActivationResponse
activated = record {
  active_keys = "base" ∷ [];
  hash = "1";
  notification_error = "notify config activation failed";
  revision_number = pos 0;
}

activates :
    (activate_bundles engine digest
      (memory_repository crypto entropy engine digest)
      broken
      activation
      stored).0
    ≡ ok activated
unfolding run create_bundle create_policy_bundle activate_bundles activate_policy_bundles
    activation_snapshot_hash compile_policy_bundle validate_bundle valid_source valid_action
    valid_severity valid_detector_kind to_policy_bundle compile_snapshot compile_bundles
    compile_bundle compile_rules compile_rule active_rules detectors_for_rule compile_detector_map
    compile_detectors hash_bundles compile normalize_definition custom_pattern normalize_categories
    Types.valid_action insert lookup values all_known new_memory valid_direction canonical_bundles
    canonical_bundle sort_slice
activates = refl

activate_bundles-IsActivated_example :
    IsActivated engine digest crypto entropy broken
      ("base" ∷ [])
      activated
      (activate_bundles engine digest
        (memory_repository crypto entropy engine digest)
        broken
        activation
        stored).1
activate_bundles-IsActivated_example =
    activate_bundles-IsActivated engine digest crypto entropy broken activation stored activated
      (run-IsValid engine digest crypto entropy broken (create_bundle_call bundle ∷ [])) activates

-- A generated identifier that a client has been given before refuses the next request without one.
abbrev named_first : CreateGatewayClientRequest
named_first = record request { id = "client-2" }

abbrev unnamed : CreateGatewayClientRequest
unnamed = record request { id = "" }

generated_name_taken :
    (create_gateway_client crypto entropy unnamed
      (create_gateway_client crypto entropy named_first new_memory).1).0
    ≡ err gateway_client_already_exists
unfolding create_gateway_client generate_key new_memory lookup insert
generated_name_taken = refl
