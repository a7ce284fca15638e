-- ===== src/Control/Memory.antt =====
-- internal/contexts/control/application/memory.go: the repository that holds the configuration in
-- memory. Its lock makes each call one step; the order in which a map is listed is that of the entries.
use kiwi_guard.Common.{
  ℕ, zero, suc, ◌+◌, ◌/◌, ◌%◌, pos, ltb, String, ◌<>◌, Bool, true, ◌&&◌, not, List, [], ◌∷◌, map,
  Option, none, some, Result, ok, err, ◌==◌, eq_string, if◌then◌else◌, lookup, insert, erase,
}
use kiwi_guard.Detection.{Engine}
use kiwi_guard.Policy.Types.{Bundle, is_some}
use kiwi_guard.Policy.Compile.{Snapshot, SnapshotError, compile_snapshot}
use kiwi_guard.Clients.{KeyMaterial, Crypto, Entropy, generate_key, status_revoked}
use kiwi_guard.Control.Types.{
  ConfigStatus, PolicyBundle, PolicyActivationRequest, PolicyActivationResponse, ModelMapping,
  VerdictProvider, GatewayClient, CreateGatewayClientRequest, CreateGatewayClientResponse,
  RouteLimit, ClientRouteLimit, ControlError, gateway_client_not_found,
  gateway_client_already_exists, policy_bundle_not_found, failed,
}
use kiwi_guard.Control.Ports.{Repository}
use kiwi_guard.Control.Validation.{to_policy_bundle}

abbrev pub Dict : Type 0 → Type 0
Dict V = List (String × V)

pub record Memory : Type 0 where
  pub bundles : Dict PolicyBundle
  pub active_bundle_keys : List String
  pub model_mappings : Dict ModelMapping
  pub verdict_providers : Dict VerdictProvider
  pub gateway_clients : Dict GatewayClient
  pub route_limits : Dict RouteLimit
  pub client_route_limits : Dict (Dict ClientRouteLimit)
  pub next_client_number : ℕ

unfoldable pub new_memory : Memory
new_memory = record {
  bundles = [];
  active_bundle_keys = [];
  model_mappings = [];
  verdict_providers = [];
  gateway_clients = [];
  route_limits = [];
  client_route_limits = [];
  next_client_number = 0;
}

unfoldable pub values : {V : Type 0} → Dict V → List V
values = map (λ entry. entry.1)

-- A missing inner map is nil, which reads as an empty one.
abbrev pub inner : {V : Type 0} → Option (Dict V) → Dict V
inner none = []
inner (some m) = m

abbrev digit : ℕ → String
digit n =
    if ltb n 1
    then "0"
    else if ltb n 2
    then "1"
    else if ltb n 3
    then "2"
    else if ltb n 4
    then "3"
    else if ltb n 5
    then "4"
    else if ltb n 6
    then "5"
    else if ltb n 7
    then "6"
    else if ltb n 8
    then "7"
    else if ltb n 9
    then "8"
    else "9"

decimal_from : ℕ → ℕ → String → String
decimal_from zero n tail = tail
decimal_from (suc fuel) n tail =
    let rest = decimal_from fuel (n / 10) (digit (n % 10) <> tail) in
    if ltb n 10 then digit n <> tail else rest

-- `%d`: a number has no more digits than its successor counts.
unfoldable pub decimal : ℕ → String
unfolding decimal_from
decimal n = decimal_from (suc n) n ""

unfoldable pub active_bundles : List String → Dict PolicyBundle → List Bundle
active_bundles [] bundles = []
active_bundles (key ∷ keys) bundles = elim (lookup key bundles) [
  | none ↦ active_bundles keys bundles
  | some bundle ↦ to_policy_bundle bundle ∷ active_bundles keys bundles
]

-- The loop over the keys of an activation: each one names a bundle.
unfoldable pub all_known : List String → Dict PolicyBundle → Bool
all_known [] bundles = true
all_known (key ∷ keys) bundles = is_some (lookup key bundles) && all_known keys bundles

-- The hash of a snapshot that may be nil.
abbrev pub hash_or_empty : Result SnapshotError Snapshot → String
hash_or_empty (err e) = ""
hash_or_empty (ok snapshot) = snapshot.hash

abbrev pub list_policy_bundles : Memory → Result ControlError (List PolicyBundle)
list_policy_bundles r = ok (values r.bundles)

abbrev pub list_model_mappings : Memory → Result ControlError (List ModelMapping)
list_model_mappings r = ok (values r.model_mappings)

abbrev pub list_verdict_providers : Memory → Result ControlError (List VerdictProvider)
list_verdict_providers r = ok (values r.verdict_providers)

abbrev pub list_gateway_clients : Memory → Result ControlError (List GatewayClient)
list_gateway_clients r = ok (values r.gateway_clients)

abbrev pub list_route_limits : Memory → Result ControlError (List RouteLimit)
list_route_limits r = ok (values r.route_limits)

unfoldable pub create_policy_bundle : PolicyBundle → Memory → Option ControlError × Memory
create_policy_bundle bundle r = (none, record r { bundles = insert bundle.key bundle r.bundles })

unfoldable pub activate_policy_bundles :
    PolicyActivationRequest → Memory → Result ControlError PolicyActivationResponse × Memory
activate_policy_bundles request r =
    if not (all_known request.keys r.bundles) then (err policy_bundle_not_found, r) else (
      ok (record {
        active_keys = request.keys;
        hash = request.snapshot_hash;
        notification_error = "";
        revision_number = pos 0;
      }),
      record r { active_bundle_keys = request.keys },
    )

unfoldable pub put_model_mapping : ModelMapping → Memory → Option ControlError × Memory
put_model_mapping mapping r =
    (none, record r { model_mappings = insert mapping.id mapping r.model_mappings })

unfoldable pub put_verdict_provider : VerdictProvider → Memory → Option ControlError × Memory
put_verdict_provider provider r =
    (none, record r { verdict_providers = insert provider.id provider r.verdict_providers })

-- The update of a client that has been looked up.
unfoldable pub patch_found :
    GatewayClient → Memory → Option GatewayClient → Result ControlError GatewayClient × Memory
patch_found client r none = (err gateway_client_not_found, r)
patch_found client r (some existing) =
    let patched : GatewayClient = record client {
      key_prefix =
          if not (existing.key_prefix == "") && client.key_prefix == ""
          then existing.key_prefix
          else client.key_prefix;
      status = if existing.status == status_revoked then existing.status else client.status;
    } in
    (ok patched, record r { gateway_clients = insert client.id patched r.gateway_clients })

unfoldable pub patch_gateway_client :
    GatewayClient → Memory → Result ControlError GatewayClient × Memory
unfolding patch_found
patch_gateway_client client r = patch_found client r (lookup client.id r.gateway_clients)

unfoldable pub revoke_found :
    String → Memory → Option GatewayClient → Result ControlError GatewayClient × Memory
revoke_found id r none = (err gateway_client_not_found, r)
revoke_found id r (some client) =
    let revoked : GatewayClient = record client { id = id; status = status_revoked } in
    (ok revoked, record r { gateway_clients = insert id revoked r.gateway_clients })

unfoldable pub revoke_gateway_client : String → Memory → Result ControlError GatewayClient × Memory
unfolding revoke_found
revoke_gateway_client id r = revoke_found id r (lookup id r.gateway_clients)

unfoldable pub put_route_limit : RouteLimit → Memory → Result ControlError RouteLimit × Memory
put_route_limit limit r =
    (ok limit, record r { route_limits = insert limit.route_key limit r.route_limits })

unfoldable pub list_client_route_limits :
    String → Memory → Result ControlError (List ClientRouteLimit)
unfolding values
list_client_route_limits id r =
    if not (is_some (lookup id r.gateway_clients))
    then err gateway_client_not_found
    else ok (values (inner (lookup id r.client_route_limits)))

unfoldable pub put_client_route_limit :
    ClientRouteLimit → Memory → Result ControlError ClientRouteLimit × Memory
put_client_route_limit limit r =
    if not (is_some (lookup limit.client_id r.gateway_clients))
    then (err gateway_client_not_found, r)
    else (
      ok limit,
      record r {
        client_route_limits =
            insert limit.client_id
              (insert limit.route_key limit (inner (lookup limit.client_id r.client_route_limits)))
              r.client_route_limits;
      },
    )

-- `delete` of a nil map does nothing.
unfoldable pub delete_limit :
    String → String → Dict (Dict ClientRouteLimit) → Dict (Dict ClientRouteLimit)
delete_limit id route_key limits = elim (lookup id limits) [
  | none ↦ limits
  | some m ↦ insert id (erase route_key m) limits
]

unfoldable pub delete_client_route_limit : String → String → Memory → Option ControlError × Memory
unfolding delete_limit
delete_client_route_limit id route_key r =
    if not (is_some (lookup id r.gateway_clients))
    then (some gateway_client_not_found, r)
    else (none, record r { client_route_limits = delete_limit id route_key r.client_route_limits })

module _ (crypto : Crypto) (entropy : ℕ → Entropy) where
  -- The end of `CreateGatewayClient`, by the generated key.
  unfoldable pub add_client :
      CreateGatewayClientRequest
      → Result String (String × KeyMaterial)
      → Memory
      → Result ControlError CreateGatewayClientResponse × Memory
  add_client request (err e) r = (err (failed e), r)
  add_client request (ok (key, material)) r =
      let client : GatewayClient = record {
        id = request.id;
        name = request.name;
        status = request.status;
        key_prefix = material.prefix;
        notes = request.notes;
      } in
      (
        ok (record { client = client; key = key }),
        record r { gateway_clients = insert client.id client r.gateway_clients },
      )

  -- The call of a numbered repository, with the identifier that the request has or is given.
  unfoldable pub create_named :
      CreateGatewayClientRequest → Memory → Result ControlError CreateGatewayClientResponse × Memory
  unfolding add_client
  create_named request r =
      if is_some (lookup request.id r.gateway_clients)
      then (err gateway_client_already_exists, r)
      else add_client request (generate_key crypto (entropy r.next_client_number) request.id) r

  unfoldable pub create_gateway_client :
      CreateGatewayClientRequest → Memory → Result ControlError CreateGatewayClientResponse × Memory
  unfolding create_named decimal
  create_gateway_client request r =
      let number = r.next_client_number + 1 in
      create_named
        (record request {
          id = if request.id == "" then "client-" <> decimal number else request.id;
        })
        (record r { next_client_number = number })

  module _ (g : Engine) (digest : List Bundle → Result String String) where
    unfoldable pub config_status : Memory → Result ControlError ConfigStatus
    unfolding active_bundles
    config_status r = ok (record {
      active_policy_bundle_keys = r.active_bundle_keys;
      policy_snapshot_hash =
          hash_or_empty (compile_snapshot g digest (active_bundles r.active_bundle_keys r.bundles));
    })

    -- The repository as the control plane uses it.
    abbrev pub memory_repository : Repository Memory
    memory_repository = record {
      config_status = config_status;
      list_policy_bundles = list_policy_bundles;
      create_policy_bundle = create_policy_bundle;
      activate_policy_bundles = activate_policy_bundles;
      list_model_mappings = list_model_mappings;
      put_model_mapping = put_model_mapping;
      list_verdict_providers = list_verdict_providers;
      put_verdict_provider = put_verdict_provider;
      list_gateway_clients = list_gateway_clients;
      create_gateway_client = create_gateway_client;
      patch_gateway_client = patch_gateway_client;
      revoke_gateway_client = revoke_gateway_client;
      list_route_limits = list_route_limits;
      put_route_limit = put_route_limit;
      list_client_route_limits = list_client_route_limits;
      put_client_route_limit = put_client_route_limit;
      delete_client_route_limit = delete_client_route_limit;
    }
