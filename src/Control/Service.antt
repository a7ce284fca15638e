-- ===== src/Control/Service.antt =====
-- internal/contexts/control/application/usecases.go: the use cases of the control plane. Calls that
-- only pass on what the repository answers are made on the repository itself.
use kiwi_guard.Common.{
  String, not, ◌&&◌, List, [], ◌∷◌, Option, none, some, Result, ok, err, ◌>>=◌, map_err, ◌==◌,
  eq_string, if◌then◌else◌, lookup, insert,
}
use kiwi_guard.Detection.{Engine}
use kiwi_guard.Policy.Types.{Bundle}
use kiwi_guard.Policy.Compile.{Snapshot, compile_snapshot}
use kiwi_guard.Policy.Evaluate.{evaluate_snapshot, no_signal}
use kiwi_guard.Control.Types.{
  PolicyBundle, PolicyActivationRequest, PolicyActivationResponse, PolicyDryRunRequest,
  PolicyDryRunResponse, VerdictProvider, GatewayClient, CreateGatewayClientRequest,
  CreateGatewayClientResponse, RouteLimit, ClientRouteLimit, InputError, bad_direction,
  bad_snapshot, bad_mode, client_id_required, route_key_required, ControlError, invalid_input,
  policy_bundle_not_found,
}
use kiwi_guard.Control.Ports.{Repository, Notifier}
use kiwi_guard.Control.Validation.{
  Check, validate_bundle, to_policy_bundle, valid_direction, validate_request, validate_client,
  validate_route_limit, validate_client_route_limit,
}

-- An early return on the error of a check.
abbrev pub guard_input : {A : Type 0} → Check → A → Result InputError A
guard_input none a = ok a
guard_input (some e) a = err e

unfoldable pub normalize_verdict_provider : VerdictProvider → Result InputError VerdictProvider
normalize_verdict_provider provider =
    if not (provider.mode == "") && not (provider.mode == "inline")
    then err bad_mode
    else ok (record provider { mode = "inline" })

-- `byKey` of `activationSnapshotHash`: a later bundle replaces an earlier one.
unfoldable pub by_key :
    List PolicyBundle → List (String × PolicyBundle) → List (String × PolicyBundle)
by_key [] m = m
by_key (bundle ∷ bundles) m = by_key bundles (insert bundle.key bundle m)

-- The loop over the keys of an activation.
unfoldable pub select :
    List String → List (String × PolicyBundle) → Result ControlError (List Bundle)
select [] m = ok []
select (key ∷ keys) m = elim (lookup key m) [
  | none ↦ err policy_bundle_not_found
  | some bundle ↦ do
    valid ← map_err invalid_input (guard_input (validate_bundle bundle) bundle)
    rest ← select keys m
    ok (to_policy_bundle valid ∷ rest)
]

-- The response, with what the notifier's failure adds to it.
unfoldable pub notified :
    {S : Type 0}
    → Option Notifier
    → Result ControlError PolicyActivationResponse × S
    → Result ControlError PolicyActivationResponse × S
notified notifier (err e, s) = (err e, s)
notified none (ok response, s) = (ok response, s)
notified (some notifier) (ok response, s) =
    elim (notifier.notify_config_activated response.revision_number) [
      | none ↦ (ok response, s)
      | some e ↦
          (ok (record response { notification_error = "notify config activation failed" }), s)
    ]

module _ {S : Type 0} (repository : Repository S) where
  unfoldable pub put_provider : VerdictProvider → S → Option ControlError × S
  unfolding normalize_verdict_provider
  put_provider provider s = elim (normalize_verdict_provider provider) [
    | err e ↦ (some (invalid_input e), s)
    | ok normal ↦ repository.put_verdict_provider normal s
  ]

  unfoldable pub create_client :
      CreateGatewayClientRequest → S → Result ControlError CreateGatewayClientResponse × S
  create_client request s = elim (validate_request request).0 [
    | some e ↦ (err (invalid_input e), s)
    | none ↦ repository.create_gateway_client (validate_request request).1 s
  ]

  unfoldable pub patch_client : GatewayClient → S → Result ControlError GatewayClient × S
  patch_client client s = elim (validate_client client) [
    | some e ↦ (err (invalid_input e), s)
    | none ↦ repository.patch_gateway_client client s
  ]

  unfoldable pub revoke_client : String → S → Result ControlError GatewayClient × S
  revoke_client id s =
      if id == ""
      then (err (invalid_input client_id_required), s)
      else repository.revoke_gateway_client id s

  unfoldable pub put_limit : RouteLimit → S → Result ControlError RouteLimit × S
  put_limit limit s = elim (validate_route_limit limit) [
    | some e ↦ (err (invalid_input e), s)
    | none ↦ repository.put_route_limit limit s
  ]

  unfoldable pub list_client_limits : String → S → Result ControlError (List ClientRouteLimit)
  list_client_limits id s =
      if id == ""
      then err (invalid_input client_id_required)
      else repository.list_client_route_limits id s

  unfoldable pub put_client_limit : ClientRouteLimit → S → Result ControlError ClientRouteLimit × S
  put_client_limit limit s = elim (validate_client_route_limit limit) [
    | some e ↦ (err (invalid_input e), s)
    | none ↦ repository.put_client_route_limit limit s
  ]

  unfoldable pub delete_client_limit : String → String → S → Option ControlError × S
  delete_client_limit id route_key s =
      if id == ""
      then (some (invalid_input client_id_required), s)
      else if route_key == ""
      then (some (invalid_input route_key_required), s)
      else repository.delete_client_route_limit id route_key s

module _ (g : Engine) (digest : List Bundle → Result String String) where
  unfoldable pub compile_policy_bundle : PolicyBundle → Result InputError Snapshot
  compile_policy_bundle bundle = do
    valid ← guard_input (validate_bundle bundle) bundle
    map_err bad_snapshot (compile_snapshot g digest (to_policy_bundle valid ∷ []))

  unfoldable pub validate_policy_bundle : PolicyBundle → Result InputError String
  unfolding compile_policy_bundle
  validate_policy_bundle bundle = do snapshot ← compile_policy_bundle bundle; ok snapshot.hash

  unfoldable pub policy_dry_run : PolicyDryRunRequest → Result ControlError PolicyDryRunResponse
  unfolding compile_policy_bundle
  policy_dry_run request =
      if not (valid_direction request.direction) then err (invalid_input bad_direction) else do
        snapshot ← map_err invalid_input (compile_policy_bundle request.bundle)
        ok (record {
          decision = evaluate_snapshot snapshot (record {
            route_key = request.route_key;
            provider = request.provider;
            model = request.model;
            direction = request.direction;
            text = request.text;
            model_signal = no_signal;
          });
        })

  unfoldable pub selected_hash : List String → List PolicyBundle → Result ControlError String
  unfolding by_key select
  selected_hash keys bundles = do
    selected ← select keys (by_key bundles [])
    snapshot ← map_err (λ e. invalid_input (bad_snapshot e)) (compile_snapshot g digest selected)
    ok snapshot.hash

  module _ {S : Type 0} (repository : Repository S) where
    unfoldable pub activation_snapshot_hash : List String → S → Result ControlError String
    unfolding selected_hash
    activation_snapshot_hash keys s = do
      bundles ← repository.list_policy_bundles s
      selected_hash keys bundles

    -- The repository is asked only if the bundle compiles.
    unfoldable pub create_bundle : PolicyBundle → S → Option ControlError × S
    unfolding compile_policy_bundle
    create_bundle bundle s = elim (compile_policy_bundle bundle) [
      | err e ↦ (some (invalid_input e), s)
      | ok snapshot ↦ repository.create_policy_bundle bundle s
    ]

    -- No other call is made on the repository between the two of an activation.
    unfoldable pub activate_bundles :
        Option Notifier
        → PolicyActivationRequest
        → S
        → Result ControlError PolicyActivationResponse × S
    unfolding activation_snapshot_hash notified
    activate_bundles notifier request s = elim (activation_snapshot_hash request.keys s) [
      | err e ↦ (err e, s)
      | ok hash ↦
          notified notifier
            (repository.activate_policy_bundles (record request { snapshot_hash = hash }) s)
    ]
