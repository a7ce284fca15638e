-- ===== src/Gateway/Exchange.antt =====
-- The order of one exchange: internal/contexts/gateway/application/exchange_workflow.go, and in
-- internal/contexts/gateway/adapters/http/openai its preparation, openai_exchange.go and
-- request_admission.go, with the release of the client's place on every path.
pub mod Returning
mod Tests
use kiwi_guard.Common.{
  ℤ, String, Bool, true, false, not, List, [], ◌∷◌, Option, none, some, ◌==◌, eq_string,
  if◌then◌else◌,
}
use kiwi_guard.Policy.Types.{is_some}
use kiwi_guard.Gateway.Types.{RejectReason, RequestBodyInput, DecodedRequestInput}
use kiwi_guard.Gateway.Lifecycle.{classify_request_body}
use kiwi_guard.Gateway.Plans.ExchangePreparation.{
  Action, block, continue, Plan, plan_route_availability, plan_infrastructure, plan_decoded_request,
}
use kiwi_guard.Gateway.Limits.{Time, LimitState, Release, call_release}
use kiwi_guard.Gateway.Limits.Resolver.{LimitResolver, route_protected}
use kiwi_guard.Gateway.Admission.{
  ClientIdentity, AdmissionInput, AdmissionResult, admit_protected_route, unhealthy,
}
use kiwi_guard.Gateway.Admission.Reservation.{with_limits}

-- `ExchangeWorkflowDriver`, over the state `S` of the server.
pub record Driver (S : Type 0) : Type 0 where
  pub prepare_exchange : S → (Option (S → S) × Bool) × S
  pub apply_input_policy : S → Bool × S
  pub project_upstream_request : S → Bool × S
  pub forward_exchange : S → S

module _ {S : Type 0} where
  unfoldable pub run_prepared : Driver S → S → Bool × S
  run_prepared d s =
      let enforced = d.apply_input_policy s in
      let projected = d.project_upstream_request enforced.1 in
      if not enforced.0
      then (false, enforced.1)
      else if not projected.0
      then (false, projected.1)
      else (true, d.forward_exchange projected.1)

  -- The deferred release.
  abbrev pub deferred : Option (S → S) → Bool × S → Bool × S
  deferred none result = result
  deferred (some release) (done, s) = (done, release s)

  -- `Run`; the driver may be nil.
  unfoldable pub run : Option (Driver S) → S → Bool × S
  unfolding run_prepared
  run none s = (false, s)
  run (some d) s =
      let prepared = d.prepare_exchange s in
      if not prepared.0.1
      then (false, prepared.1)
      else deferred prepared.0.0 (run_prepared d prepared.1)

-- What the preparation of an exchange changes: the limits, and the events for the writer, by their reasons,
-- the latest first.
pub record Gate : Type 0 where
  pub limits : LimitState
  pub emitted : List String

-- A request with what its body turns out to be under a limit of bytes, and the health of the audit
-- sink when the infrastructure is planned.
pub record Request : Type 0 where
  pub route_key : Option String
  pub client_key : String
  pub now : Time
  pub read_body : ℤ → RequestBodyInput
  pub provider_found : Bool
  pub audit_later : Option Bool
  pub decoded : DecodedRequestInput

abbrev pub is_block : Action → Bool
is_block block = true
is_block continue = false

abbrev pub key_or_zero : Option String → String
key_or_zero none = ""
key_or_zero (some key) = key

-- The reason for which `readOpenAIRequestBody` refuses a body.
unfoldable pub refused_body : RequestBodyInput → Option RejectReason
unfolding classify_request_body
refused_body body =
    let decision = classify_request_body body in
    if decision.allowed
    then none
    else some (if body.read_failed then "read_request_error" else decision.reason)

-- `none` is the closure that does nothing.
abbrev pub release_or_noop : Option Release → Gate → Gate
release_or_noop none g = g
release_or_noop (some r) g = record g { limits = (call_release r g.limits).1 }

-- A failed preparation: the event, and then the deferred cleanup.
unfoldable pub fail : RejectReason → Option Release → Gate → (Option Release × Bool) × Gate
fail reason release g =
    ((none, false), release_or_noop release (record g { emitted = reason ∷ g.emitted }))

unfoldable pub prepare_decoded : Request → Option Release → Gate → (Option Release × Bool) × Gate
unfolding fail
prepare_decoded request release g =
    let plan = plan_decoded_request request.decoded in
    if is_block plan.action then fail plan.reason release g else ((release, true), g)

-- What follows the reading of the body.
abbrev pub prepare_body :
    Option RejectReason
    → (Option Release → Gate → (Option Release × Bool) × Gate)
    → Option Release
    → Gate
    → (Option Release × Bool) × Gate
prepare_body none next release g = next release g
prepare_body (some reason) next release g = fail reason release g

unfoldable pub prepare_infrastructure :
    Request
    → (Option Release → Gate → (Option Release × Bool) × Gate)
    → Option Release
    → Gate
    → (Option Release × Bool) × Gate
unfolding fail
prepare_infrastructure request next release g =
    let plan = plan_infrastructure (record {
      provider_found = request.provider_found;
      audit_healthy = not (unhealthy request.audit_later);
    }) in
    if is_block plan.action then fail plan.reason release g else next release g

abbrev pub admission_input : ℤ → Request → String → AdmissionInput
admission_input max_body_bytes request route_key = record {
  client_key = request.client_key;
  route_key = route_key;
  default_max_body_bytes = max_body_bytes;
  now = request.now;
}

-- The preparation on a route that is protected, by its admission.
unfoldable pub prepare_admitted :
    Request → AdmissionResult Release × LimitState → List String → (Option Release × Bool) × Gate
unfolding fail prepare_infrastructure refused_body prepare_decoded
prepare_admitted request (admission, limits) emitted =
    let g : Gate = record { limits = limits; emitted = emitted } in
    if not admission.allowed
    then fail admission.reason none g
    else prepare_body (refused_body (request.read_body admission.max_body_bytes))
        (prepare_infrastructure request (prepare_decoded request)) admission.release g

module _ (authenticate : String → ClientIdentity × RejectReason) (resolver : LimitResolver)
    (audit : Option Bool) (max_body_bytes : ℤ) (request : Request) where
  -- `prepareOpenAIExchange`
  unfoldable pub prepare : Gate → (Option Release × Bool) × Gate
  unfolding prepare_admitted
  prepare g =
      let plan = plan_route_availability (is_some request.route_key) in
      let route_key = key_or_zero request.route_key in
      if is_block plan.action
      then fail plan.reason none g
      else if route_protected route_key resolver
      then prepare_admitted request
          (admit_protected_route (with_limits authenticate resolver audit)
            (admission_input max_body_bytes request route_key) g.limits)
          g.emitted
      else prepare_infrastructure request
          (prepare_body (refused_body (request.read_body max_body_bytes)) (prepare_decoded request))
          none g

  -- The driver of the workflow over the preparation, by its other operations.
  abbrev pub driver : (Gate → Bool × Gate) → (Gate → Bool × Gate) → (Gate → Gate) → Driver Gate
  driver enforce project forward = record {
    prepare_exchange = λ g.
        let prepared = prepare g in
        ((some (release_or_noop prepared.0.0), prepared.0.1), prepared.1);
    apply_input_policy = enforce;
    project_upstream_request = project;
    forward_exchange = forward;
  }
