-- ===== src/Gateway/Admission.antt =====
-- internal/contexts/gateway/application/usecases.go: `AdmitProtectedRoute`, and the methods of
-- internal/contexts/gateway/adapters/http/openai/limits.go that it calls.
pub mod Reservation
use kiwi_guard.Common.{
  ℕ, ℤ, pos, leb_ℤ, String, Bool, true, false, not, Option, none, some, ◌==◌, eq_string,
  if◌then◌else◌,
}
use kiwi_guard.Policy.Types.{is_some}
use kiwi_guard.Gateway.Types.{
  RejectReason, reject_invalid_client_key, reject_missing_limit_policy, reject_audit_sink_unhealthy,
  reject_rate_limit_exceeded, reject_concurrency_limit_exceeded,
}
use kiwi_guard.Gateway.Limits.{
  Time, RouteLimitPolicy, LimitState, Release, allow_rate, acquire_concurrency,
}
use kiwi_guard.Gateway.Limits.Resolver.{LimitResolver, effective_policy}

pub record ClientIdentity : Type 0 where
  pub id : String

pub record LimitPolicy : Type 0 where
  pub requests_per_window : ℤ
  pub window : ℤ
  pub max_concurrent_requests : ℤ
  pub max_body_bytes : ℤ

pub record AdmissionInput : Type 0 where
  pub client_key : String
  pub route_key : String
  pub default_max_body_bytes : ℤ
  pub now : Time

-- The interfaces, over the limiters' state `S` and their release closures `R`; `none` is nil.
pub record AdmissionUseCase (S R : Type 0) : Type 0 where
  pub authenticator : Option (String → ClientIdentity × RejectReason)
  pub limits : Option (String → String → Option LimitPolicy)
  pub rate_limiter : Option (Time → String → String → LimitPolicy → S → Bool × S)
  pub concurrency_limiter : Option (String → String → LimitPolicy → S → (Option R × Bool) × S)
  pub audit : Option Bool

-- `release` is `none` for `noopRelease`.
pub record AdmissionResult (R : Type 0) : Type 0 where
  pub allowed : Bool
  pub reason : RejectReason
  pub client_id : String
  pub max_body_bytes : ℤ
  pub release : Option R

-- The sink is there and unhealthy.
abbrev pub unhealthy : Option Bool → Bool
unhealthy none = false
unhealthy (some healthy) = not healthy

module _ {R : Type 0} where
  abbrev pub reject : RejectReason → String → AdmissionResult R
  reject reason client_id = record {
    allowed = false;
    reason = reason;
    client_id = client_id;
    max_body_bytes = pos 0;
    release = none;
  }

  abbrev pub admit : AdmissionInput → String → LimitPolicy → Option R → AdmissionResult R
  admit input client_id effective release = record {
    allowed = true;
    reason = "";
    client_id = client_id;
    max_body_bytes =
        if leb_ℤ effective.max_body_bytes (pos 0)
        then input.default_max_body_bytes
        else effective.max_body_bytes;
    release = release;
  }

module _ {S R : Type 0} where
  unfoldable pub admit_concurrent :
      AdmissionUseCase S R → AdmissionInput → String → LimitPolicy → S → AdmissionResult R × S
  admit_concurrent u input client_id effective s = elim u.concurrency_limiter [
    | none ↦ (reject reject_concurrency_limit_exceeded client_id, s)
    | some acquire ↦
        let result = acquire client_id input.route_key effective s in
        if not result.0.1
        then (reject reject_concurrency_limit_exceeded client_id, result.1)
        else (admit input client_id effective result.0.0, result.1)
  ]

  unfoldable pub admit_rated :
      AdmissionUseCase S R → AdmissionInput → String → LimitPolicy → S → AdmissionResult R × S
  unfolding admit_concurrent
  admit_rated u input client_id effective s =
      if unhealthy u.audit
      then (reject reject_audit_sink_unhealthy client_id, s)
      else elim u.rate_limiter [
        | none ↦ (reject reject_rate_limit_exceeded client_id, s)
        | some allow ↦
            let result = allow input.now client_id input.route_key effective s in
            if not result.0
            then (reject reject_rate_limit_exceeded client_id, result.1)
            else admit_concurrent u input client_id effective result.1
      ]

  unfoldable pub admit_client :
      AdmissionUseCase S R → AdmissionInput → String → S → AdmissionResult R × S
  unfolding admit_rated
  admit_client u input client_id s = elim u.limits [
    | none ↦ (reject reject_missing_limit_policy client_id, s)
    | some resolve ↦ elim (resolve client_id input.route_key) [
      | none ↦ (reject reject_missing_limit_policy client_id, s)
      | some effective ↦ admit_rated u input client_id effective s
    ]
  ]

  unfoldable pub admit_protected_route :
      AdmissionUseCase S R → AdmissionInput → S → AdmissionResult R × S
  unfolding admit_client
  admit_protected_route u input s = elim u.authenticator [
    | none ↦ (reject reject_invalid_client_key "", s)
    | some authenticate ↦
        let result = authenticate input.client_key in
        if not (result.1 == "") then (reject result.1 "", s) else admit_client u input result.0.id s
  ]

unfoldable pub effective_limit_policy : LimitResolver → String → String → Option LimitPolicy
effective_limit_policy r client_id route_key = elim (effective_policy client_id route_key r) [
  | none ↦ none
  | some p ↦ some (record {
    requests_per_window = p.requests_per_window;
    window = p.window;
    max_concurrent_requests = p.max_concurrent_requests;
    max_body_bytes = p.max_body_bytes;
  })
]

abbrev pub route_policy : String → LimitPolicy → RouteLimitPolicy
route_policy route_key p = record {
  route_key = route_key;
  requests_per_window = p.requests_per_window;
  window = p.window;
  max_concurrent_requests = p.max_concurrent_requests;
  max_body_bytes = p.max_body_bytes;
  enabled = true;
}

-- The methods `AllowRate` and `AcquireConcurrency`.
abbrev pub allow_limited_rate :
    Time → String → String → LimitPolicy → LimitState → Bool × LimitState
allow_limited_rate now client_id route_key p s =
    allow_rate now client_id route_key (route_policy route_key p) s

abbrev pub acquire_limited :
    String → String → LimitPolicy → LimitState → (Option Release × Bool) × LimitState
acquire_limited client_id route_key p s =
    let result = acquire_concurrency client_id route_key (route_policy route_key p) s in
    ((result.0, is_some result.0), result.1)
