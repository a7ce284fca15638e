-- ===== src/Gateway/Admission/Reservation.antt =====
-- `AdmitProtectedRoute` over the limits of the server (internal/contexts/gateway/application/usecases.go).
use kiwi_guard.Common.{
  suc, if◌then◌else◌, pos, leb_ℤ, String, Bool, true, false, ◌||◌, Option, none, some, ◌==◌,
  eq_string, eq_iff, ◌≡◌, ◌≢◌, ◌⊎◌, inl, inr, refl, ap, ◌∙◌, arith, Bool-cases, Option-cases,
  lookup,
}
use kiwi_guard.Gateway.Types.{
  RejectReason, reject_missing_limit_policy, reject_audit_sink_unhealthy,
  reject_rate_limit_exceeded, reject_concurrency_limit_exceeded,
}
use kiwi_guard.Gateway.Limits.{
  count_or_zero, Time, RouteLimitPolicy, LimitState, Release, limit_key, window_or_zero,
  window_over, allow_rate, acquire_concurrency,
}
use kiwi_guard.Gateway.Limits.Concurrency.{held_at, held_at-insert, if_same}
use kiwi_guard.Gateway.Limits.Resolver.{LimitResolver}
use kiwi_guard.Gateway.Admission.{
  ClientIdentity, LimitPolicy, AdmissionInput, AdmissionUseCase, AdmissionResult, admit_concurrent,
  admit_rated, admit_client, admit_protected_route, effective_limit_policy, allow_limited_rate,
  acquire_limited, route_policy, unhealthy, reject,
}

-- The use case over the limits of the server.
abbrev pub with_limits :
    (String → ClientIdentity × RejectReason)
    → LimitResolver
    → Option Bool
    → AdmissionUseCase LimitState Release
with_limits authenticate resolver audit = record {
  authenticator = some authenticate;
  limits = some (effective_limit_policy resolver);
  rate_limiter = some allow_limited_rate;
  concurrency_limiter = some acquire_limited;
  audit = audit;
}

-- A refusal names its reason and reserves nothing.
pub record IsRefused (s : LimitState) (r : AdmissionResult Release × LimitState) : Type 0 where
  pub denied : r.0.allowed ≡ false
  pub explained : r.0.reason ≢ ""
  pub nothing_to_release : r.0.release ≡ none
  pub unreserved : r.1.concurrency ≡ s.concurrency

-- One more is counted for a key, and all other counts stay.
abbrev pub Counted : String → LimitState → LimitState → Type 0
Counted k s t =
    (key : String) → held_at key t ≡ (if k == key then suc (held_at key s) else held_at key s)

-- What an admission rests on, the closure that gives its place back, and the place it takes.
pub record IsAdmitted (authenticate : String → ClientIdentity × RejectReason)
    (resolver : LimitResolver) (audit : Option Bool) (input : AdmissionInput) (s : LimitState)
    (r : AdmissionResult Release × LimitState) : Type 0 where
  pub policy : LimitPolicy
  pub granted : r.0.allowed ≡ true
  pub authenticated : (authenticate input.client_key).1 ≡ ""
  pub identified : r.0.client_id ≡ (authenticate input.client_key).0.id
  pub limited : effective_limit_policy resolver r.0.client_id input.route_key ≡ some policy
  pub audited : unhealthy audit ≡ false
  pub in_rate : (allow_limited_rate input.now r.0.client_id input.route_key policy s).0 ≡ true
  pub reserved :
      r.0.release ≡ some (record { key = limit_key r.0.client_id input.route_key; done = false })
  pub counted : Counted (limit_key r.0.client_id input.route_key) s r.1

allow_rate-concurrency :
    (now : Time) (client route : String) (p : RouteLimitPolicy) (s : LimitState)
    → (allow_rate now client route p s).1.concurrency ≡ s.concurrency
unfolding allow_rate
allow_rate-concurrency now client route p s =
    let window = window_or_zero (lookup (limit_key client route) s.rates) in
    elim (Bool-cases (leb_ℤ p.requests_per_window (pos 0) || leb_ℤ p.window (pos 0))) [
      | inl f ↦ rw f refl
      | inr f ↦ elim (Bool-cases (window_over now window p)) [
        | inl g ↦ rw (f, g) refl
        | inr g ↦ elim (Bool-cases (leb_ℤ p.requests_per_window (pos window.count))) [
          | inl h ↦ rw (f, g, h) refl
          | inr h ↦ rw (f, g, h) refl
        ]
      ]
    ]

acquire_concurrency-cases :
    (client route : String) (p : RouteLimitPolicy) (s : LimitState)
    → let result = acquire_concurrency client route p s in
      ((result.0 ≡ none) × (result.1 ≡ s))
      ⊎ ((result.0 ≡ some (record { key = limit_key client route; done = false }))
          × Counted (limit_key client route) s result.1)
unfolding acquire_concurrency
acquire_concurrency-cases client route p s =
    elim (Bool-cases (leb_ℤ p.max_concurrent_requests (pos 0))) [
      | inl e ↦ inl (rw e (refl, refl))
      | inr e ↦
          elim (Bool-cases
            (leb_ℤ p.max_concurrent_requests (pos (held_at (limit_key client route) s)))) [
              | inl f ↦ inl (rw (e, f) (refl, refl))
              | inr f ↦ inr (
                  rw (e, f)
                    (
                      refl,
                      λ key.
                          held_at-insert key (limit_key client route) _ s
                          ∙ if_same (limit_key client route) key (λ k. held_at k s),
                    ))
            ]
    ]

refused_lem :
    (reason : RejectReason) (client : String) (s t : LimitState)
    → reason ≢ ""
    → t.concurrency ≡ s.concurrency
    → IsRefused s (reject reason client, t)
refused_lem reason client s t h same = record {
  denied = refl;
  explained = h;
  nothing_to_release = refl;
  unreserved = same;
}

module _ (authenticate : String → ClientIdentity × RejectReason) (resolver : LimitResolver)
    (audit : Option Bool) (input : AdmissionInput) (s : LimitState) where
  abbrev u : AdmissionUseCase LimitState Release
  u = with_limits authenticate resolver audit

  -- With the limits of the server, the admission of a request either is refused with a reason,
  -- has nothing to release and leaves every reservation as it was, or is granted: then the
  -- client has been authenticated, the policy applies to that client on the route, the audit
  -- sink is not unhealthy, the rate window has let the request in, and the closure returned is
  -- the reservation of that client and route, whose count alone has grown, by one.
  pub admit_protected_route-cases :
      IsRefused s (admit_protected_route u input s)
      ⊎ IsAdmitted authenticate resolver audit input s (admit_protected_route u input s)
  unfolding admit_protected_route admit_client admit_rated admit_concurrent
  admit_protected_route-cases =
      let client = (authenticate input.client_key).0.id in
      elim (Bool-cases ((authenticate input.client_key).1 == "")) [
        | inr a ↦ rw a (
            inl (
              refused_lem _ "" s s (ground (arith, eq_iff (authenticate input.client_key).1 ""))
                refl))
        | inl a ↦ elim (Option-cases (effective_limit_policy resolver client input.route_key)) [
          | inl l ↦
              rw (a, admit_client, l)
                (inl (
                  refused_lem _ client s s (ground (arith, eq_iff reject_missing_limit_policy ""))
                    refl))
          | inr (p, l) ↦ elim (Bool-cases (unhealthy audit)) [
            | inl h ↦
                rw (a, admit_client, l, admit_rated, h)
                  (inl (
                    refused_lem _ client s s (ground (arith, eq_iff reject_audit_sink_unhealthy ""))
                      refl))
            | inr h ↦
                elim (Bool-cases (allow_limited_rate input.now client input.route_key p s).0) [
                  | inr r ↦
                      let same =
                        allow_rate-concurrency input.now client input.route_key
                          (route_policy input.route_key p) s in
                      rw (a, admit_client, l, admit_rated, h, r)
                        (inl (
                          refused_lem _ client s _
                            (ground (arith, eq_iff reject_rate_limit_exceeded "")) same))
                  | inl r ↦
                      let t = (allow_limited_rate input.now client input.route_key p s).1 in
                      let same =
                        allow_rate-concurrency input.now client input.route_key
                          (route_policy input.route_key p) s in
                      elim (acquire_concurrency-cases client input.route_key
                        (route_policy input.route_key p) t) [
                          | inl full ↦
                              rw (a, admit_client, l, admit_rated, h, r, admit_concurrent, full.0)
                                (inl (
                                  refused_lem _ client s _
                                    (ground (arith, eq_iff reject_concurrency_limit_exceeded ""))
                                    (ap (λ (v : LimitState). v.concurrency) full.1 ∙ same)))
                          | inr e ↦
                              rw (a, admit_client, l, admit_rated, h, r, admit_concurrent, e.0)
                                (inr (record {
                                  policy = p;
                                  granted = refl;
                                  authenticated = (eq_iff (authenticate input.client_key).1 "").0 a;
                                  identified = refl;
                                  limited = l;
                                  audited = h;
                                  in_rate = r;
                                  reserved = refl;
                                  counted = λ key.
                                      e.1 key
                                      ∙ ap
                                          (λ n.
                                            if limit_key client input.route_key == key
                                            then suc n
                                            else n)
                                          (ap (λ c. count_or_zero (lookup key c)) same);
                                }))
                        ]
                ]
          ]
        ]
      ]
