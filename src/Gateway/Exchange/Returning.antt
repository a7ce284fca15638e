-- ===== src/Gateway/Exchange/Returning.antt =====
-- No path through an exchange keeps a place of the limits
-- (internal/contexts/gateway/application/exchange_workflow.go and openai_exchange.go).
use kiwi_guard.Common.{
  ℤ, String, Bool, true, false, List, Option, none, some, eq_string, if◌then◌else◌, not, ◌≡◌, refl,
  sym, ap, ◌∙◌, subst, arith, Bool-cases, inl, inr, lookup,
}
use kiwi_guard.Policy.Types.{is_some}
use kiwi_guard.Gateway.Types.{RejectReason}
use kiwi_guard.Gateway.Plans.ExchangePreparation.{
  plan_route_availability, plan_infrastructure, plan_decoded_request,
}
use kiwi_guard.Gateway.Limits.{LimitState, Release, count_or_zero, call_release}
use kiwi_guard.Gateway.Limits.Concurrency.{held_at, held_at-release_key}
use kiwi_guard.Gateway.Limits.Resolver.{LimitResolver, route_protected}
use kiwi_guard.Gateway.Admission.{ClientIdentity, AdmissionResult, admit_protected_route, unhealthy}
use kiwi_guard.Gateway.Admission.Reservation.{with_limits, Counted, admit_protected_route-cases}
use kiwi_guard.Gateway.Exchange.{
  Driver, deferred, Gate, Request, run, run_prepared, is_block, key_or_zero, refused_body,
  release_or_noop, fail, prepare_decoded, prepare_body, prepare_infrastructure, admission_input,
  prepare_admitted, prepare, driver,
}

-- The counts are the same.
abbrev pub Same : LimitState → LimitState → Type 0
Same s t = (key : String) → held_at key t ≡ held_at key s

abbrev released : Option Release → LimitState → LimitState
released none u = u
released (some r) u = (call_release r u).1

-- The release leads back from the counts of `t` to those of `s`.
abbrev Undoes : Option Release → LimitState → LimitState → Type 0
Undoes release s t = (u : LimitState) → Same t u → Same s (released release u)

-- A preparation that fails has given back what it took, and one that succeeds has the release of it.
abbrev Returns : LimitState → (Option Release × Bool) × Gate → Type 0
Returns s ((release, true), g) = Undoes release s g.limits
Returns s ((release, false), g) = Same s g.limits

fail-Returns :
    (s : LimitState) (reason : RejectReason) (release : Option Release) (g : Gate)
    → Undoes release s g.limits
    → Returns s (fail reason release g)
unfolding fail
fail-Returns s reason none g undoes = undoes g.limits (λ key. refl)
fail-Returns s reason (some r) g undoes = undoes g.limits (λ key. refl)

prepare_decoded-Returns :
    (s : LimitState) (request : Request) (release : Option Release) (g : Gate)
    → Undoes release s g.limits
    → Returns s (prepare_decoded request release g)
unfolding prepare_decoded
prepare_decoded-Returns s request release g undoes =
    let plan = plan_decoded_request request.decoded in
    elim (Bool-cases (is_block plan.action)) [
      | inl e ↦ rw e (fail-Returns s plan.reason release g undoes)
      | inr e ↦ rw e undoes
    ]

-- What a step of the preparation that goes on with `next` may suppose of it.
abbrev Continues : LimitState → (Option Release → Gate → (Option Release × Bool) × Gate) → Type 0
Continues s next =
    (release : Option Release) (g : Gate) → Undoes release s g.limits → Returns s (next release g)

prepare_body-Continues :
    (s : LimitState) (refusal : Option RejectReason)
    (next : Option Release → Gate → (Option Release × Bool) × Gate)
    → Continues s next
    → Continues s (prepare_body refusal next)
prepare_body-Continues s none next onward release g undoes = onward release g undoes
prepare_body-Continues s (some reason) next onward release g undoes =
    fail-Returns s reason release g undoes

prepare_infrastructure-Continues :
    (s : LimitState) (request : Request)
    (next : Option Release → Gate → (Option Release × Bool) × Gate)
    → Continues s next
    → Continues s (prepare_infrastructure request next)
unfolding prepare_infrastructure
prepare_infrastructure-Continues s request next onward release g undoes =
    let plan = plan_infrastructure (record {
      provider_found = request.provider_found;
      audit_healthy = not (unhealthy request.audit_later);
    }) in
    elim (Bool-cases (is_block plan.action)) [
      | inl e ↦ rw e (fail-Returns s plan.reason release g undoes)
      | inr e ↦ rw e (onward release g undoes)
    ]

Counted-Undoes :
    (k : String) (s t : LimitState)
    → Counted k s t
    → Undoes (some (record { key = k; done = false })) s t
unfolding call_release
Counted-Undoes k s t counted u same key =
    rw (held_at-release_key key k u) (ground (arith, same key, counted key))

module _ (request : Request) (s : LimitState) (admission : AdmissionResult Release) (t : LimitState)
    (emitted : List String) where
  denied-Returns :
      admission.allowed ≡ false
      → Same s t
      → Returns s (prepare_admitted request (admission, t) emitted)
  unfolding prepare_admitted
  denied-Returns denied same = rw denied (
      fail-Returns s admission.reason none (record { limits = t; emitted = emitted })
        (λ u back key. back key ∙ same key))

  granted-Returns :
      admission.allowed ≡ true
      → Undoes admission.release s t
      → Returns s (prepare_admitted request (admission, t) emitted)
  unfolding prepare_admitted
  granted-Returns granted undoes = rw granted (
      prepare_body-Continues s (refused_body (request.read_body admission.max_body_bytes))
        (prepare_infrastructure request (prepare_decoded request))
        (prepare_infrastructure-Continues s request (prepare_decoded request)
          (prepare_decoded-Returns s request))
        admission.release (record { limits = t; emitted = emitted }) undoes)

module _ (authenticate : String → ClientIdentity × RejectReason) (resolver : LimitResolver)
    (audit : Option Bool) (max_body_bytes : ℤ) (request : Request) where
  prepare_admitted-Returns :
      (route_key : String) (s : LimitState) (emitted : List String)
      → Returns s (
          prepare_admitted request
            (admit_protected_route
              (with_limits authenticate resolver audit)
              (admission_input max_body_bytes request route_key)
              s)
            emitted)
  prepare_admitted-Returns route_key s emitted =
      let input = admission_input max_body_bytes request route_key in
      let result = admit_protected_route (with_limits authenticate resolver audit) input s in
      elim (admit_protected_route-cases authenticate resolver audit input s) [
        | inl refused ↦
            denied-Returns request s result.0 result.1 emitted refused.denied
              (λ key. ap (λ c. count_or_zero (lookup key c)) refused.unreserved)
        | inr admitted ↦ granted-Returns request s result.0 result.1 emitted admitted.granted (
            subst (λ release. Undoes release s result.1) (sym admitted.reserved)
              (Counted-Undoes _ s result.1 admitted.counted))
      ]

  prepare-Returns :
      (g : Gate) → Returns g.limits (prepare authenticate resolver audit max_body_bytes request g)
  unfolding prepare
  prepare-Returns g =
      let plan = plan_route_availability (is_some request.route_key) in
      let undone : Undoes none g.limits g.limits = λ u same. same in
      elim (Bool-cases (is_block plan.action)) [
        | inl e ↦ rw e (fail-Returns g.limits plan.reason none g undone)
        | inr e ↦ elim (Bool-cases (route_protected (key_or_zero request.route_key) resolver)) [
          | inl p ↦ rw (e, p) (prepare_admitted-Returns _ g.limits g.emitted)
          | inr p ↦
              rw (e, p)
                (prepare_infrastructure-Continues g.limits request _
                  (prepare_body-Continues g.limits (refused_body (request.read_body max_body_bytes))
                    (prepare_decoded request) (prepare_decoded-Returns g.limits request))
                  none g undone)
        ]
      ]

  -- The operations that follow the preparation, which leave the counts as they were.
  module _ (enforce project : Gate → Bool × Gate) (forward : Gate → Gate)
      (enforcing : (g : Gate) → Same g.limits (enforce g).1.limits)
      (projecting : (g : Gate) → Same g.limits (project g).1.limits)
      (forwarding : (g : Gate) → Same g.limits (forward g).limits) where
    abbrev d : Driver Gate
    d = driver authenticate resolver audit max_body_bytes request enforce project forward

    run_prepared-Same : (g : Gate) → Same g.limits (run_prepared d g).1.limits
    unfolding run_prepared
    run_prepared-Same g key =
        let enforced = enforce g in
        let projected = project enforced.1 in
        let same = projecting enforced.1 key ∙ enforcing g key in
        elim (Bool-cases enforced.0) [
          | inr e ↦ rw e (enforcing g key)
          | inl e ↦ elim (Bool-cases projected.0) [
            | inr f ↦ rw (e, f) same
            | inl f ↦ rw (e, f) (forwarding projected.1 key ∙ same)
          ]
        ]

    after_prepare-Same :
        (s : LimitState) (prepared : (Option Release × Bool) × Gate)
        → Returns s prepared
        → Same s
            (if not prepared.0.1
              then (false, prepared.1)
              else deferred
                  (some (release_or_noop prepared.0.0))
                  (run_prepared d prepared.1)).1.limits
    after_prepare-Same s ((release, false), g) same = same
    after_prepare-Same s ((none, true), g) undoes =
        undoes (run_prepared d g).1.limits (run_prepared-Same g)
    after_prepare-Same s ((some r, true), g) undoes =
        undoes (run_prepared d g).1.limits (run_prepared-Same g)

    -- On whatever path an exchange ends, refused at any point of its preparation, by the policy or
    -- by the projection, or forwarded, the number of reservations of every client and route is
    -- then what it was before, where the operations that follow the preparation leave these
    -- numbers as they are.
    pub run-Same :
        (g : Gate)
        → Same g.limits
            (run
              (some
                (driver authenticate resolver audit max_body_bytes request enforce project forward))
              g).1.limits
    unfolding run
    run-Same g =
        after_prepare-Same g.limits (prepare authenticate resolver audit max_body_bytes request g)
          (prepare-Returns g)
