-- ===== src/Gateway/Limits/Concurrency.antt =====
-- Concurrent requests (internal/contexts/gateway/adapters/http/openai/limits.go): calls as steps.
use kiwi_guard.Common.{
  ℕ, suc, ◌+◌, ◌-◌, ◌≤◌, ◌<◌, pos, leb_ℤ, Bool, true, false, not, ◌&&◌, String, List, [], ◌∷◌, ◌++◌,
  none, some, some-injective, ◌≡◌, refl, sym, ap, ◌∙◌, subst, ◌⊎◌, ◌==◌, eq_string, eq_iff,
  if◌then◌else◌, leb, leb→le, lookup, insert, erase, lookup-insert, lookup-erase, arith, Bool-cases,
  inl, inr,
}
use kiwi_guard.Gateway.Limits.{
  RouteLimitPolicy, LimitState, Release, new_limit_state, limit_key, count_or_zero,
  acquire_concurrency, release_key, call_release,
}

-- The state and the closures that callers hold, in the order of their creation.
pub record System : Type 0 where
  pub limits : LimitState
  pub releases : List Release

abbrev pub held_at : String → LimitState → ℕ
held_at key s = count_or_zero (lookup key s.concurrency)

-- Closures of a key that are still to be called.
abbrev pub outstanding : String → List Release → ℕ
outstanding key [] = 0
outstanding key (r ∷ rs) =
    if r.key == key && not r.done then suc (outstanding key rs) else outstanding key rs

-- One call of `acquireConcurrency`, or of any closure, each as often as its callers please. The
-- policy is the one that applies to the client on the route.
pub data Step (policy : String → String → RouteLimitPolicy) : System → System → Type 0 where
  refused :
      {s : System} (client route : String)
      → (acquire_concurrency client route (policy client route) s.limits).0 ≡ none
      → Step policy s (record s {
        limits = (acquire_concurrency client route (policy client route) s.limits).1;
      })
  acquired :
      {s : System} (client route : String) (r : Release)
      → (acquire_concurrency client route (policy client route) s.limits).0 ≡ some r
      → Step policy s (record {
        limits = (acquire_concurrency client route (policy client route) s.limits).1;
        releases = r ∷ s.releases;
      })
  released :
      {s : System} (before after : List Release) (r : Release)
      → s.releases ≡ before ++ r ∷ after
      → Step policy s (record {
        limits = (call_release r s.limits).1;
        releases = before ++ (call_release r s.limits).0 ∷ after;
      })

pub data Reaches (policy : String → String → RouteLimitPolicy) : System → Type 0 where
  start : Reaches policy (record { limits = new_limit_state; releases = [] })
  next : {s t : System} → Reaches policy s → Step policy s t → Reaches policy t

-- The count of each key is the number of closures still to be called, and is within its maximum.
pub record IsBalanced (max : String → ℕ) (s : System) : Type 0 where
  pub balanced : (key : String) → held_at key s.limits ≡ outstanding key s.releases
  pub bounded : (key : String) → held_at key s.limits ≤ max key

pub held_at-insert :
    (key set : String) (n : ℕ) (s : LimitState)
    → held_at key (record s { concurrency = insert set n s.concurrency })
      ≡ (if set == key then n else held_at key s)
held_at-insert key set n s =
    rw (lookup-insert set key n s.concurrency)
      (elim (Bool-cases (set == key)) [ inl e ↦ rw e | inr e ↦ rw e ])

held_at-erase :
    (key gone : String) (s : LimitState)
    → held_at key (record s { concurrency = erase gone s.concurrency })
      ≡ (if gone == key then 0 else held_at key s)
held_at-erase key gone s =
    rw (lookup-erase gone key s.concurrency)
      (elim (Bool-cases (gone == key)) [ inl e ↦ rw e | inr e ↦ rw e ])

pub held_at-release_key :
    (key gone : String) (s : LimitState)
    → held_at key (release_key gone s) ≡ (if gone == key then held_at key s - 1 else held_at key s)
unfolding release_key
held_at-release_key key gone s = elim (Bool-cases (gone == key)) [
  | inl e ↦
      let same : held_at key s ≡ held_at gone s =
        ap (λ k. held_at k s) (sym ((eq_iff gone key).0 e)) in
      elim (Bool-cases (leb (held_at gone s) 1)) [
        | inl f ↦
            rw (e, f, held_at-erase key gone s)
              (rw e (
                let z : 0 ≡ held_at key s - 1 = omega (arith, leb→le (held_at gone s) 1 f, same) in
                z))
        | inr f ↦
            rw (e, f, held_at-insert key gone (held_at gone s - 1) s)
              (rw e (ap (λ n. n - 1) (sym same)))
      ]
  | inr e ↦ elim (Bool-cases (leb (held_at gone s) 1)) [
    | inl f ↦ rw (e, f, held_at-erase key gone s) (rw e)
    | inr f ↦ rw (e, f, held_at-insert key gone (held_at gone s - 1) s) (rw e)
  ]
]

outstanding-append :
    (key : String) (xs ys : List Release)
    → outstanding key (xs ++ ys) ≡ outstanding key xs + outstanding key ys
outstanding-append key [] ys = omega arith
outstanding-append key (r ∷ rs) ys = ground (arith, outstanding-append key rs ys)

pub if_same :
    (k key : String) (f : String → ℕ)
    → (if k == key then suc (f k) else f key) ≡ (if k == key then suc (f key) else f key)
if_same k key f = elim (Bool-cases (k == key)) [
  | inl e ↦ rw e (ap (λ j. suc (f j)) ((eq_iff k key).0 e))
  | inr e ↦ rw e
]

module _ (policy : RouteLimitPolicy) (max : ℕ)
    (limited : policy.max_concurrent_requests ≡ pos max) where
  acquire-lem :
      (client route : String) (s : LimitState)
      → let result = acquire_concurrency client route policy s in
        ((result.0 ≡ none) × (result.1 ≡ s))
        ⊎ ((result.0 ≡ some (record { key = limit_key client route; done = false }))
            × (held_at (limit_key client route) s < max)
            × ((key : String)
                → held_at key result.1
                  ≡ (if limit_key client route == key then suc (held_at key s) else held_at key s)))
  unfolding acquire_concurrency
  acquire-lem client route s = elim (Bool-cases (leb_ℤ policy.max_concurrent_requests (pos 0))) [
    | inl e ↦ inl (rw e (refl, refl))
    | inr e ↦
        elim (Bool-cases
          (leb_ℤ policy.max_concurrent_requests (pos (held_at (limit_key client route) s)))) [
            | inl f ↦ inl (rw (e, f) (refl, refl))
            | inr f ↦ inr (
                rw (e, f)
                  (
                    refl,
                    (let g = rw limited at f in ground arith),
                    λ key.
                        held_at-insert key (limit_key client route) _ s
                        ∙ if_same (limit_key client route) key (λ k. held_at k s),
                  ))
          ]
  ]

abbrev taken : String → String → Release
taken client route = record { key = limit_key client route; done = false }

outstanding-released :
    (key k : String) (done : Bool) (before after : List Release) (s : LimitState)
    → let r : Release = record { key = k; done = done } in
      held_at key s ≡ outstanding key (before ++ r ∷ after)
      → held_at key (call_release r s).1 ≡ outstanding key (before ++ (call_release r s).0 ∷ after)
unfolding call_release
outstanding-released key k true before after s h = h
outstanding-released key k false before after s h =
    held_at-release_key key k s
    ∙ ground (
      arith,
      h,
      outstanding-append key before (record { key = k; done = false } ∷ after),
      outstanding-append key before (record { key = k; done = true } ∷ after),
    )

released-le :
    (key k : String) (done : Bool) (s : LimitState)
    → held_at key (call_release (record { key = k; done = done }) s).1 ≤ held_at key s
unfolding call_release
released-le key k true s = omega arith
released-le key k false s = rw (held_at-release_key key k s) (ground arith)

module _ (policy : String → String → RouteLimitPolicy) (max : String → ℕ)
    (limited : (client route : String)
      → (policy client route).max_concurrent_requests ≡ pos (max (limit_key client route))) where
  Step-IsBalanced : {s t : System} → Step policy s t → IsBalanced max s → IsBalanced max t
  Step-IsBalanced {s} (refused client route h) b =
      elim (acquire-lem (policy client route) (max (limit_key client route)) (limited client route)
        client route s.limits) [
          | inl same ↦ subst (λ l. IsBalanced max (record s { limits = l })) (sym same.1) b
          | inr new ↦ (let k : none ≡ some (taken client route) = sym h ∙ new.0 in cc)
        ]
  Step-IsBalanced {s} (acquired client route r h) b =
      elim (acquire-lem (policy client route) (max (limit_key client route)) (limited client route)
        client route s.limits) [
          | inl same ↦ (let k : some r ≡ none = sym h ∙ same.0 in cc)
          | inr new ↦
              subst
                (λ r. IsBalanced max (record {
                  limits = (acquire_concurrency client route (policy client route) s.limits).1;
                  releases = r ∷ s.releases;
                }))
                (some-injective _ _ (sym new.0 ∙ h))
                (record {
                  balanced = λ key. new.2 key ∙ ground (arith, b.balanced key);
                  bounded = λ key. elim (Bool-cases (limit_key client route == key)) [
                    | inl e ↦
                        let room =
                          subst (λ k. held_at k s.limits < max k)
                            ((eq_iff (limit_key client route) key).0 e) new.1 in
                        rw (new.2 key, e) (omega (arith, room))
                    | inr e ↦ rw (new.2 key, e) (b.bounded key)
                  ];
                })
        ]
  Step-IsBalanced {s} (released before after r e) b = record {
    balanced = λ key.
        outstanding-released key r.key r.done before after s.limits
          (b.balanced key ∙ ap (outstanding key) e);
    bounded = λ key. omega (arith, released-le key r.key r.done s.limits, b.bounded key);
  }

  -- Whatever calls to acquire and to release come in whatever order, and however often each
  -- closure is called, the count of every client and route is the number of reservations
  -- acquired and not released, and never exceeds the maximum that applies there, which is fixed
  -- and positive or zero.
  pub Reaches-IsBalanced : {s : System} → Reaches policy s → IsBalanced max s
  unfolding lookup
  Reaches-IsBalanced start = record { balanced = λ key. refl; bounded = λ key. omega arith }
  Reaches-IsBalanced (next h step) = Step-IsBalanced step (Reaches-IsBalanced h)
