-- ===== src/Gateway/Limits/Rates.antt =====
-- How many requests a rate window admits (internal/contexts/gateway/adapters/http/openai/limits.go).
use kiwi_guard.Common.{
  ℕ, suc, ◌+◌, ◌≤◌, ◌<◌, pos, leb_ℤ, Bool, true, false, ◌&&◌, ◌||◌, String, List, [], ◌∷◌, some,
  ◌≡◌, refl, sym, ap, ◌∙◌, ◌⊎◌, ◌==◌, eq_string, eq_nat, eq_iff, if◌then◌else◌, ltb, lookup, insert,
  lookup-insert, arith, eq_refl, Bool-cases, inl, inr, All,
}
use kiwi_guard.Gateway.Limits.{
  RouteLimitPolicy, RateWindow, Time, LimitState, limit_key, window_or_zero, window_over,
  allow_rate,
}

pub record RateRequest : Type 0 where
  pub now : Time
  pub client_id : String
  pub route_key : String
  pub policy : RouteLimitPolicy

abbrev pub key_of : RateRequest → String
key_of r = limit_key r.client_id r.route_key

abbrev pub asks : RateRequest → LimitState → Bool × LimitState
asks r s = allow_rate r.now r.client_id r.route_key r.policy s

-- Requests of a key, and those that are let in when they come in this order.
abbrev pub asked : String → List RateRequest → ℕ
asked key [] = 0
asked key (r ∷ rs) = if key_of r == key then suc (asked key rs) else asked key rs

abbrev pub admitted : String → List RateRequest → LimitState → ℕ
admitted key [] s = 0
admitted key (r ∷ rs) s =
    let rest = admitted key rs (asks r s).1 in
    if key_of r == key && (asks r s).0 then suc rest else rest

abbrev pub least : ℕ → ℕ → ℕ
least a b = if ltb a b then a else b

-- A request of the key has this policy and comes before the end of the window.
abbrev pub IsWithin : String → ℕ → ℕ → Time → RateRequest → Type 0
IsWithin key limit width start r =
    key_of r ≡ key
    → (r.policy.requests_per_window ≡ pos limit)
      × (r.policy.window ≡ pos width)
      × (r.now < start + width)

insert-other :
    (set key : String) (window : RateWindow) (rates : List (String × RateWindow))
    → (set == key) ≡ false
    → lookup key (insert set window rates) ≡ lookup key rates
insert-other set key window rates e = rw (lookup-insert set key window rates, e)

-- The request of another client or route leaves a window as it is.
allow_rate-other :
    (key : String) (r : RateRequest) (s : LimitState)
    → (key_of r == key) ≡ false
    → lookup key (asks r s).1.rates ≡ lookup key s.rates
unfolding allow_rate
allow_rate-other key r s e =
    let window = window_or_zero (lookup (key_of r) s.rates) in
    let p = r.policy in
    elim (Bool-cases (leb_ℤ p.requests_per_window (pos 0) || leb_ℤ p.window (pos 0))) [
      | inl f ↦ rw f refl
      | inr f ↦ elim (Bool-cases (window_over r.now window p)) [
        | inl g ↦ rw (f, g) (insert-other (key_of r) key _ s.rates e)
        | inr g ↦ elim (Bool-cases (leb_ℤ p.requests_per_window (pos window.count))) [
          | inl h ↦ rw (f, g, h) refl
          | inr h ↦ rw (f, g, h) (insert-other (key_of r) key _ s.rates e)
        ]
      ]
    ]

insert-same :
    (key : String) (window : RateWindow) (rates : List (String × RateWindow))
    → lookup key (insert key window rates) ≡ some window
insert-same key window rates = rw (lookup-insert key key window rates, eq_refl key)

-- The tests of `allowRate` for a policy that admits some requests.
has_budget :
    (p : RouteLimitPolicy) (limit width : ℕ)
    → 0 < limit
    → 0 < width
    → p.requests_per_window ≡ pos limit
    → p.window ≡ pos width
    → (leb_ℤ p.requests_per_window (pos 0) || leb_ℤ p.window (pos 0)) ≡ false
has_budget p limit width h k pl pw = rw (pl, pw) (ground arith)

module _ (limit width : ℕ) (some_requests : 0 < limit) (some_time : 0 < width) where
  -- A request in an open window is counted, or refused where the window is full.
  allow_rate-opened :
      (r : RateRequest) (s : LimitState) (start count : ℕ)
      → 0 < start
      → (r.policy.requests_per_window ≡ pos limit)
        × (r.policy.window ≡ pos width)
        × (r.now < start + width)
      → lookup (key_of r) s.rates ≡ some (record { start = start; count = count })
      → (((asks r s).0 ≡ true)
          × (count < limit)
          × (lookup (key_of r) (asks r s).1.rates
              ≡ some (record { start = start; count = suc count })))
        ⊎ (((asks r s).0 ≡ false) × (limit ≤ count) × ((asks r s).1 ≡ s))
  unfolding allow_rate
  allow_rate-opened r s start count begun (pl, pw, before) opened =
      let p = r.policy in
      let window : RateWindow = record { start = start; count = count } in
      let f = has_budget p limit width some_requests some_time pl pw in
      let g : window_over r.now window p ≡ false = rw pw (ground arith) in
      elim (Bool-cases (leb_ℤ p.requests_per_window (pos count))) [
        | inl h ↦ inr (rw (opened, f, g, h) (refl, (let k = rw pl at h in ground arith), refl))
        | inr h ↦ inl (
            rw (opened, f, g, h)
              (refl, (let k = rw pl at h in ground arith), insert-same (key_of r) _ s.rates))
      ]

  -- A request opens a window where none is open.
  allow_rate-first :
      (r : RateRequest) (s : LimitState)
      → (r.policy.requests_per_window ≡ pos limit) × (r.policy.window ≡ pos width)
      → window_over r.now (window_or_zero (lookup (key_of r) s.rates)) r.policy ≡ true
      → ((asks r s).0 ≡ true)
        × (lookup (key_of r) (asks r s).1.rates ≡ some (record { start = r.now; count = 1 }))
  unfolding allow_rate
  allow_rate-first r s (pl, pw) over =
      rw (has_budget r.policy limit width some_requests some_time pl pw, over)
        (refl, insert-same (key_of r) _ s.rates)

count_in :
    (limit count a k : ℕ)
    → suc count + a ≡ least limit (suc count + k)
    → count + suc a ≡ least limit (count + suc k)
count_in limit count a k h =
    let same : count + suc k ≡ suc count + k = omega arith in
    let moved : count + suc a ≡ suc count + a = omega arith in
    moved ∙ h ∙ ap (least limit) (sym same)

first_in : (limit a k : ℕ) → 1 + a ≡ least limit (1 + k) → suc a ≡ least limit (suc k)
first_in limit a k h =
    let moved : suc a ≡ 1 + a = omega arith in
    let same : 1 + k ≡ suc k = omega arith in moved ∙ h ∙ ap (least limit) same

count_out :
    (limit count a k : ℕ)
    → limit ≤ count
    → count ≤ limit
    → count + a ≡ least limit (count + k)
    → count + a ≡ least limit (count + suc k)
count_out limit count a k full le h = ground arith

module _ (key : String) (limit width start : ℕ) (some_requests : 0 < limit) (some_time : 0 < width)
    (begun : 0 < start) where
  admitted-opened :
      (rs : List RateRequest) (s : LimitState) (count : ℕ)
      → count ≤ limit
      → All (IsWithin key limit width start) rs
      → lookup key s.rates ≡ some (record { start = start; count = count })
      → count + admitted key rs s ≡ least limit (count + asked key rs)
  admitted-opened [] s count le within opened = ground arith
  admitted-opened (r ∷ rs) s count le within opened = elim (Bool-cases (key_of r == key)) [
    | inr e ↦
        rw e
          (admitted-opened rs (asks r s).1 count le within.1 (allow_rate-other key r s e ∙ opened))
    | inl e ↦
        let same = (eq_iff (key_of r) key).0 e in
        elim (allow_rate-opened limit width some_requests some_time r s start count begun
          (within.0 same) (ap (λ k. lookup k s.rates) same ∙ opened)) [
            | inl in_ ↦
                let rest =
                  admitted-opened rs (asks r s).1 (suc count) (omega (arith, in_.1)) within.1
                    (ap (λ k. lookup k (asks r s).1.rates) (sym same) ∙ in_.2) in
                rw (e, in_.0) (count_in limit count _ _ rest)
            | inr out ↦
                let rest =
                  admitted-opened rs (asks r s).1 count le within.1
                    (ap (λ (t : LimitState). lookup key t.rates) out.2 ∙ opened) in
                rw (e, out.0) (count_out limit count _ _ out.1 le rest)
          ]
  ]

-- When a request of a client to a route finds no window open and opens one, then of it and the
-- requests of the same client and route that come before the window ends, as many are let in as
-- there are, up to the limit, whatever requests of others come between. The limit and the width
-- of the window are positive and the same for these requests, and the time is not the zero
-- time.
pub allow_rate-budget :
    (limit width : ℕ) (first : RateRequest) (rs : List RateRequest) (s : LimitState)
    → 0 < limit
    → 0 < width
    → 0 < first.now
    → window_over first.now (window_or_zero (lookup (key_of first) s.rates)) first.policy ≡ true
    → All (IsWithin (key_of first) limit width first.now) (first ∷ rs)
    → admitted (key_of first) (first ∷ rs) s ≡ least limit (asked (key_of first) (first ∷ rs))
allow_rate-budget limit width first rs s h k begun over within =
    let (pl, pw, before) = within.0 refl in
    let (allowed, opened) = allow_rate-first limit width h k first s (pl, pw) over in
    rw (eq_refl (key_of first), allowed)
      (first_in limit _ _ (
        admitted-opened (key_of first) limit width first.now h k begun rs (asks first s).1 1
          (omega arith) within.1 opened))
