-- ===== src/Gateway/Limits.antt =====
-- internal/contexts/gateway/adapters/http/openai/limits.go: the limits of a client on a route, the
-- rate windows, and the reservations of concurrent requests.
pub mod Rates
pub mod Concurrency
pub mod Resolver
use Prim.Native.String
use kiwi_guard.Common.{
  ℕ, suc, ◌+◌, ◌-◌, ℤ, pos, pos_part, ltb_ℤ, leb_ℤ, String, Bool, true, false, not, ◌&&◌, ◌||◌,
  List, [], ◌∷◌, Option, none, some, ◌==◌, eq_nat, eq_string, if◌then◌else◌, ltb, leb, lookup,
  insert, erase,
}

-- Go ints and an int64, and a duration in nanoseconds.
pub record RouteLimitPolicy : Type 0 where
  pub route_key : String
  pub requests_per_window : ℤ
  pub window : ℤ
  pub max_concurrent_requests : ℤ
  pub max_body_bytes : ℤ
  pub enabled : Bool

-- A `time.Time` as the nanoseconds since the zero time.
abbrev pub Time : Type 0
Time = ℕ

pub record RateWindow : Type 0 where
  pub start : Time
  pub count : ℕ

-- `limitState`, its two maps. A method holds the mutex from its first read to its last write.
pub record LimitState : Type 0 where
  pub rates : List (String × RateWindow)
  pub concurrency : List (String × ℕ)

abbrev pub new_limit_state : LimitState
new_limit_state = record { rates = []; concurrency = [] }

unfoldable pub limit_key : String → String → String
limit_key client_id route_key = String.◌++◌ client_id (String.◌++◌ "\0" route_key)

-- A missing entry is the zero value.
abbrev pub window_or_zero : Option RateWindow → RateWindow
window_or_zero none = record { start = 0; count = 0 }
window_or_zero (some w) = w

abbrev pub count_or_zero : Option ℕ → ℕ
count_or_zero none = 0
count_or_zero (some n) = n

-- The zero time, or the window is over.
abbrev pub window_over : Time → RateWindow → RouteLimitPolicy → Bool
window_over now window policy =
    window.start == 0 || not (ltb now (window.start + pos_part policy.window))

unfoldable pub allow_rate :
    Time → String → String → RouteLimitPolicy → LimitState → Bool × LimitState
allow_rate now client_id route_key policy s =
    let key = limit_key client_id route_key in
    let window = window_or_zero (lookup key s.rates) in
    if leb_ℤ policy.requests_per_window (pos 0) || leb_ℤ policy.window (pos 0)
    then (false, s)
    else if window_over now window policy
    then (true, record s { rates = insert key (record { start = now; count = 1 }) s.rates })
    else if leb_ℤ policy.requests_per_window (pos window.count)
    then (false, s)
    else (
      true,
      record s {
        rates = insert key (record { start = window.start; count = suc window.count }) s.rates;
      },
    )

-- The closure that `acquireConcurrency` returns: the key it captures, and whether its `sync.Once`
-- has run.
pub record Release : Type 0 where
  pub key : String
  pub done : Bool

unfoldable pub acquire_concurrency :
    String → String → RouteLimitPolicy → LimitState → Option Release × LimitState
acquire_concurrency client_id route_key policy s =
    let key = limit_key client_id route_key in
    let held = count_or_zero (lookup key s.concurrency) in
    if leb_ℤ policy.max_concurrent_requests (pos 0)
    then (none, s)
    else if leb_ℤ policy.max_concurrent_requests (pos held)
    then (none, s)
    else (
      some (record { key = key; done = false }),
      record s { concurrency = insert key (suc held) s.concurrency },
    )

-- The body under `once.Do`.
unfoldable pub release_key : String → LimitState → LimitState
release_key key s =
    let held = count_or_zero (lookup key s.concurrency) in
    if leb held 1
    then record s { concurrency = erase key s.concurrency }
    else record s { concurrency = insert key (held - 1) s.concurrency }

-- A call of the closure, which is then done.
unfoldable pub call_release : Release → LimitState → Release × LimitState
unfolding release_key
call_release r s = if r.done then (r, s) else (record r { done = true }, release_key r.key s)
