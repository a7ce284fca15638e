-- ===== src/Gateway/Tests.antt =====
-- The gateway's decisions (internal/contexts/gateway/application) on concrete traffic.
use kiwi_guard.Common.{ℕ, pos, true, false, List, [], ◌∷◌, ◌≡◌, ◌↔◌, ◌⊎◌, ◌<◌, refl, ok, err, any}
use kiwi_guard.Common.{◌≤◌, ◌-◌, drop, length, flat_map, arith, lookup, Option}
use kiwi_guard.Common.Utf8.{encode, encode_rune, Bytes, runes}
use kiwi_guard.Gateway.Streaming.{new_stream_buffer, collected_text}
use kiwi_guard.Gateway.Streaming.Window.{
  observe_all, all_accepted, window-suffix, collected-bounded,
}
use kiwi_guard.Gateway.Limits.{
  RouteLimitPolicy, LimitState, Release, new_limit_state, limit_key, acquire_concurrency,
  call_release,
}
use kiwi_guard.Gateway.Limits.Rates.{RateRequest, key_of, admitted, asked, least, allow_rate-budget}
use kiwi_guard.Gateway.Limits.Concurrency.{
  System, Reaches, start, next, acquired, released, IsBalanced, Reaches-IsBalanced,
}
use kiwi_guard.Policy.Types.{Decision, action_redact}
use kiwi_guard.Gateway.Plans.Zero.{no_decision}
use kiwi_guard.Gateway.Plans.OutputResponse
use kiwi_guard.Gateway.Enforcement.{IsClear, IsRedacted, output_plan_redaction-send_iff}
use kiwi_guard.Gateway.Redaction.{TextSpan, invalid_boundary, valid_string_boundary, redact_text}
use kiwi_guard.Gateway.Redaction.Masking.{mask}
use kiwi_guard.Gateway.Redaction.Boundaries.{splits, at_rune, redact_text-invalid_in_runes_iff}
use kiwi_guard.Gateway.Redaction.Redacted.{covered, redact_text-mask}

abbrev redact_decision : Decision
redact_decision = record no_decision { action = action_redact }

abbrev output_facts : OutputResponse.RedactionFacts
output_facts = record {
  status_code = 200;
  decision = redact_decision;
  text = b'h' ∷ b'i' ∷ [];
  redactions = 1;
  failed = false;
}

output_plan_redaction-send_iff_example :
    ((OutputResponse.plan_redaction output_facts).action ≡ OutputResponse.send) ↔ (
      (200 < 400)
      × (IsClear redact_decision
          ⊎ ((action_redact ≡ action_redact) × IsRedacted false 1 output_facts.text)))
output_plan_redaction-send_iff_example = output_plan_redaction-send_iff output_facts

-- Two touching spans, out of order, in "abcde".
abbrev letters : Bytes
letters = b'a' ∷ b'b' ∷ b'c' ∷ b'd' ∷ b'e' ∷ []

abbrev spans : List TextSpan
spans = record { start = pos 3; end = pos 4 } ∷ record { start = pos 1; end = pos 3 } ∷ []

redact_text-mask_example :
    (n : ℕ) × (redact_text letters spans ≡ ok (mask (covered letters spans) false 0 letters, n))
    × ((n ≡ 0) ↔ ((i : ℕ) → covered letters spans i ≡ false))
unfolding valid_string_boundary
redact_text-mask_example = redact_text-mask letters spans refl

-- The runes of "aé", which take three bytes.
abbrev accented : List ℕ
accented = 0x61 ∷ 0xe9 ∷ []

redact_text-invalid_in_runes_iff_example :
    (redact_text (encode accented) spans ≡ err invalid_boundary)
    ↔ (any (splits accented) spans ≡ true)
redact_text-invalid_in_runes_iff_example = redact_text-invalid_in_runes_iff accented spans

refused_inside : at_rune accented 1 ≡ true × at_rune accented 2 ≡ false
unfolding at_rune encode encode_rune
refused_inside = (refl, refl)

-- A window of two runes over "ab" and "c".
abbrev two_deltas : List Bytes
two_deltas = (b'a' ∷ b'b' ∷ []) ∷ (b'c' ∷ []) ∷ []

window-suffix_example :
    (observe_all two_deltas (new_stream_buffer (pos 2) (pos 3))).window.text
    ≡ drop (length (flat_map runes two_deltas) - 2) (flat_map runes two_deltas)
window-suffix_example = window-suffix 2 (pos 3) two_deltas (omega arith)

collected-bounded_example :
    (length (collected_text (observe_all two_deltas (new_stream_buffer (pos 2) (pos 3)))) ≤ 3)
    × (all_accepted two_deltas (new_stream_buffer (pos 2) (pos 3)) ≡ true
        → collected_text (observe_all two_deltas (new_stream_buffer (pos 2) (pos 3)))
          ≡ flat_map (λ d. d) two_deltas)
collected-bounded_example = collected-bounded (pos 2) 3 two_deltas

-- One request in a window, and one at a time.
abbrev one_at_a_time : RouteLimitPolicy
one_at_a_time = record {
  route_key = "chat";
  requests_per_window = pos 1;
  window = pos 10;
  max_concurrent_requests = pos 1;
  max_body_bytes = pos 100;
  enabled = true;
}

abbrev request_at : ℕ → RateRequest
request_at now = record { now = now; client_id = "c"; route_key = "chat"; policy = one_at_a_time }

allow_rate-budget_example :
    admitted (key_of (request_at 5)) (request_at 5 ∷ request_at 6 ∷ []) new_limit_state
    ≡ least 1 (asked (key_of (request_at 5)) (request_at 5 ∷ request_at 6 ∷ []))
unfolding lookup
allow_rate-budget_example =
    allow_rate-budget 1 10 (request_at 5) (request_at 6 ∷ []) new_limit_state (omega arith)
      (omega arith) (omega arith) refl
      ((λ e. (refl, refl, omega arith)), ((λ e. (refl, refl, omega arith)), tt))

-- One reservation, then its release.
abbrev acquired_one : Option Release × LimitState
acquired_one = acquire_concurrency "c" "chat" one_at_a_time new_limit_state

abbrev holding : System
holding = record {
  limits = acquired_one.1;
  releases = record { key = limit_key "c" "chat"; done = false } ∷ [];
}

abbrev freed : System
freed = record {
  limits = (call_release (record { key = limit_key "c" "chat"; done = false }) acquired_one.1).1;
  releases =
      (call_release (record { key = limit_key "c" "chat"; done = false }) acquired_one.1).0 ∷ [];
}

Reaches-freed : Reaches (λ client route. one_at_a_time) freed
unfolding acquire_concurrency lookup
Reaches-freed =
    next {s = holding}
      (next start (acquired "c" "chat" (record { key = limit_key "c" "chat"; done = false }) refl))
      (released [] [] (record { key = limit_key "c" "chat"; done = false }) refl)

Reaches-IsBalanced_example : IsBalanced (λ key. 1) freed
Reaches-IsBalanced_example =
    Reaches-IsBalanced (λ client route. one_at_a_time) (λ key. 1) (λ client route. refl)
      Reaches-freed
