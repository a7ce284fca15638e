-- ===== src/Verdict.antt =====
-- internal/contexts/verdict/domain: the results of the providers of verdicts, the provider that falls
-- back, and the one that always gives the same result.
use kiwi_guard.Common.{
  ℕ, ℤ, pos, leb_ℤ, String, Bool, true, false, List, [], Option, none, some, ◌==◌, eq_string,
  if◌then◌else◌,
}
use kiwi_guard.Common.Utf8.{Bytes}

-- The metadata of a request, which the gateway never sets, is left out.
pub record VerdictRequest : Type 0 where
  pub request_id : String
  pub correlation_id : String
  pub route_key : String
  pub provider_key : String
  pub model : String
  pub direction : String
  pub text : Bytes

pub record MatchedSpan : Type 0 where
  pub start : ℤ
  pub end : ℤ
  pub category : String
  pub text_hash : String

-- The confidence is a float64 that is only copied: its bits.
pub record VerdictResult : Type 0 where
  pub risk_level : String
  pub categories : List String
  pub confidence : ℕ
  pub suggested_action : String
  pub matched_spans : List MatchedSpan
  pub rationale : String
  pub latency : ℤ
  pub provider_name : String
  pub fallback_used : Bool
  pub error : String

abbrev pub no_result : VerdictResult
no_result = record {
  risk_level = "";
  categories = [];
  confidence = 0;
  suggested_action = "";
  matched_spans = [];
  rationale = "";
  latency = pos 0;
  provider_name = "";
  fallback_used = false;
  error = "";
}

-- `Evaluate` answers a result beside an error, each whatever the other is. What a context does to a
-- call, its deadline included, is part of the answer.
abbrev pub VerdictProvider : Type 0
VerdictProvider = VerdictRequest → VerdictResult × Option String

pub record FallbackOptions : Type 0 where
  pub provider_name : String
  pub timeout : ℤ
  pub action : String

-- `positiveDurationSince`, of the time that has passed.
unfoldable pub positive_duration : ℤ → ℤ
positive_duration elapsed = if leb_ℤ elapsed (pos 0) then pos 1 else elapsed

-- What surrounds a call: the time that it takes, and the error of the caller's context after it.
pub record Surroundings : Type 0 where
  pub elapsed : ℤ
  pub cancelled : Option String

unfoldable pub fallback_result : FallbackOptions → Surroundings → String → VerdictResult
unfolding positive_duration
fallback_result opts around message = record no_result {
  risk_level = "unknown";
  suggested_action = if opts.action == "" then "shadow_log" else opts.action;
  latency = positive_duration around.elapsed;
  provider_name = opts.provider_name;
  fallback_used = true;
  error = message;
}

-- The end of the wrapped `Evaluate`, by the answer of the provider.
unfoldable pub fall_back :
    FallbackOptions → Surroundings → VerdictResult × Option String → VerdictResult × Option String
unfolding positive_duration fallback_result
fall_back opts around (result, none) = (
  record result {
    latency =
        if leb_ℤ result.latency (pos 0) then positive_duration around.elapsed else result.latency;
  },
  none,
)
fall_back opts around (result, some message) = elim around.cancelled [
  | some cause ↦ (no_result, some cause)
  | none ↦ (fallback_result opts around message, none)
]

unfoldable pub with_fallback : FallbackOptions → Surroundings → VerdictProvider → VerdictProvider
unfolding fall_back
with_fallback opts around provider request = fall_back opts around (provider request)

-- A context that is done before the call is an error.
unfoldable pub deterministic_provider : VerdictResult → Surroundings → VerdictProvider
unfolding positive_duration
deterministic_provider result around request = elim around.cancelled [
  | some cause ↦ (no_result, some cause)
  | none ↦ (record result { latency = positive_duration around.elapsed }, none)
]
