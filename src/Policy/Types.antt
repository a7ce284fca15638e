-- ===== src/Policy/Types.antt =====
-- internal/contexts/policy/domain/types.go, and the order of the actions (snapshot.go).
use kiwi_guard.Common.{
  ℕ, String, Bool, true, false, List, [], ◌∷◌, Option, none, some, lookup, ltb, eq_string,
  if◌then◌else◌,
}
use kiwi_guard.Common.Utf8.{Bytes}
use kiwi_guard.Detection.{Direction, Definition, Finding}

abbrev pub Action : Type 0
Action = String

abbrev pub Severity : Type 0
Severity = String

abbrev pub Source : Type 0
Source = String

abbrev pub action_allow : Action
action_allow = "allow"

abbrev pub action_block : Action
action_block = "block"

abbrev pub action_redact : Action
action_redact = "redact"

abbrev pub action_shadow_log : Action
action_shadow_log = "shadow_log"

-- An empty field is a wildcard.
pub record Scope : Type 0 where
  pub route_key : String
  pub provider : String
  pub model : String
  pub direction : Direction

pub record Rule : Type 0 where
  pub key : String
  pub enabled : Bool
  pub severity : Severity
  pub action : Action
  pub detector_keys : List String
  pub scope : Scope

pub record Bundle : Type 0 where
  pub key : String
  pub version : String
  pub source : Source
  pub default_action : Action
  pub detectors : List Definition
  pub rules : List Rule

-- `confidence` is a float64 that is only copied: its bits.
pub record ModelSignal : Type 0 where
  pub suggested_action : Action
  pub risk_level : String
  pub categories : List String
  pub confidence : ℕ
  pub fallback_action : Action
  pub fallback_used : Bool
  pub error : String

pub record EvaluationRequest : Type 0 where
  pub route_key : String
  pub provider : String
  pub model : String
  pub direction : Direction
  pub text : Bytes
  pub model_signal : ModelSignal

pub record RuleHit : Type 0 where
  pub bundle_key : String
  pub rule_key : String
  pub severity : Severity
  pub action : Action
  pub findings : List Finding

pub record Decision : Type 0 where
  pub action : Action
  pub default_action : Action
  pub rule_hits : List RuleHit
  pub findings : List Finding
  pub model_signal : ModelSignal
  pub model_signal_applied : Bool
  pub snapshot_hash : String
  pub bundle_keys : List String

abbrev pub action_priorities : List (Action × ℕ)
action_priorities =
    (action_allow, 0) ∷ (action_shadow_log, 1) ∷ (action_redact, 2) ∷ (action_block, 3) ∷ []

abbrev pub is_some {ℓ} : {A : Type ℓ} → Option A → Bool
is_some none = false
is_some (some a) = true

unfoldable pub valid_action : Action → Bool
unfolding lookup
valid_action action = is_some (lookup action action_priorities)

-- A missing key has the priority of `allow`.
unfoldable pub action_priority : Action → ℕ
unfolding lookup
action_priority action = elim (lookup action action_priorities) [ none ↦ 0 | some p ↦ p ]

unfoldable pub higher_priority : Action → Action → Action
higher_priority left right =
    if ltb (action_priority left) (action_priority right) then right else left
