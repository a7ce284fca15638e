-- ===== src/Policy/Evaluate.antt =====
-- internal/contexts/policy/domain/snapshot.go: `Snapshot.Evaluate` and what it calls.
use kiwi_guard.Common.{
  String, Bool, true, false, not, ◌&&◌, List, [], ◌∷◌, ◌++◌, Option, none, some, ◌==◌, eq_string,
  if◌then◌else◌, lookup, insert, ltb, for_each, is_empty,
}
use kiwi_guard.Detection.{Direction, Input, Finding}
use kiwi_guard.Policy.Types.{
  Action, Scope, ModelSignal, EvaluationRequest, RuleHit, Decision, action_allow, valid_action,
  action_priority, higher_priority,
}
use kiwi_guard.Policy.Compile.{CompiledDetector, CompiledRule, eq_scope, entry, Snapshot}

-- `findingCache`.
abbrev pub Cache : Type 0
Cache = List (String × List Finding)

-- The value asked for, or the wildcard.
unfoldable pub string_scope_values : String → List String
string_scope_values value = if value == "" then "" ∷ [] else value ∷ "" ∷ []

unfoldable pub direction_scope_values : Direction → List Direction
direction_scope_values value = if value == "" then "" ∷ [] else value ∷ "" ∷ []

abbrev pub rules_at : Snapshot → Scope → List CompiledRule
rules_at s key = entry (lookup key s.rules_by_scope)

-- The five nested loops; `visit` is the closure, on the variables that it assigns.
unfoldable pub for_each_candidate_rule {ℓ} :
    {S : Type ℓ} → Snapshot → EvaluationRequest → (CompiledRule → S → S) → S → S
for_each_candidate_rule s req visit = for_each (string_scope_values req.route_key) (λ route_key.
    for_each (string_scope_values req.provider) (λ provider.
      for_each (string_scope_values req.model) (λ model.
        for_each (direction_scope_values req.direction) (λ direction.
          for_each
            (rules_at s (record {
              route_key = route_key;
              provider = provider;
              model = model;
              direction = direction;
            }))
            visit))))

unfoldable pub matches_scope : Scope → EvaluationRequest → Bool
matches_scope scope req =
    if not (scope.route_key == "") && not (scope.route_key == req.route_key)
    then false
    else if not (scope.provider == "") && not (scope.provider == req.provider)
    then false
    else if not (scope.model == "") && not (scope.model == req.model)
    then false
    else if not (scope.direction == "") && not (scope.direction == req.direction)
    then false
    else true

-- The findings of a detector, from the cache if it has run.
unfoldable pub cached_match : CompiledDetector → Input → Cache → List Finding × Cache
cached_match d input cache = elim (lookup d.cache_key cache) [
  | none ↦ (d.detector.match input, insert d.cache_key (d.detector.match input) cache)
  | some cached ↦ (cached, cache)
]

-- The loop of `matchRule` for several detectors.
unfoldable pub match_detectors :
    List CompiledDetector → Input → List Finding → Cache → List Finding × Cache
match_detectors [] input findings cache = (findings, cache)
match_detectors (d ∷ ds) input findings cache =
    let (cached, cache') = cached_match d input cache in
    match_detectors ds input (findings ++ cached) cache'

abbrev pub match_by : List CompiledDetector → Input → Cache → List Finding × Cache
match_by [] input cache = ([], cache)
match_by (d ∷ []) input cache = cached_match d input cache
match_by (d ∷ e ∷ ds) input cache = match_detectors (d ∷ e ∷ ds) input [] cache

unfoldable pub match_rule : CompiledRule → Input → Cache → List Finding × Cache
match_rule rule input cache = match_by rule.detectors input cache

-- The variables that the closure of `Evaluate` assigns.
pub record Visit : Type 0 where
  pub action : Action
  pub rule_hits : List RuleHit
  pub findings : List Finding
  pub cache : Cache

abbrev pub hit_of : CompiledRule → List Finding → RuleHit
hit_of rule findings = record {
  bundle_key = rule.bundle_key;
  rule_key = rule.key;
  severity = rule.severity;
  action = rule.action;
  findings = findings;
}

-- What the closure does with the findings of a rule in scope.
unfoldable pub record_hit : CompiledRule → List Finding → Cache → Visit → Visit
record_hit rule findings cache v =
    if is_empty findings then record v { cache = cache } else record {
      action = higher_priority v.action rule.action;
      rule_hits = v.rule_hits ++ hit_of rule findings ∷ [];
      findings = v.findings ++ findings;
      cache = cache;
    }

unfoldable pub visit_rule : EvaluationRequest → CompiledRule → Visit → Visit
visit_rule req rule v =
    let input : Input = record { direction = req.direction; text = req.text } in
    let (findings, cache) = match_rule rule input v.cache in
    if matches_scope rule.scope req then record_hit rule findings cache v else v

-- The model's action, or the fallback where the model failed.
abbrev pub model_action : ModelSignal → Action
model_action signal =
    if signal.fallback_used then signal.fallback_action else signal.suggested_action

-- The end of `Evaluate`: the model may only raise the action.
unfoldable pub conclude : Snapshot → EvaluationRequest → Visit → Decision
conclude s req v =
    let raised =
      valid_action (model_action req.model_signal)
      && ltb (action_priority v.action) (action_priority (model_action req.model_signal)) in
    record {
      action = if raised then model_action req.model_signal else v.action;
      default_action = s.default_action;
      rule_hits = v.rule_hits;
      findings = v.findings;
      model_signal = req.model_signal;
      model_signal_applied = raised;
      snapshot_hash = s.hash;
      bundle_keys = s.bundle_keys;
    }

abbrev pub first_visit : Snapshot → Visit
first_visit s = record { action = s.default_action; rule_hits = []; findings = []; cache = [] }

abbrev pub no_signal : ModelSignal
no_signal = record {
  suggested_action = "";
  risk_level = "";
  categories = [];
  confidence = 0;
  fallback_action = "";
  fallback_used = false;
  error = "";
}

unfoldable pub evaluate_snapshot : Snapshot → EvaluationRequest → Decision
evaluate_snapshot s req =
    conclude s req (for_each_candidate_rule s req (visit_rule req) (first_visit s))

-- `none` is the nil snapshot.
unfoldable pub evaluate : Option Snapshot → EvaluationRequest → Decision
evaluate none req = record {
  action = action_allow;
  default_action = action_allow;
  rule_hits = [];
  findings = [];
  model_signal = no_signal;
  model_signal_applied = false;
  snapshot_hash = "";
  bundle_keys = [];
}
evaluate (some s) req = evaluate_snapshot s req

unfoldable pub hash_of : Option Snapshot → String
hash_of none = ""
hash_of (some s) = s.hash
