-- ===== src/Policy/Tests.antt =====
-- Snapshots of internal/contexts/policy/domain compiled and evaluated on concrete bundles.
use mathlib.Core.List.{Perm, filter_map, Memᴰ}
use kiwi_guard.Common.{
  String, true, leb, List, [], ◌∷◌, ◌++◌, length, filter, insert, Result, ok, err, ◌≡◌, refl,
  is_empty, if◌then◌else◌,
}
use kiwi_guard.Detection.{
  Engine, Input, Finding, kind_regex, direction_input, compile, normalize_definition,
  custom_pattern, normalize_categories,
}
use kiwi_guard.Policy.Types.{
  Scope, Bundle, EvaluationRequest, action_allow, action_block, valid_action,
}
use kiwi_guard.Policy.Compile.{
  CompiledRule, Snapshot, SnapshotError, index_rules, active_rules, detectors_for_rule,
  compile_rule, compile_rules, compile_detectors, compile_detector_map, compile_bundle,
  compile_bundles, hash_bundles, compile_snapshot,
}
use kiwi_guard.Policy.Compilation.{IsCompiled, compile_snapshot-IsCompiled}
use kiwi_guard.Policy.Evaluate.{
  for_each_candidate_rule, evaluate_snapshot, no_signal, matches_scope,
}
use kiwi_guard.Policy.Candidates.{for_each_candidate_rule-perm}
use kiwi_guard.Policy.Caching.{KeysMean, plain_evaluate, evaluate_snapshot-eq-plain}
use kiwi_guard.Policy.Decisions.{
  hit?, IsDecided, evaluate_snapshot-hits, evaluate_snapshot-IsDecided,
}
use kiwi_guard.Policy.Blocking.{evaluate_snapshot-blocks}

abbrev engine : Engine
engine = record {
  Regexp = String;
  compile_pattern = λ p. ok p;
  find_all = λ re text. (0, length text) ∷ [];
  hash_value = λ value. "digest";
  is_digit = λ r. leb b'0' r;
}

abbrev anywhere : Scope
anywhere = record { route_key = ""; provider = ""; model = ""; direction = direction_input }

abbrev bundle : Bundle
bundle = record {
  key = "base";
  version = "1";
  source = "builtin";
  default_action = action_allow;
  detectors = record { key = "word"; kind = kind_regex; pattern = "x"; categories = [] } ∷ [];
  rules =
      record {
        key = "no-words";
        enabled = true;
        severity = "high";
        action = action_block;
        detector_keys = "word" ∷ [];
        scope = anywhere;
      }
      ∷ [];
}

abbrev digest : List Bundle → Result String String
digest bundles = ok "hash"

abbrev empty_snapshot : Snapshot
empty_snapshot = record {
  hash = "";
  bundle_keys = [];
  default_action = action_allow;
  rules = [];
  rules_by_scope = [];
}

abbrev snapshot_of : Result SnapshotError Snapshot → Snapshot
snapshot_of (ok s) = s
snapshot_of (err e) = empty_snapshot

abbrev compiled : Snapshot
compiled = snapshot_of (compile_snapshot engine digest (bundle ∷ []))

compile_snapshot-IsCompiled_example : IsCompiled engine digest (bundle ∷ []) compiled
unfolding compile_snapshot compile_bundles compile_bundle compile_rules compile_rule active_rules
    detectors_for_rule compile_detector_map compile_detectors hash_bundles compile
    normalize_definition custom_pattern normalize_categories valid_action insert
compile_snapshot-IsCompiled_example =
    compile_snapshot-IsCompiled engine digest (bundle ∷ []) compiled refl

-- A detector that reports any text.
abbrev any_text : Input → List Finding
any_text input =
    if is_empty input.text
    then []
    else record {
      detector_key = "word";
      category = "custom.regex";
      start = 0;
      end = length input.text;
      value_hash = "digest";
    }
      ∷ []

abbrev meaning : String → Input → List Finding
meaning key = any_text

abbrev rule : CompiledRule
rule = record {
  bundle_key = "base";
  key = "no-words";
  severity = "high";
  action = action_block;
  scope = anywhere;
  detectors =
      record { cache_key = "base/word"; detector = record { key = "word"; match = any_text } } ∷ [];
}

abbrev snapshot : Snapshot
snapshot = record {
  hash = "hash";
  bundle_keys = "base" ∷ [];
  default_action = action_allow;
  rules = rule ∷ [];
  rules_by_scope = index_rules (rule ∷ []);
}

abbrev request : EvaluationRequest
request = record {
  route_key = "chat";
  provider = "openai";
  model = "gpt";
  direction = direction_input;
  text = b'h' ∷ b'i' ∷ [];
  model_signal = no_signal;
}

keyed : KeysMean meaning snapshot.rules
keyed = ((refl, tt), tt)

for_each_candidate_rule-perm_example :
    Perm
      (for_each_candidate_rule snapshot request (λ rule seen. seen ++ rule ∷ []) [])
      (filter (λ rule. matches_scope rule.scope request) (rule ∷ []))
for_each_candidate_rule-perm_example = for_each_candidate_rule-perm snapshot request refl

evaluate_snapshot-eq-plain_example :
    evaluate_snapshot snapshot request ≡ plain_evaluate snapshot request
evaluate_snapshot-eq-plain_example = evaluate_snapshot-eq-plain meaning request snapshot refl keyed

evaluate_snapshot-hits_example :
    Perm (evaluate_snapshot snapshot request).rule_hits (filter_map (hit? request) (rule ∷ []))
evaluate_snapshot-hits_example = evaluate_snapshot-hits meaning snapshot request refl keyed

evaluate_snapshot-IsDecided_example :
    IsDecided snapshot request (evaluate_snapshot snapshot request)
evaluate_snapshot-IsDecided_example =
    evaluate_snapshot-IsDecided meaning snapshot request refl keyed

evaluate_snapshot-blocks_example : (evaluate_snapshot snapshot request).action ≡ action_block
unfolding matches_scope
evaluate_snapshot-blocks_example =
    evaluate_snapshot-blocks meaning snapshot request refl keyed rule ∣ Memᴰ.head refl ∣₁ refl refl
      (λ h. cc)
