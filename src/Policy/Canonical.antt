-- ===== src/Policy/Canonical.antt =====
-- internal/contexts/policy/domain/snapshot.go: the canonical form whose digest is the snapshot hash.
use Prim.Native.String.{compare}
use text.Mathlib.Text.{is_lt}
use kiwi_guard.Common.{
  String, Bool, not, List, [], map, ◌==◌, eq_string, if◌then◌else◌, is_empty, sort_slice,
}
use kiwi_guard.Detection.{Definition}
use kiwi_guard.Policy.Types.{Rule, Bundle}

-- `<` on Go strings.
abbrev pub str_lt : String → String → Bool
str_lt a b = is_lt (compare a b)

unfoldable pub sorted_strings : List String → List String
sorted_strings values = if is_empty values then [] else sort_slice str_lt values

abbrev pub definition_less : Definition → Definition → Bool
definition_less a b =
    if not (a.key == b.key)
    then str_lt a.key b.key
    else if not (a.kind == b.kind)
    then str_lt a.kind b.kind
    else str_lt a.pattern b.pattern

unfoldable pub canonical_detectors : List Definition → List Definition
canonical_detectors defs =
    sort_slice definition_less
      (map {A = Definition} (λ def. record def { categories = sorted_strings def.categories }) defs)

abbrev pub rule_less : Rule → Rule → Bool
rule_less a b =
    if not (a.key == b.key)
    then str_lt a.key b.key
    else if not (a.action == b.action)
    then str_lt a.action b.action
    else str_lt a.severity b.severity

unfoldable pub canonical_rules : List Rule → List Rule
canonical_rules rules = sort_slice rule_less (
    map {A = Rule} (λ rule. record rule { detector_keys = sorted_strings rule.detector_keys })
      rules)

unfoldable pub canonical_bundle : Bundle → Bundle
canonical_bundle bundle = record bundle {
  detectors = canonical_detectors bundle.detectors;
  rules = canonical_rules bundle.rules;
}

abbrev pub bundle_less : Bundle → Bundle → Bool
bundle_less a b = if not (a.key == b.key) then str_lt a.key b.key else str_lt a.version b.version

unfoldable pub canonical_bundles : List Bundle → List Bundle
canonical_bundles bundles = sort_slice bundle_less (map canonical_bundle bundles)
