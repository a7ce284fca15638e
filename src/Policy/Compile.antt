-- ===== src/Policy/Compile.antt =====
-- internal/contexts/policy/domain/snapshot.go: `CompileSnapshot` and what it calls.
use Prim.Native.String
use kiwi_guard.Common.{
  ℕ, suc, String, Bool, true, not, ◌&&◌, List, [], ◌∷◌, ◌++◌, Option, none, some, ◌≡◌, ◌↔◌, arith,
  eq_iff, Result, ok, err, ◌>>=◌, map_err, Eq, ◌==◌, eq_string, if◌then◌else◌, filter, lookup,
  insert,
}
use kiwi_guard.Detection.{Definition, Detector, Engine, CompileError, compile}
use kiwi_guard.Policy.Types.{
  Action, Severity, Scope, Rule, Bundle, action_allow, valid_action, higher_priority,
}
use kiwi_guard.Policy.Canonical.{canonical_bundles}

pub record CompiledDetector : Type 0 where
  pub cache_key : String
  pub detector : Detector

pub record CompiledRule : Type 0 where
  pub bundle_key : String
  pub key : String
  pub severity : Severity
  pub action : Action
  pub scope : Scope
  pub detectors : List CompiledDetector

-- The index key has the fields of `Scope`: `scopeIndex` and `Scope` are one type here.
abbrev pub scope_eqb : Scope → Scope → Bool
scope_eqb a b =
    a.route_key == b.route_key
    && a.provider == b.provider
    && a.model == b.model
    && a.direction == b.direction

pub scope_eqb_iff : (a b : Scope) → (scope_eqb a b ≡ true) ↔ (a ≡ b)
scope_eqb_iff a b = ground (
  arith,
  eq_iff a.route_key b.route_key,
  eq_iff a.provider b.provider,
  eq_iff a.model b.model,
  eq_iff a.direction b.direction,
)

instance abbrev pub eq_scope : Eq Scope
eq_scope = record { eqb = scope_eqb; eqb_iff = scope_eqb_iff }

pub record Snapshot : Type 0 where
  pub hash : String
  pub bundle_keys : List String
  pub default_action : Action
  pub rules : List CompiledRule
  pub rules_by_scope : List (Scope × List CompiledRule)

-- The errors of `CompileSnapshot`, with what their messages name.
pub data SnapshotError : Type 0 where
  bundle_key_required : ℕ → SnapshotError
  bad_default_action : String → Action → SnapshotError
  bad_detector : String → String → CompileError → SnapshotError
  rule_key_required : String → SnapshotError
  bad_rule_action : String → String → Action → SnapshotError
  missing_detector : String → String → String → SnapshotError
  marshal_failed : String → SnapshotError

abbrev pub DetectorMap : Type 0
DetectorMap = List (String × CompiledDetector)

abbrev pub cache_key_of : String → String → String
cache_key_of bundle_key key = String.◌++◌ bundle_key (String.◌++◌ "/" key)

-- A missing entry of the index is the nil slice.
abbrev pub entry : Option (List CompiledRule) → List CompiledRule
entry none = []
entry (some rules) = rules

-- The loop of `indexRules`.
unfoldable pub index_from :
    List CompiledRule → List (Scope × List CompiledRule) → List (Scope × List CompiledRule)
index_from [] index = index
index_from (rule ∷ rules) index =
    index_from rules (insert rule.scope (entry (lookup rule.scope index) ++ rule ∷ []) index)

unfoldable pub index_rules : List CompiledRule → List (Scope × List CompiledRule)
unfolding index_from
index_rules rules = index_from rules []

unfoldable pub active_rules : List Rule → List Rule
active_rules rules = filter (λ rule. rule.enabled) rules

unfoldable pub detectors_for_rule :
    String → Rule → List String → DetectorMap → Result SnapshotError (List CompiledDetector)
detectors_for_rule bundle_key rule [] compiled = ok []
detectors_for_rule bundle_key rule (key ∷ keys) compiled = elim (lookup key compiled) [
  | none ↦ err (missing_detector bundle_key rule.key key)
  | some detector ↦ do
    detectors ← detectors_for_rule bundle_key rule keys compiled
    ok (detector ∷ detectors)
]

unfoldable pub compile_rule : String → DetectorMap → Rule → Result SnapshotError CompiledRule
compile_rule bundle_key compiled rule =
    if rule.key == ""
    then err (rule_key_required bundle_key)
    else if not (valid_action rule.action)
    then err (bad_rule_action bundle_key rule.key rule.action)
    else do
      detectors ← detectors_for_rule bundle_key rule rule.detector_keys compiled
      ok (record {
        bundle_key = bundle_key;
        key = rule.key;
        severity = rule.severity;
        action = rule.action;
        scope = rule.scope;
        detectors = detectors;
      })

unfoldable pub compile_rules :
    String → DetectorMap → List Rule → Result SnapshotError (List CompiledRule)
compile_rules bundle_key compiled [] = ok []
compile_rules bundle_key compiled (rule ∷ rules) = do
  first ← compile_rule bundle_key compiled rule
  rest ← compile_rules bundle_key compiled rules
  ok (first ∷ rest)

-- The variables of the loop over the bundles.
pub record Progress : Type 0 where
  pub active_bundles : List Bundle
  pub compiled_rules : List CompiledRule
  pub bundle_keys : List String
  pub default_action : Action

module _ (g : Engine) (digest : List Bundle → Result String String) where
  -- The loop of `compileDetectorMap`.
  unfoldable pub compile_detectors :
      String → List Definition → DetectorMap → Result SnapshotError DetectorMap
  compile_detectors bundle_key [] compiled = ok compiled
  compile_detectors bundle_key (def ∷ defs) compiled = do
    detector ← map_err (bad_detector bundle_key def.key) (compile g def)
    compile_detectors bundle_key defs (
        insert def.key (record { cache_key = cache_key_of bundle_key def.key; detector = detector })
          compiled)

  unfoldable pub compile_detector_map : Bundle → Result SnapshotError DetectorMap
  compile_detector_map bundle = compile_detectors bundle.key bundle.detectors []

  unfoldable pub compile_bundle : ℕ → Bundle → Progress → Result SnapshotError Progress
  compile_bundle i bundle p =
      if bundle.key == ""
      then err (bundle_key_required i)
      else if not (valid_action bundle.default_action)
      then err (bad_default_action bundle.key bundle.default_action)
      else do
        compiled ← compile_detector_map bundle
        let active = active_rules bundle.rules
        rules ← compile_rules bundle.key compiled active
        ok (record {
          active_bundles = p.active_bundles ++ record bundle { rules = active } ∷ [];
          compiled_rules = p.compiled_rules ++ rules;
          bundle_keys = p.bundle_keys ++ bundle.key ∷ [];
          default_action = higher_priority p.default_action bundle.default_action;
        })

  unfoldable pub compile_bundles : ℕ → List Bundle → Progress → Result SnapshotError Progress
  compile_bundles i [] p = ok p
  compile_bundles i (bundle ∷ bundles) p = do
    p' ← compile_bundle i bundle p
    compile_bundles (suc i) bundles p'

  unfoldable pub hash_bundles : List Bundle → Result SnapshotError String
  hash_bundles bundles = map_err marshal_failed (digest (canonical_bundles bundles))

  abbrev pub no_progress : Progress
  no_progress = record {
    active_bundles = [];
    compiled_rules = [];
    bundle_keys = [];
    default_action = action_allow;
  }

  unfoldable pub compile_snapshot : List Bundle → Result SnapshotError Snapshot
  compile_snapshot bundles = do
    p ← compile_bundles 0 bundles no_progress
    hash ← hash_bundles p.active_bundles
    ok (record {
      hash = hash;
      bundle_keys = p.bundle_keys;
      default_action = p.default_action;
      rules = p.compiled_rules;
      rules_by_scope = index_rules p.compiled_rules;
    })
