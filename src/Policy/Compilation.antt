-- ===== src/Policy/Compilation.antt =====
-- What `CompileSnapshot` (internal/contexts/policy/domain/snapshot.go) makes of its bundles.
use mathlib.Core.List.{map-append}
use kiwi_guard.Common.{
  ℕ, suc, String, true, ◌≤◌, List, [], ◌∷◌, ◌++◌, map, ◌≡◌, ◌≢◌, refl, sym, ap, ap₂, subst, ◌∙◌,
  arith, eq_iff, Bool-cases, inl, inr, Result, ok, err, >>=-eq-ok, ok-injective, ◌==◌, eq_string,
  All, flat_map, append_assoc, append-nil,
}
use kiwi_guard.Detection.{Engine}
use kiwi_guard.Policy.Types.{
  Action, Severity, Scope, Rule, Bundle, valid_action, action_priority, higher_priority,
}
use kiwi_guard.Policy.Compile.{
  CompiledRule, Snapshot, SnapshotError, DetectorMap, index_rules, active_rules, detectors_for_rule,
  compile_rule, compile_rules, Progress, compile_detector_map, compile_bundle, compile_bundles,
  hash_bundles, compile_snapshot, no_progress, rule_key_required, bad_rule_action,
  bundle_key_required, bad_default_action,
}

-- What a compiled rule keeps of its source: all but the detectors.
pub record RuleView : Type 0 where
  pub bundle_key : String
  pub key : String
  pub severity : Severity
  pub action : Action
  pub scope : Scope

abbrev pub view : CompiledRule → RuleView
view r = record {
  bundle_key = r.bundle_key;
  key = r.key;
  severity = r.severity;
  action = r.action;
  scope = r.scope;
}

abbrev pub source_view : String → Rule → RuleView
source_view bundle_key r = record {
  bundle_key = bundle_key;
  key = r.key;
  severity = r.severity;
  action = r.action;
  scope = r.scope;
}

abbrev pub bundle_views : Bundle → List RuleView
bundle_views b = map (source_view b.key) (active_rules b.rules)

abbrev pub RuleIsValid : Rule → Type 0
RuleIsValid r = (r.key ≢ "") × (valid_action r.action ≡ true)

-- The checks that a bundle passes.
pub record BundleIsValid (default : Action) (b : Bundle) : Type 0 where
  pub keyed : b.key ≢ ""
  pub default_known : valid_action b.default_action ≡ true
  pub rules_valid : All RuleIsValid (active_rules b.rules)
  pub default_below : action_priority b.default_action ≤ action_priority default

compile_rule-ok :
    (bk : String) (m : DetectorMap) (r : Rule) (c : CompiledRule)
    → compile_rule bk m r ≡ ok c
    → (view c ≡ source_view bk r) × RuleIsValid r
unfolding compile_rule
compile_rule-ok bk m r c h = elim (Bool-cases (r.key == "")) [
  | inl e ↦ absurd (
      let k : ◌≡◌ {A = Result SnapshotError CompiledRule} (err (rule_key_required bk)) (ok c) =
        rw (e, compile_rule) at h in
      cc)
  | inr e ↦ elim (Bool-cases (valid_action r.action)) [
    | inl v ↦
        let (ds, p, q) =
          >>=-eq-ok (detectors_for_rule bk r r.detector_keys m) _ (rw (e, v, compile_rule) at h) in
        (ap view (sym (ok-injective q)), (ground (arith, eq_iff r.key ""), v))
    | inr v ↦ absurd (
        let k : ◌≡◌ {A = Result SnapshotError CompiledRule}
            (err (bad_rule_action bk r.key r.action)) (ok c) =
          rw (e, v, compile_rule) at h in
        cc)
  ]
]

compile_rules-ok :
    (bk : String) (m : DetectorMap) (rs : List Rule) (cs : List CompiledRule)
    → compile_rules bk m rs ≡ ok cs
    → (map view cs ≡ map (source_view bk) rs) × All RuleIsValid rs
unfolding compile_rules
compile_rules-ok bk m [] cs h = (sym (ap (map view) (ok-injective h)), tt)
compile_rules-ok bk m (r ∷ rs) cs h =
    let (c, p, h') = >>=-eq-ok (compile_rule bk m r) _ h in
    let (rest, q, h'') = >>=-eq-ok (compile_rules bk m rs) _ h' in
    let (e, v) = compile_rule-ok bk m r c p in
    let (es, vs) = compile_rules-ok bk m rs rest q in
    (sym (ap (map view) (ok-injective h'')) ∙ ap₂ (λ x xs. x ∷ xs) e es, (v, vs))

record Extends (b : Bundle) (p p' : Progress) : Type 0 where
  viewed : map view p'.compiled_rules ≡ map view p.compiled_rules ++ bundle_views b
  listed : p'.bundle_keys ≡ p.bundle_keys ++ b.key ∷ []
  raised : p'.default_action ≡ higher_priority p.default_action b.default_action
  keyed : b.key ≢ ""
  default_known : valid_action b.default_action ≡ true
  rules_valid : All RuleIsValid (active_rules b.rules)

module _ (g : Engine) (digest : List Bundle → Result String String) where
  compile_bundle-Extends :
      (i : ℕ) (b : Bundle) (p p' : Progress)
      → compile_bundle g digest i b p ≡ ok p'
      → Extends b p p'
  unfolding compile_bundle
  compile_bundle-Extends i b p p' h = elim (Bool-cases (b.key == "")) [
    | inl e ↦ absurd (
        let k : ◌≡◌ {A = Result SnapshotError Progress} (err (bundle_key_required i)) (ok p') =
          rw (e, compile_bundle) at h in
        cc)
    | inr e ↦ elim (Bool-cases (valid_action b.default_action)) [
      | inr v ↦ absurd (
          let k : ◌≡◌ {A = Result SnapshotError Progress}
              (err (bad_default_action b.key b.default_action)) (ok p') =
            rw (e, v, compile_bundle) at h in
          cc)
      | inl v ↦
          let (m, q, h') =
            >>=-eq-ok (compile_detector_map g digest b) _ (rw (e, v, compile_bundle) at h) in
          let (rules, q', h'') = >>=-eq-ok (compile_rules b.key m (active_rules b.rules)) _ h' in
          let (views, valid) = compile_rules-ok b.key m (active_rules b.rules) rules q' in
          record {
            viewed =
                ap (λ (r : Progress). map view r.compiled_rules) (sym (ok-injective h''))
                ∙ map-append view p.compiled_rules rules
                ∙ ap (λ vs. map view p.compiled_rules ++ vs) views;
            listed = ap (λ (r : Progress). r.bundle_keys) (sym (ok-injective h''));
            raised = ap (λ (r : Progress). r.default_action) (sym (ok-injective h''));
            keyed = ground (arith, eq_iff b.key "");
            default_known = v;
            rules_valid = valid;
          }
    ]
  ]

  record Covers (bs : List Bundle) (p p' : Progress) : Type 0 where
    viewed : map view p'.compiled_rules ≡ map view p.compiled_rules ++ flat_map bundle_views bs
    listed : p'.bundle_keys ≡ p.bundle_keys ++ map (λ b. b.key) bs
    raised : action_priority p.default_action ≤ action_priority p'.default_action
    valid : All (BundleIsValid p'.default_action) bs

  higher_priority-le :
      (a b : Action)
      → (action_priority a ≤ action_priority (higher_priority a b))
        × (action_priority b ≤ action_priority (higher_priority a b))
  unfolding higher_priority
  higher_priority-le a b = ground arith

  compile_bundles-Covers :
      (i : ℕ) (bs : List Bundle) (p p' : Progress)
      → compile_bundles g digest i bs p ≡ ok p'
      → Covers bs p p'
  unfolding compile_bundles
  compile_bundles-Covers i [] p p' h = subst (Covers [] p) (ok-injective h) (record {
    viewed = sym (append-nil _);
    listed = sym (append-nil _);
    raised = omega arith;
    valid = tt;
  })
  compile_bundles-Covers i (b ∷ bs) p p' h =
      let (q, e, h') = >>=-eq-ok (compile_bundle g digest i b p) _ h in
      let x = compile_bundle-Extends i b p q e in
      let c = compile_bundles-Covers (suc i) bs q p' h' in
      let above = higher_priority-le p.default_action b.default_action in
      let next : action_priority (higher_priority p.default_action b.default_action)
          ≤ action_priority p'.default_action =
        rw x.raised at c.raised in
      record {
        viewed =
            c.viewed
            ∙ ap (λ vs. vs ++ flat_map bundle_views bs) x.viewed
            ∙ append_assoc _ (bundle_views b) _;
        listed =
            c.listed
            ∙ ap (λ ks. ks ++ map (λ b. b.key) bs) x.listed
            ∙ append_assoc _ (b.key ∷ []) _;
        raised = omega (arith, above.0);
        valid = (
          record {
            keyed = x.keyed;
            default_known = x.default_known;
            rules_valid = x.rules_valid;
            default_below = omega (arith, above.1);
          },
          c.valid,
        );
      }

  -- A snapshot and the bundles that it is compiled from.
  pub record IsCompiled (bs : List Bundle) (s : Snapshot) : Type 0 where
    pub indexed : s.rules_by_scope ≡ index_rules s.rules
    pub viewed : map view s.rules ≡ flat_map bundle_views bs
    pub listed : s.bundle_keys ≡ map (λ b. b.key) bs
    pub valid : All (BundleIsValid s.default_action) bs

  -- A snapshot that compiles has exactly the enabled rules of its bundles, in their order and
  -- with their keys, severities, actions and scopes, the index of these rules, and the keys of
  -- the bundles; every bundle key and enabled rule key is given, every default action and
  -- enabled rule's action is known, and the snapshot's default action is no weaker than that of
  -- any bundle.
  pub compile_snapshot-IsCompiled :
      (bs : List Bundle) (s : Snapshot) → compile_snapshot g digest bs ≡ ok s → IsCompiled bs s
  unfolding compile_snapshot
  compile_snapshot-IsCompiled bs s h =
      let (p, e, h') = >>=-eq-ok (compile_bundles g digest 0 bs (no_progress g digest)) _ h in
      let (hash, q, h'') = >>=-eq-ok (hash_bundles g digest p.active_bundles) _ h' in
      let c = compile_bundles-Covers 0 bs (no_progress g digest) p e in
      subst (IsCompiled bs) (ok-injective h'')
        (record { indexed = refl; viewed = c.viewed; listed = c.listed; valid = c.valid })
