-- ===== src/Policy/Caching.antt =====
-- The cache of findings in `Snapshot.Evaluate` (internal/contexts/policy/domain/snapshot.go).
use kiwi_guard.Common.{
  String, List, [], ◌∷◌, ◌++◌, some, some-injective, ◌==◌, eq_string, if◌then◌else◌, lookup, insert,
  lookup-insert, ◌≡◌, refl, sym, ap, ◌∙◌, subst, eq_iff, Bool-cases, Option-cases, inl, inr,
  flat_map, for_each, append_assoc, append-nil, All,
}
use kiwi_guard.Detection.{Input, Finding}
use kiwi_guard.Policy.Types.{EvaluationRequest, Decision, higher_priority}
use kiwi_guard.Policy.Compile.{CompiledRule, CompiledDetector, index_rules, Snapshot}
use kiwi_guard.Policy.Evaluate.{
  matches_scope, Cache, match_by, cached_match, match_detectors, match_rule, Visit, record_hit,
  hit_of, visit_rule, conclude, first_visit, evaluate_snapshot,
}
use kiwi_guard.Policy.Candidates.{candidates, for_each_candidate_rule-eq, candidates-All}

-- What a rule finds, every one of its detectors run on the text.
abbrev pub rule_findings : Input → CompiledRule → List Finding
rule_findings input rule = flat_map (λ d. d.detector.match input) rule.detectors

abbrev pub input_of : EvaluationRequest → Input
input_of req = record { direction = req.direction; text = req.text }

-- `Evaluate` with no cache.
unfoldable pub plain_visit : EvaluationRequest → CompiledRule → Visit → Visit
plain_visit req rule v =
    if matches_scope rule.scope req
    then record_hit rule (rule_findings (input_of req) rule) [] v
    else v

unfoldable pub plain_evaluate : Snapshot → EvaluationRequest → Decision
plain_evaluate s req =
    conclude s req (for_each (candidates s req) (plain_visit req) (first_visit s))

-- A cache key stands for one detector: `meaning` says what the detector of each key finds.
abbrev pub KeysMean : (String → Input → List Finding) → List CompiledRule → Type 0
KeysMean meaning rules =
    All (λ rule. All (λ d. d.detector.match ≡ meaning d.cache_key) rule.detectors) rules

module _ (meaning : String → Input → List Finding) (input : Input) where
  abbrev Keyed : List CompiledDetector → Type 0
  Keyed ds = All (λ d. d.detector.match ≡ meaning d.cache_key) ds

  -- The cache holds what the detectors find.
  abbrev IsFaithful : Cache → Type 0
  IsFaithful cache =
      (key : String) (fs : List Finding) → lookup key cache ≡ some fs → fs ≡ meaning key input

  insert-IsFaithful :
      (k : String) (cache : Cache)
      → IsFaithful cache
      → IsFaithful (insert k (meaning k input) cache)
  insert-IsFaithful k cache h key fs q = elim (Bool-cases (k == key)) [
    | inl e ↦
        let found : some (meaning k input) ≡ some fs =
          rw (lookup-insert k key (meaning k input) cache, e) at q in
        sym (some-injective _ _ found) ∙ ap (λ j. meaning j input) ((eq_iff k key).0 e)
    | inr e ↦ h key fs (rw (lookup-insert k key (meaning k input) cache, e) at q)
  ]

  cached_match-eq :
      (d : CompiledDetector) (cache : Cache)
      → d.detector.match ≡ meaning d.cache_key
      → IsFaithful cache
      → ((cached_match d input cache).0 ≡ d.detector.match input)
        × IsFaithful (cached_match d input cache).1
  unfolding cached_match
  cached_match-eq d cache k h = elim (Option-cases (lookup d.cache_key cache)) [
    | inl e ↦
        rw (e, cached_match)
          (
            refl,
            subst (λ fs. IsFaithful (insert d.cache_key fs cache)) (sym (ap (λ m. m input) k))
                (insert-IsFaithful d.cache_key cache h),
          )
    | inr (fs, e) ↦ rw (e, cached_match) (h d.cache_key fs e ∙ ap (λ m. m input) (sym k), h)
  ]

  match_detectors-eq :
      (ds : List CompiledDetector) (found : List Finding) (cache : Cache)
      → Keyed ds
      → IsFaithful cache
      → ((match_detectors ds input found cache).0
          ≡ found ++ flat_map (λ d. d.detector.match input) ds)
        × IsFaithful (match_detectors ds input found cache).1
  unfolding match_detectors
  match_detectors-eq [] found cache k h = (sym (append-nil found), h)
  match_detectors-eq (d ∷ ds) found cache k h =
      let (e, h') = cached_match-eq d cache k.0 h in
      let (e', h'') =
        match_detectors-eq ds (found ++ (cached_match d input cache).0)
          (cached_match d input cache).1 k.1 h' in
      (
        e'
            ∙ ap (λ f. (found ++ f) ++ flat_map (λ d. d.detector.match input) ds) e
            ∙ append_assoc found (d.detector.match input) _,
        h'',
      )

  match_by-eq :
      (ds : List CompiledDetector) (cache : Cache)
      → Keyed ds
      → IsFaithful cache
      → ((match_by ds input cache).0 ≡ flat_map (λ d. d.detector.match input) ds)
        × IsFaithful (match_by ds input cache).1
  match_by-eq [] cache k h = (refl, h)
  match_by-eq (d ∷ []) cache k h =
      let (e, h') = cached_match-eq d cache k.0 h in (e ∙ sym (append-nil _), h')
  match_by-eq (d ∷ e ∷ ds) cache k h = match_detectors-eq (d ∷ e ∷ ds) [] cache k h

  match_rule-eq :
      (rule : CompiledRule) (cache : Cache)
      → Keyed rule.detectors
      → IsFaithful cache
      → ((match_rule rule input cache).0 ≡ rule_findings input rule)
        × IsFaithful (match_rule rule input cache).1
  unfolding match_rule
  match_rule-eq rule cache k h = match_by-eq rule.detectors cache k h

-- The variables of the closure but for the cache.
abbrev SameVisit : Visit → Visit → Type 0
SameVisit v w = (v.action ≡ w.action) × (v.rule_hits ≡ w.rule_hits) × (v.findings ≡ w.findings)

record_hit-same :
    (rule : CompiledRule) (fs : List Finding) (c c' : Cache) (v w : Visit)
    → SameVisit v w
    → SameVisit (record_hit rule fs c v) (record_hit rule fs c' w)
unfolding record_hit
record_hit-same rule [] c c' v w same = same
record_hit-same rule (f ∷ fs) c c' v w same = (
  ap (λ a. higher_priority a rule.action) same.0,
  ap (λ hits. hits ++ hit_of rule (f ∷ fs) ∷ []) same.1,
  ap (λ found. found ++ f ∷ fs) same.2,
)

record_hit-cache :
    (rule : CompiledRule) (fs : List Finding) (c : Cache) (v : Visit)
    → (record_hit rule fs c v).cache ≡ c
unfolding record_hit
record_hit-cache rule [] c v = refl
record_hit-cache rule (f ∷ fs) c v = refl

module _ (meaning : String → Input → List Finding) (req : EvaluationRequest) where
  visit_rule-eq :
      (rule : CompiledRule) (v w : Visit)
      → Keyed meaning (input_of req) rule.detectors
      → IsFaithful meaning (input_of req) v.cache
      → SameVisit v w
      → SameVisit (visit_rule req rule v) (plain_visit req rule w)
        × IsFaithful meaning (input_of req) (visit_rule req rule v).cache
  unfolding visit_rule plain_visit
  visit_rule-eq rule v w k h same =
      let (found, h') = match_rule-eq meaning (input_of req) rule v.cache k h in
      elim (Bool-cases (matches_scope rule.scope req)) [
        | inl e ↦ rw (e, found, record_hit-cache) (record_hit-same rule _ _ _ v w same, h')
        | inr e ↦ rw e (same, h)
      ]

  visits-eq :
      (rules : List CompiledRule) (v w : Visit)
      → KeysMean meaning rules
      → IsFaithful meaning (input_of req) v.cache
      → SameVisit v w
      → SameVisit (for_each rules (visit_rule req) v) (for_each rules (plain_visit req) w)
  unfolding for_each
  visits-eq [] v w k h same = same
  visits-eq (rule ∷ rules) v w k h same =
      let (same', h') = visit_rule-eq rule v w k.0 h same in
      visits-eq rules (visit_rule req rule v) (plain_visit req rule w) k.1 h' same'

  conclude-same : (s : Snapshot) (v w : Visit) → SameVisit v w → conclude s req v ≡ conclude s req w
  unfolding conclude
  conclude-same s v w same = rw (same.0, same.1, same.2)

  -- The cache of findings makes no difference: the decision is the one made by running every
  -- detector of every rule in scope anew. It supposes that the snapshot's index is that of its
  -- rules and that a cache key stands for one detector, whose findings `meaning` gives.
  pub evaluate_snapshot-eq-plain :
      (s : Snapshot)
      → s.rules_by_scope ≡ index_rules s.rules
      → KeysMean meaning s.rules
      → evaluate_snapshot s req ≡ plain_evaluate s req
  unfolding evaluate_snapshot plain_evaluate lookup
  evaluate_snapshot-eq-plain s indexed k =
      rw (for_each_candidate_rule-eq s req (visit_rule req) (first_visit s)) (
        conclude-same s _ _ (
          visits-eq (candidates s req) (first_visit s) (first_visit s)
            (candidates-All s req _ indexed k) (λ key fs q. cc) (refl, refl, refl)))
