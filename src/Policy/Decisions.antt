-- ===== src/Policy/Decisions.antt =====
-- What a decision of `Snapshot.Evaluate` (internal/contexts/policy/domain/snapshot.go) holds.
use mathlib.Core.List.{Perm, filter_map}
use mathlib.Core.List.Perm
use kiwi_guard.Common.{
  String, true, false, ◌≤◌, ◌<◌, not, ◌&&◌, List, [], ◌∷◌, ◌++◌, map, Option, none, some,
  if◌then◌else◌, ◌≡◌, ◌⊎◌, refl, sym, ap, ◌∙◌, subst, arith, Bool-cases, inl, inr, filter, flat_map,
  for_each, append_assoc, append-nil, All, All-append, All-mono, In, is_empty,
}
use kiwi_guard.Detection.{Input, Finding}
use kiwi_guard.Policy.Types.{
  EvaluationRequest, Decision, RuleHit, Action, valid_action, action_priority, higher_priority,
}
use kiwi_guard.Policy.Compile.{CompiledRule, index_rules, Snapshot}
use kiwi_guard.Policy.Evaluate.{
  matches_scope, Visit, hit_of, record_hit, conclude, first_visit, model_action, evaluate_snapshot,
}
use kiwi_guard.Policy.Candidates.{candidates, candidates-perm, in_scope}
use kiwi_guard.Policy.Caching.{
  rule_findings, input_of, plain_visit, plain_evaluate, KeysMean, evaluate_snapshot-eq-plain,
}

-- The hit of a rule: none out of scope or with no finding.
abbrev pub hit? : EvaluationRequest → CompiledRule → Option RuleHit
hit? req rule =
    if matches_scope rule.scope req && not (is_empty (rule_findings (input_of req) rule))
    then some (hit_of rule (rule_findings (input_of req) rule))
    else none

-- The local part of a decision: its action is the strongest of the default and the hits.
pub record IsStrongest (default action : Action) (hits : List RuleHit) : Type 0 where
  pub above_default : action_priority default ≤ action_priority action
  pub above_hits : All (λ h. action_priority h.action ≤ action_priority action) hits
  pub attained : (action ≡ default) ⊎ In action (map (λ h. h.action) hits)

higher_priority-cases :
    (a b : Action)
    → ((higher_priority a b ≡ a) × (action_priority b ≤ action_priority a))
      ⊎ ((higher_priority a b ≡ b) × (action_priority a ≤ action_priority b))
unfolding higher_priority
higher_priority-cases a b = ground arith

map-append_one :
    (hits : List RuleHit) (h : RuleHit) (a : Action)
    → In a (map (λ h. h.action) hits)
    → In a (map (λ h. h.action) (hits ++ h ∷ []))
map-append_one [] h a m = elim m [ ]
map-append_one (g ∷ hits) h a (inl e) = inl e
map-append_one (g ∷ hits) h a (inr m) = inr (map-append_one hits h a m)

In-last : (hits : List RuleHit) (h : RuleHit) → In h.action (map (λ h. h.action) (hits ++ h ∷ []))
In-last [] h = inl refl
In-last (g ∷ hits) h = inr (In-last hits h)

IsStrongest-hit :
    (default action : Action) (hits : List RuleHit) (h : RuleHit)
    → IsStrongest default action hits
    → IsStrongest default (higher_priority action h.action) (hits ++ h ∷ [])
IsStrongest-hit default action hits h s = elim (higher_priority-cases action h.action) [
  | inl (e, le) ↦ rw e (record {
    above_default = s.above_default;
    above_hits = All-append _ hits (h ∷ []) s.above_hits (le, tt);
    attained = elim s.attained [ inl d ↦ inl d | inr m ↦ inr (map-append_one hits h action m) ];
  })
  | inr (e, le) ↦ rw e (record {
    above_default = omega (arith, s.above_default);
    above_hits =
        All-append _ hits (h ∷ [])
          (All-mono hits
            (λ g b.
              let below : action_priority g.action ≤ action_priority h.action = omega arith in
              below)
            s.above_hits)
          (omega arith, tt);
    attained = inr (In-last hits h);
  })
]

-- What the loop keeps: the hits so far are those of the rules visited.
record Tracks (default : Action) (v : Visit) : Type 0 where
  strongest : IsStrongest default v.action v.rule_hits
  joined : v.findings ≡ flat_map (λ h. h.findings) v.rule_hits

flat_map-append_one :
    (hits : List RuleHit) (h : RuleHit)
    → flat_map (λ h. h.findings) (hits ++ h ∷ []) ≡ flat_map (λ h. h.findings) hits ++ h.findings
flat_map-append_one [] h = append-nil _
flat_map-append_one (g ∷ hits) h =
    ap (λ f. g.findings ++ f) (flat_map-append_one hits h) ∙ sym (append_assoc g.findings _ _)

-- How a decision comes about: a local action, the strongest of the default and the hits, which
-- the model's action replaces exactly where it is known and stronger.
pub record IsDecided (s : Snapshot) (req : EvaluationRequest) (d : Decision) : Type 0 where
  pub local : Action
  pub strongest : IsStrongest s.default_action local d.rule_hits
  pub joined : d.findings ≡ flat_map (λ h. h.findings) d.rule_hits
  pub raised :
      d.model_signal_applied ≡ true
      → (d.action ≡ model_action req.model_signal)
        × (valid_action (model_action req.model_signal) ≡ true)
        × (action_priority local < action_priority (model_action req.model_signal))
  pub kept :
      d.model_signal_applied ≡ false
      → (d.action ≡ local)
        × (valid_action (model_action req.model_signal) ≡ true
            → action_priority (model_action req.model_signal) ≤ action_priority local)

module _ (req : EvaluationRequest) where
  plain_visit-Tracks :
      (default : Action) (rule : CompiledRule) (v : Visit)
      → Tracks default v
      → Tracks default (plain_visit req rule v)
  unfolding plain_visit record_hit
  plain_visit-Tracks default rule v t = elim (Bool-cases (matches_scope rule.scope req)) [
    | inr e ↦ rw e t
    | inl e ↦ elim (Bool-cases (is_empty (rule_findings (input_of req) rule))) [
      | inl f ↦ rw (e, f) (record { strongest = t.strongest; joined = t.joined })
      | inr f ↦
          rw (e, f)
            (record {
              strongest =
                  IsStrongest-hit default v.action v.rule_hits
                    (hit_of rule (rule_findings (input_of req) rule)) t.strongest;
              joined =
                  ap (λ fs. fs ++ rule_findings (input_of req) rule) t.joined
                  ∙ sym (
                      flat_map-append_one v.rule_hits
                        (hit_of rule (rule_findings (input_of req) rule)));
            })
    ]
  ]

  plain_visit-hits :
      (rule : CompiledRule) (rules : List CompiledRule) (v : Visit)
      → (plain_visit req rule v).rule_hits ++ filter_map (hit? req) rules
        ≡ v.rule_hits ++ filter_map (hit? req) (rule ∷ rules)
  unfolding plain_visit record_hit filter_map
  plain_visit-hits rule rules v = elim (Bool-cases (matches_scope rule.scope req)) [
    | inr e ↦ rw e
    | inl e ↦ elim (Bool-cases (is_empty (rule_findings (input_of req) rule))) [
      | inl f ↦ rw (e, f)
      | inr f ↦ rw (e, f) (append_assoc v.rule_hits (_ ∷ []) _)
    ]
  ]

  visits-Tracks :
      (default : Action) (rules : List CompiledRule) (v : Visit)
      → Tracks default v
      → Tracks default (for_each rules (plain_visit req) v)
  unfolding for_each
  visits-Tracks default [] v t = t
  visits-Tracks default (rule ∷ rules) v t =
      visits-Tracks default rules (plain_visit req rule v) (plain_visit-Tracks default rule v t)

  visits-hits :
      (rules : List CompiledRule) (v : Visit)
      → (for_each rules (plain_visit req) v).rule_hits ≡ v.rule_hits ++ filter_map (hit? req) rules
  unfolding for_each filter_map
  visits-hits [] v = sym (append-nil _)
  visits-hits (rule ∷ rules) v =
      visits-hits rules (plain_visit req rule v) ∙ plain_visit-hits rule rules v

  -- Rules out of scope give no hit.
  filter_map-in_scope :
      (s : Snapshot) (rules : List CompiledRule)
      → filter_map (hit? req) (filter (in_scope s req) rules) ≡ filter_map (hit? req) rules
  unfolding filter_map
  filter_map-in_scope s [] = refl
  filter_map-in_scope s (rule ∷ rules) = elim (Bool-cases (matches_scope rule.scope req)) [
    | inl e ↦ rw e (rw (filter_map-in_scope s rules) (rw e))
    | inr e ↦ rw e (filter_map-in_scope s rules)
  ]

  first_visit-Tracks : (s : Snapshot) → Tracks s.default_action (first_visit s)
  first_visit-Tracks s = record {
    strongest = record { above_default = omega arith; above_hits = tt; attained = inl refl };
    joined = refl;
  }

  conclude-IsDecided :
      (s : Snapshot) (v : Visit) → Tracks s.default_action v → IsDecided s req (conclude s req v)
  unfolding conclude
  conclude-IsDecided s v t = record {
    local = v.action;
    strongest = t.strongest;
    joined = t.joined;
    raised = λ h. ground arith;
    kept = λ h. ground arith;
  }

module _ (meaning : String → Input → List Finding) (s : Snapshot) (req : EvaluationRequest)
    (indexed : s.rules_by_scope ≡ index_rules s.rules) (keyed : KeysMean meaning s.rules) where
  -- The rule hits of a decision are, up to their order, those of the snapshot's rules that are
  -- in scope of the request and find something, one for each such rule, with all that the
  -- rule's detectors find. It supposes that the snapshot's index is that of its rules and that
  -- a cache key stands for one detector, whose findings `meaning` gives.
  pub evaluate_snapshot-hits :
      Perm (evaluate_snapshot s req).rule_hits (filter_map (hit? req) s.rules)
  unfolding plain_evaluate conclude
  evaluate_snapshot-hits =
      rw
        (
          evaluate_snapshot-eq-plain meaning req s indexed keyed,
          plain_evaluate,
          visits-hits req (candidates s req) (first_visit s),
        )
        (subst (λ l. Perm (filter_map (hit? req) (candidates s req)) l)
          (filter_map-in_scope req s s.rules)
          (Perm.filter_map (hit? req) (candidates-perm s req indexed)))

  -- A decision starts from a local action, which is the default action or that of a hit and is
  -- no weaker than any of these. The model's action (its fallback where that is used) takes its
  -- place where it is known and stronger, and only there, and `model_signal_applied` says
  -- which. The findings are those of the hits, in their order. It supposes that the snapshot's
  -- index is that of its rules and that a cache key stands for one detector, whose findings
  -- `meaning` gives.
  pub evaluate_snapshot-IsDecided : IsDecided s req (evaluate_snapshot s req)
  unfolding plain_evaluate
  evaluate_snapshot-IsDecided =
      rw (evaluate_snapshot-eq-plain meaning req s indexed keyed, plain_evaluate)
        (conclude-IsDecided req s _ (
          visits-Tracks req s.default_action (candidates s req) (first_visit s)
            (first_visit-Tracks req s)))
