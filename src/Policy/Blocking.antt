-- ===== src/Policy/Blocking.antt =====
-- Blocking rules in decisions of internal/contexts/policy/domain/snapshot.go.
use mathlib.Core.Logic.{∥∥₁_elim}
use mathlib.Core.List.{Mem, Memᴰ, mem-filter_map}
use mathlib.Core.List.Perm
use native.Mathlib.Bridge.{le_prop}
use kiwi_guard.Common.{
  ℕ, String, true, ◌≤◌, List, [], ◌∷◌, ◌≡◌, ◌≢◌, refl, sym, subst, arith, eq_iff, All,
  is_empty-eq-false, Bool-cases, inl, inr,
}
use kiwi_guard.Detection.{Input, Finding}
use kiwi_guard.Policy.Types.{
  EvaluationRequest, RuleHit, Action, action_block, action_allow, action_redact, action_shadow_log,
  action_priority,
}
use kiwi_guard.Policy.Compile.{CompiledRule, index_rules, Snapshot}
use kiwi_guard.Policy.Evaluate.{matches_scope, hit_of, evaluate_snapshot}
use kiwi_guard.Policy.Caching.{rule_findings, input_of, KeysMean}
use kiwi_guard.Policy.Decisions.{hit?, evaluate_snapshot-hits, evaluate_snapshot-IsDecided}

pub block_unique : (a : Action) → 3 ≤ action_priority a → a ≡ action_block
unfolding action_priority
block_unique a h = ground (
  arith,
  eq_iff action_allow a,
  eq_iff action_shadow_log a,
  eq_iff action_redact a,
  eq_iff action_block a,
)

pub block-priority : action_priority action_block ≡ 3
unfolding action_priority
block-priority = refl

bounded_of_Memᴰ :
    (n : ℕ) (hits : List RuleHit) (h : RuleHit)
    → All (λ g. action_priority g.action ≤ n) hits
    → Memᴰ h hits
    → action_priority h.action ≤ n
bounded_of_Memᴰ n (g ∷ hits) h all (Memᴰ.head e) =
    subst (λ k. action_priority k.action ≤ n) (sym e) all.0
bounded_of_Memᴰ n (g ∷ hits) h all (Memᴰ.tail m) = bounded_of_Memᴰ n hits h all.1 m
bounded_of_Memᴰ n [] h all m = elim m [ ]

module _ (meaning : String → Input → List Finding) (s : Snapshot) (req : EvaluationRequest)
    (indexed : s.rules_by_scope ≡ index_rules s.rules) (keyed : KeysMean meaning s.rules) where
  hit_of-Mem :
      (rule : CompiledRule)
      → Mem rule s.rules
      → matches_scope rule.scope req ≡ true
      → rule_findings (input_of req) rule ≢ []
      → Mem (hit_of rule (rule_findings (input_of req) rule)) (evaluate_snapshot s req).rule_hits
  hit_of-Mem rule m scoped found =
      (Perm.mem_iff (evaluate_snapshot-hits meaning s req indexed keyed)).1 (
        (mem-filter_map (hit? req) s.rules).1
          ∣ (rule, m, rw (scoped, is_empty-eq-false _ found)) ∣₁)

  -- If a rule of the snapshot is in scope of a request, has the action block, and its detectors
  -- find something in the text, then the decision is to block, whatever the model signal, the
  -- other rules and the default say. It supposes that the snapshot's index is that of its rules
  -- and that a cache key stands for one detector, whose findings `meaning` gives.
  pub evaluate_snapshot-blocks :
      (rule : CompiledRule)
      → Mem rule s.rules
      → matches_scope rule.scope req ≡ true
      → rule.action ≡ action_block
      → rule_findings (input_of req) rule ≢ []
      → (evaluate_snapshot s req).action ≡ action_block
  evaluate_snapshot-blocks rule m scoped blocks found =
      let d = evaluate_snapshot-IsDecided meaning s req indexed keyed in
      let hit = hit_of rule (rule_findings (input_of req) rule) in
      let strong : action_priority rule.action ≤ action_priority d.local =
        ∥∥₁_elim (hit_of-Mem rule m scoped found) le_prop
          (bounded_of_Memᴰ _ _ hit d.strongest.above_hits) in
      let three : action_priority rule.action ≡ 3 = rw blocks (block-priority) in
      block_unique _ (elim (Bool-cases (evaluate_snapshot s req).model_signal_applied) [
        | inl e ↦ rw (d.raised e).0 (omega (arith, (d.raised e).2))
        | inr e ↦ rw (d.kept e).0 (omega arith)
      ])
