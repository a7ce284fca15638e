-- ===== src/Policy/Candidates.antt =====
-- The scope index and its loops (internal/contexts/policy/domain/snapshot.go).
use mathlib.Core.List.{Perm, perm_middle, append-nil}
use mathlib.Core.List.Perm
use kiwi_guard.Common.{
  String, Bool, true, false, ◌&&◌, ◌||◌, List, [], ◌∷◌, ◌++◌, ◌==◌, eq_string, lookup, insert,
  lookup-insert, ◌≡◌, refl, sym, ap, fun_ext, ◌∙◌, subst, arith, eq_iff, Bool-cases, inl, inr,
  filter, flat_map, for_each, for_each-flat_map, append_assoc, All, All-append,
}
use kiwi_guard.Detection.{Direction}
use kiwi_guard.Policy.Types.{Scope, EvaluationRequest}
use kiwi_guard.Policy.Compile.{
  CompiledRule, eq_scope, scope_eqb_iff, entry, index_from, index_rules, Snapshot,
}
use kiwi_guard.Policy.Evaluate.{
  string_scope_values, direction_scope_values, rules_at, for_each_candidate_rule, matches_scope,
}

module _ {A : Type 0} where
  filter_congr : (p q : A → Bool) → ((a : A) → p a ≡ q a) → (l : List A) → filter p l ≡ filter q l
  filter_congr p q h l = ap (λ r. filter r l) (fun_ext h)

  -- Two disjoint selections make up their union.
  perm_filter_or :
      (p q r : A → Bool)
      → ((a : A) → r a ≡ (p a || q a))
      → ((a : A) → (p a && q a) ≡ false)
      → (l : List A) → Perm (filter p l ++ filter q l) (filter r l)
  perm_filter_or p q r union apart [] = Perm.refl []
  perm_filter_or p q r union apart (a ∷ l) =
      let ih = perm_filter_or p q r union apart l in
      elim (Bool-cases (p a)) [
        | inl e ↦
            let er : r a ≡ true = ground (arith, union a) in
            let eq : q a ≡ false = ground (arith, apart a) in rw (e, er, eq) (Perm.cons a ih)
        | inr e ↦ elim (Bool-cases (q a)) [
          | inl eq ↦
              let er : r a ≡ true = ground (arith, union a) in
              rw (e, er, eq) (Perm.trans (perm_middle (filter p l) (filter q l)) (Perm.cons a ih))
          | inr eq ↦ let er : r a ≡ false = ground (arith, union a) in rw (e, er, eq) ih
        ]
      ]

-- The fields that a wildcard or the value asked for admits.
abbrev admits : String → String → Bool
admits value field = field == value || field == ""

module _ {A : Type 0} (field : A → String) (others : A → Bool) (l : List A) where
  -- One loop over the values of a scope field.
  loop-perm :
      (value : String) (p : String → A → Bool) (r : A → Bool) (found : String → List A)
      → ((x : String) (a : A) → p x a ≡ (field a == x && others a))
      → ((a : A) → r a ≡ (admits value (field a) && others a))
      → ((x : String) → Perm (found x) (filter (p x) l))
      → Perm (flat_map found (string_scope_values value)) (filter r l)
  unfolding string_scope_values
  loop-perm value p r found hp hr hf = elim (Bool-cases (value == "")) [
    | inl e ↦
        rw (e, append-nil (found ""))
          (subst (λ k. Perm (found "") k)
            (filter_congr (p "") r
              (λ a. ground (arith, hp "" a, hr a, eq_iff value "", eq_iff (field a) value)) l)
            (hf ""))
    | inr e ↦
        rw (e, append-nil (found ""))
          (Perm.trans (Perm.append (hf value) (hf "")) (
            perm_filter_or (p value) (p "") r (λ a. ground (arith, hp value a, hp "" a, hr a))
              (λ a. ground (
                arith,
                hp value a,
                hp "" a,
                eq_iff value "",
                eq_iff (field a) value,
                eq_iff (field a) "",
              ))
              l))
  ]

index_from-lookup :
    (rules : List CompiledRule) (index : List (Scope × List CompiledRule)) (key : Scope)
    → entry (lookup key (index_from rules index))
      ≡ entry (lookup key index) ++ filter (λ rule. rule.scope == key) rules
unfolding index_from
index_from-lookup [] index key = sym (append-nil _)
index_from-lookup (rule ∷ rules) index key =
    let merged = entry (lookup rule.scope index) ++ rule ∷ [] in
    index_from-lookup rules (insert rule.scope merged index) key
    ∙ elim (Bool-cases (rule.scope == key)) [
      | inl e ↦
          rw (lookup-insert rule.scope key merged index, e, (scope_eqb_iff rule.scope key).0 e)
            (append_assoc _ (_ ∷ []) _)
      | inr e ↦ rw (lookup-insert rule.scope key merged index, e)
    ]

-- The bucket of a scope key holds the rules of that scope, in their order.
index_rules-lookup :
    (rules : List CompiledRule) (key : Scope)
    → entry (lookup key (index_rules rules)) ≡ filter (λ rule. rule.scope == key) rules
unfolding index_rules lookup
index_rules-lookup rules key = index_from-lookup rules [] key

-- The rules in the order in which the nested loops visit them.
module _ (s : Snapshot) (req : EvaluationRequest) where
  abbrev by_direction : String → String → String → Direction → List CompiledRule
  by_direction route_key provider model direction =
      rules_at s (record {
        route_key = route_key;
        provider = provider;
        model = model;
        direction = direction;
      })

  abbrev by_model : String → String → String → List CompiledRule
  by_model route_key provider model =
      flat_map (by_direction route_key provider model) (string_scope_values req.direction)

  abbrev by_provider : String → String → List CompiledRule
  by_provider route_key provider =
      flat_map (by_model route_key provider) (string_scope_values req.model)

  abbrev by_route : String → List CompiledRule
  by_route route_key = flat_map (by_provider route_key) (string_scope_values req.provider)

  unfoldable pub candidates : List CompiledRule
  candidates = flat_map by_route (string_scope_values req.route_key)

  direction_scope_values-eq :
      (value : Direction) → direction_scope_values value ≡ string_scope_values value
  unfolding direction_scope_values string_scope_values
  direction_scope_values-eq value = refl

  -- The nested loops are one loop over the candidates.
  pub for_each_candidate_rule-eq :
      {S : Type 0} (visit : CompiledRule → S → S) (st : S)
      → for_each_candidate_rule s req visit st ≡ for_each candidates visit st
  unfolding for_each_candidate_rule candidates
  for_each_candidate_rule-eq visit st = rw (direction_scope_values-eq req.direction) (
      for_each-flat_map _ by_route _ visit
        (λ rk. for_each-flat_map _ (by_provider rk) _ visit (λ p.
          for_each-flat_map _ (by_model rk p) _ visit
            (λ m. for_each-flat_map _ (by_direction rk p m) _ visit (λ d t. refl))))
        st)

  abbrev pub in_scope : CompiledRule → Bool
  in_scope rule = matches_scope rule.scope req

  -- The scope tests of one level of the loops, those of the levels above fixed.
  abbrev in_direction : CompiledRule → Bool
  in_direction rule = admits req.direction rule.scope.direction

  abbrev in_model : CompiledRule → Bool
  in_model rule = admits req.model rule.scope.model && in_direction rule

  abbrev in_provider : CompiledRule → Bool
  in_provider rule = admits req.provider rule.scope.provider && in_model rule

  in_scope-eq :
      (rule : CompiledRule)
      → in_scope rule ≡ (admits req.route_key rule.scope.route_key && in_provider rule)
  unfolding matches_scope
  in_scope-eq rule = ground (
    arith,
    eq_iff rule.scope.route_key "",
    eq_iff rule.scope.provider "",
    eq_iff rule.scope.model "",
    eq_iff rule.scope.direction "",
  )

  -- Each rule in scope is a candidate, as often as it is a rule, and no other rule is.
  pub candidates-perm :
      s.rules_by_scope ≡ index_rules s.rules → Perm candidates (filter in_scope s.rules)
  unfolding candidates matches_scope
  candidates-perm indexed =
      loop-perm (λ rule. rule.scope.route_key) in_provider s.rules req.route_key
        (λ rk rule. rule.scope.route_key == rk && in_provider rule) in_scope by_route (λ x a. refl)
        in_scope-eq
        λ rk.
          loop-perm (λ rule. rule.scope.provider)
            (λ rule. rule.scope.route_key == rk && in_model rule) s.rules req.provider
            (λ p rule. rule.scope.route_key == rk && (rule.scope.provider == p && in_model rule)) _
            (by_provider rk) (λ x a. ground arith) (λ a. ground arith)
            λ p.
              loop-perm (λ rule. rule.scope.model)
                (λ rule.
                  rule.scope.route_key == rk && (rule.scope.provider == p && in_direction rule))
                s.rules req.model
                (λ m rule.
                  rule.scope.route_key == rk
                  && (rule.scope.provider == p && (rule.scope.model == m && in_direction rule)))
                _ (by_model rk p) (λ x a. ground arith) (λ a. ground arith)
                λ m.
                  loop-perm (λ rule. rule.scope.direction)
                    (λ rule.
                      rule.scope.route_key == rk
                      && (rule.scope.provider == p && rule.scope.model == m))
                    s.rules req.direction
                    (λ d rule.
                      rule.scope
                      == record { route_key = rk; provider = p; model = m; direction = d })
                    _ (by_direction rk p m) (λ x a. ground arith) (λ a. ground arith)
                    λ d.
                      rw
                        (
                          indexed,
                          index_rules-lookup s.rules
                              (record { route_key = rk; provider = p; model = m; direction = d }),
                        )
                        (Perm.refl _)

module _ {κ} (s : Snapshot) (req : EvaluationRequest) (P : CompiledRule → Type κ) where
  All-filter : (p : CompiledRule → Bool) (l : List CompiledRule) → All P l → All P (filter p l)
  All-filter p [] h = tt
  All-filter p (r ∷ l) h = elim (Bool-cases (p r)) [
    | inl e ↦ rw e (h.0, All-filter p l h.1)
    | inr e ↦ rw e (All-filter p l h.1)
  ]

  All-flat_map :
      (f : String → List CompiledRule) (xs : List String)
      → ((x : String) → All P (f x))
      → All P (flat_map f xs)
  All-flat_map f [] h = tt
  All-flat_map f (x ∷ xs) h = All-append P (f x) (flat_map f xs) (h x) (All-flat_map f xs h)

  -- What holds of every rule holds of every candidate.
  pub candidates-All :
      s.rules_by_scope ≡ index_rules s.rules → All P s.rules → All P (candidates s req)
  unfolding candidates
  candidates-All indexed h = All-flat_map (by_route s req) _ λ rk.
      All-flat_map (by_provider s req rk) _ λ p. All-flat_map (by_model s req rk p) _ λ m.
        All-flat_map (by_direction s req rk p m) _ λ d.
          rw
            (
              indexed,
              index_rules-lookup s.rules
                  (record { route_key = rk; provider = p; model = m; direction = d }),
            )
            (All-filter _ s.rules h)

for_each-snoc :
    {A : Type 0} (xs acc : List A) → for_each xs (λ x seen. seen ++ x ∷ []) acc ≡ acc ++ xs
unfolding for_each
for_each-snoc [] acc = sym (append-nil acc)
for_each-snoc (x ∷ xs) acc = for_each-snoc xs (acc ++ x ∷ []) ∙ append_assoc acc (x ∷ []) xs

-- The loops over the index visit the rules in scope of the request, each as often as the snapshot
-- has it, and no other rule, where the index is that of the snapshot's rules.
pub for_each_candidate_rule-perm :
    (s : Snapshot) (req : EvaluationRequest)
    → s.rules_by_scope ≡ index_rules s.rules
    → Perm
        (for_each_candidate_rule s req (λ rule seen. seen ++ rule ∷ []) [])
        (filter (λ rule. matches_scope rule.scope req) s.rules)
for_each_candidate_rule-perm s req indexed =
    rw
      (
        for_each_candidate_rule-eq s req (λ rule seen. seen ++ rule ∷ []) [],
        for_each-snoc (candidates s req) [],
      )
      (candidates-perm s req indexed)
