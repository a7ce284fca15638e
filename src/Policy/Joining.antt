-- ===== src/Policy/Joining.antt =====
-- `CompileSnapshot` (internal/contexts/policy/domain/snapshot.go) of several bundles, each of which
-- compiles alone.
use kiwi_guard.Common.{
  ℕ, suc, String, List, [], ◌∷◌, ◌≡◌, refl, Bool-cases, inl, inr, Result, ok, err, >>=-eq-ok, ◌==◌,
  eq_string, All,
}
use kiwi_guard.Detection.{Engine}
use kiwi_guard.Policy.Types.{Bundle, valid_action}
use kiwi_guard.Policy.Canonical.{canonical_bundles}
use kiwi_guard.Policy.Compile.{
  Snapshot, SnapshotError, Progress, compile_detector_map, compile_rules, active_rules,
  compile_bundle, compile_bundles, hash_bundles, compile_snapshot, no_progress, bundle_key_required,
  bad_default_action,
}

module _ (g : Engine) (digest : List Bundle → Result String String) where
  -- The loop's step on the bundle succeeds, wherever the bundle stands.
  abbrev pub Compiles : Bundle → Type 0
  Compiles b = (i : ℕ) (p : Progress) → (p' : Progress) × (compile_bundle g digest i b p ≡ ok p')

  compile_bundle-Compiles :
      (i : ℕ) (b : Bundle) (p p' : Progress) → compile_bundle g digest i b p ≡ ok p' → Compiles b
  unfolding compile_bundle
  compile_bundle-Compiles i b p p' h = elim (Bool-cases (b.key == "")) [
    | inl e ↦ absurd (
        let k : ◌≡◌ {A = Result SnapshotError Progress} (err (bundle_key_required i)) (ok p') =
          rw (e, compile_bundle) at h in
        cc)
    | inr e ↦ elim (Bool-cases (valid_action b.default_action)) [
      | inr v ↦ absurd (
          let k : ◌≡◌ {A = Result SnapshotError Progress}
              (err (bad_default_action b.key b.default_action)) (ok p') =
            rw (e, v, compile_bundle) at h in
          cc)
      | inl v ↦
          let (m, q, h') =
            >>=-eq-ok (compile_detector_map g digest b) _ (rw (e, v, compile_bundle) at h) in
          let (rules, q', h'') = >>=-eq-ok (compile_rules b.key m (active_rules b.rules)) _ h' in
          λ j r. rw (compile_bundle, e, v, q, q') (_, refl)
    ]
  ]

  -- A bundle that compiles alone.
  pub compile_snapshot-Compiles :
      (b : Bundle) (s : Snapshot) → compile_snapshot g digest (b ∷ []) ≡ ok s → Compiles b
  unfolding compile_snapshot compile_bundles
  compile_snapshot-Compiles b s h =
      let (p, e, h') = >>=-eq-ok (compile_bundles g digest 0 (b ∷ []) (no_progress g digest)) _ h in
      let (p', e', h'') = >>=-eq-ok (compile_bundle g digest 0 b (no_progress g digest)) _ e in
      compile_bundle-Compiles 0 b (no_progress g digest) p' e'

  compile_bundles-ok :
      (i : ℕ) (bs : List Bundle) (p : Progress)
      → All Compiles bs
      → (p' : Progress) × (compile_bundles g digest i bs p ≡ ok p')
  unfolding compile_bundles
  compile_bundles-ok i [] p all = (p, refl)
  compile_bundles-ok i (b ∷ bs) p all =
      let (q, e) = all.0 i p in
      let (p', e') = compile_bundles-ok (suc i) bs q all.1 in (p', rw e e')

  -- Together they compile, if their canonical text can be made.
  pub compile_snapshot-ok :
      (bs : List Bundle)
      → ((cs : List Bundle) → (hash : String) × (digest cs ≡ ok hash))
      → All Compiles bs
      → (s : Snapshot) × (compile_snapshot g digest bs ≡ ok s)
  unfolding compile_snapshot hash_bundles
  compile_snapshot-ok bs total all =
      let (p, e) = compile_bundles-ok 0 bs (no_progress g digest) all in
      let (hash, e') = total (canonical_bundles p.active_bundles) in
      rw (compile_snapshot, e, hash_bundles, e') (_, refl)
