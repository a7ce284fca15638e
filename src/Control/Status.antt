-- ===== src/Control/Status.antt =====
-- The status of the configuration (`ConfigStatus` of internal/contexts/control/application/memory.go)
-- whatever calls have been made.
use kiwi_guard.Common.{
  ℕ, String, List, [], ◌∷◌, Result, ok, >>=-eq-ok, map_err, map_err-eq-ok, ◌≡◌, refl, ap, subst,
  sym, Option, Option-cases, eq_string, lookup, inl, inr, All,
}
use kiwi_guard.Detection.{Engine}
use kiwi_guard.Policy.Types.{Bundle}
use kiwi_guard.Policy.Compile.{Snapshot, compile_snapshot}
use kiwi_guard.Policy.Joining.{Compiles, compile_snapshot-Compiles, compile_snapshot-ok}
use kiwi_guard.Clients.{Crypto, Entropy}
use kiwi_guard.Control.Types.{PolicyBundle, bad_snapshot, invalid_input}
use kiwi_guard.Control.Ports.{Notifier}
use kiwi_guard.Control.Memory.{Dict, Memory, new_memory, active_bundles, config_status}
use kiwi_guard.Control.Service.{guard_input, compile_policy_bundle}
use kiwi_guard.Control.Validation.{validate_bundle, to_policy_bundle}
use kiwi_guard.Control.Entries.{Entries, Entries-lookup}
use kiwi_guard.Control.Activation.{guard_input-ok}
use kiwi_guard.Control.Validity.{Call, IsBundle, run}
use kiwi_guard.Control.Validity.Keeping.{run-IsValid}

module _ (g : Engine) (digest : List Bundle → Result String String) where
  IsBundle-Compiles :
      (key : String) (b : PolicyBundle)
      → IsBundle g digest key b
      → Compiles g digest (to_policy_bundle b)
  unfolding compile_policy_bundle
  IsBundle-Compiles key b (at_key, s, compiled) =
      let (c, valid, h) = >>=-eq-ok (guard_input (validate_bundle b) b) _ compiled in
      let made =
        map_err-eq-ok bad_snapshot (compile_snapshot g digest (to_policy_bundle c ∷ [])) h in
      subst (λ x. Compiles g digest (to_policy_bundle x))
        (sym (guard_input-ok (validate_bundle b) b c (ap (map_err invalid_input) valid)))
        (compile_snapshot-Compiles g digest (to_policy_bundle c) s made)

  active_bundles-Compiles :
      (keys : List String) (m : Dict PolicyBundle)
      → Entries (IsBundle g digest) m
      → All (Compiles g digest) (active_bundles keys m)
  unfolding active_bundles
  active_bundles-Compiles [] m valid = tt
  active_bundles-Compiles (k ∷ keys) m valid = elim (Option-cases (lookup k m)) [
    | inl missing ↦ rw (active_bundles, missing) (active_bundles-Compiles keys m valid)
    | inr (b, found) ↦
        rw (active_bundles, found)
          (
            IsBundle-Compiles k b (Entries-lookup (IsBundle g digest) k b m valid found),
            active_bundles-Compiles keys m valid,
          )
  ]

  -- The hash of a status is that of a snapshot.
  abbrev pub HasSnapshot : Crypto → (ℕ → Entropy) → Memory → Type 0
  HasSnapshot crypto entropy r =
      (s : Snapshot) × (compile_snapshot g digest (active_bundles r.active_bundle_keys r.bundles)
        ≡ ok s)
      × (config_status crypto entropy g digest r
          ≡ ok (record {
            active_policy_bundle_keys = r.active_bundle_keys;
            policy_snapshot_hash = s.hash;
          }))

  module _ (crypto : Crypto) (entropy : ℕ → Entropy) (notifier : Option Notifier)
      (total : (bundles : List Bundle) → (hash : String) × (digest bundles ≡ ok hash)) where
    -- Whatever calls have been made on the service over a new repository, the active bundles
    -- compile together, and the status shows their keys and the hash of their snapshot. The
    -- canonical text of bundles can always be made.
    pub run-HasSnapshot :
        (calls : List Call)
        → HasSnapshot crypto entropy (run crypto entropy g digest notifier calls new_memory)
    unfolding config_status
    run-HasSnapshot calls =
        let r = run crypto entropy g digest notifier calls new_memory in
        let valid = run-IsValid g digest crypto entropy notifier calls in
        let (s, compiled) =
          compile_snapshot-ok g digest (active_bundles r.active_bundle_keys r.bundles) total
            (active_bundles-Compiles r.active_bundle_keys r.bundles valid.bundles_valid) in
        (s, compiled, rw (config_status, compiled) refl)
