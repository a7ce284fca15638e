-- ===== src/Control/Activation.antt =====
-- The activation of policy bundles and the status of the configuration
-- (internal/contexts/control/application/usecases.go and memory.go).
use kiwi_guard.Common.{
  ℕ, String, true, false, List, [], ◌∷◌, Option, none, some, Result, ok, err, Result-cases,
  >>=-eq-ok, map_err, map_err-eq-ok, ok-injective, ◌≡◌, refl, ap, ap₂, sym, ◌∙◌, arith, eq_iff,
  ◌==◌, eq_string, Bool-cases, Option-cases, if◌then◌else◌, lookup, insert, lookup-insert, ◌⊎◌, inl,
  inr,
}
use kiwi_guard.Detection.{Engine}
use kiwi_guard.Policy.Types.{Bundle}
use kiwi_guard.Policy.Compile.{compile_snapshot}
use kiwi_guard.Clients.{Crypto, Entropy}
use kiwi_guard.Control.Types.{
  PolicyBundle, PolicyActivationRequest, PolicyActivationResponse, ControlError, invalid_input,
  bad_snapshot, policy_bundle_not_found,
}
use kiwi_guard.Control.Ports.{Notifier}
use kiwi_guard.Control.Memory.{
  Dict, Memory, values, all_known, active_bundles, activate_policy_bundles, hash_or_empty,
  config_status, memory_repository,
}
use kiwi_guard.Control.Service.{
  guard_input, by_key, select, selected_hash, notified, activation_snapshot_hash, activate_bundles,
}
use kiwi_guard.Control.Validation.{Check, validate_bundle, to_policy_bundle}
use kiwi_guard.Control.Entries.{Entries, Entries-mono, Distinct}
use kiwi_guard.Control.Validity.{IsBundle, IsValid}

-- The first of two options that is there.
abbrev or_else : {A : Type 0} → Option A → Option A → Option A
or_else (some a) o = some a
or_else none o = o

abbrev IsKeyed : String → PolicyBundle → Type 0
IsKeyed key b = b.key ≡ key

-- The map that the service makes of the listed bundles finds what the repository holds.
lookup-by_key :
    (q : String) (m acc : Dict PolicyBundle)
    → Distinct m
    → Entries IsKeyed m
    → lookup q (by_key (values m) acc) ≡ or_else (lookup q m) (lookup q acc)
unfolding by_key values lookup
lookup-by_key q [] acc d keyed = refl
lookup-by_key q ((k, b) ∷ m) acc d keyed =
    lookup-by_key q m (insert b.key b acc) d.1 keyed.1
    ∙ ap (or_else (lookup q m)) (lookup-insert b.key q b acc)
    ∙ ap (λ j. or_else (lookup q m) (if j == q then some b else lookup q acc)) keyed.0
    ∙ at_key (Bool-cases (k == q))
  where
    at_key :
        (k == q ≡ true) ⊎ (k == q ≡ false)
        → or_else (lookup q m) (if k == q then some b else lookup q acc)
          ≡ or_else (if k == q then some b else lookup q m) (lookup q acc)
    at_key (inl e) =
        let missed : lookup q m ≡ none = ap (λ j. lookup j m) (sym ((eq_iff k q).0 e)) ∙ d.0 in
        rw (e, missed) refl
    at_key (inr e) = rw e refl

pub guard_input-ok :
    (check : Check) (b c : PolicyBundle)
    → map_err invalid_input (guard_input check b) ≡ ok c
    → b ≡ c
guard_input-ok none b c h = ok-injective h
guard_input-ok (some e) b c h = cc

-- What is selected is what becomes active.
select-active :
    (keys : List String) (m n : Dict PolicyBundle) (selected : List Bundle)
    → ((q : String) → lookup q n ≡ lookup q m)
    → select keys n ≡ ok selected
    → (active_bundles keys m ≡ selected) × (all_known keys m ≡ true)
unfolding select active_bundles all_known
select-active [] m n selected same h = (ok-injective h, refl)
select-active (k ∷ keys) m n selected same h = elim (Option-cases (lookup k m)) [
  | inl missing ↦ absurd (
      let bad : ◌≡◌ {A = Result ControlError (List Bundle)} (err policy_bundle_not_found)
          (ok selected) =
        rw (select, same k, missing) at h in
      cc)
  | inr (b, found) ↦
      let (c, valid, h') =
        >>=-eq-ok (map_err invalid_input (guard_input (validate_bundle b) b)) _
          (rw (select, same k, found) at h) in
      let (rest, chosen, h'') = >>=-eq-ok (select keys n) _ h' in
      let (active, known) = select-active keys m n rest same chosen in
      rw (active_bundles, found)
        (
          ap₂ (λ x xs. to_policy_bundle x ∷ xs) (guard_input-ok (validate_bundle b) b c valid)
                active
              ∙ ok-injective h'',
          known,
        )
]

-- The notifier's failure is noted in the response alone.
notified-ok :
    (notifier : Option Notifier) (a b : PolicyActivationResponse) (r : Memory)
    → (notified notifier (ok a, r)).0 ≡ ok b
    → (b.active_keys ≡ a.active_keys) × (b.hash ≡ a.hash) × ((notified notifier (ok a, r)).1 ≡ r)
unfolding notified
notified-ok none a b r h = ground arith
notified-ok (some notifier) a b r h = ground arith

module _ (g : Engine) (digest : List Bundle → Result String String) where
  keyed_lem : (m : Dict PolicyBundle) → Entries (IsBundle g digest) m → Entries IsKeyed m
  keyed_lem m = Entries-mono m (λ k b valid. valid.0)

  selected_hash-active :
      (keys : List String) (m : Dict PolicyBundle) (hash : String)
      → Distinct m
      → Entries (IsBundle g digest) m
      → selected_hash g digest keys (values m) ≡ ok hash
      → (all_known keys m ≡ true)
        × (hash_or_empty (compile_snapshot g digest (active_bundles keys m)) ≡ hash)
  unfolding selected_hash lookup
  selected_hash-active keys m hash d valid h =
      let (selected, chosen, h') = >>=-eq-ok (select keys (by_key (values m) [])) _ h in
      let (snapshot, compiled, h'') =
        >>=-eq-ok
          (map_err (λ e. invalid_input (bad_snapshot e)) (compile_snapshot g digest selected)) _
          h' in
      let same =
        λ (q : String). lookup-by_key q m [] d (keyed_lem m valid) ∙ or_else-none (lookup q m) in
      let (active, known) = select-active keys m (by_key (values m) []) selected same chosen in
      (
        known,
        rw (active, map_err-eq-ok (λ e. invalid_input (bad_snapshot e)) _ compiled)
            (ok-injective h''),
      )
    where
      or_else-none : (o : Option PolicyBundle) → or_else o none ≡ o
      or_else-none none = refl
      or_else-none (some b) = refl

  module _ (crypto : Crypto) (entropy : ℕ → Entropy) (notifier : Option Notifier) where
    -- What an activation that succeeds answers, and the status afterwards.
    pub record IsActivated (keys : List String) (response : PolicyActivationResponse) (r : Memory)
        : Type 0 where
      pub answered : response.active_keys ≡ keys
      pub active : r.active_bundle_keys ≡ keys
      pub status :
          config_status crypto entropy g digest r
          ≡ ok (record { active_policy_bundle_keys = keys; policy_snapshot_hash = response.hash })

    -- In a repository whose contents are valid, an activation that succeeds makes the bundles of
    -- the requested keys active, and the hash that it answers is the one that the status of the
    -- configuration then shows, whether or not the notifier fails.
    pub activate_bundles-IsActivated :
        (q : PolicyActivationRequest) (r : Memory) (response : PolicyActivationResponse)
        → IsValid g digest r
        → let repository = memory_repository crypto entropy g digest in
          (activate_bundles g digest repository notifier q r).0 ≡ ok response
          → IsActivated q.keys response (activate_bundles g digest repository notifier q r).1
    unfolding activate_bundles activation_snapshot_hash activate_policy_bundles config_status
    activate_bundles-IsActivated q r response v h =
        elim (Result-cases (selected_hash g digest q.keys (values r.bundles))) [
          | inl (e, refused) ↦ absurd (
              let bad : ◌≡◌ {A = Result ControlError PolicyActivationResponse} (err e)
                  (ok response) =
                rw (activate_bundles, activation_snapshot_hash, refused) at h in
              cc)
          | inr (hash, found) ↦
              let (known, status) =
                selected_hash-active q.keys r.bundles hash v.bundles_distinct v.bundles_valid
                  found in
              let opened =
                rw
                  (
                    activate_bundles, activation_snapshot_hash, found, activate_policy_bundles,
                    known,
                  )
                  at h in
              let (keys, same_hash, state) = notified-ok notifier _ response _ opened in
              rw
                (
                  activate_bundles, activation_snapshot_hash, found, activate_policy_bundles, known,
                  state,
                )
                (record {
                  answered = keys;
                  active = refl;
                  status = rw (config_status, status, same_hash) refl;
                })
        ]
