-- ===== src/Control/Entries.antt =====
-- What holds of every entry of a map of the repository (internal/contexts/control/application/memory.go).
use kiwi_guard.Common.{
  String, true, [], ◌∷◌, none, some, ◌≡◌, refl, subst, ◌∙◌, arith, eq_iff, ◌==◌, eq_string,
  Bool-cases, lookup, insert, erase, lookup-insert, inl, inr,
}
use kiwi_guard.Policy.Types.{is_some}
use kiwi_guard.Control.Memory.{Dict}

module _ {V : Type 0} (P : String → V → Type 0) where
  abbrev pub Entries : Dict V → Type 0
  Entries [] = Unit
  Entries ((k, v) ∷ m) = P k v × Entries m

  pub Entries-insert :
      (k : String) (v : V) (m : Dict V) → Entries m → P k v → Entries (insert k v m)
  unfolding insert
  Entries-insert k v [] all new = (new, tt)
  Entries-insert k v ((j, w) ∷ m) all new = elim (Bool-cases (j == k)) [
    | inl e ↦ rw e (new, all.1)
    | inr e ↦ rw e (all.0, Entries-insert k v m all.1 new)
  ]

  pub Entries-erase : (k : String) (m : Dict V) → Entries m → Entries (erase k m)
  unfolding erase
  Entries-erase k [] all = tt
  Entries-erase k ((j, w) ∷ m) all = elim (Bool-cases (j == k)) [
    | inl e ↦ rw e (Entries-erase k m all.1)
    | inr e ↦ rw e (all.0, Entries-erase k m all.1)
  ]

  pub Entries-lookup : (k : String) (v : V) (m : Dict V) → Entries m → lookup k m ≡ some v → P k v
  unfolding lookup
  Entries-lookup k v [] all found = absurd (cc)
  Entries-lookup k v ((j, w) ∷ m) all found = elim (Bool-cases (j == k)) [
    | inl e ↦
        let same : some w ≡ some v = rw e at found in
        subst (λ i. P i v) ((eq_iff j k).0 e) (subst (P j) (ground arith) all.0)
    | inr e ↦ Entries-lookup k v m all.1 (rw e at found)
  ]

module _ {V : Type 0} {P Q : String → V → Type 0} where
  pub Entries-mono :
      (m : Dict V) → ((k : String) (v : V) → P k v → Q k v) → Entries P m → Entries Q m
  Entries-mono [] f all = tt
  Entries-mono ((k, v) ∷ m) f all = (f k v all.0, Entries-mono m f all.1)

module _ {V : Type 0} where
  -- No key stands twice.
  abbrev pub Distinct : Dict V → Type 0
  Distinct [] = Unit
  Distinct ((k, v) ∷ m) = (lookup k m ≡ none) × Distinct m

  pub Distinct-insert : (k : String) (v : V) (m : Dict V) → Distinct m → Distinct (insert k v m)
  unfolding insert lookup
  Distinct-insert k v [] d = (refl, tt)
  Distinct-insert k v ((j, w) ∷ m) d = elim (Bool-cases (j == k)) [
    | inl e ↦ rw e (subst (λ i. lookup i m ≡ none) ((eq_iff j k).0 e) d.0, d.1)
    | inr e ↦
        let missed : lookup j (insert k v m) ≡ none =
          lookup-insert k j v m ∙ ground (arith, d.0, eq_iff j k, eq_iff k j, e) in
        rw e (missed, Distinct-insert k v m d.1)
  ]

  -- An assignment loses no key.
  pub known-insert :
      (k j : String) (v : V) (m : Dict V)
      → is_some (lookup j m) ≡ true
      → is_some (lookup j (insert k v m)) ≡ true
  known-insert k j v m known = rw (lookup-insert k j v m) (ground arith)
