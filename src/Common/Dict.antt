-- ===== src/Common/Dict.antt =====
-- Go maps as association lists: a later assignment to a key replaces the earlier one.
use mathlib.Core.Path.{◌≡◌, refl}
use mathlib.Core.Option.{Option, none, some}
use mathlib.Core.List.{List, [], ◌∷◌}
use native.Mathlib.Omega.{arith}
use kiwi_guard.Common.Tests.{if◌then◌else◌}
use kiwi_guard.Common.Equality.{Eq, ◌==◌}

module _ {ℓ κ} {K : Type ℓ} {V : Type κ} ⦃e : Eq K⦄ where
  -- `value, ok := entries[key]`.
  unfoldable pub lookup : K → List (K × V) → Option V
  lookup key [] = none
  lookup key ((other, value) ∷ entries) = if other == key then some value else lookup key entries

  -- `entries[key] = value`.
  unfoldable pub insert : K → V → List (K × V) → List (K × V)
  insert key value [] = (key, value) ∷ []
  insert key value ((other, old) ∷ entries) =
      if other == key then (key, value) ∷ entries else (other, old) ∷ insert key value entries

  -- `delete(entries, key)`.
  unfoldable pub erase : K → List (K × V) → List (K × V)
  erase key [] = []
  erase key ((other, value) ∷ entries) =
      if other == key then erase key entries else (other, value) ∷ erase key entries

  -- An assignment is seen at its own key alone.
  pub lookup-insert :
      (set asked : K) (value : V) (entries : List (K × V))
      → lookup asked (insert set value entries)
        ≡ (if set == asked then some value else lookup asked entries)
  unfolding insert lookup
  lookup-insert set asked value [] = refl
  lookup-insert set asked value ((other, old) ∷ entries) =
      let rest = lookup-insert set asked value entries in
      ground (arith, rest, e.eqb_iff other asked, e.eqb_iff other set, e.eqb_iff set asked)

  pub lookup-erase :
      (gone asked : K) (entries : List (K × V))
      → lookup asked (erase gone entries) ≡ (if gone == asked then none else lookup asked entries)
  unfolding erase lookup
  lookup-erase gone asked [] = ground arith
  lookup-erase gone asked ((other, value) ∷ entries) =
      let rest = lookup-erase gone asked entries in
      ground (arith, rest, e.eqb_iff other asked, e.eqb_iff other gone, e.eqb_iff gone asked)
