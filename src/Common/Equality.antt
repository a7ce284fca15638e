-- ===== src/Common/Equality.antt =====
-- Equality tests of the keys that the source compares by `==`.
use Prim.Native.Nat.{ℕ, compare, Ordering}
use Prim.Native.String.{String}
use mathlib.Core.Path.{◌≡◌}
use mathlib.Core.Logic.{◌↔◌}
use mathlib.Core.Bool.{Bool, true, false}
use native.Mathlib.Omega.{arith}
use text.Mathlib.Text.{◌==◌ as str_eq}
use text.Mathlib.TextEquality.{eq_iff}

pub record Eq {ℓ} (A : Type ℓ) : Type ℓ where
  pub eqb : A → A → Bool
  pub eqb_iff : (a b : A) → (eqb a b ≡ true) ↔ (a ≡ b)

infix 50 ◌==◌
abbrev pub ◌==◌ {ℓ} : {A : Type ℓ} ⦃e : Eq A⦄ → A → A → Bool
◌==◌ ⦃e⦄ = e.eqb

abbrev pub eqb_nat : ℕ → ℕ → Bool
eqb_nat a b = elim (compare a b) [ Ordering.eq ↦ true | _ ↦ false ]

pub eqb_nat_iff : (a b : ℕ) → (eqb_nat a b ≡ true) ↔ (a ≡ b)
eqb_nat_iff a b = ground arith

instance abbrev pub eq_nat : Eq ℕ
eq_nat = record { eqb = eqb_nat; eqb_iff = eqb_nat_iff }

instance abbrev pub eq_string : Eq String
eq_string = record { eqb = str_eq; eqb_iff = eq_iff }
