-- ===== src/Prelude/Keys.antt =====
-- Keys of a dictionary: a Boolean test that decides equality.
use Prim.Native.Nat.{ℕ}
use Prim.Native.String.{String}
use mathlib.Core.Path.{◌≡◌, refl}
use mathlib.Core.Logic.{◌↔◌}
use mathlib.Core.Bool.{Bool, true, false, ◌&&◌, ◌||◌}
use mathlib.Core.List.{List, [], ◌∷◌}
use native.Mathlib.Omega.{arith}
use text.Mathlib.Text.{◌==◌ as str_eq}
use text.Mathlib.TextEquality.{eq_iff}
use cross_arb.Prelude.Tests.{◌==◌ as nat_eq, ==_iff}
use cross_arb.Prelude.Int.{ℤ, eqb_ℤ, eqb_ℤ_iff}

pub record Eq {ℓ} (A : Type ℓ) : Type ℓ where
  pub beq : A → A → Bool
  pub beq_iff : (a b : A) → (beq a b ≡ true) ↔ (a ≡ b)

infix 50 ◌=?◌
abbrev pub ◌=?◌ {ℓ} : {A : Type ℓ} ⦃e : Eq A⦄ → A → A → Bool
◌=?◌ ⦃e⦄ = e.beq

instance abbrev pub nat_keys : Eq ℕ
nat_keys = record { beq = nat_eq; beq_iff = ==_iff }

instance abbrev pub int_keys : Eq ℤ
int_keys = record { beq = eqb_ℤ; beq_iff = eqb_ℤ_iff }

instance abbrev pub string_keys : Eq String
string_keys = record { beq = str_eq; beq_iff = eq_iff }

abbrev pub same_array : List ℕ → List ℕ → Bool
same_array [] [] = true
same_array (x ∷ xs) (y ∷ ys) = x =? y && same_array xs ys
same_array _ _ = false

pub same_array_iff : (xs ys : List ℕ) → (same_array xs ys ≡ true) ↔ (xs ≡ ys)
same_array_iff [] [] = ground arith
same_array_iff [] (y ∷ ys) = ground arith
same_array_iff (x ∷ xs) [] = ground arith
same_array_iff (x ∷ xs) (y ∷ ys) = ground (arith, nat_keys.beq_iff x y, same_array_iff xs ys)

instance abbrev pub array_keys : Eq (List ℕ)
array_keys = record { beq = same_array; beq_iff = same_array_iff }

module _ {ℓ} {A : Type ℓ} ⦃e : Eq A⦄ where
  pub =?_refl : (a : A) → (a =? a) ≡ true
  =?_refl a = (e.beq_iff a a).1 refl

  pub =?→≡ : {a b : A} → (a =? b) ≡ true → a ≡ b
  =?→≡ {a} {b} = (e.beq_iff a b).0

  -- `a in xs`
  abbrev pub elem : A → List A → Bool
  elem a [] = false
  elem a (x ∷ xs) = a =? x || elem a xs
