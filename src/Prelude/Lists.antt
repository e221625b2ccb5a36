-- ===== src/Prelude/Lists.antt =====
-- Lists measured by native numbers, and predicates on all items, under the library's names.
use Prim.Native.Nat.{ℕ, zero, suc, ◌+◌, ◌≤◌}
use mathlib.Core.Path.{◌≡◌, refl}
use mathlib.Core.List.{List, [], ◌∷◌, ◌++◌, map}
use mathlib.Core.Bool.{Bool, true}
use native.Mathlib.Omega.{arith}
use mathlib.Core.Logic.{inl, inr}
use cross_arb.Prelude.Tests.{if◌then◌else◌, Bool-cases}

module _ {ℓ} {A : Type ℓ} where
  abbrev pub length : List A → ℕ
  length [] = 0
  length (x ∷ xs) = suc (length xs)

  abbrev pub take : ℕ → List A → List A
  take zero xs = []
  take (suc n) [] = []
  take (suc n) (x ∷ xs) = x ∷ take n xs

  pub length-append : (xs ys : List A) → length (xs ++ ys) ≡ length xs + length ys
  length-append [] ys = omega arith
  length-append (x ∷ xs) ys = omega (arith, length-append xs ys)

-- `[x for x in xs if keep(x)]`
abbrev pub select {ℓ} : {A : Type ℓ} → (A → Bool) → List A → List A
select keep [] = []
select keep (x ∷ xs) = let rest = select keep xs in if keep x then x ∷ rest else rest

abbrev pub All {ℓ κ} : {A : Type ℓ} → (A → Type κ) → List A → Type κ
All P [] = Unit
All P (x ∷ xs) = P x × All P xs

pub All-append {ℓ κ} :
    {A : Type ℓ} (P : A → Type κ) (xs ys : List A) → All P xs → All P ys → All P (xs ++ ys)
All-append P [] ys hx hy = hy
All-append P (x ∷ xs) ys hx hy = (hx.0, All-append P xs ys hx.1 hy)

pub All_mono {ℓ κ μ} :
    {A : Type ℓ} (P : A → Type κ) (Q : A → Type μ) (xs : List A)
    → ((x : A) → P x → Q x)
    → All P xs
    → All Q xs
All_mono P Q [] f a = tt
All_mono P Q (x ∷ xs) f a = (f x a.0, All_mono P Q xs f a.1)

pub All-select {ℓ κ} :
    {A : Type ℓ} (P : A → Type κ) (keep : A → Bool) (xs : List A)
    → All P xs
    → All P (select keep xs)
All-select P keep [] a = tt
All-select P keep (x ∷ xs) a = elim (Bool-cases (keep x)) [
  | inl kept ↦ rw kept (a.0, All-select P keep xs a.1)
  | inr dropped ↦ rw dropped (All-select P keep xs a.1)
]

pub length-select_le {ℓ} :
    {A : Type ℓ} (test : A → Bool) (xs : List A) → length (select test xs) ≤ length xs
length-select_le test [] = omega arith
length-select_le test (x ∷ xs) =
    let rest = length-select_le test xs in
    elim (Bool-cases (test x)) [
      | inl kept ↦ rw kept (omega (arith, rest))
      | inr dropped ↦ rw dropped (omega (arith, rest))
    ]

pub length-map {ℓ κ} :
    {A : Type ℓ} {B : Type κ} (f : A → B) (xs : List A) → length (map f xs) ≡ length xs
length-map f [] = refl
length-map f (x ∷ xs) = rw (length-map f xs) refl

-- What a test adds to what is known of the items.
pub All-select_if {ℓ κ μ} :
    {A : Type ℓ} (P : A → Type κ) (Q : A → Type μ) (test : A → Bool) (xs : List A)
    → ((x : A) → P x → test x ≡ true → Q x)
    → All P xs
    → All Q (select test xs)
All-select_if P Q test [] step h = tt
All-select_if P Q test (x ∷ xs) step h =
    let rest = All-select_if P Q test xs step h.1 in
    elim (Bool-cases (test x)) [
      | inl kept ↦ rw kept (step x h.0 kept, rest)
      | inr dropped ↦ rw dropped rest
    ]

pub select_tests {ℓ} :
    {A : Type ℓ} (test : A → Bool) (xs : List A) → All (λ x. test x ≡ true) (select test xs)
select_tests test [] = tt
select_tests test (x ∷ xs) =
    let rest = select_tests test xs in
    elim (Bool-cases (test x)) [ inl kept ↦ rw kept (kept, rest) | inr dropped ↦ rw dropped rest ]
