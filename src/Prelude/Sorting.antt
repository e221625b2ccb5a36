-- ===== src/Prelude/Sorting.antt =====
-- Python's `sorted`, which is stable, over a test of order.
use Prim.Native.Nat.{suc}
use mathlib.Core.Path.{◌≡◌, refl, ap, ◌∙◌}
use mathlib.Core.Logic.{inl, inr}
use mathlib.Core.Bool.{Bool, true, false}
use mathlib.Core.List.{List, [], ◌∷◌}
use cross_arb.Prelude.Tests.{if◌then◌else◌, Bool-cases}
use cross_arb.Prelude.Lists.{All, length}

module _ {ℓ} {A : Type ℓ} (le : A → A → Bool) where
  unfoldable pub insert_by : A → List A → List A
  insert_by x [] = x ∷ []
  insert_by x (y ∷ ys) = let rest = insert_by x ys in if le x y then x ∷ y ∷ ys else y ∷ rest

  unfoldable pub sort_by : List A → List A
  unfolding insert_by
  sort_by [] = []
  sort_by (x ∷ xs) = insert_by x (sort_by xs)

  abbrev pub IsSortedBy : List A → Type ℓ
  IsSortedBy [] = Unit
  IsSortedBy (x ∷ xs) = All (λ y. le x y ≡ true) xs × IsSortedBy xs

  pub All-insert_by {κ} :
      (P : A → Type κ) (x : A) (ys : List A) → P x → All P ys → All P (insert_by x ys)
  unfolding insert_by
  All-insert_by P x [] p a = (p, tt)
  All-insert_by P x (y ∷ ys) p a = elim (Bool-cases (le x y)) [
    | inl first ↦ rw first (p, a)
    | inr later ↦ rw later (a.0, All-insert_by P x ys p a.1)
  ]

  pub length-insert_by : (x : A) (ys : List A) → length (insert_by x ys) ≡ suc (length ys)
  unfolding insert_by
  length-insert_by x [] = refl
  length-insert_by x (y ∷ ys) =
      let rest = length-insert_by x ys in
      elim (Bool-cases (le x y)) [ inl first ↦ rw first refl | inr later ↦ rw later (ap suc rest) ]

  pub length-sort_by : (xs : List A) → length (sort_by xs) ≡ length xs
  unfolding sort_by
  length-sort_by [] = refl
  length-sort_by (x ∷ xs) = length-insert_by x (sort_by xs) ∙ ap suc (length-sort_by xs)

  -- What holds of all items holds of them in order.
  pub All-sort_by {κ} : (P : A → Type κ) (xs : List A) → All P xs → All P (sort_by xs)
  unfolding sort_by
  All-sort_by P [] a = tt
  All-sort_by P (x ∷ xs) a = All-insert_by P x (sort_by xs) a.0 (All-sort_by P xs a.1)

  module _ (total : (x y : A) → le x y ≡ false → le y x ≡ true)
      (trans : (x y z : A) → le x y ≡ true → le y z ≡ true → le x z ≡ true) where
    All-le :
        (x y : A) (ys : List A)
        → le x y ≡ true
        → All (λ z. le y z ≡ true) ys
        → All (λ z. le x z ≡ true) ys
    All-le x y [] h a = tt
    All-le x y (z ∷ zs) h a = (trans x y z h a.0, All-le x y zs h a.1)

    insert_by-IsSortedBy : (x : A) (ys : List A) → IsSortedBy ys → IsSortedBy (insert_by x ys)
    unfolding insert_by
    insert_by-IsSortedBy x [] h = (tt, tt)
    insert_by-IsSortedBy x (y ∷ ys) h = elim (Bool-cases (le x y)) [
      | inl first ↦ rw first ((first, All-le x y ys first h.0), h)
      | inr later ↦ rw later (
        All-insert_by (λ z. le y z ≡ true) x ys (total x y later) h.0,
        insert_by-IsSortedBy x ys h.1,
      )
    ]

    pub sort_by-IsSortedBy : (xs : List A) → IsSortedBy (sort_by xs)
    unfolding sort_by
    sort_by-IsSortedBy [] = tt
    sort_by-IsSortedBy (x ∷ xs) = insert_by-IsSortedBy x (sort_by xs) (sort_by-IsSortedBy xs)
