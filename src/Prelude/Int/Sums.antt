-- ===== src/Prelude/Int/Sums.antt =====
-- Python's `sum` of a generator over a list.
use mathlib.Core.Path.{◌≡◌}
use mathlib.Core.List.{List, [], ◌∷◌, ◌++◌}
use cross_arb.Prelude.Int.Base.{ℤ, pos, ◌+ℤ◌, int_laws}

unfoldable pub sum_of {ℓ} : {A : Type ℓ} → (A → ℤ) → List A → ℤ
sum_of f [] = pos 0
sum_of f (x ∷ xs) = f x +ℤ sum_of f xs

pub sum_of-append {ℓ} :
    {A : Type ℓ} (f : A → ℤ) (xs ys : List A) → sum_of f (xs ++ ys) ≡ sum_of f xs +ℤ sum_of f ys
unfolding sum_of
sum_of-append f [] ys = omega int_laws
sum_of-append f (x ∷ xs) ys = rw (sum_of-append f xs ys) (omega int_laws)
