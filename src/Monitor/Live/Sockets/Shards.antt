-- ===== src/Monitor/Live/Sockets/Shards.antt =====
-- The shards of a subscription lose, repeat and move nothing.
use cross_arb.Prelude.{
  ℕ, suc, zero, ◌≤◌, ◌≡◌, refl, ap, ◌∙◌, List, [], ◌∷◌, ◌++◌, take, length, All, arith,
}
use cross_arb.Monitor.Live.Sockets.{drop, shards_from, shards}

abbrev pub join {ℓ} : {A : Type ℓ} → List (List A) → List A
join [] = []
join (xs ∷ xss) = xs ++ join xss

module _ {ℓ} {A : Type ℓ} where
  take-drop : (n : ℕ) (xs : List A) → take n xs ++ drop n xs ≡ xs
  take-drop zero xs = refl
  take-drop (suc n) [] = refl
  take-drop (suc n) (x ∷ xs) = ap (λ ys. x ∷ ys) (take-drop n xs)

  length-take_le : (n : ℕ) (xs : List A) → length (take n xs) ≤ n
  length-take_le zero xs = omega arith
  length-take_le (suc n) [] = omega arith
  length-take_le (suc n) (x ∷ xs) = omega (arith, length-take_le n xs)

  length-drop_le : (n : ℕ) (xs : List A) → length (drop n xs) ≤ length xs
  length-drop_le zero xs = omega arith
  length-drop_le (suc n) [] = omega arith
  length-drop_le (suc n) (x ∷ xs) = omega (arith, length-drop_le n xs)

  join-shards_from :
      (n fuel : ℕ) (xs : List A) → length xs ≤ fuel → join (shards_from (suc n) fuel xs) ≡ xs
  unfolding shards_from
  join-shards_from n zero [] h = refl
  join-shards_from n zero (x ∷ xs) h = ground arith
  join-shards_from n (suc fuel) [] h = refl
  join-shards_from n (suc fuel) (x ∷ xs) h =
      ap (λ ys. x ∷ (take n xs ++ ys))
        (join-shards_from n fuel (drop n xs) (omega (arith, length-drop_le n xs)))
      ∙ ap (λ ys. x ∷ ys) (take-drop n xs)

  abbrev pub IsShard : ℕ → List A → Type 0
  IsShard n xs = (1 ≤ length xs) × (length xs ≤ n)

  shards_from-IsShard :
      (n fuel : ℕ) (xs : List A) → All (IsShard (suc n)) (shards_from (suc n) fuel xs)
  unfolding shards_from
  shards_from-IsShard n zero xs = tt
  shards_from-IsShard n (suc fuel) [] = tt
  shards_from-IsShard n (suc fuel) (x ∷ xs) =
      ((omega arith, omega (arith, length-take_le n xs)), shards_from-IsShard n fuel (drop n xs))

  -- For a size that is not zero, the shards put end to end are the list itself, and each holds at least one
  -- item and at most as many as the size says.
  pub join-shards :
      (n : ℕ) (xs : List A)
      → (join (shards (suc n) xs) ≡ xs) × All (IsShard (suc n)) (shards (suc n) xs)
  unfolding shards
  join-shards n xs =
      (join-shards_from n (length xs) xs (omega arith), shards_from-IsShard n (length xs) xs)
