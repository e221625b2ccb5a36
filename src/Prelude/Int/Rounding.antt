-- ===== src/Prelude/Int/Rounding.antt =====
-- Change of decimal unit, and division with a rounding rule (`math.ceil`, `round`, `int`).
use Prim.Native.Nat.{ℕ, zero, suc, ◌+◌, ◌-◌, ◌*◌, ◌/◌, ◌%◌, ◌≤◌, ◌<◌}
use mathlib.Core.Path.{◌≡◌, refl}
use mathlib.Core.Logic.{◌⊎◌, inl, inr}
use native.Mathlib.Nat.{mul-zero, div-add-mod, mod-lt}
use native.Mathlib.Omega.{arith}
use cross_arb.Prelude.Tests.{ltb, ◌==◌, if◌then◌else◌}
use cross_arb.Prelude.Int.Base.{
  ℤ, pos, negsuc, pos_part, neg_part, ◌+ℤ◌, ◌-ℤ◌, ◌≤ℤ◌, ◌<ℤ◌, int_laws,
}

-- -n, as an integer.
unfoldable pub neg : ℕ → ℤ
neg zero = pos 0
neg (suc n) = negsuc n

pub pos_part-neg : (n : ℕ) → pos_part (neg n) ≡ 0
unfolding neg
pos_part-neg zero = refl
pos_part-neg (suc n) = refl

pub neg_part-neg : (n : ℕ) → neg_part (neg n) ≡ n
unfolding neg
neg_part-neg zero = refl
neg_part-neg (suc n) = refl

pub ruleset neg_laws = (int_laws, pos_part-neg, neg_part-neg)

-- An amount in a unit that is `d` times finer.
unfoldable pub scale : ℕ → ℤ → ℤ
scale d (pos n) = pos (d * n)
scale d (negsuc n) = neg (d * suc n)

pub pos_part-scale : (d : ℕ) (x : ℤ) → pos_part (scale d x) ≡ d * pos_part x
unfolding scale
pos_part-scale d (pos n) = refl
pos_part-scale d (negsuc n) = omega neg_laws

pub neg_part-scale : (d : ℕ) (x : ℤ) → neg_part (scale d x) ≡ d * neg_part x
unfolding scale
neg_part-scale d (pos n) = omega arith
neg_part-scale d (negsuc n) = omega neg_laws

pub ruleset scale_laws = (neg_laws, pos_part-scale, neg_part-scale)

scale-neg : (d m : ℕ) → scale d (neg m) ≡ neg (d * m)
unfolding scale neg
scale-neg d zero = rw mul-zero
scale-neg d (suc m) = refl

-- `math.ceil` of x / d.
unfoldable pub ceil_div : ℤ → ℕ → ℤ
ceil_div (pos n) d = pos ((n + d - 1) / d)
ceil_div (negsuc n) d = neg (suc n / d)

-- A quotient q with remainder r by d, to the nearest whole number, and to the even one if both are
-- as near.
unfoldable pub to_nearest : ℕ → ℕ → ℕ → ℕ
to_nearest q r d =
    if ltb (2 * r) d then q else if ltb d (2 * r) then q + 1 else if q % 2 == 0 then q else q + 1

unfoldable pub round_half_even : ℕ → ℕ → ℕ
unfolding to_nearest
round_half_even n d = to_nearest (n / d) (n % d) d

-- Python's `round` of x / d.
unfoldable pub round_div : ℤ → ℕ → ℤ
unfolding round_half_even
round_div (pos n) d = pos (round_half_even n d)
round_div (negsuc n) d = neg (round_half_even (suc n) d)

-- The quotient and the remainder by a divisor that is not zero.
div_mod : (n d : ℕ) → 0 < d → (d * (n / d) + n % d ≡ n) × (n % d < d)
div_mod n d h = (div-add-mod n d, mod-lt n h)

to_nearest_cases :
    (q r d : ℕ) → (to_nearest q r d ≡ q) × (2 * r ≤ d) ⊎ (to_nearest q r d ≡ q + 1) × (d ≤ 2 * r)
unfolding to_nearest
to_nearest_cases q r d = ground arith

to_nearest_near :
    (n q r d t : ℕ)
    → d * q + r ≡ n
    → r < d
    → (t ≡ q) × (2 * r ≤ d) ⊎ (t ≡ q + 1) × (d ≤ 2 * r)
    → (2 * n ≤ 2 * (d * t) + d) × (2 * (d * t) ≤ 2 * n + d)
to_nearest_near n q r d t e h (inl (same, low)) = rw same (omega arith, omega arith)
to_nearest_near n q r d t e h (inr (next, high)) = rw next (omega arith, omega arith)

round_half_even_near :
    (n d : ℕ)
    → 0 < d
    → (2 * n ≤ 2 * (d * round_half_even n d) + d) × (2 * (d * round_half_even n d) ≤ 2 * n + d)
unfolding round_half_even
round_half_even_near n d h =
    to_nearest_near n (n / d) (n % d) d _ (div_mod n d h).0 (div_mod n d h).1
      (to_nearest_cases (n / d) (n % d) d)

-- `ceil_div x d` is the least number of units that is not below x.
pub ceil_div_lower : (x : ℤ) (d : ℕ) → 0 < d → x ≤ℤ scale d (ceil_div x d)
unfolding ceil_div
ceil_div_lower (pos n) d h = omega (scale_laws, div_mod (n + d - 1) d h)
ceil_div_lower (negsuc n) d h = rw scale-neg (omega (scale_laws, div_mod (suc n) d h))

pub ceil_div_upper : (x : ℤ) (d : ℕ) → 0 < d → scale d (ceil_div x d) <ℤ x +ℤ pos d
unfolding ceil_div
ceil_div_upper (pos n) d h = omega (scale_laws, div_mod (n + d - 1) d h)
ceil_div_upper (negsuc n) d h = rw scale-neg (omega (scale_laws, div_mod (suc n) d h))

-- `round_div x d` is within half a unit of x, on either side.
pub round_div_near :
    (x : ℤ) (d : ℕ)
    → 0 < d
    → (scale 2 x ≤ℤ scale (2 * d) (round_div x d) +ℤ pos d)
      × (scale (2 * d) (round_div x d) ≤ℤ scale 2 x +ℤ pos d)
unfolding round_div
round_div_near (pos n) d h = omega (scale_laws, round_half_even_near n d h)
round_div_near (negsuc n) d h = rw scale-neg (omega (scale_laws, round_half_even_near (suc n) d h))

-- Python's `//` by a positive divisor.
unfoldable pub floor_div : ℤ → ℕ → ℤ
floor_div (pos n) d = pos (n / d)
floor_div (negsuc n) d = neg ((suc n + d - 1) / d)

-- `int` of x / d.
unfoldable pub trunc_div : ℤ → ℕ → ℤ
trunc_div (pos n) d = pos (n / d)
trunc_div (negsuc n) d = neg (suc n / d)

pub floor_div_bound : (x : ℤ) (d : ℕ) → 0 < d → scale d (floor_div x d) ≤ℤ x
unfolding floor_div
floor_div_bound (pos n) d h = omega (scale_laws, div_mod n d h)
floor_div_bound (negsuc n) d h = rw scale-neg (omega (scale_laws, div_mod (suc n + d - 1) d h))

-- A hundredth of at most a hundred times an amount.
pub trunc_div_percent : (x s : ℤ) → pos 0 ≤ℤ s → x ≤ℤ scale 100 s → trunc_div x 100 ≤ℤ s
unfolding trunc_div
trunc_div_percent (pos n) s h b = omega (scale_laws, b, div_mod n 100 (omega arith))
trunc_div_percent (negsuc n) s h b = omega (scale_laws, h)
