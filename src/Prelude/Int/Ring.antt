-- ===== src/Prelude/Int/Ring.antt =====
-- Multiplication of integers.
use Prim.Native.Nat.{ℕ, ◌+◌, ◌*◌}
use mathlib.Core.Path.{◌≡◌, ap, ap₂, ◌∙◌}
use native.Mathlib.Omega.{arith}
use cross_arb.Prelude.Int.Base.{
  ℤ, pos, pos_part, neg_part, ◌+ℤ◌, ◌-ℤ◌, ◌*ℤ◌, ◌≤ℤ◌, ◌<ℤ◌, int_laws, +ℤ_parts, -ℤ_parts,
}

pub *ℤ_parts :
    (a b : ℤ)
    → pos_part (a *ℤ b) + (pos_part a * neg_part b + neg_part a * pos_part b)
      ≡ neg_part (a *ℤ b) + (pos_part a * pos_part b + neg_part a * neg_part b)
unfolding ◌*ℤ◌
*ℤ_parts a b = ground arith

pub *ℤ_comm : (a b : ℤ) → a *ℤ b ≡ b *ℤ a
*ℤ_comm a b = omega (int_laws, *ℤ_parts a b, *ℤ_parts b a)

-- A number's multiple of each of two equal numbers, for `omega`.
times : (k a b : ℕ) → a ≡ b → k * a ≡ k * b
times k a b e = ap (λ t. k * t) e

pub *ℤ_add : (a b c : ℤ) → a *ℤ (b +ℤ c) ≡ a *ℤ b +ℤ a *ℤ c
*ℤ_add a b c = omega (
  int_laws,
  *ℤ_parts a (b +ℤ c),
  *ℤ_parts a b,
  *ℤ_parts a c,
  times (pos_part a) _ _ (+ℤ_parts b c),
  times (neg_part a) _ _ (+ℤ_parts b c),
)

pub *ℤ_sub : (a b c : ℤ) → a *ℤ (b -ℤ c) ≡ a *ℤ b -ℤ a *ℤ c
*ℤ_sub a b c = omega (
  int_laws,
  *ℤ_parts a (b -ℤ c),
  *ℤ_parts a b,
  *ℤ_parts a c,
  times (pos_part a) _ _ (-ℤ_parts b c),
  times (neg_part a) _ _ (-ℤ_parts b c),
)

pub add_*ℤ : (a b c : ℤ) → (a +ℤ b) *ℤ c ≡ a *ℤ c +ℤ b *ℤ c
add_*ℤ a b c = *ℤ_comm (a +ℤ b) c ∙ *ℤ_add c a b ∙ ap₂ ◌+ℤ◌ (*ℤ_comm c a) (*ℤ_comm c b)

pub sub_*ℤ : (a b c : ℤ) → (a -ℤ b) *ℤ c ≡ a *ℤ c -ℤ b *ℤ c
sub_*ℤ a b c = *ℤ_comm (a -ℤ b) c ∙ *ℤ_sub c a b ∙ ap₂ ◌-ℤ◌ (*ℤ_comm c a) (*ℤ_comm c b)

-- The product of two amounts that are not negative is not negative.
pub *ℤ_nonneg : (a b : ℤ) → pos 0 ≤ℤ a → pos 0 ≤ℤ b → pos 0 ≤ℤ a *ℤ b
unfolding ◌*ℤ◌
*ℤ_nonneg (pos m) (pos n) h k = ground arith
*ℤ_nonneg a b h k = absurd (omega arith)

pub *ℤ_pos : (a b : ℤ) → pos 0 <ℤ a → pos 0 <ℤ b → pos 0 <ℤ a *ℤ b
unfolding ◌*ℤ◌
*ℤ_pos (pos m) (pos n) h k = grind arith
*ℤ_pos a b h k = absurd (omega arith)

-- A product grows with its first factor, if the second is not negative.
pub *ℤ_mono : (a b c : ℤ) → a ≤ℤ b → pos 0 ≤ℤ c → a *ℤ c ≤ℤ b *ℤ c
*ℤ_mono a b c h k =
    let n = *ℤ_nonneg (b -ℤ a) c (omega int_laws) k in
    omega (int_laws, n, ap pos_part (sub_*ℤ b a c), ap neg_part (sub_*ℤ b a c))
