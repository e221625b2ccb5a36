-- ===== src/Ledger/Fees/Bounds.antt =====
-- The whole-order rounding of the Kalshi fee, and the symmetry of both fees in the two outcomes.
use cross_arb.Prelude.{ℕ, ◌≡◌, ap, Bool, true, false, arith, Bool-cases, inl, inr}
use cross_arb.Prelude.Int.{
  ℤ, pos, negsuc, ◌+ℤ◌, ◌-ℤ◌, ◌*ℤ◌, ◌≤ℤ◌, ◌<ℤ◌, int_laws, *ℤ_comm, *ℤ_nonneg,
}
use cross_arb.Prelude.Int.Rounding.{scale, ceil_div, ceil_div_lower, ceil_div_upper, scale_laws}
use cross_arb.Ledger.Units.{one, contract, cent, ceil_slack}
use cross_arb.Ledger.Fees.{inside, variance, taker_rate, kfee, pfee}

-- For a price between 0 and 1 the fee of an order of any size is a whole number of cents: the exact fee,
-- rounded up, where an excess of up to 1e-9 cent over a whole number does not count.
pub kfee_order :
    (p n : ℤ) (taker : Bool)
    → inside p ≡ true
    → (c : ℤ) × (kfee p n taker false ≡ scale cent c)
      × (scale (taker_rate taker) (variance p n) ≤ℤ scale cent c +ℤ ceil_slack)
      × (scale cent c +ℤ ceil_slack <ℤ scale (taker_rate taker) (variance p n) +ℤ pos cent)
unfolding kfee
kfee_order p n taker h = (
  c,
  rw h,
  omega (scale_laws, ceil_div_lower x cent (omega arith)),
  omega (scale_laws, ceil_div_upper x cent (omega arith)),
)
  where
    x : ℤ
    x = scale (taker_rate taker) (variance p n) -ℤ ceil_slack

    c : ℤ
    c = ceil_div x cent

complement_twice : (p : ℤ) → one -ℤ (one -ℤ p) ≡ p
complement_twice p = omega int_laws

variance-complement : (p n : ℤ) → variance (one -ℤ p) n ≡ variance p n
unfolding variance
variance-complement p n = rw complement_twice (ap (λ x. n *ℤ x) (*ℤ_comm (one -ℤ p) p))

inside-complement : (p : ℤ) → inside (one -ℤ p) ≡ inside p
unfolding inside ◌-ℤ◌
inside-complement p = ground arith

-- The fee of a leg depends on the outcome neither way round: at a price and at its complement both venues
-- charge the same.
pub fee_complement :
    (p n : ℤ) (taker marginal : Bool)
    → (kfee (one -ℤ p) n taker marginal ≡ kfee p n taker marginal)
      × (pfee (one -ℤ p) n taker ≡ pfee p n taker)
unfolding kfee pfee
fee_complement p n taker marginal =
    (simp (inside-complement, variance-complement), simp (inside-complement, variance-complement))

inside→lt : (p : ℤ) → inside p ≡ true → p <ℤ one
unfolding inside
inside→lt p h = ground arith

variance_nonneg : (p n : ℤ) → inside p ≡ true → pos 0 ≤ℤ n → pos 0 ≤ℤ variance p n
unfolding variance inside
variance_nonneg p n i h =
    *ℤ_nonneg n (p *ℤ (one -ℤ p)) h
      (*ℤ_nonneg p (one -ℤ p) (ground arith) (omega (int_laws, inside→lt p i)))

scale_nonneg : (d : ℕ) (x : ℤ) → pos 0 ≤ℤ x → pos 0 ≤ℤ scale d x
unfolding scale
scale_nonneg d (pos n) h = omega arith
scale_nonneg d (negsuc n) h = absurd (omega arith)

kfee_nonneg :
    (p n : ℤ) (taker marginal : Bool)
    → inside p ≡ true
    → pos 0 ≤ℤ variance p n
    → pos 0 ≤ℤ kfee p n taker marginal
unfolding kfee
kfee_nonneg p n taker true i h = rw i (
    scale_nonneg (taker_rate taker) (variance p contract)
      (variance_nonneg p contract i (omega arith)))
kfee_nonneg p n taker false i h =
    let x = scale (taker_rate taker) (variance p n) in
    let lower = ceil_div_lower (x -ℤ ceil_slack) cent (omega arith) in
    rw i (omega (scale_laws, lower, scale_nonneg (taker_rate taker) (variance p n) h))

pfee_nonneg : (p n : ℤ) (taker : Bool) → inside p ≡ true → pos 0 ≤ℤ n → pos 0 ≤ℤ pfee p n taker
unfolding pfee
pfee_nonneg p n true i h = rw i (scale_nonneg 500 (variance p n) (variance_nonneg p n i h))
pfee_nonneg p n false i h = rw i (omega arith)

-- Neither venue pays an order to trade: for a size that is not negative both fees are not negative.
pub fee_nonneg :
    (p n : ℤ) (taker marginal : Bool)
    → pos 0 ≤ℤ n
    → (pos 0 ≤ℤ kfee p n taker marginal) × (pos 0 ≤ℤ pfee p n taker)
fee_nonneg p n taker marginal h = elim (Bool-cases (inside p)) [
  | inl i ↦ (kfee_nonneg p n taker marginal i (variance_nonneg p n i h), pfee_nonneg p n taker i h)
  | inr o ↦ (unfold kfee in rw o (omega arith), unfold pfee in rw o (omega arith))
]
