-- ===== src/Ledger/Fees.antt =====
-- `kfee` and `pfee` of bot/ledger.py, in money.
pub mod Bounds
mod Tests
use cross_arb.Prelude.{ℕ, ◌+◌, ◌*◌, ◌≡◌, refl, Bool, true, false, not, ◌&&◌, arith, if◌then◌else◌}
use cross_arb.Prelude.Int.{
  ℤ, pos, pos_part, neg_part, ◌+ℤ◌, ◌-ℤ◌, ◌*ℤ◌, ◌≤ℤ◌, ◌<ℤ◌, ltb_ℤ, int_laws,
}
use cross_arb.Prelude.Int.Rounding.{scale, ceil_div}
use cross_arb.Ledger.Units.{one, contract, cent, ceil_slack}

pub data Venue : Type 0 where
  poly kalshi : Venue

-- `0 < p < 1`
unfoldable pub inside : ℤ → Bool
inside p = ltb_ℤ (pos 0) p && ltb_ℤ p one

-- n p (1 - p)
unfoldable pub variance : ℤ → ℤ → ℤ
variance p n = n *ℤ (p *ℤ (one -ℤ p))

abbrev pub taker_rate : Bool → ℕ
taker_rate true = 700
taker_rate false = 175

-- Without `marginal` the whole order is rounded up to a cent; with it the fee of one contract is not
-- rounded. `n` is ignored there, as in the source.
unfoldable pub kfee : ℤ → ℤ → Bool → Bool → ℤ
kfee p n taker marginal =
    if inside p
    then (if marginal
        then scale (taker_rate taker) (variance p contract)
        else scale cent (ceil_div (scale (taker_rate taker) (variance p n) -ℤ ceil_slack) cent))
    else pos 0

unfoldable pub pfee : ℤ → ℤ → Bool → ℤ
pfee p n taker = if inside p then (if taker then scale 500 (variance p n) else pos 0) else pos 0

-- `FEE[venue](p, n)`: both with `taker=True`.
unfoldable pub fee : Venue → ℤ → ℤ → ℤ
fee poly p n = pfee p n true
fee kalshi p n = kfee p n true false
