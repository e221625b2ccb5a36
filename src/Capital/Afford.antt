-- ===== src/Capital/Afford.antt =====
-- What the cost and the profit of a contract guarantee, and what a bankroll can buy.
use cross_arb.Prelude.{ℕ, ◌≡◌, ap, arith}
use cross_arb.Prelude.Int.{
  ℤ, pos, negsuc, pos_part, neg_part, ◌-ℤ◌, ◌*ℤ◌, ◌≤ℤ◌, ◌<ℤ◌, max_ℤ, int_laws, *ℤ_mono, *ℤ_pos,
  *ℤ_parts,
}
use cross_arb.Prelude.Int.Rounding.{scale, floor_div, floor_div_bound, scale_laws}
use cross_arb.Persistence.Episodes.{Episode}
use cross_arb.Capital.Economics.{cost_per, profit_per}

-- A price is positive.
pub cost_per_pos : (e : Episode) → pos 0 <ℤ cost_per e
unfolding cost_per
cost_per_pos e =
    *ℤ_pos (pos 200) (max_ℤ (pos 1000) (pos 10000 -ℤ e.open_net)) (omega arith) (ground arith)

pub profit_per_nonneg :
    (e : Episode) (haircut void_mult : ℤ) → pos 0 ≤ℤ profit_per e haircut void_mult
unfolding profit_per
profit_per_nonneg e haircut void_mult = ground arith

*ℤ-scale : (d : ℕ) (x : ℤ) → x *ℤ pos d ≡ scale d x
*ℤ-scale d x = omega (scale_laws, *ℤ_parts x (pos d))

-- What can be bought for the cash costs no more than it.
pub affordable :
    (cash size cost : ℤ)
    → pos 0 <ℤ cost
    → size ≤ℤ floor_div cash (pos_part cost)
    → size *ℤ cost ≤ℤ cash
affordable cash size (negsuc d) h k = absurd (omega arith)
affordable cash size (pos d) h k =
    let times = *ℤ_mono size (floor_div cash d) (pos d) k (omega arith) in
    let whole = *ℤ-scale d (floor_div cash d) in
    let floor = floor_div_bound cash d (omega arith) in
    omega (int_laws, times, floor, ap pos_part whole, ap neg_part whole)
