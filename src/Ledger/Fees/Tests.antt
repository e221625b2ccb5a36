-- ===== src/Ledger/Fees/Tests.antt =====
-- The fees that bot/ledger.py asserts in its own run, and the theorems at concrete prices.
use cross_arb.Prelude.{◌*◌, ◌≡◌, refl, true, false}
use cross_arb.Prelude.Int.{ℤ, pos, ◌+ℤ◌, ◌-ℤ◌, ◌*ℤ◌, ◌≤ℤ◌, ◌<ℤ◌}
use cross_arb.Prelude.Int.Rounding.{scale, ceil_div, neg}
use cross_arb.Ledger.Units.{cent, ceil_slack}
use cross_arb.Ledger.Fees.{inside, variance, taker_rate, kfee}
use cross_arb.Ledger.Fees.Bounds.{kfee_order}

-- $1.75 for 100 contracts at 50 cents as a taker, $0.44 as a maker, and 1.75 cents for one, unrounded.
kfee_runs :
    (kfee (pos 5000) (pos 10000) true false ≡ pos (175 * cent))
    × (kfee (pos 5000) (pos 10000) false false ≡ pos (44 * cent))
    × (scale 100 (kfee (pos 5000) (pos 100) true true) ≡ pos (175 * cent))
unfolding kfee inside variance scale ceil_div neg ◌-ℤ◌ ◌*ℤ◌
kfee_runs = (refl, refl, refl)

fifty-inside : inside (pos 5000) ≡ true
unfolding inside
fifty-inside = refl

kfee_order_example :
    (c : ℤ) × (kfee (pos 5000) (pos 10000) true false ≡ scale cent c)
    × (scale (taker_rate true) (variance (pos 5000) (pos 10000)) ≤ℤ scale cent c +ℤ ceil_slack)
    × (scale cent c +ℤ ceil_slack
        <ℤ scale (taker_rate true) (variance (pos 5000) (pos 10000)) +ℤ pos cent)
kfee_order_example = kfee_order (pos 5000) (pos 10000) true fifty-inside
