-- ===== src/Ledger/Units.antt =====
-- The decimal units of bot/ledger.py: a price in 1/10000 dollar, a size in 1/100 contract, and money in
-- 10^-14 dollar, in which every product of the module (a rate, a size, p and 1 - p) is whole.
use cross_arb.Prelude.{ℕ, ◌^◌}
use cross_arb.Prelude.Int.{ℤ, pos, ◌*ℤ◌}
use cross_arb.Prelude.Int.Rounding.{scale, round_div}

-- One dollar as a price, and one contract as a size.
abbrev pub one : ℤ
one = pos 10000

abbrev pub contract : ℤ
contract = pos 100

-- One cent, and the 1e-9 cent by which the code guards `math.ceil`, as money.
abbrev pub cent : ℕ
cent = 10 ^ 12

abbrev pub ceil_slack : ℤ
ceil_slack = pos 1000

-- The cost of a size at a price, as money.
unfoldable pub value : ℤ → ℤ → ℤ
value price size = scale (10 ^ 8) (price *ℤ size)

-- `round(x, 4)`, which is a price again, and `round(x, 3)`, which is in mills.
unfoldable pub round4 : ℤ → ℤ
unfolding round_div
round4 x = round_div x (10 ^ 10)

unfoldable pub round3 : ℤ → ℤ
unfolding round_div
round3 x = round_div x (10 ^ 11)
