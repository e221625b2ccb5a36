-- ===== src/Ledger/Account/Tests.antt =====
-- Runs of bot/ledger.py on the quotes of its own scenarios, and the theorems at concrete ledgers.
use cross_arb.Prelude.{ℕ, ◌+◌, ◌≡◌, refl, true, false, none, some, List, [], ◌∷◌, length}
use cross_arb.Prelude.Int.{pos, ◌+ℤ◌, ◌-ℤ◌, ◌*ℤ◌, ◌≤ℤ◌, min_ℤ}
use cross_arb.Prelude.Int.Rounding.{scale, round_div, ceil_div, neg}
use cross_arb.Ledger.Units.{value, round3, round4}
use cross_arb.Ledger.Fees.{fee, kfee, pfee, inside, variance}
use cross_arb.Ledger.Signal.{Quotes, dir_p, dir_k, signal, edge_p, edge_k}
use cross_arb.Ledger.Account.{
  Ledger, Entry, Result, Error, ok, raise, rejected_book, type_error, Outcome, yes_wins, no_wins,
  init, enter, legs, chosen, book_legs, book_pair, settlement_pnl, sum_net_edges, mtm, unwind_all,
  redeem_poly_sets, settled,
}
use cross_arb.Ledger.Account.Settlement.{Order, NotForced, enter_all, enter_all_settles}
use cross_arb.Ledger.Account.Rotation.{unwind_all-mtm, redeem_poly_sets-settled}
use cross_arb.Ledger.Account.Guards.{IsBooked, enter-IsBooked}

abbrev quotes : ℕ → ℕ → ℕ → ℕ → Quotes
quotes p_yb p_ya k_yb k_ya = record {
  p_yb = some (pos p_yb);
  p_ya = some (pos p_ya);
  k_yb = some (pos k_yb);
  k_ya = some (pos k_ya);
}

abbrev morning : Quotes
morning = quotes 5900 6100 6700 7000

abbrev flipped_quotes : Quotes
flipped_quotes = quotes 7000 7200 6000 6200

abbrev order : Quotes → Order
order px = record { px = px; size = pos 10000; direction = none; t = none; force = false }

abbrev got : Result Ledger → Ledger
got (ok l) = l
got (raise err) = init ""

abbrev orders : List Order
orders = order morning ∷ order flipped_quotes ∷ []

abbrev layered : Ledger
layered = got (enter_all (init "S2") orders)

layered-runs : enter_all (init "S2") orders ≡ ok layered
unfolding enter_all enter book_legs book_pair legs signal edge_p edge_k pfee kfee fee inside
    variance value round3 round4 scale round_div ceil_div neg init ◌+ℤ◌ ◌-ℤ◌ ◌*ℤ◌
layered-runs = refl

-- The flipped layers settle at $8.56, the sum of their edges, in mills.
layered_pnl :
    (settlement_pnl layered yes_wins ≡ pos 8560) × (sum_net_edges layered.entries ≡ pos 8560)
unfolding settlement_pnl settled sum_net_edges enter_all enter book_legs book_pair legs signal
    edge_p edge_k pfee kfee fee inside variance value round3 round4 scale round_div ceil_div neg
    init ◌+ℤ◌ ◌-ℤ◌ ◌*ℤ◌
layered_pnl = (refl, refl)

enter_all_settles_example :
    (settlement_pnl layered yes_wins ≡ settlement_pnl layered no_wins)
    × (scale 2 (settlement_pnl layered yes_wins)
        ≤ℤ scale 2 (sum_net_edges layered.entries) +ℤ pos (length orders + 1))
    × (scale 2 (sum_net_edges layered.entries)
        ≤ℤ scale 2 (settlement_pnl layered yes_wins) +ℤ pos (length orders + 1))
    × (NotForced orders → pos 0 ≤ℤ settlement_pnl layered yes_wins)
enter_all_settles_example = enter_all_settles "S2" orders layered layered-runs

unwind_all-mtm_example :
    (settlement_pnl (unwind_all layered morning).0 yes_wins ≡ mtm layered morning)
    × (mtm (unwind_all layered morning).0 flipped_quotes ≡ mtm layered morning)
    × ((unwind_all (unwind_all layered morning).0 flipped_quotes).1 ≡ pos 0)
unwind_all-mtm_example = unwind_all-mtm layered morning flipped_quotes yes_wins

redeem_poly_sets-settled_example :
    let (l', m) = redeem_poly_sets layered in
    ((o : Outcome) → settlement_pnl l' o ≡ settlement_pnl layered o)
    × (min_ℤ l'.positions.p_yes l'.positions.p_no ≡ pos 0)
    × (l'.positions.p_yes -ℤ l'.positions.p_no ≡ layered.positions.p_yes -ℤ layered.positions.p_no)
redeem_poly_sets-settled_example = redeem_poly_sets-settled layered

enter-IsBooked_example :
    ((l' : Ledger) (e : Entry)
      → enter layered morning (pos 100) (some dir_k) none false ≡ ok (l', e)
      → ((signal morning).no_arb ≡ false)
        × ((signal morning).crossed ≡ false)
        × IsBooked morning (pos 100) (some dir_k) e)
    × ((err : Error)
        → enter layered morning (pos 100) (some dir_k) none true ≡ raise err
        → (err ≡ type_error) × (legs (chosen (some dir_k) (signal morning).dir) morning ≡ none))
enter-IsBooked_example = enter-IsBooked layered morning (pos 100) (some dir_k) none

-- A book that is crossed at Kalshi is refused, and a forced entry on a one-sided book raises.
refusals :
    (enter (init "x") (quotes 3000 3200 7000 6000) (pos 10000) none none false
      ≡ raise rejected_book)
    × (enter (init "x") (record morning { k_yb = none }) (pos 100) (some dir_p) none true
        ≡ raise type_error)
unfolding enter book_legs book_pair legs signal edge_p edge_k pfee kfee fee inside variance value
    round3 round4 scale round_div ceil_div neg init ◌+ℤ◌ ◌-ℤ◌ ◌*ℤ◌
refusals = (refl, refl)
