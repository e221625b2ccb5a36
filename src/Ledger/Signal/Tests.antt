-- ===== src/Ledger/Signal/Tests.antt =====
-- `signal` on the quotes of bot/ledger.py's scenarios, and the theorems there.
use cross_arb.Prelude.{◌≡◌, refl, true, false, some}
use cross_arb.Prelude.Int.{pos, ◌+ℤ◌, ◌-ℤ◌, ◌*ℤ◌, ◌≤ℤ◌, ◌<ℤ◌}
use cross_arb.Prelude.Int.Rounding.{scale, round_div, neg}
use cross_arb.Ledger.Units.{one, value, round4}
use cross_arb.Ledger.Fees.{kfee, pfee, inside, variance}
use cross_arb.Ledger.Signal.{Quotes, dir_p, dir_k, signal, edge_p, edge_k}
use cross_arb.Ledger.Signal.Best.{venue_crossed, IsArb, edge_of, signal-IsArb, signal_best}

abbrev morning : Quotes
morning = record {
  p_yb = some (pos 5900);
  p_ya = some (pos 6100);
  k_yb = some (pos 6700);
  k_ya = some (pos 7000);
}

signal_runs :
    ((signal morning).dir ≡ dir_p)
    × ((signal morning).net_edge ≡ pos 326)
    × ((signal morning).no_arb ≡ false)
    × ((signal (record morning { p_yb = some (pos 6200) })).crossed ≡ true)
unfolding signal edge_p edge_k pfee kfee inside variance value round4 scale round_div neg ◌+ℤ◌ ◌-ℤ◌
    ◌*ℤ◌
signal_runs = (refl, refl, refl, refl)

signal-IsArb_example : (venue_crossed morning ≡ false) × IsArb morning (signal morning)
signal-IsArb_example = signal-IsArb morning signal_runs.2

signal_best_example :
    (round4 (edge_of dir_k (pos 7000) (one -ℤ pos 5900)) ≤ℤ (signal morning).net_edge)
    × (pos 0 <ℤ round4 (edge_of dir_k (pos 7000) (one -ℤ pos 5900))
        → (signal morning).no_arb ≡ false)
signal_best_example = signal_best morning dir_k (pos 7000) (pos 5900) refl (refl, refl)
