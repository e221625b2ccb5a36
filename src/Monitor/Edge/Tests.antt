-- ===== src/Monitor/Edge/Tests.antt =====
-- Labels of bot/monitor.py's own test, and what a reader of the log makes of one.
use cross_arb.Prelude.{◌≡◌, refl, true, none, some}
use cross_arb.Prelude.Int.{pos, ◌-ℤ◌}
use cross_arb.Ledger.Signal.{Dir, dir_p, dir_k}
use cross_arb.Monitor.Edge.{EdgeState, opened, flipped, widened, classify}
use cross_arb.Monitor.Market.{dir_keys}

abbrev cheap_p : EdgeState Dir
cheap_p = record { arb = true; dir = dir_p; net = pos 326 }

abbrev cheap_k : EdgeState Dir
cheap_k = record { arb = true; dir = dir_k; net = pos 530 }

classify_runs :
    (classify none (some cheap_p) ≡ some opened)
    × (classify (some cheap_p) (some cheap_k) ≡ some flipped)
    × (classify (some cheap_p) (some (record cheap_p { net = pos 346 })) ≡ none)
    × (classify (some cheap_p) (some (record cheap_p { net = pos 347 })) ≡ some widened)
unfolding classify ◌-ℤ◌
classify_runs = (refl, refl, refl, refl)
