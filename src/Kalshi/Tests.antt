-- ===== src/Kalshi/Tests.antt =====
-- `SeqTracker` on the run of bot/kalshi_book.py's own test.
use cross_arb.Prelude.{◌≡◌, refl, true, false, [], ◌∷◌}
use cross_arb.Kalshi.Seq.{init, check, check_all}

gap_runs : (check_all init (1 ∷ 2 ∷ 3 ∷ []) ≡ true) × (check_all init (1 ∷ 2 ∷ 3 ∷ 7 ∷ []) ≡ false)
unfolding check_all check init
gap_runs = (refl, refl)
