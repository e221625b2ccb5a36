-- ===== src/Monitor/Depth/Tests.antt =====
-- The depth walk on small ladders.
use cross_arb.Prelude.{◌≡◌, refl, some, [], ◌∷◌, insert, arith}
use cross_arb.Prelude.Int.{pos, ◌+ℤ◌, ◌-ℤ◌}
use cross_arb.Monitor.Depth.{Pairs, Totals, depth_curve}
use cross_arb.Monitor.Depth.Walk.{total}
use cross_arb.Monitor.Depth.Curve.{Fits, depth_curve-Fits}

abbrev asks_a : Pairs
asks_a = (pos 6100, pos 5000) ∷ (pos 6200, pos 10000) ∷ []

abbrev asks_b : Pairs
asks_b = (pos 3600, pos 8000) ∷ (pos 3800, pos 20000) ∷ []

-- 80 pairs at an edge of 2 cents or more, and 150 at 0 or more.
depth_runs :
    depth_curve asks_a asks_b (pos 200) (pos 100 ∷ pos 0 ∷ [])
    ≡ some ((pos 200, pos 8000) ∷ (pos 100, pos 8000) ∷ (pos 0, pos 15000) ∷ [])
unfolding depth_curve insert ◌+ℤ◌ ◌-ℤ◌
depth_runs = refl

-- A threshold that comes twice is one key, and counts twice.
twice_runs :
    depth_curve ((pos 6100, pos 1000) ∷ []) ((pos 3600, pos 1000) ∷ []) (pos 0) (pos 0 ∷ [])
    ≡ some ((pos 0, pos 2000) ∷ [])
unfolding depth_curve insert ◌+ℤ◌ ◌-ℤ◌
twice_runs = refl

depth_curve-Fits_example :
    (r : Totals) × (depth_curve asks_a asks_b (pos 200) (pos 100 ∷ pos 0 ∷ []) ≡ some r)
    × Fits (total asks_a) (total asks_b) (pos 200 ∷ pos 100 ∷ pos 0 ∷ []) r
depth_curve-Fits_example =
    depth_curve-Fits asks_a asks_b (pos 200) (pos 100 ∷ pos 0 ∷ []) (omega arith) (omega arith)
      (omega arith)
