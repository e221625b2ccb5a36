-- ===== src/Monitor/Market/Tests.antt =====
-- The log of one market over two frames, of which the second has no readable price at its top.
use cross_arb.Prelude.{ℕ, ◌≡◌, none, some, List, [], ◌∷◌}
use cross_arb.Prelude.Int.{pos}
use cross_arb.Ledger.Fees.{poly, kalshi}
use cross_arb.Monitor.Edge.{Level}
use cross_arb.Monitor.Edge.Replay.{view}
use cross_arb.Monitor.Market.{init, edge_part, dir_keys}
use cross_arb.Monitor.Market.Log.{Frame, watch, watch-view}

abbrev level : ℕ → Level
level p = record { px = some (pos p); qty = some (pos 10000) }

abbrev frames : List Frame
frames =
    record {
      venue = poly;
      bids = some (level 5900 ∷ []);
      offers = some (level 6100 ∷ []);
      now = pos 1000;
      now' = pos 1001;
    }
    ∷ record {
      venue = kalshi;
      bids = some (level 6700 ∷ []);
      offers = some (record { px = none; qty = none } ∷ []);
      now = pos 2000;
      now' = pos 2001;
    }
    ∷ []

watch-view_example :
    (watch (init "NYC-high-72") (view (edge_part (init "NYC-high-72").state)) frames).1
    ≡ view (
        edge_part
          (watch (init "NYC-high-72") (view (edge_part (init "NYC-high-72").state)) frames).0.state)
watch-view_example = watch-view frames (init "NYC-high-72")
