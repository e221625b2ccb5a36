-- ===== src/Monitor/Game/Tests.antt =====
-- A game of bot/monitor.py's own test, and the theorems there.
use cross_arb.Prelude.{true, some}
use cross_arb.Prelude.Int.{pos}
use cross_arb.Monitor.Edge.{EdgeState}
use cross_arb.Monitor.Game.{Hedge, pk, hedge_keys, GameTracker, init, set_pm}

abbrev back_a_at_p : EdgeState Hedge
back_a_at_p = record { arb = true; dir = pk; net = pos 202 }

abbrev game : GameTracker
game = set_pm (init "nyy-bos" "K-NYY" "K-BOS") (some (pos 4800)) (some (pos 5000)) (pos 7000)
