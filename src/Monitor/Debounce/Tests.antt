-- ===== src/Monitor/Debounce/Tests.antt =====
-- The debouncer on the runs of bot/monitor.py's own test, and the theorems there.
use cross_arb.Prelude.{
  ◌≡◌, refl, none, some, List, [], ◌∷◌, String, lookup, insert, erase, string_keys, All, arith,
}
use cross_arb.Prelude.Int.{pos, ◌-ℤ◌}
use cross_arb.Ledger.Signal.{Dir, dir_p, dir_k}
use cross_arb.Monitor.Edge.{opened, closed, flipped}
use cross_arb.Monitor.Edge.Replay.{read}
use cross_arb.Monitor.Market.{dir_keys}
use cross_arb.Monitor.Debounce.{FlipDebouncer, Event, init, feed, flush, on_open}
use cross_arb.Monitor.Debounce.View.{Agrees, read_events, feed-Agrees}
use cross_arb.Monitor.Debounce.Flush.{Overdue, in_time, flush-Overdue, flush-Agrees}
use cross_arb.Monitor.Debounce.Dropped.{fed, flushed, IsOther, logged, feed_drops_close}

-- States that are only a direction.
abbrev same : Dir → Dir
same d = d

abbrev after_open : FlipDebouncer Dir Dir
after_open = (feed same (init (pos 1000)) (some (opened, dir_p)) "m" (pos 0)).0

abbrev after_close : FlipDebouncer Dir Dir
after_close = (feed same after_open (some (closed, dir_p)) "m" (pos 100)).0

-- An opposite OPEN within the window is one FLIP, the same one is suppressed, and a CLOSE that outlasts the
-- window is flushed with the moment of its detection.
debounce_runs :
    ((feed same after_close (some (opened, dir_k)) "m" (pos 300)).1
      ≡ record { label = flipped; state = dir_k; key = "m"; t = pos 300 } ∷ [])
    × ((feed same after_close (some (opened, dir_p)) "m" (pos 300)).1 ≡ [])
    × ((flush after_close (pos 1100)).1 ≡ [])
    × ((flush after_close (pos 1500)).1
        ≡ record { label = closed; state = dir_p; key = "m"; t = pos 100 } ∷ [])
unfolding feed flush on_open init lookup insert erase ◌-ℤ◌
debounce_runs = (refl, refl, refl, refl)

feed-Agrees_example :
    let (d', events) = feed same (init (pos 1000)) (some (opened, dir_p)) "m" (pos 0) in
    Agrees same d' "m" (read none (some opened) dir_p) (read_events same "m" none events)
unfolding init lookup
feed-Agrees_example =
    feed-Agrees same (init (pos 1000)) opened dir_p "m" (pos 0) none none refl (refl, refl)

after_close-Agrees : Agrees same after_close "m" none (some dir_p)
unfolding feed on_open init lookup insert erase
after_close-Agrees = (refl, refl, refl, (dir_p, refl))

flush-Agrees_example :
    Agrees same
      (flush after_close (pos 1500)).0
      "m"
      none
      (read_events same "m" (some dir_p) (flush after_close (pos 1500)).1)
unfolding feed on_open init lookup insert erase
flush-Agrees_example =
    flush-Agrees same after_close (pos 1500) "m" none (some dir_p) (refl, tt) after_close-Agrees

flush-Overdue_example :
    All (Overdue after_close (pos 1500)) (flush after_close (pos 1500)).1
    × ((k : String)
        → lookup k (flush after_close (pos 1500)).0.pending
          ≡ in_time after_close.window (pos 1500) (lookup k after_close.pending))
unfolding feed on_open init lookup insert erase
flush-Overdue_example = flush-Overdue after_close (pos 1500) (refl, tt)

-- The CLOSE of 100 is never logged: an OPEN at 1300 comes before the flush at 1400.
feed_drops_close_example :
    (rest : List (Event Dir)) × (logged same after_close
        (fed (some (opened, dir_k)) "m" (pos 1300) ∷ flushed (pos 1400) ∷ [])
      ≡ record { label = opened; state = dir_k; key = "m"; t = pos 1300 } ∷ rest)
    × All (IsOther "m" (pos 100)) rest
unfolding feed on_open init lookup insert erase ◌-ℤ◌
feed_drops_close_example =
    feed_drops_close same after_close dir_k dir_p "m" (pos 1300) (pos 100) (some dir_p)
      (flushed (pos 1400) ∷ []) (refl, tt) refl (omega arith) (tt, tt)
