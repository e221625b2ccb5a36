-- ===== src/Monitor/Live/Frames.antt =====
-- What a frame of a venue does in `run_live` of bot/monitor.py: the closures that `register` makes and `emit`.
-- Every reading of the clock is an argument.
pub mod Local
pub mod Wired
use cross_arb.Prelude.{
  ℕ, ◌≡◌, ◌↔◌, refl, Bool, true, false, Option, none, some, List, [], ◌∷◌, ◌++◌, map, String, Eq,
  ◌=?◌, string_keys, nat_keys, Dict, lookup, insert, contains, is_some, arith, if◌then◌else◌,
}
use cross_arb.Prelude.Int.{ℤ}
use cross_arb.Ledger.Fees.{poly, kalshi}
use cross_arb.Ledger.Signal.{Dir}
use cross_arb.Kalshi.Book.{KalshiBook, yes_bid_ladder, yes_offer_ladder, best}
use cross_arb.Gates.Clusters.{date_text}
use cross_arb.Monitor.Edge.{Attempt, ok, raised, ◌>>=◌, Level, Ladder, Transition, best_px}
use cross_arb.Monitor.Depth.{DepthDict}
use cross_arb.Monitor.Debounce.{FlipDebouncer, Event, feed, flush}
use cross_arb.Monitor.Market as Market
use cross_arb.Monitor.Market.{MarketTracker, MarketState, Age, same_dir, dir_keys}
use cross_arb.Monitor.Game as Game
use cross_arb.Monitor.Game.{
  GameTracker, GameState, Hedge, Team, team_a, team_b, same_hedge, hedge_keys,
}
use cross_arb.Monitor.Housekeeping.Teardown.{Live, row}
use cross_arb.Monitor.Housekeeping.Ladders.{Ladders, wx_ladders}
use cross_arb.Monitor.Live.Registry.{
  Closure, Handler, World, Tracker, market_tracker, game_tracker, market_pm, market_k, game_pm,
  game_k,
}
use cross_arb.Monitor.Live.Rows.{
  AnyDir, same_any, same_any_iff, any_dir_keys, AnyState, Noted, any_dir, dir_of, net_of, depth_of,
  age_of, event_partition, Row, transition_row, ladder_row, write_row, ladder_rows, write_event,
  write_all,
}

abbrev pub LiveWorld : Type 0
LiveWorld = World Noted AnyDir

-- A frame's outcome: the new world, what was logged, and whether a closure raised.
pub record Outcome : Type 0 where
  pub world : LiveWorld
  pub rows : List Row
  pub raised : Bool

-- The readings of the clock by the setter, by `evaluate` and by `emit`.
pub record Clock : Type 0 where
  pub at_set : ℤ
  pub at_evaluate : ℤ
  pub at_emit : ℤ

abbrev stash_of : Option Tracker → Option Ladders
stash_of (some (market_tracker trk)) = some (wx_ladders trk)
stash_of _ = none

abbrev tracker_at : Option ℕ → Dict ℕ Tracker → Option Tracker
tracker_at none heap = none
tracker_at (some i) heap = lookup i heap

-- The ladders of a market that is in the weather registry.
abbrev stash : LiveWorld → String → Option Ladders
stash w key = stash_of (tracker_at (row key w.live.wx) w.heap)

abbrev with_label : Option Transition → Option Noted → Option (Transition × Noted)
with_label (some label) (some s) = some (label, s)
with_label _ _ = none

abbrev set_deb : LiveWorld → FlipDebouncer Noted AnyDir → LiveWorld
set_deb w deb = record w { live = record w.live { deb = deb } }

-- `emit`: there is a state wherever there is a label.
pub emit : LiveWorld → Option Transition → Option AnyState → String → ℤ → Outcome
unfolding write_all
emit w label none key now = record { world = w; rows = []; raised = false }
emit w label (some s) key now =
    let note : Noted = record { state = s; lad = stash w key } in
    let (deb, events) = feed dir_of w.live.deb (with_label label (some note)) key now in
    record { world = set_deb w deb; rows = write_all events; raised = false }

abbrev put : LiveWorld → ℕ → Tracker → LiveWorld
put w i t = record w { heap = insert i t w.heap }

abbrev fail : LiveWorld → Outcome
fail w = record { world = w; rows = []; raised = true }

abbrev market_states : Option MarketState → Option AnyState
market_states none = none
market_states (some s) = some (AnyState.of_market s)

abbrev game_states : Option GameState → Option AnyState
game_states none = none
game_states (some s) = some (AnyState.of_game s)

-- `emit(*trk.evaluate(), key)` after a `set_book`, which stands if the evaluation raises.
pub run_market :
    LiveWorld
    → ℕ
    → String
    → MarketTracker
    → Attempt (MarketTracker × Option Transition × Option MarketState)
    → Clock
    → Outcome
unfolding emit
run_market w i key trk raised c = fail (put w i (market_tracker trk))
run_market w i key trk (ok (trk', label, new)) c =
    emit (put w i (market_tracker trk')) label (market_states new) key c.at_emit

pub run_game : LiveWorld → ℕ → String → GameTracker → Clock → Outcome
unfolding emit
run_game w i key g c =
    let (g', label, new) = Game.evaluate g c.at_evaluate in
    emit (put w i (game_tracker g')) label (game_states new) key c.at_emit

-- The prices of a frame for a game, which raise before anything is set.
pub run_game_pm :
    LiveWorld
    → ℕ
    → String
    → GameTracker
    → Attempt (Option ℤ × Option ℤ)
    → Ladder
    → Ladder
    → Clock
    → Outcome
unfolding run_game
run_game_pm w i key g raised b o c = fail w
run_game_pm w i key g (ok (bid, ask)) b o c =
    run_game w i key (Game.feed_pm (Game.set_pm g bid ask c.at_set) b o) c

best_both : Ladder → Ladder → Attempt (Option ℤ × Option ℤ)
best_both b o = do bid ← best_px b; ask ← best_px o; ok (bid, ask)

-- `pm_fn` of a market or of a game.
pub call_pm : LiveWorld → Closure → Option Tracker → Ladder → Ladder → Clock → Outcome
unfolding run_market run_game_pm best_both
call_pm w f (some (market_tracker trk)) b o c =
    let trk' = Market.set_book trk poly b o c.at_set in
    run_market w f.trk f.key trk' (Market.evaluate trk' c.at_evaluate) c
call_pm w f (some (game_tracker g)) b o c = run_game_pm w f.trk f.key g (best_both b o) b o c
call_pm w f none b o c = fail w

routed_pm : LiveWorld → Option Closure → Ladder → Ladder → Clock → Outcome
unfolding call_pm
routed_pm w none b o c = record { world = w; rows = []; raised = false }
routed_pm w (some f) b o c = call_pm w f (lookup f.trk w.heap) b o c

-- A frame of `pmus_stream`: the closure that its `marketSlug` leads to, if there is one.
pub pm_frame : LiveWorld → String → Ladder → Ladder → Clock → Outcome
unfolding routed_pm
pm_frame w slug b o c = routed_pm w (lookup slug w.live.pm_targets) b o c

-- A rung of a Kalshi ladder, whose texts are always numbers.
abbrev as_level : ℤ × ℤ → Level
as_level (p, q) = record { px = some p; qty = some q }

-- `k_fn`, `ka_fn` or `kb_fn`.
pub call_k : LiveWorld → Closure → Handler → Option Tracker → KalshiBook → Clock → Outcome
unfolding run_market run_game
call_k w f handler (some (market_tracker trk)) book c =
    let trk' =
      Market.set_book trk kalshi (some (map as_level (yes_bid_ladder book)))
        (some (map as_level (yes_offer_ladder book))) c.at_set in
    run_market w f.trk f.key trk' (Market.evaluate trk' c.at_evaluate) c
call_k w f (game_k team) (some (game_tracker g)) book c =
    let g' = Game.feed_kalshi (Game.set_kalshi g team (best book).1 c.at_set) team book in
    run_game w f.trk f.key g' c
call_k w f handler _ book c = fail w

-- `k_targets.get(tk)`, and the call.
unfoldable pub routed_k : LiveWorld → Option Closure → KalshiBook → Clock → Outcome
unfolding call_k
routed_k w none book c = record { world = w; rows = []; raised = false }
routed_k w (some f) book c = call_k w f f.handler (lookup f.trk w.heap) book c

-- One tick of `flusher`.
pub flush_tick : LiveWorld → ℤ → Outcome
unfolding write_all
flush_tick w now =
    let (deb, events) = flush w.live.deb now in
    record { world = set_deb w deb; rows = write_all events; raised = false }
