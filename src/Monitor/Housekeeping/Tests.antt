-- ===== src/Monitor/Housekeeping/Tests.antt =====
-- A slug that goes missing for two heartbeats, its removal, a poll of trades, a scheduled fee change, and a
-- heartbeat over the ladders of one market.
use cross_arb.Prelude.{
  ℕ, Dict, insert, ◌-◌, ◌/◌, ◌≡◌, ◌=?◌, refl, true, Option, none, some, List, [], ◌∷◌, String,
  string_keys, nat_keys, elem, lookup, if◌then◌else◌, arith,
}
use cross_arb.Prelude.Int.{pos}
use cross_arb.Prelude.Int.Rounding.{round_div, round_half_even, to_nearest}
use cross_arb.Monitor.Housekeeping.Prune.{Beat, prune_decision, prune_decision_iff, absent_after}
use cross_arb.Monitor.Housekeeping.Teardown.{Live}
use cross_arb.Monitor.Housekeeping.Trades.{
  Print, init, min_ts, seen, add_all, newest, last_time, seen-add_all,
}
use cross_arb.Monitor.Edge.{Attempt, ok, raised}
use cross_arb.Monitor.Housekeeping.Paging.{Page, fetch_k_trades, fetch_k_trades_lem, cut}
use cross_arb.Monitor.Market as Market
use cross_arb.Monitor.Market.{MarketTracker}
use cross_arb.Monitor.Housekeeping.Ladders.{
  Ladders, ladder_cents, cents_of, wx_ladders, hb_each, hb_ladder_pass, hb_ladder_pass_lem, shown,
  changes,
}

-- Found, missed, missed.
abbrev beats : List Beat
beats = ("a" ∷ "b" ∷ [], "a" ∷ "b" ∷ []) ∷ ("a" ∷ "b" ∷ [], "a" ∷ []) ∷ []

prune_decision_iff_example :
    elem "b" (prune_decision ("a" ∷ "b" ∷ []) ("a" ∷ []) (absent_after 2 [] beats) 2).1 ≡ true
prune_decision_iff_example =
    prune_decision_iff 2 beats ("a" ∷ "b" ∷ []) ("a" ∷ []) "b"
      ((refl, (refl, tt)), ((refl, (refl, tt)), tt)) (refl, (refl, tt))

abbrev live : Live ℕ ℕ ℕ ℕ ℕ ℕ
live = record {
  pm_targets = ("a", 1) ∷ ("b", 2) ∷ [];
  k_targets = ("KA", 1) ∷ ("KB1", 2) ∷ ("KB2", 3) ∷ [];
  books = ("KB1", 5) ∷ ("KA", 4) ∷ [];
  slug_k = ("a", "KA" ∷ []) ∷ ("b", "KB1" ∷ "KB2" ∷ []) ∷ [];
  deb = record { window = pos 1000; last_arb_dir = ("b", 7) ∷ []; pending = [] };
  absent = ("a", 0) ∷ ("b", 2) ∷ [];
  wx = none;
}

abbrev prints : List Print
prints = (some "x", 5200000) ∷ (none, 5300000) ∷ (some "y", 6100000) ∷ []

seen-add_all_example :
    (seen (add_all (init 0) prints) (some "x") ≡ true)
    × (min_ts (add_all (init 0) prints) ≡ newest 0 prints / 1000000 - 1)
unfolding init min_ts add_all last_time
seen-add_all_example = seen-add_all 0 prints "x" 5200000 refl refl (omega arith)

-- A weather market whose Kalshi bid has moved since the last pass, and a market that is gone.
abbrev moved : MarketTracker
moved = record (Market.init "tc-temp-nyc") {
  k_books = record {
    bids = some (record { px = some (pos 4200); qty = some (pos 1250) } ∷ []);
    offers = none;
  };
}

abbrev stored : Dict String Ladders
stored = ("gone", wx_ladders moved) ∷ ("tc-temp-nyc", wx_ladders (Market.init "tc-temp-nyc")) ∷ []

hb_ladder_pass_lem_example :
    ((m : String)
      → lookup m (hb_ladder_pass (("tc-temp-nyc", moved) ∷ []) stored).0
        ≡ shown (lookup m (("tc-temp-nyc", moved) ∷ [])) none)
    × ((hb_ladder_pass (("tc-temp-nyc", moved) ∷ []) stored).1
        ≡ changes (("tc-temp-nyc", moved) ∷ []) stored)
unfolding lookup
hb_ladder_pass_lem_example = hb_ladder_pass_lem (("tc-temp-nyc", moved) ∷ []) stored (refl, tt)

-- 42 cents, and 12.5 contracts to the tenth.
ladder_runs :
    (hb_ladder_pass (("tc-temp-nyc", moved) ∷ []) stored).1
    ≡ ("tc-temp-nyc", record { pb = []; pa = []; kb = (pos 42, pos 125) ∷ []; ka = [] }) ∷ []
unfolding Market.init hb_ladder_pass hb_each wx_ladders ladder_cents cents_of round_div
    round_half_even to_nearest lookup insert
ladder_runs = refl

-- Two full pages and a last one, of which two may be asked for.
abbrev pages_at : Option String → Attempt (Page ℕ)
pages_at none = ok (record { trades = some (9 ∷ 8 ∷ []); cursor = some "c1" })
pages_at (some c) =
    if c =? "c1"
    then ok (record { trades = some (7 ∷ 6 ∷ []); cursor = some "c2" })
    else if c =? "c2"
    then ok (record { trades = some (5 ∷ []); cursor = some "" })
    else raised

fetch_k_trades_lem_example :
    fetch_k_trades pages_at 2 2 ≡ ok (cut 2 ((9 ∷ 8 ∷ []) ∷ (7 ∷ 6 ∷ []) ∷ (5 ∷ []) ∷ []))
fetch_k_trades_lem_example =
    fetch_k_trades_lem pages_at 2 2 (9 ∷ 8 ∷ []) ((7 ∷ 6 ∷ []) ∷ (5 ∷ []) ∷ [])
      ("c1", refl, refl, omega arith, ("c2", refl, refl, omega arith, (some "", refl, refl)))
