-- ===== src/Monitor/Live/Weather/Tests.antt =====
-- Two weather markets, of which the second one's request fails, and a cursor of a ticker that is gone.
use cross_arb.Prelude.{
  ℕ, ◌≡◌, refl, Bool, true, false, Option, none, some, List, [], ◌∷◌, String, ◌=?◌, string_keys,
  nat_keys, array_keys, lookup, insert, contains, All, sort_by, insert_by, if◌then◌else◌,
}
use cross_arb.Prelude.Int.{pos}
use cross_arb.Prelude.Int.Rounding.{round_div, round_half_even, to_nearest}
use cross_arb.Monitor.Edge.{Attempt, ok, raised}
use cross_arb.Monitor.Housekeeping.Trades.{init, min_ts, seen, add}
use cross_arb.Monitor.Housekeeping.TradeLog.{Trade, TradeRec, trade_rec, ingest_trades, ingest_each}
use cross_arb.Monitor.Housekeeping.FeeWatch.{fresh, fee_tick}
use cross_arb.Monitor.Live.Registry.{
  Pair, Colisted, register, register_pairs, register_games, visit, collide, bind, route,
}
use cross_arb.Monitor.Live.Registry.Wired.{owner, key_of}
use cross_arb.Monitor.Live.Frames.{LiveWorld}
use cross_arb.Monitor.Live.Weather.{
  Times, Weather, Cycle, rows_of, first_ticker, wx_map, poll_ticker, poll_each, poll_trades, cycle,
}
use cross_arb.Monitor.Live.Weather.Filed.{HasOwner, Answers, AnswersOf, cycle_files}
use cross_arb.Monitor.Live.Runs.{start, boot, discover}

abbrev pair : String → String → Pair
pair slug kalshi = record { slug = slug; kalshi = kalshi }

abbrev markets : Colisted
markets = record {
  weather = pair "nyc" "KNY" ∷ pair "lax" "KLA" ∷ [];
  sports = [];
  econ = some (pair "cpi" "KCPI" ∷ []);
  soccer3 = none;
}

abbrev found : LiveWorld
found = (register (start (pos 1000)) markets).world

abbrev iso_unix : Option String → ℕ
iso_unix none = 0
iso_unix (some s) = if s =? "11" then 11000000 else 0

abbrev print : String → Trade
print ticker = record {
  ticker = some ticker;
  created_time = some "11";
  yes_price = some (pos 4100);
  count = some (pos 200);
  taker_side = some "yes";
  trade_id = some "x";
}

abbrev fetch : String → ℕ → Attempt (List Trade)
fetch tk from = if tk =? "KNY" then ok (print tk ∷ []) else raised

abbrev times : String → Times
times tk = record { at_contact = 400000000; at_ingest = 401000000 }

fetch-Answers : Answers fetch
fetch-Answers tk from = go (tk =? "KNY")
  where
    go : (b : Bool) → AnswersOf tk (if b then ok (print tk ∷ []) else raised)
    go true = (refl, tt)
    go false = tt

abbrev weather : Weather ℕ
weather = record {
  tstate = ("KGONE", init 5000000) ∷ ("KLA", init 9000000) ∷ [];
  hb_last = [];
  fee_state = fresh;
}

abbrev cycled : Cycle ℕ
cycled = cycle iso_unix fetch times found found (some []) weather

-- The print is filed under the slug, not the ticker; the cursor of the ticker that is gone goes, the one whose
-- request failed stays, and the new one is where its print has led it.
abbrev print_line : TradeRec
print_line = record {
  t = 401000;
  market = "nyc";
  ktk = some "KNY";
  vt = some "11";
  yes_c = pos 41;
  qty = pos 200;
  taker = some "yes";
  id = some "x";
}

cycle_runs :
    (cycled.trades ≡ print_line ∷ [])
    × (lookup "KLA" cycled.weather.tstate ≡ some (init 9000000))
    × (contains "KGONE" cycled.weather.tstate ≡ false)
    × (contains "KNY" cycled.weather.tstate ≡ true)
unfolding cycle poll_trades poll_each poll_ticker wx_map trade_rec ingest_trades ingest_each seen
    add init min_ts register register_pairs register_games visit collide bind route lookup insert
    start sort_by insert_by round_div round_half_even to_nearest fee_tick
cycle_runs = (refl, refl, refl, refl)

cycle_files_example :
    All (HasOwner found) cycled.trades
    × ((s tk : String)
        → contains s (rows_of found.live.wx) ≡ true
        → first_ticker (lookup s found.live.slug_k) ≡ some tk
        → lookup tk cycled.weather.tstate
          ≡ some (poll_ticker iso_unix fetch times (lookup tk weather.tstate) tk s).st)
    × ((tk : String)
        → contains tk cycled.weather.tstate ≡ true
        → (s : String) × (key_of (owner found.live.k_targets tk) ≡ some s))
cycle_files_example =
    cycle_files iso_unix fetch times found found (some []) weather
      (discover (boot (pos 1000)) markets) fetch-Answers
