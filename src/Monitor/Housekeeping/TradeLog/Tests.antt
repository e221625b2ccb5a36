-- ===== src/Monitor/Housekeeping/TradeLog/Tests.antt =====
-- Two polls of one market, the second of which gives a print again, and a log with a line of another ticker.
use cross_arb.Prelude.{
  ◌=?◌, if◌then◌else◌, ℕ, ◌≡◌, refl, Option, none, some, List, [], ◌∷◌, String, string_keys, lookup,
  insert, sort_by, insert_by, arith,
}
use cross_arb.Prelude.Int.{pos}
use cross_arb.Prelude.Int.Rounding.{round_div, round_half_even, to_nearest}
use cross_arb.Monitor.Housekeeping.Trades.{init, seen, add}
use cross_arb.Monitor.Housekeeping.TradeLog.{
  Trade, TradeRec, trade_rec, ingest_each, ingest_trades, seed_trade_state,
}
use cross_arb.Monitor.Housekeeping.TradeLog.Leads.{poll_all}
use cross_arb.Monitor.Housekeeping.TradeLog.Seeded.{seed-poll_all}

-- Times that are read as microseconds.
abbrev iso_unix : Option String → ℕ
iso_unix none = 0
iso_unix (some s) = if s =? "10" then 10000000 else if s =? "11" then 11000000 else 0

abbrev trade : String → String → Trade
trade time id = record {
  ticker = some "KA";
  created_time = some time;
  yes_price = some (pos 4100);
  count = some (pos 200);
  taker_side = some "yes";
  trade_id = some id;
}

abbrev polls : List (List Trade × ℕ)
polls = (trade "11" "y" ∷ trade "10" "x" ∷ [], 12000000) ∷ (trade "11" "y" ∷ [], 15000000) ∷ []

abbrev line : String → String → String → TradeRec
line ticker time id = record {
  t = 12000;
  market = "a";
  ktk = some ticker;
  vt = some time;
  yes_c = pos 41;
  qty = pos 200;
  taker = some "yes";
  id = some id;
}

abbrev log : List TradeRec
log = line "KA" "10" "x" ∷ line "KB" "10" "z" ∷ line "KA" "11" "y" ∷ []

seed-poll_all_example :
    lookup "KA" (seed_trade_state iso_unix [] log)
    ≡ some (poll_all iso_unix (init 9000000) "a" polls).0
unfolding poll_all ingest_trades ingest_each trade_rec seen add init lookup insert sort_by insert_by
    round_div round_half_even to_nearest
seed-poll_all_example =
    seed-poll_all iso_unix 9000000 "a" polls log "KA" (line "KA" "10" "x") (line "KA" "11" "y" ∷ [])
      refl refl refl (omega arith, (omega arith, tt)) (omega arith)
