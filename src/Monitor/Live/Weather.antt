-- ===== src/Monitor/Live/Weather.antt =====
-- `weather_poll` of `run_live` in bot/monitor.py: one cycle, which polls the prints of each weather market's Kalshi
-- ticker, looks for changed fees, and logs the ladders that have changed. The answers of the venue and the readings
-- of the clock are arguments. What the cycle takes at its start and at its end are two worlds, since other
-- tasks run between.
pub mod Cursors
pub mod Filed
mod Tests
use cross_arb.Prelude.{
  ℕ, ◌-◌, Bool, true, false, not, ◌&&◌, Option, none, some, List, [], ◌∷◌, ◌++◌, String, Eq,
  string_keys, nat_keys, Dict, lookup, insert, contains, select,
}
use cross_arb.Monitor.Edge.{Attempt, ok, raised}
use cross_arb.Monitor.Market.{MarketTracker}
use cross_arb.Monitor.Housekeeping.Trades.{TradePollState, init, min_ts}
use cross_arb.Monitor.Housekeeping.TradeLog.{Trade, TradeRec, ingest_trades, seed_trade_state}
use cross_arb.Monitor.Housekeeping.FeeWatch.{FeeState, FeeChange, fresh, fee_tick}
use cross_arb.Monitor.Housekeeping.Ladders.{Ladders, Trackers, hb_ladder_pass}
use cross_arb.Monitor.Live.Registry.{World, Tracker, market_tracker}

-- The places of the weather trackers, by slug.
abbrev pub rows_of : Option (Dict String ℕ) → Dict String ℕ
rows_of none = []
rows_of (some d) = d

-- `slug_k.get(s)`, where it is not empty, and its first ticker.
abbrev pub first_ticker : Option (List String) → Option String
first_ticker none = none
first_ticker (some []) = none
first_ticker (some (tk ∷ tks)) = some tk

abbrev pub with_ticker : Option String → String → Dict String String → Dict String String
with_ticker none slug d = d
with_ticker (some tk) slug d = insert tk slug d

-- `{slug_k[s][0]: s for s in wx_trackers if slug_k.get(s)}`, onto what there is.
unfoldable pub wx_map :
    Dict String (List String) → Dict String ℕ → Dict String String → Dict String String
wx_map slug_k [] d = d
wx_map slug_k ((s, i) ∷ wx) d = wx_map slug_k wx (with_ticker (first_ticker (lookup s slug_k)) s d)

-- The trackers of the registry; it has no others than those of markets.
abbrev with_tracker : String → Option Tracker → Trackers → Trackers
with_tracker s (some (market_tracker trk)) rest = (s, trk) ∷ rest
with_tracker s _ rest = rest

unfoldable pub wx_trackers : Dict ℕ Tracker → Dict String ℕ → Trackers
wx_trackers heap [] = []
wx_trackers heap ((s, i) ∷ wx) = with_tracker s (lookup i heap) (wx_trackers heap wx)

-- `WX_POLL_SEC` and a minute more, in microseconds.
abbrev pub look_back : ℕ
look_back = 360000000

-- The readings of the clock for one ticker: at the first contact, and behind the answer.
pub record Times : Type 0 where
  pub at_contact : ℕ
  pub at_ingest : ℕ

abbrev pub Cursors : Type 0
Cursors = Dict String TradePollState

-- A ticker that is new looks back over one cycle, not over all its prints.
abbrev pub cursor_of : Option TradePollState → ℕ → TradePollState
cursor_of none now = init (now - look_back)
cursor_of (some st) now = st

-- What the poll of one ticker leaves: its cursor, what was logged, and whether it failed.
pub record Polled : Type 0 where
  pub st : TradePollState
  pub rows : List TradeRec
  pub failed : Bool

-- Tickers that are not tracked any more lose their cursor.
abbrev pub is_mapped : Dict String String → String × TradePollState → Bool
is_mapped m row = contains row.0 m

module _ (iso_unix : Option String → ℕ) where
  -- The `try` of one ticker: an answer that fails leaves the cursor, and an ingestion that raises leaves it where it
  -- came to.
  abbrev pub poll_with : TradePollState → Attempt (List Trade) → String → ℕ → Polled
  poll_with st raised market now = record { st = st; rows = []; failed = true }
  poll_with st (ok trades) market now =
      let out = ingest_trades iso_unix trades market st now in
      record { st = out.st; rows = out.rows; failed = out.raised }

  module _ (fetch : String → ℕ → Attempt (List Trade)) (times : String → Times) where
    unfoldable pub poll_ticker : Option TradePollState → String → String → Polled
    poll_ticker old tk market =
        let st = cursor_of old (times tk).at_contact in
        poll_with st (fetch tk (min_ts st)) market (times tk).at_ingest

    -- The loop over `wx_map.items()`.
    unfoldable pub poll_each : Dict String String → Cursors → Cursors × List TradeRec
    unfolding poll_ticker
    poll_each [] tstate = (tstate, [])
    poll_each ((tk, market) ∷ m) tstate =
        let out = poll_ticker (lookup tk tstate) tk market in
        let (tstate', rows) = poll_each m (insert tk out.st tstate) in (tstate', out.rows ++ rows)

    unfoldable pub poll_trades : Dict String String → Cursors → Cursors × List TradeRec
    unfolding poll_each
    poll_trades m tstate = poll_each m (select (is_mapped m) tstate)

-- The state of the task, over any kind of scheduled fee change.
pub record Weather (C : Type 0) : Type 0 where
  pub tstate : Cursors
  pub hb_last : Dict String Ladders
  pub fee_state : FeeState C

-- As the task starts: the cursors are those that the log leads to.
unfoldable pub boot_weather : {C : Type 0} → (Option String → ℕ) → List TradeRec → Weather C
unfolding seed_trade_state fresh
boot_weather iso_unix rows = record {
  tstate = seed_trade_state iso_unix [] rows;
  hb_last = [];
  fee_state = fresh;
}

-- A cycle: the new state, and what it logged.
pub record Cycle (C : Type 0) : Type 0 where
  pub weather : Weather C
  pub fee : Option (FeeChange C)
  pub trades : List TradeRec
  pub ladders : List (String × Ladders)

module _ {S D C : Type 0} ⦃e : Eq (List C)⦄ (iso_unix : Option String → ℕ)
    (fetch : String → ℕ → Attempt (List Trade)) (times : String → Times) where
  pub cycle : World S D → World S D → Option (List C) → Weather C → Cycle C
  unfolding fee_tick wx_map poll_trades wx_trackers hb_ladder_pass
  cycle w w' changes weather =
      let (fees, fee) = fee_tick changes weather.fee_state in
      let m = wx_map w.live.slug_k (rows_of w.live.wx) [] in
      let (tstate, trades) = poll_trades iso_unix fetch times m weather.tstate in
      let (last, ladders) =
        hb_ladder_pass (wx_trackers w'.heap (rows_of w'.live.wx)) weather.hb_last in
      record {
        weather = record { tstate = tstate; hb_last = last; fee_state = fees };
        fee = fee;
        trades = trades;
        ladders = ladders;
      }
