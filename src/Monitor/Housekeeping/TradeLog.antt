-- ===== src/Monitor/Housekeeping/TradeLog.antt =====
-- `trade_rec`, `ingest_trades` and `seed_trade_state` of bot/monitor.py: the log of trade prints, and the cursors
-- that a restart takes from it. A price is in 1/10000 dollar, a quantity in 1/100 contract, the clock in
-- microseconds and the `t` of a record in milliseconds.
pub mod Leads
pub mod Filed
pub mod Seeded
mod Tests
use cross_arb.Prelude.{
  ℕ, suc, ◌*◌, ◌/◌, ◌%◌, ◌≡◌, Bool, true, false, not, Option, none, some, List, [], ◌∷◌, ◌++◌,
  String, ◌=?◌, string_keys, Dict, lookup, insert, sort_by, text_le, if◌then◌else◌, ◌==◌,
}
use cross_arb.Prelude.Int.{ℤ, pos}
use cross_arb.Prelude.Int.Rounding.{round_div, round_half_even}
use cross_arb.Monitor.Edge.{Attempt, ok, raised, ◌>>=◌}
use cross_arb.Monitor.Housekeeping.Trades.{TradePollState, init, seen, add}

-- A print as the venue gives it; its price is none where `float` of the field raises.
pub record Trade : Type 0 where
  pub ticker : Option String
  pub created_time : Option String
  pub yes_price : Option ℤ
  pub count : Option ℤ
  pub taker_side : Option String
  pub trade_id : Option String

-- A line of the log.
pub record TradeRec : Type 0 where
  pub t : ℕ
  pub market : String
  pub ktk : Option String
  pub vt : Option String
  pub yes_c : ℤ
  pub qty : ℤ
  pub taker : Option String
  pub id : Option String

-- `x or 0`
abbrev or_zero : Option ℤ → ℤ
or_zero none = pos 0
or_zero (some n) = n

abbrev priced : Option ℤ → Attempt ℤ
priced none = raised
priced (some p) = ok (round_div p 100)

-- `round(now, 3)`
abbrev pub to_ms : ℕ → ℕ
to_ms now = round_half_even now 1000

unfoldable pub trade_rec : Trade → String → ℕ → Attempt TradeRec
trade_rec tr market now = do
  yes_c ← priced tr.yes_price
  ok (record {
    t = to_ms now;
    market = market;
    ktk = tr.ticker;
    vt = tr.created_time;
    yes_c = yes_c;
    qty = or_zero tr.count;
    taker = tr.taker_side;
    id = tr.trade_id;
  })

-- `x or ""`
abbrev text_of : Option String → String
text_of none = ""
text_of (some s) = s

abbrev older : Trade → Trade → Bool
older a b = text_le (text_of a.created_time) (text_of b.created_time)

-- The cursor after a poll, what it logged, and whether it raised on its way.
pub record Ingest : Type 0 where
  pub st : TradePollState
  pub rows : List TradeRec
  pub raised : Bool

-- `x or y`, on times.
abbrev pub or_else : ℕ → ℕ → ℕ
or_else x y = if x == 0 then y else x

abbrev logged : Ingest → TradeRec → Ingest
logged rest r = record rest { rows = r ∷ rest.rows }

-- One print that was not seen, with the rest of the loop from the cursor that it moves.
abbrev take_print : TradePollState → Attempt TradeRec → Ingest → Ingest
take_print st raised rest = record { st = st; rows = []; raised = true }
take_print st (ok r) rest = logged rest r

-- `st.setdefault(tk, TradePollState())`
abbrev or_new : Option TradePollState → TradePollState
or_new none = init 0
or_new (some st) = st

-- `if not tk: continue`
abbrev named : Option String → Option String
named none = none
named (some tk) = if tk =? "" then none else some tk

-- `_iso_unix`, of the standard library's `fromisoformat`: microseconds, and 0 for what is no time.
module _ (iso_unix : Option String → ℕ) where
  unfoldable pub ingest_each : List Trade → String → TradePollState → ℕ → Ingest
  unfolding trade_rec
  ingest_each [] market st now = record { st = st; rows = []; raised = false }
  ingest_each (tr ∷ trs) market st now =
      let known = ingest_each trs market st now in
      let st' = add st tr.trade_id (or_else (iso_unix tr.created_time) now) in
      let rest = ingest_each trs market st' now in
      if seen st tr.trade_id then known else take_print st (trade_rec tr market now) rest

  -- The oldest print comes first.
  unfoldable pub ingest_trades : List Trade → String → TradePollState → ℕ → Ingest
  unfolding ingest_each
  ingest_trades trades market st now = ingest_each (sort_by older trades) market st now

  -- `if not s.seen(…): s.add(…)`
  pub seed_one : TradePollState → TradeRec → TradePollState
  seed_one st r = if seen st r.id then st else add st r.id (or_else (iso_unix r.vt) (r.t * 1000))

  abbrev seed_under :
      Dict String TradePollState → Option String → TradeRec → Dict String TradePollState
  seed_under d none r = d
  seed_under d (some tk) r = insert tk (seed_one (or_new (lookup tk d)) r) d

  -- The lines that can be read, of all files, one after the other.
  unfoldable pub seed_trade_state :
      Dict String TradePollState → List TradeRec → Dict String TradePollState
  unfolding seed_one
  seed_trade_state d [] = d
  seed_trade_state d (r ∷ rs) = seed_trade_state (seed_under d (named r.ktk) r) rs
