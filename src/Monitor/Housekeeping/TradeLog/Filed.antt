-- ===== src/Monitor/Housekeeping/TradeLog/Filed.antt =====
-- The market and the ticker that the lines of a poll carry.
use cross_arb.Prelude.{
  ℕ, ◌≡◌, refl, Bool, true, false, Option, some, List, [], ◌∷◌, String, All, All-sort_by, sort_by,
  if◌then◌else◌,
}
use cross_arb.Prelude.Int.{ℤ}
use cross_arb.Monitor.Edge.{Attempt, ok, raised, ◌>>=◌}
use cross_arb.Monitor.Housekeeping.Trades.{TradePollState, seen, add}
use cross_arb.Monitor.Housekeeping.TradeLog.{
  or_zero, priced, to_ms, Trade, TradeRec, Ingest, trade_rec, ingest_each, ingest_trades, older,
  or_else, take_print,
}

-- A line of a ticker, under a market.
abbrev pub IsFiled : String → String → TradeRec → Type 0
IsFiled tk market r = (r.ktk ≡ some tk) × (r.market ≡ market)

-- A print that names its ticker.
abbrev pub IsOf : String → Trade → Type 0
IsOf tk tr = tr.ticker ≡ some tk

either_rows {ℓ} :
    (P : TradeRec → Type ℓ) (b : Bool) (x y : Ingest)
    → All P x.rows
    → All P y.rows
    → All P (if b then x else y).rows
either_rows P true x y hx hy = hx
either_rows P false x y hx hy = hy

take_print-IsFiled :
    (tk market : String) (tr : Trade) (st : TradePollState) (now : ℕ) (rest : Ingest)
    → IsOf tk tr
    → All (IsFiled tk market) rest.rows
    → All (IsFiled tk market) (take_print st (trade_rec tr market now) rest).rows
unfolding trade_rec
take_print-IsFiled tk market tr st now rest own h = go (priced tr.yes_price)
  where
    go :
        (a : Attempt ℤ)
        → All
            (IsFiled tk market)
            (take_print st
              (a >>= λ yes_c. ok (record {
                t = to_ms now;
                market = market;
                ktk = tr.ticker;
                vt = tr.created_time;
                yes_c = yes_c;
                qty = or_zero tr.count;
                taker = tr.taker_side;
                id = tr.trade_id;
              }))
              rest).rows
    go raised = tt
    go (ok yes_c) = ((own, refl), h)

module _ (iso_unix : Option String → ℕ) where
  ingest_each-IsFiled :
      (trs : List Trade) (tk market : String) (st : TradePollState) (now : ℕ)
      → All (IsOf tk) trs
      → All (IsFiled tk market) (ingest_each iso_unix trs market st now).rows
  unfolding ingest_each
  ingest_each-IsFiled [] tk market st now h = tt
  ingest_each-IsFiled (tr ∷ trs) tk market st now h =
      let st' = add st tr.trade_id (or_else (iso_unix tr.created_time) now) in
      either_rows (IsFiled tk market) (seen st tr.trade_id) _ _
        (ingest_each-IsFiled trs tk market st now h.1)
        (take_print-IsFiled tk market tr st now _ h.0
          (ingest_each-IsFiled trs tk market st' now h.1))

  -- A poll of prints that all name one ticker logs lines of that ticker, under the market that it was given.
  pub ingest_trades-IsFiled :
      (trades : List Trade) (tk market : String) (st : TradePollState) (now : ℕ)
      → All (IsOf tk) trades
      → All (IsFiled tk market) (ingest_trades iso_unix trades market st now).rows
  unfolding ingest_trades
  ingest_trades-IsFiled trades tk market st now h =
      ingest_each-IsFiled (sort_by older trades) tk market st now
        (All-sort_by older (IsOf tk) trades h)
