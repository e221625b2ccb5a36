-- ===== src/Monitor/Game.antt =====
-- `game_edge` and `class GameTracker` of bot/monitor.py. Prices are in 1/10000 dollar, the clock in
-- milliseconds.
pub mod Guards
mod Tests
use cross_arb.Prelude.{
  ℕ, ◌+◌, ◌≡◌, ◌↔◌, refl, Bool, true, false, not, ◌&&◌, ◌||◌, Option, none, some, List, [], ◌∷◌,
  String, Eq, arith, if◌then◌else◌,
}
use cross_arb.Prelude.Int.{ℤ, pos, ◌+ℤ◌, ◌-ℤ◌, ltb_ℤ}
use cross_arb.Prelude.Int.Rounding.{round_div}
use cross_arb.Ledger.Units.{one, contract, value, round4}
use cross_arb.Ledger.Fees.{pfee, kfee}
use cross_arb.Ledger.Signal.{is_crossed}
use cross_arb.Kalshi.Book.{KalshiBook, offer_pairs}
use cross_arb.Monitor.Edge.{Ladder, EdgeState, Transition, classify}
use cross_arb.Monitor.Depth.{DepthDict, pairs, no_ask_pairs, depth_dict}
use cross_arb.Monitor.Market.{Age}

-- Back A at polymarket and B at Kalshi, or the other way.
pub data Hedge : Type 0 where
  pk kp : Hedge

abbrev pub same_hedge : Hedge → Hedge → Bool
same_hedge pk pk = true
same_hedge kp kp = true
same_hedge _ _ = false

pub same_hedge_iff : (a b : Hedge) → (same_hedge a b ≡ true) ↔ (a ≡ b)
same_hedge_iff a b = ground arith

instance abbrev pub hedge_keys : Eq Hedge
hedge_keys = record { beq = same_hedge; beq_iff = same_hedge_iff }

-- The edges of one contract, before they are rounded.
unfoldable pub edge_pk : ℤ → ℤ → ℤ
edge_pk pm_ask kb_ask =
    value (one -ℤ (pm_ask +ℤ kb_ask)) contract
    -ℤ pfee pm_ask contract true
    -ℤ kfee kb_ask contract true true

unfoldable pub edge_kp : ℤ → ℤ → ℤ
edge_kp ka_ask pm_bid =
    let pm_back_b = one -ℤ pm_bid in
    value (one -ℤ (ka_ask +ℤ pm_back_b)) contract
    -ℤ kfee ka_ask contract true true
    -ℤ pfee pm_back_b contract true

-- `abs(guard_pm - kA_ask) > 0.40`, with the bid for a missing ask.
far : ℤ → ℤ → Bool
far x y = ltb_ℤ (pos 4000) (x -ℤ y) || ltb_ℤ (pos 4000) (y -ℤ x)

misoriented : Option ℤ → Option ℤ → Option ℤ → Bool
misoriented pm_bid (some pm_ask) (some ka_ask) = far pm_ask ka_ask
misoriented (some pm_bid) none (some ka_ask) = far pm_bid ka_ask
misoriented _ _ _ = false

option_pk : Option ℤ → Option ℤ → Option (Hedge × ℤ)
option_pk (some pm_ask) (some kb_ask) = some (pk, round4 (edge_pk pm_ask kb_ask))
option_pk _ _ = none

option_kp : Option ℤ → Option ℤ → Option (Hedge × ℤ)
option_kp (some ka_ask) (some pm_bid) = some (kp, round4 (edge_kp ka_ask pm_bid))
option_kp _ _ = none

-- `max(opts, key=net)`: the first of the best.
better : Option (Hedge × ℤ) → Option (Hedge × ℤ) → Option (Hedge × ℤ)
better none b = b
better (some a) none = some a
better (some (d, x)) (some (d', y)) = if ltb_ℤ x y then some (d', y) else some (d, x)

abbrev as_state : Option (Hedge × ℤ) → Option (EdgeState Hedge)
as_state none = none
as_state (some (d, net)) = some (record { arb = ltb_ℤ (pos 0) net; dir = d; net = net })

pub game_edge : Option ℤ → Option ℤ → Option ℤ → Option ℤ → Option (EdgeState Hedge)
game_edge pm_bid pm_ask ka_ask kb_ask =
    if is_crossed pm_bid pm_ask
    then none
    else if misoriented pm_bid pm_ask ka_ask
    then none
    else as_state (better (option_pk pm_ask kb_ask) (option_kp ka_ask pm_bid))

pub record GameState : Type 0 where
  pub edge : EdgeState Hedge
  pub pm_b : Option ℤ
  pub pm_a : Option ℤ
  pub ka : Option ℤ
  pub kb : Option ℤ
  pub depth : Option DepthDict
  pub age : Option Age

pub record GameTracker : Type 0 where
  pub slug : String
  pub ta : String
  pub tb : String
  pub pm_bid : Option ℤ
  pub pm_ask : Option ℤ
  pub ka : Option ℤ
  pub kb : Option ℤ
  pub state : Option GameState
  pub pm_bids : Ladder
  pub pm_offers : Ladder
  pub ka_book : Option KalshiBook
  pub kb_book : Option KalshiBook
  pub p_ts : ℤ
  pub k_ts : ℤ

pub data Team : Type 0 where
  team_a team_b : Team

pub init : String → String → String → GameTracker
init slug ticker_a ticker_b = record {
  slug = slug;
  ta = ticker_a;
  tb = ticker_b;
  pm_bid = none;
  pm_ask = none;
  ka = none;
  kb = none;
  state = none;
  pm_bids = none;
  pm_offers = none;
  ka_book = none;
  kb_book = none;
  p_ts = pos 0;
  k_ts = pos 0;
}

pub set_pm : GameTracker → Option ℤ → Option ℤ → ℤ → GameTracker
set_pm g bid ask now = record g { pm_bid = bid; pm_ask = ask; p_ts = now }

pub set_kalshi : GameTracker → Team → Option ℤ → ℤ → GameTracker
set_kalshi g team_a yes_ask now = record g { ka = yes_ask; k_ts = now }
set_kalshi g team_b yes_ask now = record g { kb = yes_ask; k_ts = now }

pub feed_pm : GameTracker → Ladder → Ladder → GameTracker
feed_pm g bids offers = record g { pm_bids = bids; pm_offers = offers }

pub feed_kalshi : GameTracker → Team → KalshiBook → GameTracker
feed_kalshi g team_a book = record g { ka_book = some book }
feed_kalshi g team_b book = record g { kb_book = some book }

-- `_depth`, behind its test for a missing book.
depth_of : Hedge → Ladder → Ladder → KalshiBook → KalshiBook → Option DepthDict
depth_of pk pm_offers pm_bids ka_book kb_book = depth_dict (pairs pm_offers) (offer_pairs kb_book)
depth_of kp pm_offers pm_bids ka_book kb_book =
    depth_dict (offer_pairs ka_book) (no_ask_pairs pm_bids)

depth_ready : Hedge → Ladder → Ladder → Option KalshiBook → Option KalshiBook → Option DepthDict
depth_ready d pm_offers (some bids) (some ka_book) (some kb_book) =
    depth_of d pm_offers (some bids) ka_book kb_book
depth_ready d pm_offers _ _ _ = none

pub depth : GameTracker → Hedge → Option DepthDict
unfolding depth_of depth_ready
depth g d = depth_ready d g.pm_offers g.pm_bids g.ka_book g.kb_book

pub age : GameTracker → ℤ → Age
age g now = record { p = round_div (now -ℤ g.p_ts) 100; k = round_div (now -ℤ g.k_ts) 100 }

observe : GameTracker → ℤ → EdgeState Hedge → GameState
observe g now s =
    let d = depth g s.dir in
    let a = age g now in
    record {
      edge = s;
      pm_b = g.pm_bid;
      pm_a = g.pm_ask;
      ka = g.ka;
      kb = g.kb;
      depth = if s.arb then d else none;
      age = if s.arb then some a else none;
    }

abbrev pub edge_part : Option GameState → Option (EdgeState Hedge)
edge_part none = none
edge_part (some s) = some s.edge

conclude :
    GameTracker → ℤ → Option (EdgeState Hedge) → GameTracker × Option Transition × Option GameState
conclude g now none = (g, none, none)
conclude g now (some s) =
    let new = observe g now s in
    (record g { state = some new }, classify (edge_part g.state) (some s), some new)

pub evaluate : GameTracker → ℤ → GameTracker × Option Transition × Option GameState
evaluate g now = conclude g now (game_edge g.pm_bid g.pm_ask g.ka g.kb)
