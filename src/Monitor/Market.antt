-- ===== src/Monitor/Market.antt =====
-- `class MarketTracker` of bot/monitor.py. The clock, `time.time()`, is an argument, in milliseconds.
pub mod Log
mod Tests
use cross_arb.Prelude.{
  ◌↔◌, arith, ℕ, ◌+◌, ◌≡◌, refl, Bool, true, false, not, ◌&&◌, Option, none, some, List, [], ◌∷◌,
  String, Eq, if◌then◌else◌,
}
use cross_arb.Prelude.Int.{ℤ, pos, ◌-ℤ◌}
use cross_arb.Prelude.Int.Rounding.{round_div}
use cross_arb.Ledger.Fees.{Venue, poly, kalshi}
use cross_arb.Ledger.Signal.{Quotes, Dir, dir_p, dir_k}
use cross_arb.Monitor.Edge.{
  Attempt, ok, raised, ◌>>=◌, Level, Ladder, make_px, EdgeState, edge_state, Transition, classify,
}
use cross_arb.Monitor.Depth.{DepthDict, pairs, no_ask_pairs, depth_dict}

abbrev pub same_dir : Dir → Dir → Bool
same_dir dir_p dir_p = true
same_dir dir_k dir_k = true
same_dir _ _ = false

pub same_dir_iff : (a b : Dir) → (same_dir a b ≡ true) ↔ (a ≡ b)
same_dir_iff a b = ground arith

instance abbrev pub dir_keys : Eq Dir
dir_keys = record { beq = same_dir; beq_iff = same_dir_iff }

-- Tenths of a second since each venue's book last changed.
pub record Age : Type 0 where
  pub p : ℤ
  pub k : ℤ

-- The dict that `evaluate` returns: the edge state, the four touches, and for an arbitrage the depth and
-- the age. (The touches are on the grid of `round(v, 4)`.)
pub record MarketState : Type 0 where
  pub edge : EdgeState Dir
  pub px : Quotes
  pub depth : Option DepthDict
  pub age : Option Age

pub record Books : Type 0 where
  pub bids : Ladder
  pub offers : Ladder

pub record MarketTracker : Type 0 where
  pub key : String
  pub p_books : Books
  pub k_books : Books
  pub state : Option MarketState
  pub p_ts : ℤ
  pub k_ts : ℤ

unfoldable pub init : String → MarketTracker
init key = record {
  key = key;
  p_books = record { bids = none; offers = none };
  k_books = record { bids = none; offers = none };
  state = none;
  p_ts = pos 0;
  k_ts = pos 0;
}

pub set_book : MarketTracker → Venue → Ladder → Ladder → ℤ → MarketTracker
set_book trk poly bids offers now = record trk {
  p_books = record { bids = bids; offers = offers };
  p_ts = now;
}
set_book trk kalshi bids offers now = record trk {
  k_books = record { bids = bids; offers = offers };
  k_ts = now;
}

-- A ladder that Python takes for true.
abbrev nonempty : Ladder → Bool
nonempty (some (l ∷ ls)) = true
nonempty _ = false

depth_between : Ladder → Ladder → Option DepthDict
depth_between yes_off no_bids =
    if nonempty yes_off && nonempty no_bids
    then depth_dict (pairs yes_off) (no_ask_pairs no_bids)
    else none

-- `_depth`
pub depth : MarketTracker → Dir → Option DepthDict
unfolding depth_between
depth trk dir_p = depth_between trk.p_books.offers trk.k_books.bids
depth trk dir_k = depth_between trk.k_books.offers trk.p_books.bids

-- `_age`
pub age : MarketTracker → ℤ → Age
age trk now = record { p = round_div (now -ℤ trk.p_ts) 100; k = round_div (now -ℤ trk.k_ts) 100 }

-- `new`, with the fields that `evaluate` adds.
observe : MarketTracker → ℤ → Quotes → MarketState
observe trk now px =
    let s = edge_state px in
    let d = depth trk s.dir in
    let a = age trk now in
    record {
      edge = s;
      px = px;
      depth = if s.arb then d else none;
      age = if s.arb then some a else none;
    }

abbrev pub edge_part : Option MarketState → Option (EdgeState Dir)
edge_part none = none
edge_part (some s) = some s.edge

-- The label and the new state go to the caller; the state is kept if the books could be priced.
conclude :
    MarketTracker → ℤ → Option Quotes → MarketTracker × Option Transition × Option MarketState
conclude trk now none = (trk, none, none)
conclude trk now (some px) =
    let new = observe trk now px in
    (record trk { state = some new }, classify (edge_part trk.state) (some new.edge), some new)

pub evaluate : MarketTracker → ℤ → Attempt (MarketTracker × Option Transition × Option MarketState)
evaluate trk now = do
  px ← make_px trk.p_books.bids trk.p_books.offers trk.k_books.bids trk.k_books.offers
  ok (conclude trk now px)

abbrev kept :
    MarketTracker
    → Attempt (MarketTracker × Option Transition × Option MarketState)
    → MarketTracker × Attempt (Option Transition × Option MarketState)
kept trk (ok (trk', label, new)) = (trk', ok (label, new))
kept trk raised = (trk, raised)

-- `update`, which reads the clock twice. Where the evaluation raises, the book has been set.
pub update :
    MarketTracker
    → Venue
    → Ladder
    → Ladder
    → ℤ
    → ℤ
    → MarketTracker × Attempt (Option Transition × Option MarketState)
update trk venue bids offers now now' =
    let trk' = set_book trk venue bids offers now in kept trk' (evaluate trk' now')
