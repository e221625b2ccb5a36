-- ===== src/Ledger/Signal.antt =====
-- `signal` of bot/ledger.py.
pub mod Best
mod Tests
use cross_arb.Prelude.{
  ℕ, ◌≡◌, refl, Bool, true, false, not, ◌&&◌, ◌||◌, Option, none, some, List, [], ◌∷◌, ◌++◌, arith,
  if◌then◌else◌,
}
use cross_arb.Prelude.Int.{ℤ, pos, ◌+ℤ◌, ◌-ℤ◌, ltb_ℤ}
use cross_arb.Ledger.Units.{one, contract, value, round4}
use cross_arb.Ledger.Fees.{pfee, kfee}

-- The dict `px`: the YES bid and ask of each venue, none where the book is one-sided.
pub record Quotes : Type 0 where
  pub p_yb : Option ℤ
  pub p_ya : Option ℤ
  pub k_yb : Option ℤ
  pub k_ya : Option ℤ

-- 'P' buys YES at polymarket and NO at Kalshi, 'K' the other way.
pub data Dir : Type 0 where
  dir_p dir_k : Dir

pub record Signal : Type 0 where
  pub dir : Dir
  pub yes_ask : Option ℤ
  pub no_ask : Option ℤ
  pub net_edge : ℤ
  pub no_arb : Bool
  pub crossed : Bool

-- A venue is crossed if both touches are there and the bid is above the ask.
abbrev pub is_crossed : Option ℤ → Option ℤ → Bool
is_crossed (some bid) (some ask) = ltb_ℤ ask bid
is_crossed _ _ = false

pub record Choice : Type 0 where
  pub dir : Dir
  pub yes_ask : ℤ
  pub no_ask : ℤ
  pub edge : ℤ

-- The edge of one contract, before it is rounded: 1 - (ay + an) less both fees.
unfoldable pub edge_p : ℤ → ℤ → ℤ
edge_p ay an =
    value (one -ℤ (ay +ℤ an)) contract -ℤ pfee ay contract true -ℤ kfee an contract true true

unfoldable pub edge_k : ℤ → ℤ → ℤ
edge_k ay an =
    value (one -ℤ (ay +ℤ an)) contract -ℤ kfee ay contract true true -ℤ pfee an contract true

choice_p : Bool → Option ℤ → Option ℤ → Option Choice
choice_p false (some p_ya) (some k_yb) =
    let an = one -ℤ k_yb in
    some (record { dir = dir_p; yes_ask = p_ya; no_ask = an; edge = round4 (edge_p p_ya an) })
choice_p _ _ _ = none

choice_k : Bool → Option ℤ → Option ℤ → Option Choice
choice_k false (some k_ya) (some p_yb) =
    let an = one -ℤ p_yb in
    some (record { dir = dir_k; yes_ask = k_ya; no_ask = an; edge = round4 (edge_k k_ya an) })
choice_k _ _ _ = none

-- `max(opts, key=edge)`: the first of the best.
pick : Option Choice → Option Choice → Option Choice
pick none b = b
pick (some a) none = some a
pick (some a) (some b) = if ltb_ℤ a.edge b.edge then some b else some a

abbrev complement : Option ℤ → Option ℤ
complement none = none
complement (some x) = some (one -ℤ x)

report : Bool → Quotes → Option Choice → Signal
report crossed px none = record {
  dir = dir_p;
  yes_ask = px.p_ya;
  no_ask = complement px.k_yb;
  net_edge = pos 0;
  no_arb = true;
  crossed = crossed;
}
report crossed px (some c) = record {
  dir = c.dir;
  yes_ask = some c.yes_ask;
  no_ask = some c.no_ask;
  net_edge = c.edge;
  no_arb = not (ltb_ℤ (pos 0) c.edge);
  crossed = false;
}

unfoldable pub signal : Quotes → Signal
unfolding choice_p choice_k pick report
signal px =
    let crossed = is_crossed px.p_yb px.p_ya || is_crossed px.k_yb px.k_ya in
    report crossed px (pick (choice_p crossed px.p_ya px.k_yb) (choice_k crossed px.k_ya px.p_yb))
