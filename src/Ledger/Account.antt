-- ===== src/Ledger/Account.antt =====
-- `class Ledger` of bot/ledger.py. A method that writes returns the new ledger beside its result, and
-- one that raises returns the error alone, since it raises before its first write.
pub mod Settlement
pub mod Rotation
pub mod Guards
mod Tests
use cross_arb.Prelude.{
  ℕ, ◌+◌, ◌≡◌, refl, Bool, true, false, not, ◌&&◌, ◌||◌, Option, none, some, List, [], ◌∷◌, ◌++◌,
  String, arith, if◌then◌else◌,
}
use cross_arb.Prelude.Int.{ℤ, pos, ◌+ℤ◌, ◌-ℤ◌, ltb_ℤ, leb_ℤ, eqb_ℤ, min_ℤ}
use cross_arb.Prelude.Int.Rounding.{round_div}
use cross_arb.Ledger.Units.{one, value, round3}
use cross_arb.Ledger.Fees.{Venue, poly, kalshi, fee}
use cross_arb.Ledger.Signal.{Quotes, Dir, dir_p, dir_k, Signal, signal}

-- `self.pos`: the YES and NO quantities at each venue.
pub record Positions : Type 0 where
  pub p_yes : ℤ
  pub p_no : ℤ
  pub k_yes : ℤ
  pub k_no : ℤ

-- A leg of an entry: the venue, and the price to the cent.
pub record Entry : Type 0 where
  pub t : Option String
  pub dir : Dir
  pub size : ℤ
  pub cost : ℤ
  pub yes_leg : Venue × ℤ
  pub no_leg : Venue × ℤ
  pub net_edge : ℤ

pub record Ledger : Type 0 where
  pub name : String
  pub positions : Positions
  pub cash : ℤ
  pub cost_basis : ℤ
  pub entries : List Entry

pub data Outcome : Type 0 where
  yes_wins no_wins : Outcome

-- The three `ValueError`s of `enter`, and the `TypeError` of a forced entry without a price.
pub data Error : Type 0 where
  rejected_book unpriceable no_edge type_error : Error

pub data Result (A : Type 0) : Type 0 where
  ok : A → Result A
  raise : Error → Result A

pub init : String → Ledger
init name = record {
  name = name;
  positions = record { p_yes = pos 0; p_no = pos 0; k_yes = pos 0; k_no = pos 0 };
  cash = pos 0;
  cost_basis = pos 0;
  entries = [];
}

-- The prices of the two legs, (ay, an): none if a touch that the direction needs is missing.
pub legs : Dir → Quotes → Option (ℤ × ℤ)
legs dir_p px = elim px.p_ya [
  | none ↦ none
  | some ya ↦ elim px.k_yb [ none ↦ none | some yb ↦ some (ya, one -ℤ yb) ]
]
legs dir_k px = elim px.k_ya [
  | none ↦ none
  | some ya ↦ elim px.p_yb [ none ↦ none | some yb ↦ some (ya, one -ℤ yb) ]
]

abbrev pub yes_venue : Dir → Venue
yes_venue dir_p = poly
yes_venue dir_k = kalshi

abbrev pub no_venue : Dir → Venue
no_venue dir_p = kalshi
no_venue dir_k = poly

-- What an order pays, and what is left of the dollar that each pair settles at.
pub outlay : Dir → ℤ → ℤ → ℤ → ℤ
outlay d ay an size = value (ay +ℤ an) size +ℤ fee (yes_venue d) ay size +ℤ fee (no_venue d) an size

pub net_of : Dir → ℤ → ℤ → ℤ → ℤ
net_of d ay an size =
    value (one -ℤ (ay +ℤ an)) size -ℤ fee (yes_venue d) ay size -ℤ fee (no_venue d) an size

pub add_pair : Dir → ℤ → Positions → Positions
add_pair dir_p size h = record h { p_yes = h.p_yes +ℤ size; k_no = h.k_no +ℤ size }
add_pair dir_k size h = record h { k_yes = h.k_yes +ℤ size; p_no = h.p_no +ℤ size }

entry_of : Option String → Dir → ℤ → ℤ → ℤ → ℤ → Entry
entry_of t d size ay an net = record {
  t = t;
  dir = d;
  size = size;
  cost = round_div (ay +ℤ an) 10;
  yes_leg = (yes_venue d, round_div ay 100);
  no_leg = (no_venue d, round_div an 100);
  net_edge = round3 net;
}

-- The part of `enter` behind the guards on the quotes.
pub book_pair : Ledger → ℤ → Option String → Bool → Dir → ℤ × ℤ → Result (Ledger × Entry)
unfolding outlay net_of add_pair entry_of
book_pair l size t force d (ay, an) =
    let net = net_of d ay an size in
    let out = outlay d ay an size in
    let e = entry_of t d size ay an net in
    if leb_ℤ net (pos 0) && not force
    then raise no_edge
    else ok (
      record l {
        positions = add_pair d size l.positions;
        cash = l.cash -ℤ out;
        cost_basis = l.cost_basis +ℤ out;
        entries = l.entries ++ e ∷ [];
      },
      e,
    )

book_legs : Ledger → ℤ → Option String → Bool → Dir → Option (ℤ × ℤ) → Result (Ledger × Entry)
book_legs l size t force d none = raise (if force then type_error else unpriceable)
book_legs l size t force d (some prices) = book_pair l size t force d prices

-- `direction or s["dir"]`
abbrev pub chosen : Option Dir → Dir → Dir
chosen none d = d
chosen (some d) _ = d

pub enter : Ledger → Quotes → ℤ → Option Dir → Option String → Bool → Result (Ledger × Entry)
enter l px size direction t force =
    let s = signal px in
    let d = chosen direction s.dir in
    if (s.crossed || s.no_arb) && not force
    then raise rejected_book
    else book_legs l size t force d (legs d px)

-- The proceeds of a leg that is sold at its bid; nothing where there is no bid or nothing to sell.
sell : Venue → ℤ → Option ℤ → ℤ
sell v q none = pos 0
sell v q (some bid) = if eqb_ℤ q (pos 0) then pos 0 else value bid q -ℤ fee v bid q

abbrev no_bid : Option ℤ → Option ℤ
no_bid none = none
no_bid (some yask) = some (one -ℤ yask)

-- The loops of `mtm` and `unwind_all` over the two venues, from a starting amount.
liquidate : ℤ → Positions → Quotes → ℤ
liquidate start h px =
    start
    +ℤ sell poly h.p_yes px.p_yb
    +ℤ sell poly h.p_no (no_bid px.p_ya)
    +ℤ sell kalshi h.k_yes px.k_yb
    +ℤ sell kalshi h.k_no (no_bid px.k_ya)

pub mtm : Ledger → Quotes → ℤ
mtm l px = round3 (liquidate l.cash l.positions px)

-- The quantity that pays a dollar.
abbrev winners : Outcome → Positions → ℤ
winners yes_wins h = h.p_yes +ℤ h.k_yes
winners no_wins h = h.p_no +ℤ h.k_no

-- Cash plus the payout, before it is rounded.
pub settled : Ledger → Outcome → ℤ
settled l o = l.cash +ℤ value one (winners o l.positions)

pub settlement_pnl : Ledger → Outcome → ℤ
settlement_pnl l o = round3 (settled l o)

pub unwind_all : Ledger → Quotes → Ledger × ℤ
unwind_all l px =
    let realized = liquidate (pos 0) l.positions px in
    (
      record l {
        positions = record { p_yes = pos 0; p_no = pos 0; k_yes = pos 0; k_no = pos 0 };
        cash = l.cash +ℤ realized;
      },
      round3 realized,
    )

pub redeem_poly_sets : Ledger → Ledger × ℤ
redeem_poly_sets l =
    let h = l.positions in
    let m = min_ℤ h.p_yes h.p_no in
    (
      record l {
        positions = record h { p_yes = h.p_yes -ℤ m; p_no = h.p_no -ℤ m };
        cash = l.cash +ℤ value one m;
      },
      m,
    )

-- In mills, as the entries are.
pub sum_net_edges : List Entry → ℤ
sum_net_edges [] = pos 0
sum_net_edges (e ∷ es) = e.net_edge +ℤ sum_net_edges es
