-- ===== src/Kalshi/Book.antt =====
-- `class KalshiBook` of bot/kalshi_book.py: resting bids of one market by price, merged from a
-- snapshot and a stream of deltas. A price is in 1/10000 dollar and a quantity in 1/100 contract, the
-- finest steps that the venue quotes; the decimal strings of a message are read as such numbers.
pub mod Order
pub mod Merge
mod Tests
use cross_arb.Prelude.{
  ℕ, ◌+◌, ◌≡◌, refl, Bool, true, false, ◌&&◌, ◌||◌, Option, none, some, List, [], ◌∷◌, map, String,
  Dict, int_keys, lookup, insert, erase, if◌then◌else◌,
}
use cross_arb.Prelude.Int.{ℤ, pos, ◌+ℤ◌, ◌-ℤ◌, ltb_ℤ, leb_ℤ, eqb_ℤ, max_ℤ}

-- One dollar, in the unit of a price.
abbrev pub one : ℤ
one = pos 10000

pub data Side : Type 0 where
  yes_side no_side : Side

pub record Snapshot : Type 0 where
  pub yes_dollars : Option (List (ℤ × ℤ))
  pub no_dollars : Option (List (ℤ × ℤ))

pub record Delta : Type 0 where
  pub side : Side
  pub price : ℤ
  pub delta : ℤ

abbrev pub Levels : Type 0
Levels = Dict ℤ ℤ

pub record KalshiBook : Type 0 where
  pub ticker : String
  pub yes_book : Levels
  pub no_book : Levels

pub init : String → KalshiBook
init ticker = record { ticker = ticker; yes_book = []; no_book = [] }

-- `msg.get(side) or []`
abbrev or_empty : Option (List (ℤ × ℤ)) → List (ℤ × ℤ)
or_empty none = []
or_empty (some rows) = rows

-- `{float(p): float(q) for p, q in rows}`: the last row of a price counts.
pub from_rows : List (ℤ × ℤ) → Levels → Levels
from_rows [] d = d
from_rows ((p, q) ∷ rows) d = from_rows rows (insert p q d)

pub apply_snapshot : KalshiBook → Snapshot → KalshiBook
unfolding from_rows
apply_snapshot b msg = record b {
  yes_book = from_rows (or_empty msg.yes_dollars) [];
  no_book = from_rows (or_empty msg.no_dollars) [];
}

-- The quantity at a price, `book.get(p, 0.0)`.
abbrev quantity : Option ℤ → ℤ
quantity none = pos 0
quantity (some q) = q

-- The body of `apply_delta` on the side that it changes. A level whose sum is at most 1e-9, which is
-- less than the unit of a quantity, is dropped.
pub apply_level : ℤ → ℤ → Levels → Levels
apply_level p d book =
    let q = quantity (lookup p book) +ℤ d in
    if leb_ℤ q (pos 0) then erase p (insert p q book) else insert p q book

abbrev on_side : Side → (Levels → Levels) → KalshiBook → KalshiBook
on_side yes_side f b = record b { yes_book = f b.yes_book }
on_side no_side f b = record b { no_book = f b.no_book }

pub apply_delta : KalshiBook → Delta → KalshiBook
unfolding apply_level
apply_delta b msg = on_side msg.side (apply_level msg.price msg.delta) b

-- Python orders pairs by price, then by quantity.
abbrev above : ℤ × ℤ → ℤ × ℤ → Bool
above (p, q) (p', q') = ltb_ℤ p' p || eqb_ℤ p p' && leb_ℤ q' q

insert_sorted : ℤ × ℤ → List (ℤ × ℤ) → List (ℤ × ℤ)
insert_sorted e [] = e ∷ []
insert_sorted e (x ∷ xs) = if above e x then e ∷ x ∷ xs else x ∷ insert_sorted e xs

-- `sorted(items, reverse=True)`
pub sorted_desc : List (ℤ × ℤ) → List (ℤ × ℤ)
unfolding insert_sorted
sorted_desc [] = []
sorted_desc (x ∷ xs) = insert_sorted x (sorted_desc xs)

-- A rung of a ladder, as (price, quantity), best first.
pub yes_bid_ladder : KalshiBook → List (ℤ × ℤ)
unfolding sorted_desc
yes_bid_ladder b = sorted_desc b.yes_book

abbrev reciprocal : ℤ × ℤ → ℤ × ℤ
reciprocal (p, q) = (one -ℤ p, q)

pub yes_offer_ladder : KalshiBook → List (ℤ × ℤ)
unfolding sorted_desc
yes_offer_ladder b = map reciprocal (sorted_desc b.no_book)

-- `max(book) if book else None`, over the prices.
pub max_price : Levels → Option ℤ
max_price [] = none
max_price ((p, q) ∷ d) = elim (max_price d) [ none ↦ some p | some m ↦ some (max_ℤ p m) ]

abbrev ask_of : Option ℤ → Option ℤ
ask_of none = none
ask_of (some nb) = some (one -ℤ nb)

-- (best YES bid, best YES ask)
pub best : KalshiBook → Option ℤ × Option ℤ
unfolding max_price
best b = (max_price b.yes_book, ask_of (max_price b.no_book))

-- `offer_pairs`: the ask ladder again, rounded to six places, which is finer than the unit.
pub offer_pairs : KalshiBook → List (ℤ × ℤ)
unfolding sorted_desc
offer_pairs b = map reciprocal (sorted_desc b.no_book)
