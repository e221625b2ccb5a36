-- ===== src/Monitor/Edge.antt =====
-- `best_px`, `make_px`, `edge_state` and `classify` of bot/monitor.py.
pub mod Replay
mod Tests
use cross_arb.Prelude.{
  ℕ, ◌≡◌, refl, Bool, true, false, not, ◌&&◌, ◌||◌, Option, none, some, List, [], ◌∷◌, Eq, ◌=?◌,
  if◌then◌else◌, is_some,
}
use cross_arb.Prelude.Int.{ℤ, pos, negsuc, ◌+ℤ◌, ◌-ℤ◌, ltb_ℤ}
use cross_arb.Ledger.Signal.{Quotes, Dir, dir_p, dir_k, Signal, signal}

-- A call that may raise.
pub data Attempt {ℓ} (A : Type ℓ) : Type ℓ where
  ok : A → Attempt A
  raised : Attempt A

infixl 5 ◌>>=◌
abbrev pub ◌>>=◌ {ℓ κ} : {A : Type ℓ} {B : Type κ} → Attempt A → (A → Attempt B) → Attempt B
ok a >>= f = f a
raised >>= f = raised

-- A rung `{px: {value}, qty}` of a venue's ladder: none where a part is missing or is no number. A price
-- is in 1/10000 dollar and a quantity in 1/100 contract.
pub record Level : Type 0 where
  pub px : Option ℤ
  pub qty : Option ℤ

-- A ladder, best first; none before the first frame.
abbrev pub Ladder : Type 0
Ladder = Option (List Level)

abbrev float_of : Option ℤ → Attempt (Option ℤ)
float_of none = raised
float_of (some p) = ok (some p)

unfoldable pub best_px : Ladder → Attempt (Option ℤ)
best_px none = ok none
best_px (some []) = ok none
best_px (some (l ∷ ls)) = float_of l.px

-- The last test of `make_px`: a direction is fully quoted.
abbrev pub priceable : Quotes → Bool
priceable px = is_some px.p_ya && is_some px.k_yb || is_some px.k_ya && is_some px.p_yb

unfoldable pub make_px : Ladder → Ladder → Ladder → Ladder → Attempt (Option Quotes)
unfolding best_px
make_px p_bids p_offers k_bids k_offers = do
  p_yb ← best_px p_bids
  p_ya ← best_px p_offers
  k_yb ← best_px k_bids
  k_ya ← best_px k_offers
  let px : Quotes = record { p_yb = p_yb; p_ya = p_ya; k_yb = k_yb; k_ya = k_ya }
  ok (if priceable px then some px else none)

-- What is compared from one evaluation to the next; `net` is in 1/10000 dollar.
pub record EdgeState {ℓ} (D : Type ℓ) : Type ℓ where
  pub arb : Bool
  pub dir : D
  pub net : ℤ

unfoldable pub edge_state : Quotes → EdgeState Dir
edge_state px =
    let s = signal px in
    record { arb = ltb_ℤ (pos 0) s.net_edge && not s.no_arb; dir = s.dir; net = s.net_edge }

pub data Transition : Type 0 where
  opened closed flipped widened narrowed : Transition

-- `eps=0.002`
abbrev pub eps : ℤ
eps = pos 20

module _ {ℓ} {D : Type ℓ} ⦃e : Eq D⦄ where
  -- The branch of `classify` for two states with an arbitrage.
  abbrev compare_open : EdgeState D → EdgeState D → Option Transition
  compare_open prev new =
      if not (new.dir =? prev.dir)
      then some flipped
      else if ltb_ℤ eps (new.net -ℤ prev.net)
      then some widened
      else if ltb_ℤ (new.net -ℤ prev.net) (pos 0 -ℤ eps)
      then some narrowed
      else none

  unfoldable pub classify : Option (EdgeState D) → Option (EdgeState D) → Option Transition
  classify prev none = none
  classify none (some new) = if new.arb then some opened else none
  classify (some prev) (some new) =
      if not prev.arb
      then (if new.arb then some opened else none)
      else if not new.arb
      then some closed
      else compare_open prev new
