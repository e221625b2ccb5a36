-- ===== src/Monitor/Depth.antt =====
-- `_pairs`, `_no_ask_pairs`, `depth_curve` and `_depth_dict` of bot/monitor.py.
mod Walk
pub mod Curve
mod Tests
use cross_arb.Prelude.{
  ℕ, zero, suc, ◌+◌, ◌≡◌, refl, Bool, true, false, ◌&&◌, ◌||◌, Option, none, some, List, [], ◌∷◌,
  map, length, if◌then◌else◌, ◌=?◌, int_keys, Dict, lookup, insert,
}
use cross_arb.Prelude.Int.{ℤ, pos, ◌+ℤ◌, ◌-ℤ◌, leb_ℤ, ltb_ℤ, min_ℤ}
use cross_arb.Prelude.Int.Rounding.{round_div}
use cross_arb.Ledger.Units.{one}
use cross_arb.Monitor.Edge.{Level, Ladder}

-- An ask ladder as (price, quantity).
abbrev pub Pairs : Type 0
Pairs = List (ℤ × ℤ)

abbrev parsed : Option ℤ → Option ℤ → Pairs → Pairs
parsed (some p) (some q) rest = (p, q) ∷ rest
parsed _ _ rest = rest

-- The rungs that parse, in order.
pairs_of : List Level → Pairs
pairs_of [] = []
pairs_of (l ∷ ls) = parsed l.px l.qty (pairs_of ls)

-- `_pairs`; `levels or []`
unfoldable pub pairs : Ladder → Pairs
unfolding pairs_of
pairs none = []
pairs (some ls) = pairs_of ls

abbrev no_ask : ℤ × ℤ → ℤ × ℤ
no_ask (p, q) = (one -ℤ p, q)

-- `_no_ask_pairs`: NO asks from YES bids; a price is on the grid of 1/10000 already.
unfoldable pub no_ask_pairs : Ladder → Pairs
unfolding pairs
no_ask_pairs levels = map no_ask (pairs levels)

-- The totals by threshold, `out`.
abbrev pub Totals : Type 0
Totals = Dict ℤ ℤ

-- `out[t] += step`; every threshold is a key of `out`.
pub add_at : ℤ → ℤ → Totals → Totals
add_at t step [] = []
add_at t step ((u, q) ∷ out) = if u =? t then (u, q +ℤ step) ∷ out else (u, q) ∷ add_at t step out

-- `for t in thresholds: if edge >= t: out[t] += step`
pub add_step : ℤ → ℤ → List ℤ → Totals → Totals
unfolding add_at
add_step edge step [] out = out
add_step edge step (t ∷ ts) out =
    add_step edge step ts (if leb_ℤ t edge then add_at t step out else out)

-- `min(thresholds)`
min_threshold : ℤ → List ℤ → ℤ
min_threshold t [] = t
min_threshold t (t' ∷ ts) = min_threshold (min_ℤ t t') ts

-- `a_ladder[i][1] if i < len(a_ladder) else 0.0`
pub head_qty : Pairs → ℤ
head_qty [] = pos 0
head_qty ((p, q) ∷ rest) = q

abbrev advance : Pairs → ℤ × ℤ → ℤ → Pairs
advance rest top rem = if leb_ℤ rem (pos 0) then rest else top ∷ rest

abbrev refill : Pairs → ℤ → ℤ
refill rest rem = if leb_ℤ rem (pos 0) then head_qty rest else rem

-- The loop. The ladders are what is left from `i` and `j` on, and none means that the fuel ran out. A
-- remainder of at most 1e-9 is one of at most 0 on the grid of quantities.
pub walk : ℕ → ℤ → List ℤ → Pairs → Pairs → ℤ → ℤ → Totals → Option Totals
walk zero lo ts xs ys a_rem b_rem out = none
walk (suc fuel) lo ts [] ys a_rem b_rem out = some out
walk (suc fuel) lo ts (a ∷ xs) [] a_rem b_rem out = some out
walk (suc fuel) lo ts (a ∷ xs) (b ∷ ys) a_rem b_rem out =
    let edge = one -ℤ a.0 -ℤ b.0 in
    let step = min_ℤ a_rem b_rem in
    let a_left = a_rem -ℤ step in
    let b_left = b_rem -ℤ step in
    let rest =
      walk fuel lo ts (advance xs a a_left) (advance ys b b_left) (refill xs a_left)
        (refill ys b_left) (add_step edge step ts out) in
    if ltb_ℤ edge lo then some out else if leb_ℤ step (pos 0) then some out else rest

-- `{t: 0.0 for t in thresholds}`, onto what there is.
zeros : List ℤ → Totals → Totals
zeros [] out = out
zeros (t ∷ ts) out = zeros ts (insert t (pos 0) out)

-- For thresholds `t ∷ ts`; `min` of none would raise.
pub depth_curve : Pairs → Pairs → ℤ → List ℤ → Option Totals
unfolding walk head_qty min_threshold zeros add_step
depth_curve xs ys t ts =
    walk (length xs + length ys + 1) (min_threshold t ts) (t ∷ ts) xs ys (head_qty xs) (head_qty ys)
      (zeros (t ∷ ts) [])

-- `{"c2", "c1", "c0"}`, in whole contracts.
pub record DepthDict : Type 0 where
  pub c2 : ℤ
  pub c1 : ℤ
  pub c0 : ℤ

abbrev round_totals : Option ℤ → Option ℤ → Option ℤ → Option DepthDict
round_totals (some q2) (some q1) (some q0) =
    some (record { c2 = round_div q2 100; c1 = round_div q1 100; c0 = round_div q0 100 })
round_totals _ _ _ = none

-- `d[0.02]`, `d[0.01]` and `d[0.0]`
abbrev labelled : Option Totals → Option DepthDict
labelled none = none
labelled (some d) = round_totals (lookup (pos 200) d) (lookup (pos 100) d) (lookup (pos 0) d)

-- `DEPTH_THRESHOLDS = (0.02, 0.01, 0.0)`
unfoldable pub depth_dict : Pairs → Pairs → Option DepthDict
unfolding depth_curve
depth_dict xs ys = labelled (depth_curve xs ys (pos 200) (pos 100 ∷ pos 0 ∷ []))
