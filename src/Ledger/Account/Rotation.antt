-- ===== src/Ledger/Account/Rotation.antt =====
-- Liquidation (`mtm`, `unwind_all`) and the redemption of complete sets.
use cross_arb.Prelude.{◌≡◌, refl, sym, ap, ◌∙◌, Option, none, some, arith}
use cross_arb.Prelude.Int.{ℤ, pos, ◌+ℤ◌, ◌-ℤ◌, int_laws, *ℤ_parts, *ℤ_sub, min_ℤ}
use cross_arb.Prelude.Int.Rounding.{scale_laws}
use cross_arb.Ledger.Units.{one, value, round3}
use cross_arb.Ledger.Fees.{Venue}
use cross_arb.Ledger.Signal.{Quotes}
use cross_arb.Ledger.Account.{
  Ledger, Positions, Outcome, yes_wins, no_wins, winners, settled, settlement_pnl, mtm, unwind_all,
  liquidate, sell, redeem_poly_sets,
}

value_sub : (p a b : ℤ) → value p (a -ℤ b) ≡ value p a -ℤ value p b
unfolding value
value_sub p a b = rw *ℤ_sub (omega scale_laws)

value_zero : (p : ℤ) → value p (pos 0) ≡ pos 0
unfolding value
value_zero p = omega (scale_laws, *ℤ_parts p (pos 0))

+ℤ_zero : (a : ℤ) → a +ℤ pos 0 ≡ a
+ℤ_zero a = omega int_laws

liquidate-eq :
    (a : ℤ) (h : Positions) (px : Quotes) → liquidate a h px ≡ a +ℤ liquidate (pos 0) h px
unfolding liquidate
liquidate-eq a h px = omega int_laws

abbrev flat : Positions
flat = record { p_yes = pos 0; p_no = pos 0; k_yes = pos 0; k_no = pos 0 }

winners-flat : (o : Outcome) → winners o flat ≡ pos 0
unfolding ◌+ℤ◌
winners-flat yes_wins = refl
winners-flat no_wins = refl

sell_zero : (v : Venue) (bid : Option ℤ) → sell v (pos 0) bid ≡ pos 0
unfolding sell
sell_zero v none = refl
sell_zero v (some bid) = refl

liquidate-flat : (a : ℤ) (px : Quotes) → liquidate a flat px ≡ a
unfolding liquidate
liquidate-flat a px = simp (sell_zero, +ℤ_zero)

-- Unwinding the whole book at some quotes leaves it flat: it then settles, whichever outcome wins, at
-- what `mtm` said of the book at these quotes, later quotes no longer move `mtm`, and a second unwinding
-- sells nothing.
pub unwind_all-mtm :
    (l : Ledger) (px px' : Quotes) (o : Outcome)
    → (settlement_pnl (unwind_all l px).0 o ≡ mtm l px)
      × (mtm (unwind_all l px).0 px' ≡ mtm l px)
      × ((unwind_all (unwind_all l px).0 px').1 ≡ pos 0)
unfolding settlement_pnl mtm unwind_all settled round3
unwind_all-mtm l px px' o = (
  ap round3 (
      ap (λ x. l.cash +ℤ liquidate (pos 0) l.positions px +ℤ value one x) (winners-flat o)
      ∙ ap (λ x. l.cash +ℤ liquidate (pos 0) l.positions px +ℤ x) (value_zero one)
      ∙ +ℤ_zero _
      ∙ sym (liquidate-eq l.cash l.positions px)),
  ap round3 (liquidate-flat _ px' ∙ sym (liquidate-eq l.cash l.positions px)),
  ap round3 (liquidate-flat (pos 0) px'),
)

min_excess : (a b : ℤ) → min_ℤ (a -ℤ min_ℤ a b) (b -ℤ min_ℤ a b) ≡ pos 0
unfolding ◌-ℤ◌
min_excess a b = ground arith

winners-redeemed :
    (h : Positions) (m : ℤ) (o : Outcome)
    → winners o (record h { p_yes = h.p_yes -ℤ m; p_no = h.p_no -ℤ m }) ≡ winners o h -ℤ m
winners-redeemed h m yes_wins = omega int_laws
winners-redeemed h m no_wins = omega int_laws

-- Redeeming the complete sets at polymarket changes the settlement of neither outcome, and leaves no
-- complete set: nothing is left of the side of which there was less, and the excess of the other side
-- is what it was.
pub redeem_poly_sets-settled :
    (l : Ledger)
    → let (l', m) = redeem_poly_sets l in
      ((o : Outcome) → settlement_pnl l' o ≡ settlement_pnl l o)
      × (min_ℤ l'.positions.p_yes l'.positions.p_no ≡ pos 0)
      × (l'.positions.p_yes -ℤ l'.positions.p_no ≡ l.positions.p_yes -ℤ l.positions.p_no)
unfolding settlement_pnl redeem_poly_sets settled
redeem_poly_sets-settled l = (
  λ o. ap round3 (rw (winners-redeemed, value_sub) (omega int_laws)),
  min_excess l.positions.p_yes l.positions.p_no,
  omega int_laws,
)
