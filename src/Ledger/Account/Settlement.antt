-- ===== src/Ledger/Account/Settlement.antt =====
-- The additive and outcome-independent settlement that bot/ledger.py states as its invariants.
use cross_arb.Prelude.{
  ℕ, suc, ◌+◌, ◌*◌, ◌^◌, ◌≡◌, refl, sym, ap, subst, ◌∙◌, Bool, false, Option, none, some, List, [],
  ◌∷◌, ◌++◌, String, arith, length, All,
}
use cross_arb.Prelude.Int.{ℤ, pos, ◌+ℤ◌, ◌-ℤ◌, ◌*ℤ◌, ◌≤ℤ◌, ◌<ℤ◌, int_laws, sub_*ℤ, *ℤ_add}
use cross_arb.Prelude.Int.Rounding.{scale, scale_laws, round_div_near}
use cross_arb.Ledger.Units.{one, value, round3}
use cross_arb.Ledger.Signal.{Quotes, Dir, dir_p, dir_k, signal}
use cross_arb.Ledger.Account.{
  Ledger, Entry, Positions, Outcome, yes_wins, no_wins, Result, ok, raise, init, legs, outlay,
  net_of, add_pair, book_pair, book_legs, chosen, enter, winners, settled, settlement_pnl,
  sum_net_edges,
}

pub value_add : (p a b : ℤ) → value p (a +ℤ b) ≡ value p a +ℤ value p b
unfolding value
value_add p a b = rw *ℤ_add (omega scale_laws)

value_split : (c n : ℤ) → value (one -ℤ c) n ≡ value one n -ℤ value c n
unfolding value
value_split c n = rw sub_*ℤ (omega scale_laws)

winners-add_pair :
    (d : Dir) (size : ℤ) (h : Positions) (o : Outcome)
    → winners o (add_pair d size h) ≡ winners o h +ℤ size
unfolding add_pair
winners-add_pair dir_p size h yes_wins = omega int_laws
winners-add_pair dir_p size h no_wins = omega int_laws
winners-add_pair dir_k size h yes_wins = omega int_laws
winners-add_pair dir_k size h no_wins = omega int_laws

-- A pair is worth a dollar whichever outcome wins, and costs the outlay: the rest is its net edge.
settled_pair :
    (d : Dir) (ay an size : ℤ) (l : Ledger) (o : Outcome)
    → l.cash -ℤ outlay d ay an size +ℤ value one (winners o (add_pair d size l.positions))
      ≡ settled l o +ℤ net_of d ay an size
unfolding outlay net_of settled
settled_pair d ay an size l o =
    rw (winners-add_pair, value_add, value_split (ay +ℤ an) size) (omega int_laws)

-- What a successful `enter` did: it found both prices, and moved the settlement by the net edge of the
-- order for either outcome, which is what its entry records in mills; unless it was forced, that edge is
-- positive.
pub record Entered (l : Ledger) (force : Bool) (l' : Ledger) (e : Entry) : Type 0 where
  pub net : ℤ
  pub moved : (o : Outcome) → settled l' o ≡ settled l o +ℤ net
  pub recorded : e.net_edge ≡ round3 net
  pub appended : l'.entries ≡ l.entries ++ e ∷ []
  pub gain : (force ≡ false) → pos 0 <ℤ net

book_pair-Entered :
    (l : Ledger) (size : ℤ) (t : Option String) (force : Bool) (d : Dir) (prices : ℤ × ℤ)
    (l' : Ledger) (e : Entry)
    → book_pair l size t force d prices ≡ ok (l', e)
    → Entered l force l' e
unfolding book_pair settled
book_pair-Entered l size t force d (ay, an) l' e h = record {
  net = net_of d ay an size;
  moved = λ o. ground (arith, settled_pair d ay an size l o);
  recorded = ground arith;
  appended = ground arith;
  gain = λ f. ground arith;
}

book_legs-Entered :
    (l : Ledger) (size : ℤ) (t : Option String) (force : Bool) (d : Dir) (o : Option (ℤ × ℤ))
    (l' : Ledger) (e : Entry)
    → book_legs l size t force d o ≡ ok (l', e)
    → Entered l force l' e
unfolding book_legs
book_legs-Entered l size t force d none l' e h = cc
book_legs-Entered l size t force d (some prices) l' e h =
    book_pair-Entered l size t force d prices l' e h

pub enter-Entered :
    (l : Ledger) (px : Quotes) (size : ℤ) (dir : Option Dir) (t : Option String) (force : Bool)
    (l' : Ledger) (e : Entry)
    → enter l px size dir t force ≡ ok (l', e)
    → Entered l force l' e
unfolding enter
enter-Entered l px size dir t force l' e h =
    let d = chosen dir (signal px).dir in
    book_legs-Entered l size t force d (legs d px) l' e (ground arith)

ok-injective : {A : Type 0} {a b : A} → ok a ≡ ok b → a ≡ b
ok-injective e = cc

-- One call of `enter`.
pub record Order : Type 0 where
  pub px : Quotes
  pub size : ℤ
  pub direction : Option Dir
  pub t : Option String
  pub force : Bool

abbrev pub enter_order : Ledger → Order → Result (Ledger × Entry)
enter_order l o = enter l o.px o.size o.direction o.t o.force

abbrev then_all : Result (Ledger × Entry) → (Ledger → Result Ledger) → Result Ledger
then_all (raise err) k = raise err
then_all (ok (l, e)) k = k l

-- A run of entries, which ends at the first one that raises.
unfoldable pub enter_all : Ledger → List Order → Result Ledger
enter_all l [] = ok l
enter_all l (o ∷ os) = then_all (enter_order l o) (λ l'. enter_all l' os)

-- The settlement of a ledger for both outcomes is `total`, and its entries record it in mills with an
-- error of at most half a mill for each of the `n` entries.
record IsLocked (n : ℕ) (total : ℤ) (l : Ledger) : Type 0 where
  same : (o : Outcome) → settled l o ≡ total
  above : scale 2 total ≤ℤ scale (2 * 10 ^ 11) (sum_net_edges l.entries) +ℤ pos (n * 10 ^ 11)
  below : scale (2 * 10 ^ 11) (sum_net_edges l.entries) ≤ℤ scale 2 total +ℤ pos (n * 10 ^ 11)

sum_net_edges-append :
    (es : List Entry) (e : Entry) → sum_net_edges (es ++ e ∷ []) ≡ sum_net_edges es +ℤ e.net_edge
unfolding sum_net_edges
sum_net_edges-append [] e = omega int_laws
sum_net_edges-append (x ∷ es) e = rw (sum_net_edges-append es e) (omega int_laws)

sum_net_edges-Entered :
    (l : Ledger) (force : Bool) (l' : Ledger) (e : Entry) (s : Entered l force l' e)
    → sum_net_edges l'.entries ≡ sum_net_edges l.entries +ℤ round3 s.net
sum_net_edges-Entered l force l' e s =
    ap sum_net_edges s.appended
    ∙ sum_net_edges-append l.entries e
    ∙ ap (λ x. sum_net_edges l.entries +ℤ x) s.recorded

round3_near :
    (x : ℤ)
    → (scale 2 x ≤ℤ scale (2 * 10 ^ 11) (round3 x) +ℤ pos (10 ^ 11))
      × (scale (2 * 10 ^ 11) (round3 x) ≤ℤ scale 2 x +ℤ pos (10 ^ 11))
unfolding round3
round3_near x = round_div_near x (10 ^ 11) (omega arith)

Entered-IsLocked :
    (n : ℕ) (total : ℤ) (l : Ledger) (force : Bool) (l' : Ledger) (e : Entry)
    (s : Entered l force l' e)
    → IsLocked n total l
    → IsLocked (suc n) (total +ℤ s.net) l'
Entered-IsLocked n total l force l' e s h = record {
  same = λ o. s.moved o ∙ ap (λ x. x +ℤ s.net) (h.same o);
  above =
      rw (sum_net_edges-Entered l force l' e s) (omega (scale_laws, round3_near s.net, h.above));
  below =
      rw (sum_net_edges-Entered l force l' e s) (omega (scale_laws, round3_near s.net, h.below));
}

-- A first entry and the run after it, from a run that succeeds.
then_all-ok :
    (r : Result (Ledger × Entry)) (k : Ledger → Result Ledger) {l : Ledger}
    → then_all r k ≡ ok l
    → (m : Ledger) × (e : Entry) × (r ≡ ok (m, e)) × (k m ≡ ok l)
then_all-ok (ok (m, e)) k h = (m, e, refl, h)
then_all-ok (raise err) k h = cc

abbrev pub NotForced : List Order → Type 0
NotForced = All (λ (o : Order). o.force ≡ false)

enter_all-IsLocked :
    (os : List Order) (n m : ℕ) (total : ℤ) (l l' : Ledger)
    → n + length os ≡ m
    → IsLocked n total l
    → enter_all l os ≡ ok l'
    → (total' : ℤ) × IsLocked m total' l' × (NotForced os → total ≤ℤ total')
unfolding enter_all
enter_all-IsLocked [] n m total l l' k h e =
    let same : n ≡ m = omega (arith, k) in
    let h' : IsLocked n total l' = subst (λ x. IsLocked n total x) (ok-injective e) h in
    (total, subst (λ x. IsLocked x total l') same h', λ _. omega arith)
enter_all-IsLocked (o ∷ os) n m total l l' k h e =
    let (l₁, entry, first, later) = then_all-ok (enter_order l o) (λ x. enter_all x os) e in
    let s : Entered l o.force l₁ entry =
      enter-Entered l o.px o.size o.direction o.t o.force l₁ entry first in
    let (total', locked, grown) =
      enter_all-IsLocked os (suc n) m (total +ℤ s.net) l₁ l' (omega arith)
        (Entered-IsLocked n total l o.force l₁ entry s h) later in
    (total', locked, λ f. omega (int_laws, grown f.1, s.gain f.0))

init-IsLocked : (name : String) → IsLocked 0 (pos 0) (init name)
unfolding init settled value sum_net_edges scale ◌+ℤ◌ ◌*ℤ◌
init-IsLocked name = record {
  same = elim [ yes_wins ↦ refl | no_wins ↦ refl ];
  above = omega arith;
  below = omega arith;
}

-- Any run of entries on a new ledger that raises nothing settles at the same amount whichever outcome
-- wins; that amount and the sum of the recorded net edges differ by at most half a mill for each entry
-- and one more half; and if no entry was forced it is not a loss.
pub enter_all_settles :
    (name : String) (os : List Order) (l : Ledger)
    → enter_all (init name) os ≡ ok l
    → (settlement_pnl l yes_wins ≡ settlement_pnl l no_wins)
      × (scale 2 (settlement_pnl l yes_wins)
          ≤ℤ scale 2 (sum_net_edges l.entries) +ℤ pos (length os + 1))
      × (scale 2 (sum_net_edges l.entries)
          ≤ℤ scale 2 (settlement_pnl l yes_wins) +ℤ pos (length os + 1))
      × (NotForced os → pos 0 ≤ℤ settlement_pnl l yes_wins)
unfolding settlement_pnl
enter_all_settles name os l e =
    let (total, h, gain) =
      enter_all-IsLocked os 0 (length os) (pos 0) (init name) l (omega arith) (init-IsLocked name)
        e in
    (
      ap round3 (h.same yes_wins ∙ sym (h.same no_wins)),
      rw (h.same yes_wins) (omega (scale_laws, round3_near total, h.above, h.below)),
      rw (h.same yes_wins) (omega (scale_laws, round3_near total, h.above, h.below)),
      λ f. rw (h.same yes_wins) (omega (scale_laws, round3_near total, gain f)),
    )
