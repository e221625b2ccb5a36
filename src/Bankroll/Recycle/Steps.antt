-- ===== src/Bankroll/Recycle/Steps.antt =====
-- What one settlement and one arrival do to the run.
use cross_arb.Prelude.{
  ℕ, ◌+◌, ◌*◌, ◌≤◌, ◌≡◌, refl, sym, ap, subst, ◌∙◌, Bool, true, false, Option, some, List, [], ◌∷◌,
  ◌++◌, length, length-append, All, All-append, All-select, All-sort_by, select, length-select_le,
  sort_by, length-sort_by, Bool-cases, inl, inr, if◌then◌else◌, arith,
}
use cross_arb.Prelude.Int.{ℤ, pos_part, neg_part, leb_ℤ, int_laws}
use cross_arb.Prelude.Int.Sums.{sum_of, sum_of-append}
use cross_arb.Persistence.Episodes.{Episode}
use cross_arb.Bankroll.Recycle.{
  Arm, Rules, Funded, RecycleEvent, Status, funded, below_tau, cap0, cluster0, no_capital, recycled,
  arrival,
}
use cross_arb.Bankroll.Recycle.Timeline.{
  pay, pop_due, by_edge, noted, kept_for, refund, event_of, is_live, logged, recycle_at, settlement,
  counted, arrived, arrive,
}
use cross_arb.Bankroll.Recycle.Funding.{profit_of, IsBalanced, grows, IsDated, try_fund-Tries}

append-nil : {A : Type 0} (xs : List A) → xs ++ [] ≡ xs
append-nil [] = refl
append-nil (x ∷ xs) = ap (λ ys. x ∷ ys) (append-nil xs)

-- The pops keep the balance, and take nothing but the front of the heap.
pop_due-IsBalanced :
    (capital0 s : ℤ) (a : Arm) (ps : List Funded)
    → IsBalanced capital0 (record a { held = ps })
    → let (a', rest, popped) = pop_due s a ps in
      IsBalanced capital0 (record a' { held = rest }) × (a'.pending ≡ a.pending)
unfolding pop_due pay sum_of
pop_due-IsBalanced capital0 s a [] b = (b, refl)
pop_due-IsBalanced capital0 s a (p ∷ ps) b = elim (Bool-cases (leb_ℤ p.settle_t s)) [
  | inl ripe ↦ rw ripe (
      let (b', same) = pop_due-IsBalanced capital0 s (pay a s p) ps (record {
        solvent = omega (int_laws, b.solvent, b.fair.0);
        equity =
            rw (sum_of-append profit_of a.realized _)
              (omega (int_laws, ap pos_part b.equity, ap neg_part b.equity));
        places = λ f.
            rw (sum_of-append f a.realized _)
              (omega (int_laws, ap pos_part (b.places f), ap neg_part (b.places f)));
        fair = b.fair.1;
      }) in
      (b', same))
  | inr early ↦ rw early (b, refl)
]

pop_due_le : (s : ℤ) (a : Arm) (ps : List Funded) → length (pop_due s a ps).1 ≤ length ps
unfolding pop_due
pop_due_le s a [] = omega arith
pop_due_le s a (p ∷ ps) =
    let rest = pop_due_le s (pay a s p) ps in
    elim (Bool-cases (leb_ℤ p.settle_t s)) [
      | inl ripe ↦ rw ripe (omega (arith, rest))
      | inr early ↦ rw early (omega arith)
    ]

-- Something is taken where the first is due.
pop_due_head :
    (s : ℤ) (a : Arm) (p : Funded) (ps : List Funded)
    → leb_ℤ p.settle_t s ≡ true
    → length (pop_due s a (p ∷ ps)).1 ≤ length ps
unfolding pop_due
pop_due_head s a p ps h = rw h (pop_due_le s (pay a s p) ps)

-- A candidate becomes one position, waits on, or is gone.
kept_for_lem : (e : Episode) (st : Status) → grows st + 2 * length (kept_for e st) ≤ 2
kept_for_lem e (funded p) = omega arith
kept_for_lem e below_tau = omega arith
kept_for_lem e cap0 = omega arith
kept_for_lem e cluster0 = omega arith
kept_for_lem e no_capital = omega arith

All-kept_for : (P : Episode → Type 0) (e : Episode) (st : Status) → P e → All P (kept_for e st)
All-kept_for P e (funded p) h = tt
All-kept_for P e below_tau h = tt
All-kept_for P e cap0 h = tt
All-kept_for P e cluster0 h = (h, tt)
All-kept_for P e no_capital h = (h, tt)

-- What the run may still do: a position settles, a candidate is funded first.
abbrev pub load : List Funded → List Episode → ℕ
load held pending = length held + 2 * length pending

refund-IsBalanced :
    (w : Rules) (s : ℤ) (a : Arm) (live : List Episode) (ev : RecycleEvent)
    → IsBalanced w.capital0 a
    → All (IsDated w) live
    → (a' : Arm) × (still : List Episode) × (ev' : RecycleEvent) × (refund w s a live ev
        ≡ some (a', still, ev'))
      × IsBalanced w.capital0 a'
      × All (IsDated w) still
      × (load a'.held still ≤ load a.held live)
unfolding refund
refund-IsBalanced w s a [] ev b d = (a, [], ev, refl, b, tt, omega arith)
refund-IsBalanced w s a (e ∷ live) ev b d =
    let (st, a', tried, t) = try_fund-Tries w a e s recycled b d.0 in
    let (a'', still, ev', rest, b'', d'', less) =
      refund-IsBalanced w s a' live (noted e st ev) t.balanced d.1 in
    (
      a'',
      kept_for e st ++ still,
      ev',
      rw (tried, rest, refund) refl,
      b'',
      All-append (IsDated w) (kept_for e st) still (All-kept_for (IsDated w) e st d.0) d'',
      rw (length-append (kept_for e st)) (omega (arith, less, t.heap, kept_for_lem e st)),
    )

-- What an event leaves: the balance, and less to do.
abbrev pub Less : Rules → ℕ → Option Arm → Type 0
Less w n o =
    (a : Arm) × (o ≡ some a)
    × IsBalanced w.capital0 a
    × All (IsDated w) a.pending
    × (load a.held a.pending ≤ n)

recycle_at-Less :
    (w : Rules) (s : ℤ) (a : Arm) (popped : List Funded)
    → IsBalanced w.capital0 a
    → All (IsDated w) a.pending
    → Less w (load a.held a.pending) (recycle_at w s a popped)
unfolding recycle_at
recycle_at-Less w s a popped b d =
    let pending = select (is_live s) a.pending in
    let live = sort_by (by_edge w) pending in
    let ev = event_of w s popped live in
    let fewer = length-select_le (is_live s) a.pending in
    let (a', still, ev', done, b', d', less) = refund-IsBalanced w s a live ev b (
      All-sort_by (by_edge w) (IsDated w) pending
        (All-select (IsDated w) (is_live s) a.pending d)) in
    either w.recycle _ _
      (
        record a' { pending = still; recycle_events = a'.recycle_events ++ ev' ∷ [] },
        ap logged done,
        record { solvent = b'.solvent; equity = b'.equity; places = b'.places; fair = b'.fair },
        d',
        omega (arith, less, fewer, length-sort_by (by_edge w) pending),
      )
      (
        record a { pending = pending; recycle_events = a.recycle_events ++ ev ∷ [] },
        refl,
        record { solvent = b.solvent; equity = b.equity; places = b.places; fair = b.fair },
        All-select (IsDated w) (is_live s) a.pending d,
        omega (arith, fewer),
      )
  where
    either :
        (on : Bool) (x y : Option Arm)
        → Less w (load a.held a.pending) x
        → Less w (load a.held a.pending) y
        → Less w (load a.held a.pending) (if on then x else y)
    either true x y h k = h
    either false x y h k = k

pub settlement-Less :
    (w : Rules) (s : ℤ) (a : Arm) (p : Funded) (ps : List Funded)
    → IsBalanced w.capital0 (record a { held = p ∷ ps })
    → All (IsDated w) a.pending
    → leb_ℤ p.settle_t s ≡ true
    → Less w (load ps a.pending) (settlement w s (record a { held = p ∷ ps }))
unfolding settlement
settlement-Less w s a p ps b d h =
    let h' : Arm = record a { held = p ∷ ps } in
    let (a', rest, popped) = pop_due s h' (p ∷ ps) in
    let (b', same) = pop_due-IsBalanced w.capital0 s h' (p ∷ ps) b in
    let (a'', done, b'', d'', less) =
      recycle_at-Less w s (record a' { held = rest }) popped b'
        (subst (All (IsDated w)) (sym same) d) in
    (a'', done, b'', d'', omega (arith, less, pop_due_head s h' p ps h, ap length same))

-- The skips and the candidates that wait are no part of the account.
same_account :
    (c : ℤ) (a : Arm) (i j k : ℕ) (es : List Episode)
    → IsBalanced c a
    → IsBalanced c
        (record a { skipped_tau = i; skipped_capital = j; skipped_cluster = k; pending = es })
same_account c a i j k es b = record {
  solvent = b.solvent;
  equity = b.equity;
  places = b.places;
  fair = b.fair;
}

counted-IsBalanced :
    (c : ℤ) (e : Episode) (st : Status) (a : Arm) → IsBalanced c a → IsBalanced c (counted e st a)
counted-IsBalanced c e (funded p) a b = b
counted-IsBalanced c e below_tau a b =
    same_account c a (a.skipped_tau + 1) a.skipped_capital a.skipped_cluster a.pending b
counted-IsBalanced c e cap0 a b =
    same_account c a a.skipped_tau (a.skipped_capital + 1) a.skipped_cluster a.pending b
counted-IsBalanced c e cluster0 a b =
    same_account c a a.skipped_tau a.skipped_capital (a.skipped_cluster + 1) (a.pending ++ e ∷ []) b
counted-IsBalanced c e no_capital a b =
    same_account c a a.skipped_tau (a.skipped_capital + 1) a.skipped_cluster (a.pending ++ e ∷ []) b

counted-pending :
    (e : Episode) (st : Status) (a : Arm) → (counted e st a).pending ≡ a.pending ++ kept_for e st
counted-pending e (funded p) a = sym (append-nil a.pending)
counted-pending e below_tau a = sym (append-nil a.pending)
counted-pending e cap0 a = sym (append-nil a.pending)
counted-pending e cluster0 a = refl
counted-pending e no_capital a = refl

counted-held : (e : Episode) (st : Status) (a : Arm) → (counted e st a).held ≡ a.held
counted-held e (funded p) a = refl
counted-held e below_tau a = refl
counted-held e cap0 a = refl
counted-held e cluster0 a = refl
counted-held e no_capital a = refl

pub arrive-Less :
    (w : Rules) (a : Arm) (e : Episode)
    → IsBalanced w.capital0 a
    → All (IsDated w) a.pending
    → IsDated w e
    → Less w (load a.held a.pending + 2) (arrive w a e)
unfolding arrive
arrive-Less w a e b d dated =
    let (st, a', tried, t) = try_fund-Tries w a e e.open_t arrival b dated in
    let queue = counted-pending e st a' ∙ ap (λ es. es ++ kept_for e st) t.waiting in
    (
      counted e st a',
      ap (arrived e) tried,
      counted-IsBalanced w.capital0 e st a' t.balanced,
      subst (All (IsDated w)) (sym queue) (
          All-append (IsDated w) a.pending (kept_for e st) d (All-kept_for (IsDated w) e st dated)),
      omega (
        arith,
        ap length queue,
        ap length (counted-held e st a'),
        t.heap,
        kept_for_lem e st,
        length-append a.pending (kept_for e st),
      ),
    )
