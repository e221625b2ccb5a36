-- ===== src/Bankroll/Recycle/Ends.antt =====
-- The run ends, and its account is in balance.
use cross_arb.Prelude.{
  ℕ, zero, suc, ◌+◌, ◌*◌, ◌≤◌, ◌≡◌, ◌≢◌, refl, sym, ap, subst, Bool, true, false, ◌&&◌, Option,
  Option-cases, some_eq, none, some, List, [], ◌∷◌, length, All, All-select, All-sort_by, sort_by,
  inl, inr, if◌then◌else◌, arith,
}
use cross_arb.Prelude.Int.{ℤ, pos, ◌≤ℤ◌, leb_ℤ, int_laws}
use cross_arb.Prelude.Int.Sums.{sum_of}
use cross_arb.Persistence.Episodes.{Episode}
use cross_arb.Capital.Select.{keeps, capturable, one_per_market}
use cross_arb.Capital.Select.Earliest.{one_per_market-All}
use cross_arb.Bankroll.Account.{window_end, last_seen}
use cross_arb.Bankroll.Recycle.{Arm, Rules, Funded}
use cross_arb.Bankroll.Recycle.Timeline.{
  settlement, due, run_loop, start, gates, arm_candidates, enough, run_over, run_arm,
}
use cross_arb.Bankroll.Recycle.Funding.{IsBalanced, IsDated}
use cross_arb.Bankroll.Recycle.Steps.{load, Less, settlement-Less, arrive-Less}

due_reached : (now : Bool) (t s : ℤ) → (if now then some t else none) ≡ some s → leb_ℤ t s ≡ true
due_reached true t s h = subst (λ x. leb_ℤ t x ≡ true) (some_eq h) (ground arith)
due_reached false t s h = cc

-- The settlement that is due is the first one of the heap.
due_first :
    (window s : ℤ) (cands : List Episode) (held : List Funded)
    → due window cands held ≡ some s
    → (p : Funded) × (ps : List Funded) × (held ≡ p ∷ ps) × (leb_ℤ p.settle_t s ≡ true)
due_first window s cands [] h = cc
due_first window s [] (p ∷ ps) h =
    (p, ps, refl, due_reached (leb_ℤ p.settle_t window) p.settle_t s h)
due_first window s (e ∷ es) (p ∷ ps) h =
    (p, ps, refl, due_reached (leb_ℤ p.settle_t window && leb_ℤ p.settle_t e.open_t) p.settle_t s h)

settles :
    (w : Rules) (window s : ℤ) (cands : List Episode) (a : Arm)
    → IsBalanced w.capital0 a
    → All (IsDated w) a.pending
    → due window cands a.held ≡ some s
    → (a' : Arm) × (settlement w s a ≡ some a')
      × IsBalanced w.capital0 a'
      × All (IsDated w) a'.pending
      × (load a'.held a'.pending + 1 ≤ load a.held a.pending)
settles w window s cands a b d h =
    let (p, ps, front, reached) = due_first window s cands a.held h in
    let (a', done, b', d', less) =
      subst (λ hs. Less w (load ps a.pending) (settlement w s (record a { held = hs }))) (sym front)
        (settlement-Less w s a p ps
          (subst (λ hs. IsBalanced w.capital0 (record a { held = hs })) front b) d reached) in
    (a', done, b', d', omega (arith, less, ap length front))

-- The end of the loop: in balance, and nothing left that settles in the window.
abbrev Finished : Rules → ℤ → Option Arm → Type 0
Finished w window o =
    (a : Arm) × (o ≡ some a) × IsBalanced w.capital0 a × (due window [] a.held ≡ none)

run_loop-Finished :
    (w : Rules) (window : ℤ) (n : ℕ) (cands : List Episode) (a : Arm)
    → IsBalanced w.capital0 a
    → All (IsDated w) a.pending
    → All (IsDated w) cands
    → 3 * length cands + load a.held a.pending + 1 ≤ n
    → Finished w window (run_loop w window n cands a)
unfolding run_loop
run_loop-Finished w window zero cands a b d c f = absurd (omega (arith, f))
run_loop-Finished w window (suc n) [] a b d c f = elim (Option-cases (due window [] a.held)) [
  | inl over ↦ (a, rw (over, run_loop) refl, b, over)
  | inr (s, next) ↦
      let (a', done, b', d', less) = settles w window s [] a b d next in
      let (a'', ends, b'', over) =
        run_loop-Finished w window n [] a' b' d' tt (omega (arith, f, less)) in
      (a'', rw (next, done, run_loop) ends, b'', over)
]
run_loop-Finished w window (suc n) (e ∷ es) a b d c f =
    elim (Option-cases (due window (e ∷ es) a.held)) [
      | inl unsettled ↦
          let (a', done, b', d', less) = arrive-Less w a e b d c.0 in
          let (a'', ends, b'', over) =
            run_loop-Finished w window n es a' b' d' c.1 (omega (arith, f, less)) in
          (a'', rw (unsettled, done, run_loop) ends, b'', over)
      | inr (s, next) ↦
          let (a', done, b', d', less) = settles w window s (e ∷ es) a b d next in
          let (a'', ends, b'', over) =
            run_loop-Finished w window n (e ∷ es) a' b' d' c (omega (arith, f, less)) in
          (a'', rw (next, done, run_loop) ends, b'', over)
    ]

start-IsBalanced : (capital0 : ℤ) → pos 0 ≤ℤ capital0 → IsBalanced capital0 (start capital0)
unfolding sum_of
start-IsBalanced capital0 h = record {
  solvent = h;
  equity = refl;
  places = λ f. omega int_laws;
  fair = tt;
}

arm_candidates-All :
    (P : Episode → Type 0) (episodes : List Episode) (drop_flat : Bool)
    → All P episodes
    → All P (arm_candidates episodes drop_flat)
unfolding arm_candidates capturable
arm_candidates-All P episodes drop_flat h =
    All-sort_by _ P _ (one_per_market-All P _ (All-select P (keeps (gates drop_flat)) episodes h))

-- The end of the window of the episodes.
abbrev pub end_of : List Episode → ℤ
end_of [] = pos 0
end_of (e ∷ es) = window_end (last_seen e) es

over_candidates :
    (w : Rules) (e : Episode) (es cands : List Episode)
    → cands ≢ []
    → pos 0 ≤ℤ w.capital0
    → All (IsDated w) cands
    → Finished w (end_of (e ∷ es)) (run_over w (e ∷ es) cands)
over_candidates w e es [] n h d = absurd (n refl)
over_candidates w e es (c ∷ cs) n h d =
    run_loop-Finished w (end_of (e ∷ es)) (enough (c ∷ cs)) (c ∷ cs) (start w.capital0)
      (start-IsBalanced w.capital0 h) tt d (omega arith)

-- If there is a candidate, the bankroll is not negative, and no slug has a date that is none, then the run ends
-- after at most three passes for each candidate and one more, with recycling or without. Its cash is never
-- negative; cash and locked capital are the bankroll and the profit that is realized; each entered position is
-- realized or still held, once; and the next settlement, if there is one, is behind the window.
pub run_arm-IsBalanced :
    (episodes : List Episode) (drop_flat : Bool) (w : Rules)
    → arm_candidates episodes drop_flat ≢ []
    → pos 0 ≤ℤ w.capital0
    → All (IsDated w) episodes
    → (a : Arm) × (run_arm episodes drop_flat w ≡ some a)
      × IsBalanced w.capital0 a
      × (due (end_of episodes) [] a.held ≡ none)
unfolding run_arm sort_by one_per_market capturable
run_arm-IsBalanced [] drop_flat w n h d = absurd (n none_left)
  where
    none_left : arm_candidates [] drop_flat ≡ []
    none_left = refl
run_arm-IsBalanced (e ∷ es) drop_flat w n h d =
    over_candidates w e es (arm_candidates (e ∷ es) drop_flat) n h
      (arm_candidates-All (IsDated w) (e ∷ es) drop_flat d)
