-- ===== src/Bankroll/Policy/Best.antt =====
-- The best reservation threshold is at least as good as every other, and as taking all that comes.
use cross_arb.Prelude.{
  ◌≡◌, ◌≢◌, refl, sym, ap, ◌∙◌, Option, none, some, List, [], ◌∷◌, ◌++◌, map, All, All-append,
  Bool-cases, inl, inr, All-sort_by, arith,
}
use cross_arb.Prelude.Int.{ℤ, pos, ◌≤ℤ◌, ltb_ℤ}
use cross_arb.Persistence.Episodes.{Episode}
use cross_arb.Capital.Select.{Filter}
use cross_arb.Bankroll.Account.{Account, Walk, by_open_t, total_pnl}
use cross_arb.Bankroll.Account.Identity.{
  IsDated, candidates, candidates-All, run_walk-IsBalanced, run_walk_threshold_0,
}
use cross_arb.Bankroll.Policy.{
  fifo, run_policy, thresholds, Row, row_of, at_threshold, better, sweep, best_reservation,
}

abbrev tau_of : Row → ℤ
tau_of r = r.tau

append-nil : {A : Type 0} (xs : List A) → xs ++ [] ≡ xs
append-nil [] = refl
append-nil (x ∷ xs) = ap (λ t. x ∷ t) (append-nil xs)

append_assoc : {A : Type 0} (xs ys zs : List A) → (xs ++ ys) ++ zs ≡ xs ++ (ys ++ zs)
append_assoc [] ys zs = refl
append_assoc (x ∷ xs) ys zs = ap (λ t. x ∷ t) (append_assoc xs ys zs)

map-append : {A B : Type 0} (f : A → B) (xs ys : List A) → map f (xs ++ ys) ≡ map f xs ++ map f ys
map-append f [] ys = refl
map-append f (x ∷ xs) ys = ap (λ t. f x ∷ t) (map-append f xs ys)

-- No row has a greater total.
abbrev pub Tops : Account → List Row → Type 0
Tops b grid = All (λ row. row.total ≤ℤ total_pnl b) grid

Tops-trans :
    (b b' : Account) (grid : List Row) → total_pnl b ≤ℤ total_pnl b' → Tops b grid → Tops b' grid
Tops-trans b b' [] h t = tt
Tops-trans b b' (row ∷ grid) h t = (omega (arith, t.0, h), Tops-trans b b' grid h t.1)

better_bounds :
    (b r : Account)
    → let c = better (some b) r in (total_pnl b ≤ℤ total_pnl c) × (total_pnl r ≤ℤ total_pnl c)
better_bounds b r = elim (Bool-cases (ltb_ℤ (total_pnl b) (total_pnl r))) [
  | inl less ↦ rw less (ground arith, omega arith)
  | inr more ↦ rw more (omega arith, ground arith)
]

sweep_lem :
    (run : ℤ → Option Account) (total : (tau : ℤ) → (r : Account) × (run tau ≡ some r))
    (taus : List ℤ) (b : Account) (grid : List Row)
    → Tops b grid
    → (b' : Account) × (grid' : List Row) × (sweep run taus (some b) grid ≡ some (some b', grid'))
      × (total_pnl b ≤ℤ total_pnl b')
      × Tops b' grid'
      × (map tau_of grid' ≡ map tau_of grid ++ taus)
unfolding sweep
sweep_lem run total [] b grid t =
    (b, grid, refl, omega arith, t, sym (append-nil (map tau_of grid)))
sweep_lem run total (tau ∷ taus) b grid t =
    let (r, runs) = total tau in
    let c = better (some b) r in
    let (up, over) = better_bounds b r in
    let (b', grid', ends, more, tops, rows) =
      sweep_lem run total taus c (grid ++ row_of tau r ∷ [])
        (All-append _ grid _ (Tops-trans b c grid up t) (over, tt)) in
    (
      b',
      grid',
      rw (runs, sweep) ends,
      omega (arith, up, more),
      tops,
      rows
          ∙ ap (λ t. t ++ taus) (map-append tau_of grid (row_of tau r ∷ []))
          ∙ append_assoc (map tau_of grid) (tau ∷ []) taus,
    )

runs_at :
    (e : Episode) (es : List Episode) (capital0 : ℤ) (f : Filter) (w : Walk) (tau : ℤ)
    → pos 0 ≤ℤ capital0
    → All (IsDated w) (candidates (e ∷ es) f)
    → (r : Account) × (at_threshold (e ∷ es) capital0 f w tau ≡ some r)
unfolding run_policy
runs_at e es capital0 f w tau h d =
    let (r, ends, _, _) =
      run_walk-IsBalanced (record w { tau = some tau }) capital0 e es (candidates (e ∷ es) f) h d in
    (r, ends)

-- If there is an episode, the bankroll is not negative, and no slug has a date that is none, then the sweep ends.
-- Its grid has one row for each threshold, in order; no row has a greater profit than the best run, and nor has
-- the run that takes all candidates as they come.
pub best_reservation-Tops :
    (episodes : List Episode) (capital0 : ℤ) (f : Filter) (w : Walk)
    → episodes ≢ []
    → pos 0 ≤ℤ capital0
    → All (IsDated w) episodes
    → (b : Account) × (grid : List Row) × (a : Account) × (best_reservation episodes capital0 f w
        ≡ some (some b, grid))
      × Tops b grid
      × (map tau_of grid ≡ thresholds episodes f w)
      × (run_policy episodes fifo capital0 f (record w { tau = none }) ≡ some a)
      × (total_pnl a ≤ℤ total_pnl b)
unfolding best_reservation run_policy thresholds
best_reservation-Tops [] capital0 f w n h d = absurd (n refl)
best_reservation-Tops (e ∷ es) capital0 f w n h d =
    let dated = All-sort_by by_open_t (IsDated w) _ (candidates-All (IsDated w) (e ∷ es) f d) in
    let total : (tau : ℤ) → (r : Account) × (at_threshold (e ∷ es) capital0 f w tau ≡ some r) =
      λ tau. runs_at e es capital0 f w tau h dated in
    let (r, first) = total (pos 0) in
    let (b, grid, ends, more, tops, rows) =
      sweep_lem (at_threshold (e ∷ es) capital0 f w) total _ r (row_of (pos 0) r ∷ [])
        (omega arith, tt) in
    (
      b,
      grid,
      r,
      rw (first, sweep) ends,
      tops,
      rows,
      sym (run_walk_threshold_0 w capital0 (e ∷ es) (candidates (e ∷ es) f)) ∙ first,
      more,
    )
