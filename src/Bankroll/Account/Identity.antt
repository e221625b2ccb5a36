-- ===== src/Bankroll/Account/Identity.antt =====
-- The account identity of the walk: what it holds, what it has earned, and where each position is.
use cross_arb.Prelude.{
  ℕ, ◌+◌, ◌≡◌, refl, ap, subst, ◌∙◌, false, Option, none, some, List, [], ◌∷◌, length, All,
  All-select, All-sort_by, sort_by, ◌≢◌, Bool-cases, Option-cases, inl, inr, arith,
}
use cross_arb.Prelude.Int.{ℤ, pos, pos_part, ◌≤ℤ◌, ◌<ℤ◌, ltb_ℤ, min_ℤ, int_laws, not_ltb_ℤ}
use cross_arb.Prelude.Int.Rounding.{floor_div}
use cross_arb.Prelude.Int.Sums.{sum_of}
use cross_arb.Persistence.Episodes.{Episode}
use cross_arb.Capital.Select.{Filter, keeps, capturable, one_per_market}
use cross_arb.Capital.Select.Earliest.{one_per_market-All}
use cross_arb.Capital.Economics.{settle_t, cost_per, profit_per}
use cross_arb.Capital.Afford.{cost_per_pos, profit_per_nonneg, affordable}
use cross_arb.Bankroll.Account.{
  Account, Walk, opening, settle_due, enter, below, consider, walk, window_end, last_seen,
  by_open_t, marked, run_walk, run_account,
}
use cross_arb.Bankroll.Account.Balanced.{
  settle_each-IsSettled, IsBalanced, settle_due-IsBalanced, enter-IsBalanced,
}

-- The slug of an episode has no date, or one that is a date.
abbrev pub IsDated : Walk → Episode → Type 0
IsDated w e = (t : ℤ) × (settle_t e.market e.open_t w.offset_s ≡ some t)

-- The result of a walk over `n` candidates: it ends, balanced.
abbrev Balances : Walk → ℤ → ℕ → Option Account → Type 0
Balances w capital0 n o = (a : Account) × (o ≡ some a) × IsBalanced w capital0 n a

skip-IsBalanced :
    (w : Walk) (capital0 : ℤ) (n : ℕ) (a : Account) (i j : ℕ)
    → IsBalanced w capital0 n a
    → i + j ≡ a.skipped_capital + a.skipped_tau + 1
    → IsBalanced w capital0 (n + 1) (record a { skipped_capital = i; skipped_tau = j })
skip-IsBalanced w capital0 n a i j b h = record {
  solvent = b.solvent;
  equity = b.equity;
  places = b.places;
  sizes = b.sizes;
  counts = omega (arith, b.counts, h);
  fair = b.fair;
}

min_bounds : (x y z : ℤ) → (min_ℤ (min_ℤ x y) z ≤ℤ y) × (min_ℤ (min_ℤ x y) z ≤ℤ z)
min_bounds x y z = ground arith

-- One candidate, with the bankroll as it stands.
consider-Balances :
    (w : Walk) (capital0 : ℤ) (n : ℕ) (a : Account) (e : Episode)
    → IsBalanced w capital0 n a
    → IsDated w e
    → Balances w capital0 (n + 1) (consider w a e)
unfolding consider
consider-Balances w capital0 n a e b (t, dated) =
    let per = profit_per e w.haircut w.void_mult in
    let want = min_ℤ e.open_c2 w.max_clip in
    let afford = floor_div a.cash (pos_part (cost_per e)) in
    let size = min_ℤ want afford in
    let bounds = min_bounds e.open_c2 w.max_clip afford in
    elim (Bool-cases (below w.tau per)) [
      | inl thin ↦ (
        record a { skipped_tau = a.skipped_tau + 1 },
        rw thin refl,
        skip-IsBalanced w capital0 n a _ _ b (omega arith),
      )
      | inr rich ↦ elim (Bool-cases (ltb_ℤ size (pos 1))) [
        | inl little ↦ (
          record a { skipped_capital = a.skipped_capital + 1 },
          rw (rich, little) refl,
          skip-IsBalanced w capital0 n a _ _ b (omega arith),
        )
        | inr enough ↦ (
          enter a e size per t (ltb_ℤ size want),
          rw (rich, enough, dated) refl,
          enter-IsBalanced w capital0 n a e size per t (ltb_ℤ size want) b
              (not_ltb_ℤ size (pos 1) enough) bounds.0 (profit_per_nonneg e w.haircut w.void_mult)
              (affordable a.cash size (cost_per e) (cost_per_pos e) bounds.1),
        )
      ]
    ]

pub walk-Balances :
    (w : Walk) (capital0 : ℤ) (n : ℕ) (a : Account) (es : List Episode)
    → IsBalanced w capital0 n a
    → All (IsDated w) es
    → Balances w capital0 (n + length es) (walk w a es)
unfolding walk
walk-Balances w capital0 n a [] b d =
    (a, refl, subst (λ m. IsBalanced w capital0 m a) (omega arith) b)
walk-Balances w capital0 n a (e ∷ es) b d =
    let (a', there, b') =
      consider-Balances w capital0 n (settle_due a e.open_t) e
        (settle_due-IsBalanced w capital0 n a e.open_t b) d.0 in
    let (a'', ends, b'') = walk-Balances w capital0 (n + 1) a' es b' d.1 in
    (a'', rw (there, walk) ends, subst (λ m. IsBalanced w capital0 m a'') (omega arith) b'')

pending_after_mark :
    (a : Account) (now : ℤ)
    → All (λ p. (pos 0 ≤ℤ p.capital) × (pos 0 ≤ℤ p.profit)) a.held
    → All (λ p. now <ℤ p.settle_t) (settle_due a now).held
unfolding settle_due
pending_after_mark a now h = (settle_each-IsSettled now a.held h).pending

opening-IsBalanced :
    (w : Walk) (capital0 : ℤ) → pos 0 ≤ℤ capital0 → IsBalanced w capital0 0 (opening capital0)
unfolding sum_of
opening-IsBalanced w capital0 h = record {
  solvent = h;
  equity = refl;
  places = λ f. omega int_laws;
  sizes = tt;
  counts = refl;
  fair = tt;
}

-- The walk over given candidates, marked at the end of the window.
pub run_walk-IsBalanced :
    (w : Walk) (capital0 : ℤ) (e : Episode) (es cands : List Episode)
    → pos 0 ≤ℤ capital0
    → All (IsDated w) cands
    → (a : Account) × (run_walk w capital0 (e ∷ es) cands ≡ some a)
      × IsBalanced w capital0 (length cands) a
      × All (λ p. window_end (last_seen e) es <ℤ p.settle_t) a.held
unfolding run_walk
run_walk-IsBalanced w capital0 e es cands h d =
    let (a, ends, b) =
      walk-Balances w capital0 0 (opening capital0) cands (opening-IsBalanced w capital0 h) d in
    let end = window_end (last_seen e) es in
    (
      settle_due a end,
      ap (marked end) ends,
      settle_due-IsBalanced w capital0 (length cands) a end
          (subst (λ n. IsBalanced w capital0 n a) (omega arith) b),
      pending_after_mark a end b.fair,
    )

-- The end of the window of the episodes.
abbrev pub end_of : List Episode → ℤ
end_of [] = pos 0
end_of (e ∷ es) = window_end (last_seen e) es

-- The candidates in the order of their opening.
abbrev pub candidates : List Episode → Filter → List Episode
candidates episodes f = sort_by by_open_t (one_per_market (capturable episodes f))

pub candidates-All :
    (P : Episode → Type 0) (episodes : List Episode) (f : Filter)
    → All P episodes
    → All P (one_per_market (capturable episodes f))
unfolding capturable
candidates-All P episodes f h =
    one_per_market-All P (capturable episodes f) (All-select P (keeps f) episodes h)

-- If no slug has a date that is none then the run ends, for any bankroll that is not negative. Its cash is
-- never negative; cash and locked capital are the bankroll and the profit that is realized; each entered
-- position is realized or still held, once; each is of 1 to `max_clip` contracts and loses nothing; every
-- candidate was entered or counted as skipped; and only positions that settle behind the window are held.
pub run_account-IsBalanced :
    (episodes : List Episode) (capital0 : ℤ) (f : Filter) (w : Walk)
    → episodes ≢ []
    → pos 0 ≤ℤ capital0
    → All (IsDated w) episodes
    → (a : Account) × (run_account episodes capital0 f w ≡ some a)
      × IsBalanced w capital0 (length (candidates episodes f)) a
      × All (λ p. end_of episodes <ℤ p.settle_t) a.held
unfolding run_account
run_account-IsBalanced [] capital0 f w n h d = absurd (n refl)
run_account-IsBalanced (e ∷ es) capital0 f w n h d =
    let cands = candidates (e ∷ es) f in
    let (a, ends, b, p) =
      run_walk-IsBalanced (record w { tau = none }) capital0 e es cands h
        (All-sort_by by_open_t (IsDated w) _ (candidates-All (IsDated w) (e ∷ es) f d)) in
    (
      a,
      ends,
      record {
        solvent = b.solvent;
        equity = b.equity;
        places = b.places;
        sizes = b.sizes;
        counts = b.counts;
        fair = b.fair;
      },
      p,
    )

-- A threshold of nothing excludes nothing.
consider_threshold_0 :
    (w : Walk) (a : Account) (e : Episode)
    → consider (record w { tau = some (pos 0) }) a e ≡ consider (record w { tau = none }) a e
unfolding consider
consider_threshold_0 w a e = rw not_below refl
  where
    not_below : ltb_ℤ (profit_per e w.haircut w.void_mult) (pos 0) ≡ false
    not_below = ground (arith, profit_per_nonneg e w.haircut w.void_mult)

walk_threshold_0 :
    (w : Walk) (a : Account) (es : List Episode)
    → walk (record w { tau = some (pos 0) }) a es ≡ walk (record w { tau = none }) a es
unfolding walk
walk_threshold_0 w a [] = refl
walk_threshold_0 w a (e ∷ es) =
    let same = consider_threshold_0 w (settle_due a e.open_t) e in
    elim (Option-cases (consider (record w { tau = none }) (settle_due a e.open_t) e)) [
      | inl raised ↦ rw (same ∙ raised, raised, walk) refl
      | inr (a', there) ↦ rw (same ∙ there, there, walk) (walk_threshold_0 w a' es)
    ]

pub run_walk_threshold_0 :
    (w : Walk) (capital0 : ℤ) (episodes cands : List Episode)
    → run_walk (record w { tau = some (pos 0) }) capital0 episodes cands
      ≡ run_walk (record w { tau = none }) capital0 episodes cands
unfolding run_walk
run_walk_threshold_0 w capital0 [] cands = refl
run_walk_threshold_0 w capital0 (e ∷ es) cands =
    ap (marked (window_end (last_seen e) es)) (walk_threshold_0 w (opening capital0) cands)
