-- ===== src/Bankroll/Policy.antt =====
-- scripts/alloc_policy_experiment.py: the order in which candidates are considered, and the best threshold
-- of the reservation policy. Costs and profits of one contract are those of the account's walk.
pub mod Best
use cross_arb.Prelude.{
  ℕ, ◌+◌, ◌≡◌, Bool, true, false, not, ◌&&◌, ◌||◌, Option, none, some, List, [], ◌∷◌, ◌++◌, map,
  String, ◌=?◌, int_keys, elem, text_le, sort_by, length, if◌then◌else◌,
}
use cross_arb.Prelude.Int.{ℤ, pos, ◌+ℤ◌, ◌-ℤ◌, ◌*ℤ◌, ltb_ℤ, leb_ℤ, eqb_ℤ}
use cross_arb.Prelude.Int.Rounding.{round_div, trunc_div}
use cross_arb.Persistence.Episodes.{Episode}
use cross_arb.Capital.Select.{Filter, capturable, one_per_market}
use cross_arb.Capital.Economics.{cost_per, profit_per}
use cross_arb.Bankroll.Account.{Account, Walk, run_walk, by_open_t, total_pnl}

pub data Policy : Type 0 where
  fifo batch1s offline_knapsack reservation : Policy

-- `int(e["open_t"])`, in seconds.
abbrev second_of : Episode → ℤ
second_of e = trunc_div e.open_t 1000

abbrev profit_of : Walk → Episode → ℤ
profit_of w e = profit_per e w.haircut w.void_mult

-- By `(int(open_t), -profit, market)`.
abbrev by_batch : Walk → Episode → Episode → Bool
by_batch w d e =
    ltb_ℤ (second_of d) (second_of e)
    || eqb_ℤ (second_of d) (second_of e)
      && (ltb_ℤ (profit_of w e) (profit_of w d)
          || eqb_ℤ (profit_of w d) (profit_of w e) && text_le d.market e.market)

-- By `(-profit / cost, market)`; costs are positive, so the quotients are compared crosswise.
abbrev by_density : Walk → Episode → Episode → Bool
by_density w d e =
    let a = profit_of w d *ℤ cost_per e in
    let b = profit_of w e *ℤ cost_per d in ltb_ℤ b a || eqb_ℤ a b && text_le d.market e.market

-- `_order_candidates`
unfoldable pub order_candidates : List Episode → Policy → Walk → List Episode
order_candidates cands fifo w = sort_by by_open_t cands
order_candidates cands reservation w = sort_by by_open_t cands
order_candidates cands batch1s w = sort_by (by_batch w) cands
order_candidates cands offline_knapsack w = sort_by (by_density w) cands

-- The threshold is `tau` of the walk.
unfoldable pub run_policy : List Episode → Policy → ℤ → Filter → Walk → Option Account
unfolding order_candidates
run_policy episodes policy capital0 f w =
    run_walk w capital0 episodes
      (order_candidates (one_per_market (capturable episodes f)) policy w)

-- `round(profit, 6)`
abbrev rounded_edge : Walk → Episode → ℤ
rounded_edge w e = pos 2 *ℤ round_div (profit_of w e) 2

-- A set, each item once.
unfoldable pub distinct : List ℤ → List ℤ
distinct [] = []
distinct (x ∷ xs) = let rest = distinct xs in if elem x rest then rest else x ∷ rest

-- `taus`: nothing, and each edge that was seen.
unfoldable pub thresholds : List Episode → Filter → Walk → List ℤ
unfolding distinct
thresholds episodes f w =
    pos 0 ∷ sort_by leb_ℤ (distinct (map (rounded_edge w) (one_per_market (capturable episodes f))))

-- A row of the grid: the threshold, the profit, and what was entered and skipped.
pub record Row : Type 0 where
  pub tau : ℤ
  pub total : ℤ
  pub n_entered : ℕ
  pub n_skipped_capital : ℕ
  pub n_skipped_tau : ℕ

abbrev pub at_threshold : List Episode → ℤ → Filter → Walk → ℤ → Option Account
at_threshold episodes capital0 f w tau =
    run_policy episodes reservation capital0 f (record w { tau = some tau })

abbrev pub row_of : ℤ → Account → Row
row_of tau a = record {
  tau = tau;
  total = total_pnl a;
  n_entered = length a.entered;
  n_skipped_capital = a.skipped_capital;
  n_skipped_tau = a.skipped_tau;
}

-- `if best is None or r["total_pnl"] > best["total_pnl"]`
abbrev better : Option Account → Account → Account
better none r = r
better (some best) r = if ltb_ℤ (total_pnl best) (total_pnl r) then r else best

abbrev pub Sweep : Type 0
Sweep = Option Account × List Row

-- The loop over the thresholds; none where a run ends with none.
unfoldable pub sweep : (ℤ → Option Account) → List ℤ → Option Account → List Row → Option Sweep
sweep run [] best grid = some (best, grid)
sweep run (tau ∷ taus) best grid = elim (run tau) [
  | none ↦ none
  | some r ↦ sweep run taus (some (better best r)) (grid ++ row_of tau r ∷ [])
]

unfoldable pub best_reservation : List Episode → ℤ → Filter → Walk → Option Sweep
unfolding sweep thresholds
best_reservation episodes capital0 f w =
    sweep (at_threshold episodes capital0 f w) (thresholds episodes f w) none []
