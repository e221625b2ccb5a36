-- ===== src/Bankroll/Recycle/Tests.antt =====
-- A bankroll for one position: the second candidate waits, and is funded when the first settles.
use cross_arb.Prelude.{
  ◌≡◌, ◌≢◌, refl, true, false, Option, none, some, List, [], ◌∷◌, map, String, All, lookup, insert,
  sort_by, insert_by, arith,
}
use cross_arb.Prelude.Int.{ℤ, pos, ◌+ℤ◌, ◌-ℤ◌, ◌*ℤ◌}
use cross_arb.Prelude.Int.Rounding.{floor_div}
use cross_arb.Prelude.Int.Sums.{sum_of}
use cross_arb.Persistence.Category.{weather, category_keys, same_category, rank}
use cross_arb.Persistence.Episodes.{Episode, p, uncensored}
use cross_arb.Capital.Select.{capturable, keeps, one_per_market, represent}
use cross_arb.Capital.Economics.{
  settle_t, search_date, match_date, timegm, void_haircut, cost_per, avg_edge, profit_per,
}
use cross_arb.Bankroll.Account.{window_end}
use cross_arb.Bankroll.Recycle.{Arm, Rules, cluster_key, cluster_key_at, fund, try_fund}
use cross_arb.Bankroll.Recycle.Timeline.{
  pay, pop_due, refund, recycle_at, settlement, arrive, due, run_loop, arm_candidates, run_arm,
}
use cross_arb.Bankroll.Recycle.Funding.{IsBalanced, IsDated}
use cross_arb.Bankroll.Recycle.Ends.{end_of, run_arm-IsBalanced}

cluster_runs :
    (cluster_key "urc-us-2026-07-02-atl4pt6" ≡ "urc-us-2026-07-02")
    × (cluster_key "rdc-fed" ≡ "rdc-fed")
unfolding cluster_key cluster_key_at match_date
cluster_runs = (refl, refl)

abbrev episode : String → ℤ → ℤ → ℤ → Episode
episode market t close net = record {
  market = market;
  cat = weather;
  dir = p;
  open_t = t;
  close_t = close;
  duration = close -ℤ t;
  censored = uncensored;
  lag_adj = false;
  open_net = net;
  peak_net = net;
  area = pos 0;
  open_c2 = pos 100;
  peak_c2 = pos 100;
  open_age = none;
  open_age_p = none;
  open_age_k = none;
  open_flat = false;
  n_widen = 0;
  n_narrow = 0;
  n_flip = 0;
}

abbrev episodes : List Episode
episodes =
    episode "urc-a" (pos 0) (pos 60000) (pos 300)
    ∷ episode "urc-b" (pos 1000) (pos 4000000) (pos 500)
    ∷ []

abbrev rules : Rules
rules = record {
  capital0 = pos 194000000;
  tau = pos 0;
  cat_caps = some ((weather, pos 100) ∷ []);
  cluster_cap = none;
  recycle = true;
  max_clip = pos 1000;
  offset_s = pos 100800;
  haircut = pos 0;
  void_mult = pos 100;
}

abbrev digest : Option Arm → Option (ℤ × List ℤ × List ℤ × List (List String))
digest none = none
digest (some a) = some (
  a.cash,
  map (λ x. x.size) a.realized,
  map (λ x. x.size) a.held,
  map (λ ev. ev.funded) a.recycle_events,
)

arm_runs :
    digest (run_arm episodes false rules)
    ≡ some (pos 7500000, pos 100 ∷ [], pos 100 ∷ [], ("urc-b" ∷ []) ∷ [])
unfolding run_arm run_loop arm_candidates capturable keeps one_per_market represent lookup insert
    sort_by insert_by window_end same_category rank settlement arrive recycle_at refund pop_due pay
    try_fund fund cluster_key cluster_key_at settle_t search_date match_date timegm void_haircut
    cost_per avg_edge profit_per floor_div sum_of ◌+ℤ◌ ◌-ℤ◌ ◌*ℤ◌
arm_runs = refl

dated : All (IsDated rules) episodes
unfolding settle_t search_date match_date
dated = (λ now. (_, refl), (λ now. (_, refl), tt))

waiting : arm_candidates episodes false ≢ []
unfolding arm_candidates capturable keeps one_per_market represent lookup insert sort_by insert_by
    ◌-ℤ◌
waiting e = cc

run_arm-IsBalanced_example :
    (a : Arm) × (run_arm episodes false rules ≡ some a)
    × IsBalanced rules.capital0 a
    × (due (end_of episodes) [] a.held ≡ none)
run_arm-IsBalanced_example = run_arm-IsBalanced episodes false rules waiting (omega arith) dated
