-- ===== src/Bankroll/Tests.antt =====
-- Three episodes and 100 dollars: the first takes what there is, the second waits for its settlement.
use cross_arb.Prelude.{
  ◌≡◌, ◌≢◌, refl, true, false, Option, none, some, List, [], ◌∷◌, map, String, All, length, arith,
  lookup, insert, sort_by, insert_by,
}
use cross_arb.Prelude.Int.{ℤ, pos, ◌+ℤ◌, ◌-ℤ◌, ◌*ℤ◌, ◌≤ℤ◌, ◌<ℤ◌}
use cross_arb.Prelude.Int.Rounding.{floor_div}
use cross_arb.Persistence.Category.{weather}
use cross_arb.Persistence.Episodes.{Episode, p, uncensored}
use cross_arb.Capital.Select.{Filter, capturable, keeps, one_per_market, represent}
use cross_arb.Capital.Economics.{
  settle_t, search_date, match_date, timegm, void_haircut, cost_per, avg_edge, profit_per,
}
use cross_arb.Bankroll.Account.{
  Account, Walk, run_account, run_walk, walk, consider, enter, settle_due, settle_each, window_end,
  total_pnl,
}
use cross_arb.Bankroll.Account.Balanced.{IsBalanced}
use cross_arb.Bankroll.Account.Identity.{IsDated, candidates, end_of, run_account-IsBalanced}
use cross_arb.Bankroll.Policy.{run_policy, fifo, thresholds, best_reservation, Row}
use cross_arb.Bankroll.Policy.Best.{Tops, best_reservation-Tops}

-- 2026-06-10 at midnight, and a slug without a date.
settle_runs :
    (settle_t "tc-temp-nyc-2026-06-10-gte80" (pos 0) (pos 100800) ≡ some (pos 1781150400000))
    × (settle_t "rdc-fed" (pos 5000) (pos 100800) ≡ some (pos 3605000))
    × (settle_t "tc-temp-nyc-2026-13-10" (pos 0) (pos 100800) ≡ none)
unfolding settle_t search_date match_date timegm ◌+ℤ◌ ◌*ℤ◌
settle_runs = (refl, refl, refl)

-- 0.26 cents for baseball, 0.1 for tennis, 0.08 for the World Cup, nothing for weather.
void_runs :
    (void_haircut "aec-mlb-nyy-bos-2026-06-10" (pos 100) ≡ pos 5200)
    × (void_haircut "aec-atp-a-b-2026-06-10" (pos 100) ≡ pos 2000)
    × (void_haircut "atc-fwc-usa-mex" (pos 100) ≡ pos 1600)
    × (void_haircut "tc-temp-nyc" (pos 100) ≡ pos 0)
unfolding void_haircut ◌*ℤ◌
void_runs = (refl, refl, refl, refl)

abbrev episode : String → ℤ → ℤ → Episode
episode market t net = record {
  market = market;
  cat = weather;
  dir = p;
  open_t = t;
  close_t = t +ℤ pos 60000;
  duration = pos 60000;
  censored = uncensored;
  lag_adj = false;
  open_net = net;
  peak_net = net;
  area = pos 0;
  open_c2 = pos 100;
  peak_c2 = pos 100;
  open_age = none;
  open_age_p = none;
  open_age_k = none;
  open_flat = false;
  n_widen = 0;
  n_narrow = 0;
  n_flip = 0;
}

abbrev wide : Filter
wide = record {
  edge_min = pos 0;
  window_min = pos 0;
  liq_floor = pos 1;
  max_age = none;
  drop_restart = true;
  drop_flat = false;
}

abbrev rules : Walk
rules = record {
  max_clip = pos 1000;
  offset_s = pos 100800;
  haircut = pos 0;
  void_mult = pos 100;
  tau = none;
}

abbrev episodes : List Episode
episodes =
    episode "urc-a" (pos 0) (pos 300)
    ∷ episode "urc-b" (pos 1000) (pos 500)
    ∷ episode "urc-c" (pos 3700000) (pos 400)
    ∷ []

dated : All (IsDated rules) episodes
unfolding settle_t search_date match_date timegm ◌+ℤ◌
dated = ((_, refl), ((_, refl), ((_, refl), tt)))

nonempty : episodes ≢ []
nonempty e = cc

abbrev digest : Option Account → Option (ℤ × List ℤ × List ℤ)
digest none = none
digest (some a) = some (a.cash, map (λ x. x.size) a.realized, map (λ x. x.size) a.held)

-- 100 contracts at 0.97 dollar, then 3 at 0.95; both settle after an hour, in time for 100 at 0.96.
account_runs :
    digest (run_account episodes (pos 200000000) wide rules)
    ≡ some (pos 11665000, pos 100 ∷ pos 3 ∷ [], pos 100 ∷ [])
unfolding run_account run_walk walk consider enter settle_due settle_each window_end capturable
    keeps one_per_market represent lookup insert sort_by insert_by settle_t search_date match_date
    timegm void_haircut cost_per avg_edge profit_per floor_div ◌+ℤ◌ ◌-ℤ◌ ◌*ℤ◌
account_runs = refl

run_account-IsBalanced_example :
    (a : Account) × (run_account episodes (pos 200000000) wide rules ≡ some a)
    × IsBalanced rules (pos 200000000) (length (candidates episodes wide)) a
    × All (λ x. end_of episodes <ℤ x.settle_t) a.held
run_account-IsBalanced_example =
    run_account-IsBalanced episodes (pos 200000000) wide rules nonempty (omega arith) dated

best_reservation-Tops_example :
    (b : Account) × (grid : List Row) × (a : Account) × (best_reservation episodes
        (pos 200000000)
        wide
        rules
      ≡ some (some b, grid))
    × Tops b grid
    × (map (λ r. r.tau) grid ≡ thresholds episodes wide rules)
    × (run_policy episodes fifo (pos 200000000) wide rules ≡ some a)
    × (total_pnl a ≤ℤ total_pnl b)
best_reservation-Tops_example =
    best_reservation-Tops episodes (pos 200000000) wide rules nonempty (omega arith) dated
