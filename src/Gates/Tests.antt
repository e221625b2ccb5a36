-- ===== src/Gates/Tests.antt =====
-- Five episodes against the bot's configuration: two that pass, and one for each gate that drops.
use cross_arb.Prelude.{
  ◌≤◌, ◌≡◌, refl, false, Option, none, some, List, [], ◌∷◌, map, String, ℕ, All, length, lookup,
  insert, sort_by, insert_by, arith,
}
use cross_arb.Prelude.Int.{ℤ, pos, ◌+ℤ◌, ◌-ℤ◌, ◌*ℤ◌}
use cross_arb.Prelude.Int.Rounding.{floor_div, trunc_div}
use cross_arb.Persistence.Category.{
  Category, category_keys, weather, sports, econ, same_category, rank,
}
use cross_arb.Persistence.Episodes.{Episode, p, uncensored}
use cross_arb.Capital.Select.{capturable, keeps, one_per_market, represent}
use cross_arb.Capital.Economics.{
  settle_t, search_date, match_date, timegm, void_haircut, cost_per, avg_edge, profit_per,
}
use cross_arb.Attribution.{Touches, cheap_made, dear_made}
use cross_arb.Gates.{
  bot_config, place_eq, place_keys, is_dear_led_weather, venue_mids, mid_divergence,
}
use cross_arb.Gates.Clusters.{date_text, split_dash, cut_bucket, cluster_of}
use cross_arb.Gates.Caps.{
  Book, opening, release, settle_each, settle_due, caps_contracts, fat_sized, size_of, enter,
  consider, cap_walk, cash_of, cap_constrained_entries,
}
use cross_arb.Prelude.Int.Sums.{sum_of}
use cross_arb.Gates.Velocity.{ConfigRun, run_config, profit_of}
use cross_arb.Gates.Velocity.Picked.{MeetsGates, Picks}
use cross_arb.Gates.Velocity.Split.{IsAmong, run_config_lem}
use cross_arb.Gates.Caps.Steps.{IsEntry, IsCapped}
use cross_arb.Gates.Caps.Capped.{IsDated, IsSound, cap_walk-IsCapped}
use cross_arb.Gates.Funnel.{
  Evidence, Stages, FunnelRow, is_settled, passes_mid, is_directed, catmix, count_each, rows_from,
  rows_of, cohort, run_funnel,
}
use cross_arb.Gates.Funnel.Cleared.{IsCleared, Accounts, run_funnel_lem}

cluster_runs :
    (cluster_of "tc-temp-laxhigh-2026-06-10-gte73lt74f" ≡ "laxhigh-2026-06-10")
    × (cluster_of "aec-mlb-lad-pit-2026-06-10-above8" ≡ "aec-mlb-lad-pit-2026-06-10")
    × (cluster_of "rdc-fed" ≡ "rdc-fed")
    × (cluster_of "aec-kbo-ltg-kia-2026-06-10" ≡ "aec-kbo")
unfolding cluster_of date_text match_date split_dash cut_bucket
cluster_runs = (refl, refl, refl, refl)

abbrev episode : String → Category → ℤ → ℤ → Episode
episode market cat t net = record {
  market = market;
  cat = cat;
  dir = p;
  open_t = t;
  close_t = t +ℤ pos 60000;
  duration = pos 60000;
  censored = uncensored;
  lag_adj = false;
  open_net = net;
  peak_net = net;
  area = pos 0;
  open_c2 = pos 100;
  peak_c2 = pos 100;
  open_age = none;
  open_age_p = none;
  open_age_k = none;
  open_flat = false;
  n_widen = 0;
  n_narrow = 0;
  n_flip = 0;
}

abbrev eps : List Episode
eps =
    episode "tc-temp-nyc" weather (pos 0) (pos 300)
    ∷ episode "tc-temp-chi" weather (pos 1000) (pos 700)
    ∷ episode "tc-temp-lax" weather (pos 2000) (pos 500)
    ∷ episode "tc-temp-mia" weather (pos 3000) (pos 100)
    ∷ episode "aec-mlb-a-b" sports (pos 4000) (pos 900)
    ∷ episode "urc-us" econ (pos 5000) (pos 400)
    ∷ []

abbrev touches : Touches
touches = record {
  p_yb = some (pos 1000);
  p_ya = some (pos 1200);
  k_yb = some (pos 4000);
  k_ya = some (pos 4400);
  pm_b = none;
  pm_a = none;
  ka = none;
  kb = none;
}

abbrev evidence : Evidence
evidence = record {
  settle_verified = econ ∷ [];
  dir_idx = (("tc-temp-lax", pos 2000), dear_made) ∷ (("tc-temp-nyc", pos 0), cheap_made) ∷ [];
  open_px_idx = (("urc-us", pos 5000), touches) ∷ (("tc-temp-nyc", pos 0), touches) ∷ [];
}

abbrev digest : Option (Stages × List FunnelRow) → List (ℕ × ℤ) × List (String × ℤ)
digest none = ([], [])
digest (some (s, rows)) = (map (λ r. (r.n, r.dropped)) rows, map (λ x. (x.market, x.size)) s.caps)

-- The mids of the release are 31 cents apart, which is too much for it, and not for the weather.
funnel_runs : digest (run_funnel eps bot_config evidence (pos 0) (pos 100) (pos 1000000000)) ≡ (
  (6, pos 0) ∷ (5, pos 1) ∷ (4, pos 1) ∷ (3, pos 1) ∷ (2, pos 1) ∷ (2, pos 0) ∷ (2, pos 0) ∷ [],
  ("tc-temp-nyc", pos 1) ∷ ("tc-temp-chi", pos 1) ∷ [],
)
unfolding run_funnel cohort capturable keeps one_per_market represent lookup insert sort_by
    insert_by same_category rank place_eq is_settled passes_mid is_directed is_dear_led_weather
    venue_mids mid_divergence rows_of rows_from catmix count_each cap_constrained_entries cap_walk
    consider enter settle_due settle_each release size_of caps_contracts fat_sized cluster_of
    date_text split_dash cut_bucket settle_t search_date match_date timegm void_haircut cost_per
    avg_edge profit_per floor_div trunc_div ◌+ℤ◌ ◌-ℤ◌ ◌*ℤ◌
funnel_runs = refl

dated : All IsDated eps
unfolding settle_t search_date match_date timegm
dated = ((_, refl), ((_, refl), ((_, refl), ((_, refl), ((_, refl), ((_, refl), tt))))))

sound : IsSound bot_config
sound = record {
  total = omega arith;
  pair = omega arith;
  cluster = omega arith;
  positions = omega arith;
}

cap_walk-IsCapped_example :
    (b : Book) × (cap_walk bot_config
        (pos 0)
        (pos 100)
        (opening (cash_of bot_config (pos 1000000000)))
        eps
      ≡ some b)
    × IsCapped bot_config (cash_of bot_config (pos 1000000000)) (λ e. Unit) b
    × (length b.entered ≤ length eps)
cap_walk-IsCapped_example =
    cap_walk-IsCapped bot_config (pos 0) (pos 100) (pos 1000000000) (λ e. Unit) eps sound
      (omega arith) dated (tt, (tt, (tt, (tt, (tt, (tt, tt))))))

run_funnel_lem_example :
    (s : Stages) × (rows : List FunnelRow) × (run_funnel eps bot_config evidence
        (pos 0)
        (pos 100)
        (pos 1000000000)
      ≡ some (s, rows))
    × (s.candidates ≡ cohort eps)
    × All (IsEntry bot_config (IsCleared bot_config evidence)) s.caps
    × Accounts (length (cohort eps)) (length s.caps) rows
run_funnel_lem_example =
    run_funnel_lem eps bot_config evidence (pos 0) (pos 100) (pos 1000000000) sound (omega arith)
      dated

run_config_lem_example :
    (r : ConfigRun) × (elig : List Episode) × (run_config eps bot_config
        (pos 2000)
        (pos 500)
        (pos 1000000000)
        (pos 100000)
      ≡ some r)
    × Picks (MeetsGates (pos 2000) (pos 500)) eps elig
    × (r.eligible ≡ length elig)
    × All (IsEntry bot_config (IsAmong elig)) r.entered
    × (length r.entered ≤ r.eligible)
    × (r.realized +ℤ r.unreal ≡ sum_of profit_of r.entered)
run_config_lem_example =
    run_config_lem eps bot_config (pos 2000) (pos 500) (pos 1000000000) (pos 100000) sound
      (omega arith) dated
