-- ===== src/Capital/Tests.antt =====
-- Two overlapping arbitrages and a third that starts when they end; two opens of one market.
use cross_arb.Prelude.{◌≡◌, ◌⊎◌, refl, true, false, some, List, [], ◌∷◌, lookup, insert, arith}
use cross_arb.Prelude.Int.{ℤ, pos, ◌+ℤ◌, ◌-ℤ◌, ◌*ℤ◌, ◌≤ℤ◌}
use cross_arb.Capital.Peak.{
  Interval, peak_and_avg, profile, profile_of, events, sort, insert_event, scan, last_time,
}
use cross_arb.Capital.Peak.Attained.{held, peak_attained}
use cross_arb.Persistence.Category.{weather}
use cross_arb.Persistence.Episodes.{Episode, p, uncensored, restart}
use cross_arb.Capital.Select.{Filter, capturable, keeps, one_per_market, represent}

abbrev intervals : List Interval
intervals =
    record { start = pos 0; end = pos 5000; amount = pos 100 }
    ∷ record { start = pos 2000; end = pos 4000; amount = pos 30 }
    ∷ record { start = pos 5000; end = pos 5000; amount = pos 50 }
    ∷ []

-- At 5000 the third is locked before the first is released.
peak_runs : peak_and_avg intervals ≡ (pos 150, pos 610000, pos 6000)
unfolding peak_and_avg profile profile_of sort insert_event events scan last_time ◌+ℤ◌ ◌-ℤ◌ ◌*ℤ◌
peak_runs = refl

peak_attained_example :
    ((t : ℤ) → held t intervals ≤ℤ (peak_and_avg intervals).0)
    × ((peak_and_avg intervals).0 ≡ pos 0
        ⊎ ((t : ℤ) × ((peak_and_avg intervals).0 ≡ held t intervals)))
peak_attained_example = peak_attained intervals (omega arith, (omega arith, (omega arith, tt)))

abbrev open_at : ℤ → Episode
open_at t = record {
  market = "tc-temp-nyc";
  cat = weather;
  dir = p;
  open_t = t;
  close_t = t +ℤ pos 60000;
  duration = pos 60000;
  censored = uncensored;
  lag_adj = false;
  open_net = pos 200;
  peak_net = pos 200;
  area = pos 12000000;
  open_c2 = pos 40;
  peak_c2 = pos 40;
  open_age = some (pos 30);
  open_age_p = some (pos 30);
  open_age_k = some (pos 10);
  open_flat = false;
  n_widen = 0;
  n_narrow = 0;
  n_flip = 0;
}

abbrev wide : Filter
wide = record {
  edge_min = pos 100;
  window_min = pos 30000;
  liq_floor = pos 1;
  max_age = some (pos 100);
  drop_restart = true;
  drop_flat = false;
}

select_runs :
    (capturable (open_at (pos 9000) ∷ record (open_at (pos 5000)) { censored = restart } ∷ []) wide
      ≡ open_at (pos 9000) ∷ [])
    × (one_per_market (open_at (pos 9000) ∷ open_at (pos 5000) ∷ []) ≡ open_at (pos 5000) ∷ [])
unfolding capturable keeps one_per_market represent insert lookup
select_runs = (refl, refl)

abbrev opens : List Episode
opens = open_at (pos 9000) ∷ open_at (pos 5000) ∷ []
