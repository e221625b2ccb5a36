-- ===== src/Latency/Tests.antt =====
-- An episode that narrows and then flips.
use cross_arb.Prelude.{
  ◌+◌, ◌≤◌, ◌≡◌, refl, false, none, List, [], ◌∷◌, arith, insert, lookup, sort_by, insert_by,
  string_keys,
}
use cross_arb.Prelude.Int.{pos, ◌+ℤ◌}
use cross_arb.Monitor.Edge.{narrowed, flipped}
use cross_arb.Persistence.Category.{weather}
use cross_arb.Persistence.Episodes.{Episode, LogRecord, p, uncensored}
use cross_arb.Latency.Trajectory.{
  Traced, index, sort_places, find, attach, build_trajectories, last_net, edge_at,
}
use cross_arb.Latency.Fill.{tally}
use cross_arb.Latency.Fill.Monotone.{tally_mono}

abbrev episode : Episode
episode = record {
  market = "tc-temp-nyc";
  cat = weather;
  dir = p;
  open_t = pos 1000;
  close_t = pos 5000;
  duration = pos 4000;
  censored = uncensored;
  lag_adj = false;
  open_net = pos 300;
  peak_net = pos 300;
  area = pos 0;
  open_c2 = pos 5;
  peak_c2 = pos 5;
  open_age = none;
  open_age_p = none;
  open_age_k = none;
  open_flat = false;
  n_widen = 0;
  n_narrow = 1;
  n_flip = 1;
}

abbrev records : List LogRecord
records =
    record {
      t = pos 1500;
      market = "tc-temp-nyc";
      transition = narrowed;
      net_edge = pos 200;
      dir = p;
      depth = none;
      age = none;
    }
    ∷ record {
      t = pos 2500;
      market = "tc-temp-nyc";
      transition = flipped;
      net_edge = pos 250;
      dir = p;
      depth = none;
      age = none;
    }
    ∷ []

abbrev traced : Traced
traced = record {
  ep = episode;
  traj = (pos 1000, pos 300) ∷ (pos 1500, pos 200) ∷ (pos 2500, pos 250) ∷ [];
  flip_ts = pos 2500 ∷ [];
}

trajectory_runs : build_trajectories records (episode ∷ []) ≡ traced ∷ []
unfolding build_trajectories index sort_places attach find insert lookup sort_by insert_by
trajectory_runs = refl

-- After half a second the edge is the narrower one; after two seconds it has flipped.
fill_runs :
    ((tally (pos 500) (traced ∷ [])).realized ≡ pos 200 ∷ [])
    × ((tally (pos 2000) (traced ∷ [])).failed ≡ 1)
unfolding tally edge_at last_net ◌+ℤ◌
fill_runs = (refl, refl)

tally_mono_example :
    ((tally (pos 500) (traced ∷ [])).failed + (tally (pos 500) (traced ∷ [])).survived ≡ 1)
    × ((tally (pos 2000) (traced ∷ [])).failed + (tally (pos 2000) (traced ∷ [])).survived ≡ 1)
    × ((tally (pos 500) (traced ∷ [])).failed ≤ (tally (pos 2000) (traced ∷ [])).failed)
    × ((tally (pos 2000) (traced ∷ [])).survived ≤ (tally (pos 500) (traced ∷ [])).survived)
tally_mono_example =
    tally_mono (pos 500) (pos 2000) (traced ∷ []) (omega arith) (omega arith)
      ((omega arith, (omega arith, (omega arith, tt))), tt)
