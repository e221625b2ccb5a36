-- ===== src/Persistence/Tests.antt =====
-- A log of two markets with a restart between, as in the self-test of scripts/analyze_persistence.py.
use cross_arb.Prelude.{
  ◌≡◌, refl, none, some, List, [], ◌∷◌, String, All, map, lookup, insert, erase, sort_by, insert_by,
}
use cross_arb.Prelude.Int.{ℤ, pos, ◌+ℤ◌, ◌-ℤ◌, ◌*ℤ◌}
use cross_arb.Monitor.Edge.{Transition, opened, closed, widened, narrowed}
use cross_arb.Persistence.Category.{category}
use cross_arb.Persistence.Episodes.{
  p, LogRecord, Episode, Censor, uncensored, restart, eod, build_episodes, timeline, replay, step,
  close_rest, close_all, close_episode, open_episode, continue_episode, close_time, lag_at,
  on_running, on_idle,
}
use cross_arb.Persistence.Episodes.Steps.{IsEpisode}
use cross_arb.Persistence.Episodes.Sound.{InOrder, build_episodes-IsEpisode}

abbrev line : ℤ → String → Transition → ℤ → LogRecord
line t market l net = record {
  t = t;
  market = market;
  transition = l;
  net_edge = net;
  dir = p;
  depth = some (record { c2 = pos 40; c1 = pos 60; c0 = pos 60 });
  age = some (record { p = pos 3; k = pos 12 });
}

abbrev log : List LogRecord
log =
    line (pos 10000) "tc-temp-nyc" opened (pos 200)
    ∷ line (pos 12000) "tc-temp-nyc" widened (pos 300)
    ∷ line (pos 15000) "tc-temp-nyc" closed (pos 0)
    ∷ line (pos 16000) "aec-mlb-a-b" opened (pos 150)
    ∷ line (pos 30000) "tc-temp-nyc" opened (pos 100)
    ∷ line (pos 31000) "tc-temp-nyc" narrowed (pos 50)
    ∷ []

abbrev digest : Episode → String × ℤ × ℤ × Censor × ℤ × ℤ
digest e = (e.market, e.open_t, e.close_t, e.censored, e.peak_net, e.area)

-- 2 s at 200 and 3 s at 300; then a restart at 20000, and the end of the data.
build_runs :
    map digest (build_episodes log (pos 20000 ∷ []) (some (pos 0)))
    ≡ ("tc-temp-nyc", pos 10000, pos 15000, uncensored, pos 300, pos 1300000)
      ∷ ("aec-mlb-a-b", pos 16000, pos 20000, restart, pos 150, pos 600000)
      ∷ ("tc-temp-nyc", pos 30000, pos 31000, eod, pos 100, pos 100000)
      ∷ []
unfolding build_episodes timeline replay step close_rest close_all close_episode open_episode
    continue_episode close_time lag_at on_running on_idle sort_by insert_by lookup insert erase
    category ◌+ℤ◌ ◌-ℤ◌ ◌*ℤ◌
build_runs = refl

build_episodes-IsEpisode_example : All IsEpisode (build_episodes log (pos 20000 ∷ []) none)
build_episodes-IsEpisode_example = build_episodes-IsEpisode log (pos 20000 ∷ []) none in_order
  where
    in_order : InOrder log
    in_order = (
      (refl, (refl, (refl, (refl, (refl, tt))))),
      (
        (refl, (refl, (refl, (refl, tt)))),
        ((refl, (refl, (refl, tt))), ((refl, (refl, tt)), ((refl, tt), (tt, tt)))),
      ),
    )
