-- ===== src/Monitor/Live/Pmus/Tests.antt =====
-- A polymarket connection over a heartbeat that finds a new market, and the waits of a venue that fails six times.
use cross_arb.Prelude.{
  ◌≡◌, refl, Bool, true, false, none, List, [], ◌∷◌, string_keys, nat_keys, map,
}
use cross_arb.Prelude.Int.{pos}
use cross_arb.Monitor.Live.Registry.{Pair, Colisted, register}
use cross_arb.Monitor.Live.Sockets.{Links, down, closing}
use cross_arb.Monitor.Live.Heartbeat.{Pass}
use cross_arb.Monitor.Live.Frames.{LiveWorld, Clock}
use cross_arb.Monitor.Live.Runs.{start}
use cross_arb.Monitor.Live.Pmus.{
  no_data, market_data, turn_pm, run_pm, Reason, drop, clean, Round, supervise, connect_pm,
}
use cross_arb.Monitor.Live.Pmus.Covers.{Covers, beats, beats-connect_pm}

abbrev colisted : List Pair → Colisted
colisted weather = record { weather = weather; sports = []; econ = none; soccer3 = none }

abbrev nyc : Pair
nyc = record { slug = "nyc"; kalshi = "KNY" }

abbrev lax : Pair
lax = record { slug = "lax"; kalshi = "KLA" }

abbrev found : LiveWorld
found = (register (start (pos 1000)) (colisted (nyc ∷ []))).world

abbrev links : Links
links = record { pm = down; k = down; sid = none; pending = []; kcmd = 1 }

abbrev pass : Pass
pass = record {
  fresh = colisted (nyc ∷ lax ∷ []);
  degraded = false;
  now = pos 60000;
  now' = pos 60001;
  after_close = closing;
}

beats-connect_pm_example :
    let (links', out) = connect_pm found links in
    let (w', links'', out') = beats found links' out (pass ∷ []) in Covers w' out'
beats-connect_pm_example = beats-connect_pm found links (pass ∷ [])

abbrev round : Bool → Reason → Round
round subscribed reason = record { subscribed = subscribed; reason = reason }

abbrev failed : Round
failed = round false drop

abbrev rounds : List Round
rounds = failed ∷ failed ∷ failed ∷ failed ∷ failed ∷ failed ∷ round true clean ∷ failed ∷ []

supervise_waits : map (λ x. x.1) (supervise "pm" 1 rounds) ≡ 1 ∷ 2 ∷ 4 ∷ 8 ∷ 16 ∷ 30 ∷ 1 ∷ 2 ∷ []
unfolding supervise
supervise_waits = refl

abbrev clock : Clock
clock = record { at_set = pos 5000; at_evaluate = pos 5000; at_emit = pos 5001 }

-- Frames without data, or without a slug, change nothing.
run_pm_ignores :
    run_pm found ((no_data, clock) ∷ (market_data none none none, clock) ∷ [])
    ≡ record { world = found; rows = []; raised = false }
unfolding run_pm turn_pm
run_pm_ignores = refl
