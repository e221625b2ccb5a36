-- ===== src/Monitor/Live/Tests.antt =====
-- Discovery of one weather market and one game, a heartbeat at which the weather market is there again with a new
-- one, and the same heartbeat while the polymarket socket closes.
use cross_arb.Prelude.{
  ◌≡◌, ◌⊎◌, refl, Bool, true, false, none, some, List, [], ◌∷◌, String, string_keys, nat_keys, elem,
  lookup, insert, contains, All,
}
use cross_arb.Prelude.Int.{ℤ, pos}
use cross_arb.Kalshi.Book as Book
use cross_arb.Monitor.Housekeeping.Teardown.{tickers}
use cross_arb.Monitor.Live.Registry.{
  Pair, GamePair, Colisted, Closure, market_k, register, register_pairs, register_games, visit,
  collide, bind, route, one_to_one,
}
use cross_arb.Monitor.Live.Registry.Wired.{owner}
use cross_arb.Monitor.Live.Registry.Again.{PairGuarded, GameGuarded, register_again}
use cross_arb.Monitor.Live.Sockets.{Links, up, closing}
use cross_arb.Monitor.Live.Heartbeat.{Pass, heartbeat}
use cross_arb.Monitor.Live.Heartbeat.Venue.{closed}
use cross_arb.Monitor.Live.Heartbeat.Steps.{Holds}
use cross_arb.Monitor.Live.Heartbeat.Covers.{heartbeat_covers}
use cross_arb.Monitor.Live.Heartbeat.Wired.{heartbeat_lost_add}
use cross_arb.Monitor.Live.Frames.{LiveWorld, Clock, routed_k}
use cross_arb.Monitor.Live.Frames.Local.{IsLocal}
use cross_arb.Monitor.Live.Cli.{CliRec, Reading, Resumes, poll, poll-Resumes}
use cross_arb.Monitor.Live.Runs.{start, boot, discover, Reaches-owns}

abbrev nyc : Pair
nyc = record { slug = "tc-temp-nychigh-2026-06-10-gte80lt81f"; kalshi = "KXHIGHNY-B80" }

abbrev lax : Pair
lax = record { slug = "tc-temp-laxhigh-2026-06-10-gte73lt74f"; kalshi = "KXHIGHLAX-B73" }

abbrev game : GamePair
game = record {
  slug = "aec-mlb-sea-bal-2026-06-10";
  kalshi_a = "KXMLB-SEA";
  kalshi_b = "KXMLB-BAL";
}

abbrev markets : Colisted
markets = record { weather = nyc ∷ []; sports = game ∷ []; econ = none; soccer3 = some [] }

abbrev found : LiveWorld
found = (register (start (pos 1000)) markets).world

abbrev nyc_closure : Closure
nyc_closure = record { handler = market_k; trk = 0; key = nyc.slug }

abbrev clock : Clock
clock = record { at_set = pos 5000; at_evaluate = pos 5000; at_emit = pos 5001 }

Reaches-owns_example :
    (elem "KXHIGHNY-B80" (tickers (lookup nyc_closure.key found.live.slug_k)) ≡ true)
    × ((s : String)
        → elem "KXHIGHNY-B80" (tickers (lookup s found.live.slug_k)) ≡ true
        → s ≡ nyc_closure.key)
    × (owner found.live.pm_targets nyc_closure.key ≡ some (nyc_closure.trk, nyc_closure.key))
    × (contains nyc_closure.trk found.heap ≡ true)
    × ((s : String)
        → owner found.live.pm_targets s ≡ some (nyc_closure.trk, s)
        → nyc_closure.key ≡ s)
    × IsLocal nyc_closure.trk nyc_closure.key found
        (routed_k found (some nyc_closure) (Book.init "KXHIGHNY-B80") clock)
unfolding register register_pairs register_games visit collide bind route lookup insert start
Reaches-owns_example =
    Reaches-owns found "KXHIGHNY-B80" nyc_closure (Book.init "KXHIGHNY-B80") clock
      (discover (boot (pos 1000)) markets) refl

register_again_example :
    All (PairGuarded found) (one_to_one markets)
    × All (GameGuarded found) markets.sports
    × (register found markets ≡ record { world = found; new_pm = []; new_k = [] })
register_again_example = register_again (start (pos 1000)) markets

abbrev links : Links
links = record { pm = up; k = up; sid = some (pos 7); pending = []; kcmd = 1 }

abbrev pass : Pass
pass = record {
  fresh = record { weather = nyc ∷ lax ∷ []; sports = []; econ = none; soccer3 = none };
  degraded = false;
  now = pos 60000;
  now' = pos 60001;
  after_close = closing;
}

abbrev subscribed_to : String → Bool
subscribed_to tk = contains tk found.live.k_targets

heartbeat_covers_example :
    (closed (heartbeat found links pass).sent ≡ true)
    ⊎ Holds
        (pos 7)
        subscribed_to
        (heartbeat found links pass)
        (λ tk. contains tk (heartbeat found links pass).world.live.k_targets)
heartbeat_covers_example =
    heartbeat_covers found links pass (pos 7) subscribed_to refl refl (λ e. cc) (λ tk. refl)

abbrev closing_links : Links
closing_links = record links { pm = closing }

heartbeat_lost_add_example :
    let b = heartbeat found closing_links pass in
    (b.raised ≡ true)
    × (b.sent ≡ [])
    × (b.links ≡ closing_links)
    × (b.world ≡ (register found pass.fresh).world)
    × ((register b.world pass.fresh).new_k ≡ [])
unfolding register register_pairs register_games visit collide bind route lookup insert start
heartbeat_lost_add_example = heartbeat_lost_add found closing_links pass lax.slug [] refl refl

abbrev reading : ℤ → CliRec
reading max = record {
  station = "NYC";
  report_date = "2026-06-08";
  max = max;
  issued = none;
  wmo = none;
}

-- The same maximum again, a failed fetch, and a correction.
abbrev readings : List Reading
readings =
    ("NYC", some (reading (pos 84)))
    ∷ ("LAX", none)
    ∷ ("NYC", some (reading (pos 84)))
    ∷ ("NYC", some (reading (pos 83)))
    ∷ []

poll-Resumes_example : Resumes [] readings (poll [] readings)
poll-Resumes_example = poll-Resumes readings [] (refl, (tt, (refl, (refl, tt))))
