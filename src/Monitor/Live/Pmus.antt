-- ===== src/Monitor/Live/Pmus.antt =====
-- `pmus_stream` of `run_live` in bot/monitor.py, and the loop around a connection, which is the same for
-- `kalshi_stream`: the marker that each connection leaves, and the wait before the next one. Signing is left out.
pub mod Waits
pub mod Covers
mod Tests
use cross_arb.Prelude.{
  ℕ, ◌*◌, Bool, true, false, Option, none, some, List, [], ◌∷◌, ◌++◌, String, string_keys, ltb,
  if◌then◌else◌,
}
use cross_arb.Monitor.Edge.{Ladder}
use cross_arb.Monitor.Live.Registry.{World}
use cross_arb.Monitor.Live.Sockets.{
  Link, down, up, Links, Sent, shards, shard_size, subscribe_shards,
}
use cross_arb.Monitor.Live.Heartbeat.{keys}
use cross_arb.Monitor.Live.Frames.{LiveWorld, Outcome, Clock, pm_frame}
use cross_arb.Monitor.Live.Rows.{Row}

-- A new connection subscribes all slugs that have a closure.
unfoldable pub connect_pm : {S D : Type 0} → World S D → Links → Links × List Sent
connect_pm w links =
    (record links { pm = up }, subscribe_shards (shards shard_size (keys w.live.pm_targets)))

-- A frame: its `marketData`, if it has any, with the slug that it names.
pub data PmFrame : Type 0 where
  no_data : PmFrame
  market_data : Option String → Ladder → Ladder → PmFrame

turn_pm : LiveWorld → PmFrame → Clock → Outcome
turn_pm w no_data c = record { world = w; rows = []; raised = false }
turn_pm w (market_data none b o) c = record { world = w; rows = []; raised = false }
turn_pm w (market_data (some slug) b o) c = pm_frame w slug b o c

abbrev logged_after : List Row → Outcome → Outcome
logged_after rows out = record out { rows = rows ++ out.rows }

-- The loop over the frames, up to one whose closure raises.
unfoldable pub run_pm : LiveWorld → List (PmFrame × Clock) → Outcome
unfolding turn_pm
run_pm w [] = record { world = w; rows = []; raised = false }
run_pm w ((f, c) ∷ fs) =
    let out = turn_pm w f c in
    let rest = run_pm out.world fs in if out.raised then out else logged_after out.rows rest

-- `finally: conns.pop("pm", None)`
abbrev close_pm : Links → Links
close_pm links = record links { pm = down }

-- How a connection ended: by an exception, or closed by the venue (or by the break at a gap).
pub data Reason : Type 0 where
  drop clean : Reason

-- A turn of the outer loop: whether the subscription was sent, which resets the backoff, and the end.
pub record Round : Type 0 where
  pub subscribed : Bool
  pub reason : Reason

-- The `ws_reconnect` marker in sessions.jsonl.
pub record Marker : Type 0 where
  pub venue : String
  pub reason : Reason

abbrev pub backoff_of : ℕ → Round → ℕ
backoff_of backoff r = if r.subscribed then 1 else backoff

-- `min(backoff * 2, 30)`
abbrev pub next_backoff : ℕ → ℕ
next_backoff backoff = if ltb 30 (backoff * 2) then 30 else backoff * 2

-- The outer loop, over the connections that come: a marker and a wait in seconds for each.
unfoldable pub supervise : String → ℕ → List Round → List (Marker × ℕ)
supervise venue backoff [] = []
supervise venue backoff (r ∷ rs) =
    let b = backoff_of backoff r in
    (record { venue = venue; reason = r.reason }, b) ∷ supervise venue (next_backoff b) rs
