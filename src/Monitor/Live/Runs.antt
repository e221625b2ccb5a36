-- ===== src/Monitor/Live/Runs.antt =====
-- `run_live` of bot/monitor.py as a whole: its tasks take turns in any order, and change the shared dicts only
-- between two waits.
use cross_arb.Kalshi.Book.{KalshiBook}
use cross_arb.Prelude.{
  sym, ap, ◌∙◌, some_eq, ◌≡◌, elem, true, lookup, contains, some, [], String, string_keys, nat_keys,
}
use cross_arb.Prelude.Int.{ℤ}
use cross_arb.Kalshi.Seq.{SeqTracker}
use cross_arb.Monitor.Edge.{Ladder}
use cross_arb.Monitor.Debounce as Debounce
use cross_arb.Monitor.Debounce.{FlipDebouncer}
use cross_arb.Monitor.Housekeeping.Teardown.{tickers}
use cross_arb.Monitor.Live.Registry.{Closure, Colisted, register}
use cross_arb.Monitor.Live.Registry.Wired.{IsWired, owner, held, key_of, register-IsWired}
use cross_arb.Monitor.Live.Sockets.{Links}
use cross_arb.Monitor.Live.Heartbeat.{Pass, heartbeat}
use cross_arb.Monitor.Live.Heartbeat.Wired.{heartbeat-IsWired}
use cross_arb.Monitor.Live.Frames.{LiveWorld, Clock, pm_frame, routed_k, flush_tick}
use cross_arb.Monitor.Live.Frames.Local.{IsLocal, call_k-IsLocal}
use cross_arb.Monitor.Live.Frames.Wired.{pm_frame-IsWired, flush_tick-IsWired}
use cross_arb.Monitor.Live.Stream.Wired.{connect-IsWired, turn-IsWired}
use cross_arb.Monitor.Live.Stream.{KFrame, connect, turn}

-- The dicts as `run_live` makes them.
unfoldable pub start : ℤ → LiveWorld
start window = record {
  live = record {
    pm_targets = [];
    k_targets = [];
    books = [];
    slug_k = [];
    deb = Debounce.init window;
    absent = [];
    wx = some [];
  };
  heap = [];
  next = 0;
}

-- The worlds that a run can come to: by discovery at the start, by a heartbeat, by a frame of either venue, by
-- a new Kalshi connection, and by a tick of the flusher.
pub data Reaches : LiveWorld → Type 0 where
  boot : (window : ℤ) → Reaches (start window)
  discover : {w : LiveWorld} → Reaches w → (c : Colisted) → Reaches (register w c).world
  beat :
      {w : LiveWorld}
      → Reaches w
      → (links : Links) (pass : Pass) → Reaches (heartbeat w links pass).world
  frame_pm :
      {w : LiveWorld}
      → Reaches w
      → (slug : String) (b o : Ladder) (c : Clock) → Reaches (pm_frame w slug b o c).world
  reconnect : {w : LiveWorld} → Reaches w → (links : Links) → Reaches (connect w links).0.world
  frame_k :
      {w : LiveWorld}
      → Reaches w
      → (links : Links) (st : SeqTracker) (f : KFrame) (c : Clock)
      → Reaches (turn (record { world = w; links = links; seq = st }) f c).conn.world
  tick : {w : LiveWorld} → Reaches w → (now : ℤ) → Reaches (flush_tick w now).world

start-IsWired : (window : ℤ) → IsWired (start window)
unfolding start lookup
start-IsWired window = record {
  tickers_owned = λ s tk e. cc;
  owned_ticker = λ tk s i e. cc;
  keyed = λ s s' i e. cc;
  apart = λ s s' i e e'. cc;
  rows_traced = λ s i e. cc;
}

-- However the tasks take turns, the dicts agree.
pub Reaches-IsWired : {w : LiveWorld} → Reaches w → IsWired w
Reaches-IsWired (boot window) = start-IsWired window
Reaches-IsWired (discover r c) = register-IsWired _ c (Reaches-IsWired r)
Reaches-IsWired (beat r links pass) = heartbeat-IsWired _ links pass (Reaches-IsWired r)
Reaches-IsWired (frame_pm r slug b o c) = pm_frame-IsWired _ slug b o c (Reaches-IsWired r)
Reaches-IsWired (reconnect r links) = connect-IsWired _ links (Reaches-IsWired r)
Reaches-IsWired (frame_k r links st f c) = turn-IsWired _ f c (Reaches-IsWired r)
Reaches-IsWired (tick r now) = flush_tick-IsWired _ now (Reaches-IsWired r)

-- In any world that a run comes to, a book that is delivered for a ticker goes to the closure of the one slug
-- that lists the ticker, and to that slug's own tracker, which is there and which no other slug has; it changes
-- no other tracker, keeps what the debouncer holds for other slugs, and logs lines of this slug alone.
pub Reaches-owns :
    (w : LiveWorld) (tk : String) (f : Closure) (book : KalshiBook) (c : Clock)
    → Reaches w
    → lookup tk w.live.k_targets ≡ some f
    → (elem tk (tickers (lookup f.key w.live.slug_k)) ≡ true)
      × ((s : String) → elem tk (tickers (lookup s w.live.slug_k)) ≡ true → s ≡ f.key)
      × (owner w.live.pm_targets f.key ≡ some (f.trk, f.key))
      × (contains f.trk w.heap ≡ true)
      × ((s : String) → owner w.live.pm_targets s ≡ some (f.trk, s) → f.key ≡ s)
      × IsLocal f.trk f.key w (routed_k w (some f) book c)
unfolding routed_k
Reaches-owns w tk f book c r e =
    let h = Reaches-IsWired r in
    let own : owner w.live.k_targets tk ≡ some (f.trk, f.key) = ap held e in
    let (listed, same) = h.owned_ticker tk f.key f.trk own in
    (
      listed,
      λ s l. some_eq (sym (h.tickers_owned s tk l) ∙ ap key_of own),
      same,
      (h.keyed f.key f.key f.trk same).2,
      λ s o. h.apart f.key s f.trk same o,
      call_k-IsLocal w f f.handler (lookup f.trk w.heap) book c,
    )
