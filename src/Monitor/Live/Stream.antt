-- ===== src/Monitor/Live/Stream.antt =====
-- A connection of `kalshi_stream` of `run_live` in bot/monitor.py: how it starts, and one turn of its loop.
-- The socket and the wait before a new connection are left out.
pub mod Books
pub mod Wired
mod Tests
use cross_arb.Prelude.{
  ℕ, Bool, true, false, not, ◌&&◌, Option, none, some, List, [], ◌∷◌, ◌++◌, String, string_keys,
  Dict, lookup, insert, erase, if◌then◌else◌,
}
use cross_arb.Prelude.Int.{ℤ}
use cross_arb.Kalshi.Book as Book
use cross_arb.Kalshi.Book.{KalshiBook, Snapshot, Delta, apply_snapshot, apply_delta}
use cross_arb.Kalshi.Seq as Seq
use cross_arb.Kalshi.Seq.{SeqTracker, check}
use cross_arb.Monitor.Live.Sockets.{Links, up, Sent, subscribe_k}
use cross_arb.Monitor.Live.Frames.{LiveWorld, Outcome, Clock, routed_k}
use cross_arb.Monitor.Live.Rows.{Row}
use cross_arb.Monitor.Live.Heartbeat.{keys}

-- A frame: its type with its `msg`, and its `seq` if it has one.
pub data Message : Type 0 where
  subscribed : Option ℤ → Message
  snapshot : String → Snapshot → Message
  delta : String → Delta → Message
  other : Message

pub record KFrame : Type 0 where
  pub seq : Option ℕ
  pub message : Message

-- How a turn ends: the loop goes on, it breaks at a gap, or it raises. The last two drop the connection.
pub data Ending : Type 0 where
  going cycled dropped : Ending

pub record Conn : Type 0 where
  pub world : LiveWorld
  pub links : Links
  pub seq : SeqTracker

-- What a turn leaves: beside the state, what it logged, and the numbers of its resync markers.
pub record Turn : Type 0 where
  pub conn : Conn
  pub rows : List Row
  pub resyncs : List ℕ
  pub ending : Ending

-- A new connection: all books go, and the tickers that have a closure are subscribed.
pub connect : LiveWorld → Links → Conn × List Sent
connect w links = (
  record {
    world = record w { live = record w.live { books = [] } };
    links = record links { k = up; sid = none; pending = [] };
    seq = Seq.init;
  },
  subscribe_k (keys w.live.k_targets) ∷ [],
)

abbrev ending_of : Bool → Ending
ending_of raised = if raised then dropped else going

abbrev goes_on : Conn → Turn
goes_on conn = record { conn = conn; rows = []; resyncs = []; ending = going }

abbrev set_book : LiveWorld → String → KalshiBook → LiveWorld
set_book w tk book = record w { live = record w.live { books = insert tk book w.live.books } }

-- `books[tk] = …`, and the ticker's closure with it.
pub deliver : Conn → String → KalshiBook → Clock → Turn
deliver conn tk book c =
    let w = set_book conn.world tk book in
    let out = routed_k w (lookup tk w.live.k_targets) book c in
    record {
      conn = record conn { world = out.world };
      rows = out.rows;
      resyncs = [];
      ending = ending_of out.raised;
    }

on_delta : Conn → String → Option KalshiBook → Delta → Clock → Turn
unfolding deliver
on_delta conn tk none msg c = goes_on conn
on_delta conn tk (some book) msg c = deliver conn tk (apply_delta book msg) c

pub on_message : Conn → Message → Clock → Turn
unfolding on_delta
on_message conn (subscribed sid) c =
    goes_on (record conn { links = record conn.links { sid = sid } })
on_message conn (snapshot tk msg) c =
    let links = record conn.links { pending = erase tk conn.links.pending } in
    deliver (record conn { links = links }) tk (apply_snapshot (Book.init tk) msg) c
on_message conn (delta tk msg) c = on_delta conn tk (lookup tk conn.world.live.books) msg c
on_message conn other c = goes_on conn

-- A number out of order is marked, and ends the connection.
on_seq : Conn → Option ℕ → Message → Clock → Turn
unfolding on_message
on_seq conn none message c = on_message conn message c
on_seq conn (some seq) message c =
    let (fit, st) = check conn.seq seq in
    let conn' = record conn { seq = st } in
    let next = on_message conn' message c in
    if fit then next else record { conn = conn'; rows = []; resyncs = seq ∷ []; ending = cycled }

pub turn : Conn → KFrame → Clock → Turn
unfolding on_seq
turn conn f c = on_seq conn f.seq f.message c

abbrev then_run : Turn → Turn → Turn
then_run first rest = record rest {
  rows = first.rows ++ rest.rows;
  resyncs = first.resyncs ++ rest.resyncs;
}

abbrev continue : Ending → Turn → Turn → Turn
continue going first rest = then_run first rest
continue _ first rest = first

-- The loop, over the frames that come, as far as it goes on.
unfoldable pub run : Conn → List (KFrame × Clock) → Turn
unfolding turn
run conn [] = goes_on conn
run conn ((f, c) ∷ fs) =
    let first = turn conn f c in let rest = run first.conn fs in continue first.ending first rest
