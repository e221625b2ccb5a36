-- ===== src/Monitor/Live/Stream/Wired.antt =====
-- A Kalshi connection keeps the dicts in agreement.
use cross_arb.Prelude.{
  [], erase, ℕ, Bool, true, false, Option, none, some, String, string_keys, nat_keys, lookup,
  if◌then◌else◌,
}
use cross_arb.Kalshi.Book.{KalshiBook}
use cross_arb.Monitor.Live.Registry.Wired.{IsWired}
use cross_arb.Kalshi.Book as Book
use cross_arb.Kalshi.Book.{Delta, apply_snapshot, apply_delta}
use cross_arb.Kalshi.Seq.{check}
use cross_arb.Monitor.Live.Sockets.{Links}
use cross_arb.Monitor.Live.Frames.{LiveWorld, Clock}
use cross_arb.Monitor.Live.Frames.Wired.{update-IsWired, routed_k-IsWired}
use cross_arb.Monitor.Live.Stream.{
  Conn, KFrame, Message, subscribed, snapshot, delta, other, Turn, connect, deliver, on_delta,
  on_message, on_seq, turn, set_book,
}

pub connect-IsWired :
    (w : LiveWorld) (links : Links) → IsWired w → IsWired (connect w links).0.world
unfolding connect
connect-IsWired w links h = update-IsWired w w.live.deb [] w.heap (λ j e. e) h

deliver-IsWired :
    (conn : Conn) (tk : String) (book : KalshiBook) (c : Clock)
    → IsWired conn.world
    → IsWired (deliver conn tk book c).conn.world
unfolding deliver
deliver-IsWired conn tk book c h =
    let w = set_book conn.world tk book in
    routed_k-IsWired w (lookup tk w.live.k_targets) book c
      (update-IsWired conn.world conn.world.live.deb w.live.books conn.world.heap (λ j e. e) h)

on_delta-IsWired :
    (conn : Conn) (tk : String) (o : Option KalshiBook) (msg : Delta) (c : Clock)
    → IsWired conn.world
    → IsWired (on_delta conn tk o msg c).conn.world
unfolding on_delta
on_delta-IsWired conn tk none msg c h = h
on_delta-IsWired conn tk (some book) msg c h = deliver-IsWired conn tk (apply_delta book msg) c h

on_message-IsWired :
    (conn : Conn) (message : Message) (c : Clock)
    → IsWired conn.world
    → IsWired (on_message conn message c).conn.world
unfolding on_message
on_message-IsWired conn (subscribed sid) c h = h
on_message-IsWired conn (snapshot tk msg) c h =
    let links = record conn.links { pending = erase tk conn.links.pending } in
    deliver-IsWired (record conn { links = links }) tk (apply_snapshot (Book.init tk) msg) c h
on_message-IsWired conn (delta tk msg) c h =
    on_delta-IsWired conn tk (lookup tk conn.world.live.books) msg c h
on_message-IsWired conn other c h = h

either-IsWired :
    (r : Bool) (t t' : Turn)
    → IsWired t.conn.world
    → IsWired t'.conn.world
    → IsWired (if r then t else t').conn.world
either-IsWired true t t' h h' = h
either-IsWired false t t' h h' = h'

on_seq-IsWired :
    (conn : Conn) (seq : Option ℕ) (message : Message) (c : Clock)
    → IsWired conn.world
    → IsWired (on_seq conn seq message c).conn.world
unfolding on_seq
on_seq-IsWired conn none message c h = on_message-IsWired conn message c h
on_seq-IsWired conn (some n) message c h =
    either-IsWired (check conn.seq n).0 _ _
      (on_message-IsWired (record conn { seq = (check conn.seq n).1 }) message c h) h

pub turn-IsWired :
    (conn : Conn) (f : KFrame) (c : Clock) → IsWired conn.world → IsWired (turn conn f c).conn.world
unfolding turn
turn-IsWired conn f c h = on_seq-IsWired conn f.seq f.message c h
