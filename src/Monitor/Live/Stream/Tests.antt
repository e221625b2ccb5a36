-- ===== src/Monitor/Live/Stream/Tests.antt =====
-- A snapshot and a delta of one ticker, with a frame of another one in between, on a fresh connection.
use cross_arb.Prelude.{◌≡◌, refl, none, some, List, [], ◌∷◌, string_keys, lookup, insert}
use cross_arb.Prelude.Int.{pos}
use cross_arb.Kalshi.Book.{yes_side}
use cross_arb.Kalshi.Seq.{check}
use cross_arb.Kalshi.Seq as Seq
use cross_arb.Monitor.Live.Sockets.{Links, down}
use cross_arb.Monitor.Live.Frames.{Clock, routed_k}
use cross_arb.Monitor.Live.Runs.{start}
use cross_arb.Monitor.Live.Stream.{
  KFrame, snapshot, delta, connect, deliver, on_delta, on_message, on_seq, turn, run,
}
use cross_arb.Monitor.Live.Stream.Books.{rebuilt, books-connect}

abbrev links : Links
links = record { pm = down; k = down; sid = none; pending = []; kcmd = 1 }

abbrev clock : Clock
clock = record { at_set = pos 0; at_evaluate = pos 0; at_emit = pos 0 }

abbrev frames : List (KFrame × Clock)
frames =
    (
      record {
        seq = some 1;
        message =
            snapshot "KA"
              (record { yes_dollars = some ((pos 4000, pos 500) ∷ []); no_dollars = none });
      },
      clock,
    )
    ∷ (
      record {
        seq = some 2;
        message = delta "KB" (record { side = yes_side; price = pos 4000; delta = pos 100 });
      },
      clock,
    )
    ∷ (
      record {
        seq = some 3;
        message = delta "KA" (record { side = yes_side; price = pos 4000; delta = pos 100 });
      },
      clock,
    )
    ∷ []

books-connect_example :
    lookup "KA" (run (connect (start (pos 1000)) links).0 frames).conn.world.live.books
    ≡ rebuilt "KA" none frames
unfolding run turn on_seq on_message on_delta deliver connect start check routed_k lookup insert
    Seq.init
books-connect_example = books-connect (start (pos 1000)) links frames "KA" refl
