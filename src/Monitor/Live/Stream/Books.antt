-- ===== src/Monitor/Live/Stream/Books.antt =====
-- What the frames of one connection leave in `books`.
use cross_arb.Prelude.{
  ℕ, ◌≡◌, refl, sym, ap, ◌∙◌, Bool, true, false, Option, none, some, List, [], ◌∷◌, String, ◌=?◌,
  =?→≡, string_keys, lookup, erase, lookup-insert, if◌then◌else◌, Bool-cases, inl, inr,
}
use cross_arb.Kalshi.Book as Book
use cross_arb.Kalshi.Book.{KalshiBook, Snapshot, Delta, apply_snapshot, apply_delta}
use cross_arb.Kalshi.Seq.{check}
use cross_arb.Monitor.Live.Registry.{Closure}
use cross_arb.Monitor.Live.Sockets.{Links}
use cross_arb.Monitor.Live.Frames.{LiveWorld, Clock, routed_k}
use cross_arb.Monitor.Live.Frames.Local.{live-routed_k}
use cross_arb.Monitor.Live.Stream.{
  continue, then_run, Message, subscribed, snapshot, delta, other, KFrame, Ending, going, cycled,
  dropped, Conn, Turn, connect, deliver, on_delta, on_message, on_seq, turn, run, set_book,
}

abbrev changed : Option KalshiBook → Delta → Option KalshiBook
changed none msg = none
changed (some book) msg = some (apply_delta book msg)

-- A ticker's book after a message: a snapshot of it starts it anew, and a delta of it changes it if it is
-- there.
abbrev pub book_after : String → Option KalshiBook → Message → Option KalshiBook
book_after tk old (snapshot t msg) =
    if t =? tk then some (apply_snapshot (Book.init t) msg) else old
book_after tk old (delta t msg) = if t =? tk then changed old msg else old
book_after tk old _ = old

abbrev pub rebuilt : String → Option KalshiBook → List (KFrame × Clock) → Option KalshiBook
rebuilt tk old [] = old
rebuilt tk old ((f, c) ∷ fs) = rebuilt tk (book_after tk old f.message) fs

books-routed_k :
    (w : LiveWorld) (f : Option Closure) (book : KalshiBook) (c : Clock)
    → (routed_k w f book c).world.live.books ≡ w.live.books
books-routed_k w f book c = ap (λ l. l.books) (live-routed_k w f book c)

lookup-deliver :
    (conn : Conn) (t tk : String) (book : KalshiBook) (c : Clock)
    → lookup tk (deliver conn t book c).conn.world.live.books
      ≡ (if t =? tk then some book else lookup tk conn.world.live.books)
unfolding deliver
lookup-deliver conn t tk book c =
    ap (lookup tk)
      (books-routed_k (set_book conn.world t book) (lookup t conn.world.live.k_targets) book c)
    ∙ lookup-insert t tk book conn.world.live.books

lookup-on_delta :
    (conn : Conn) (t tk : String) (o : Option KalshiBook) (msg : Delta) (c : Clock)
    → lookup t conn.world.live.books ≡ o
    → lookup tk (on_delta conn t o msg c).conn.world.live.books ≡ (
        if t =? tk
        then changed (lookup tk conn.world.live.books) msg
        else lookup tk conn.world.live.books)
unfolding on_delta
lookup-on_delta conn t tk none msg c e = elim (Bool-cases (t =? tk)) [
  | inl same ↦
      let h = ap (λ k. lookup k conn.world.live.books) (sym (=?→≡ same)) ∙ e in rw (same, h) refl
  | inr differs ↦ rw differs refl
]
lookup-on_delta conn t tk (some book) msg c e =
    lookup-deliver conn t tk (apply_delta book msg) c ∙ elim (Bool-cases (t =? tk)) [
      | inl same ↦
          let h = ap (λ k. lookup k conn.world.live.books) (sym (=?→≡ same)) ∙ e in
          rw (same, h) refl
      | inr differs ↦ rw differs refl
    ]

lookup-on_message :
    (conn : Conn) (tk : String) (message : Message) (c : Clock)
    → lookup tk (on_message conn message c).conn.world.live.books
      ≡ book_after tk (lookup tk conn.world.live.books) message
unfolding on_message
lookup-on_message conn tk (subscribed sid) c = refl
lookup-on_message conn tk (snapshot t msg) c =
    let links = record conn.links { pending = erase t conn.links.pending } in
    lookup-deliver (record conn { links = links }) t tk (apply_snapshot (Book.init t) msg) c
lookup-on_message conn tk (delta t msg) c = lookup-on_delta conn t tk _ msg c refl
lookup-on_message conn tk other c = refl

only_going :
    (fit : Bool) (next last : Turn)
    → last.ending ≡ cycled
    → (if fit then next else last).ending ≡ going
    → (if fit then next else last) ≡ next
only_going true next last e h = refl
only_going false next last e h = cc

lookup-on_seq :
    (conn : Conn) (tk : String) (seq : Option ℕ) (message : Message) (c : Clock)
    → (on_seq conn seq message c).ending ≡ going
    → lookup tk (on_seq conn seq message c).conn.world.live.books
      ≡ book_after tk (lookup tk conn.world.live.books) message
unfolding on_seq
lookup-on_seq conn tk none message c h = lookup-on_message conn tk message c
lookup-on_seq conn tk (some n) message c h =
    let (fit, st) = check conn.seq n in
    let conn' = record conn { seq = st } in
    let last : Turn = record { conn = conn'; rows = []; resyncs = n ∷ []; ending = cycled } in
    ap (λ t. lookup tk t.conn.world.live.books)
      (only_going fit (on_message conn' message c) last refl h)
    ∙ lookup-on_message conn' tk message c

going_first :
    (first rest : Turn)
    → (continue first.ending first rest).ending ≡ going
    → (first.ending ≡ going) × (continue first.ending first rest ≡ then_run first rest)
going_first first rest h = go first.ending refl h
  where
    go :
        (e : Ending)
        → first.ending ≡ e
        → (continue e first rest).ending ≡ going
        → (first.ending ≡ going) × (continue e first rest ≡ then_run first rest)
    go going same h' = (same, refl)
    go cycled same h' = cc
    go dropped same h' = cc

books-run :
    (fs : List (KFrame × Clock)) (conn : Conn) (tk : String)
    → (run conn fs).ending ≡ going
    → lookup tk (run conn fs).conn.world.live.books
      ≡ rebuilt tk (lookup tk conn.world.live.books) fs
unfolding run turn
books-run [] conn tk h = refl
books-run ((f, c) ∷ fs) conn tk h =
    let first = turn conn f c in
    let on = going_first first (run first.conn fs) h in
    ap (λ t. lookup tk t.conn.world.live.books) (on.1)
    ∙ books-run fs first.conn tk (sym (ap (λ t. t.ending) on.1) ∙ h)
    ∙ ap (λ b. rebuilt tk b fs) (lookup-on_seq conn tk f.seq f.message c on.0)

-- On a new connection, over any frames that keep it going, a ticker's book is what its own snapshots and
-- deltas make of it, in their order: nothing of it is left from before the connection, and no frame of another
-- ticker changes it.
pub books-connect :
    (w : LiveWorld) (links : Links) (fs : List (KFrame × Clock)) (tk : String)
    → (run (connect w links).0 fs).ending ≡ going
    → lookup tk (run (connect w links).0 fs).conn.world.live.books ≡ rebuilt tk none fs
unfolding connect lookup
books-connect w links fs tk h = books-run fs (connect w links).0 tk h
