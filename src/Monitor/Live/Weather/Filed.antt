-- ===== src/Monitor/Live/Weather/Filed.antt =====
-- That a cycle of `weather_poll` polls the tickers of the weather markets, and files each print under its market.
use cross_arb.Prelude.{
  ℕ, ◌≡◌, refl, sym, ap, subst, ◌∙◌, true, Option, none, some, List, [], ◌∷◌, String, ◌=?◌,
  string_keys, nat_keys, elem, Eq, Dict, IsDict, lookup, contains, lookup-insert, insert-IsDict,
  All, All-append, All_mono, All-insert, All-lookup, is_some, some_eq, if◌then◌else◌, arith,
  Bool-cases, inl, inr,
}
use cross_arb.Monitor.Edge.{Attempt, ok, raised}
use cross_arb.Monitor.Housekeeping.Teardown.{tickers}
use cross_arb.Monitor.Housekeeping.Trades.{TradePollState, min_ts}
use cross_arb.Monitor.Housekeeping.TradeLog.{Trade, TradeRec}
use cross_arb.Monitor.Housekeeping.TradeLog.Filed.{IsFiled, IsOf, ingest_trades-IsFiled}
use cross_arb.Monitor.Live.Registry.{World}
use cross_arb.Monitor.Live.Registry.Wired.{IsWired, owner, key_of}
use cross_arb.Monitor.Live.Weather.{
  Times, Cursors, Weather, rows_of, first_ticker, with_ticker, wx_map, poll_ticker, poll_with,
  cursor_of, cycle,
}
use cross_arb.Monitor.Live.Weather.Cursors.{own_cursor, own_rows, poll_trades_lem}
use cross_arb.Monitor.Live.Frames.{LiveWorld}
use cross_arb.Monitor.Live.Runs.{Reaches, Reaches-IsWired}

-- A row of the map: a ticker, and the slug that lists it first.
abbrev IsJoin : Dict String (List String) → String × String → Type 0
IsJoin slug_k row = first_ticker (lookup row.1 slug_k) ≡ some row.0

with_ticker-IsDict :
    (o : Option String) (slug : String) (d : Dict String String)
    → IsDict d
    → IsDict (with_ticker o slug d)
with_ticker-IsDict none slug d h = h
with_ticker-IsDict (some tk) slug d h = insert-IsDict tk slug d h

wx_map-IsDict :
    (slug_k : Dict String (List String)) (wx : Dict String ℕ) (d : Dict String String)
    → IsDict d
    → IsDict (wx_map slug_k wx d)
unfolding wx_map
wx_map-IsDict slug_k [] d h = h
wx_map-IsDict slug_k ((s, i) ∷ wx) d h =
    let o = first_ticker (lookup s slug_k) in
    wx_map-IsDict slug_k wx (with_ticker o s d) (with_ticker-IsDict o s d h)

with_ticker-IsJoin :
    (slug_k : Dict String (List String)) (o : Option String) (slug : String)
    (d : Dict String String)
    → first_ticker (lookup slug slug_k) ≡ o
    → All (IsJoin slug_k) d
    → All (IsJoin slug_k) (with_ticker o slug d)
with_ticker-IsJoin slug_k none slug d e h = h
with_ticker-IsJoin slug_k (some tk) slug d e h = All-insert (IsJoin slug_k) tk slug d e h

wx_map-IsJoin :
    (slug_k : Dict String (List String)) (wx : Dict String ℕ) (d : Dict String String)
    → All (IsJoin slug_k) d
    → All (IsJoin slug_k) (wx_map slug_k wx d)
unfolding wx_map
wx_map-IsJoin slug_k [] d h = h
wx_map-IsJoin slug_k ((s, i) ∷ wx) d h =
    let o = first_ticker (lookup s slug_k) in
    wx_map-IsJoin slug_k wx (with_ticker o s d) (with_ticker-IsJoin slug_k o s d refl h)

with_ticker_keeps :
    (o : Option String) (slug tk : String) (d : Dict String String)
    → contains tk d ≡ true
    → contains tk (with_ticker o slug d) ≡ true
with_ticker_keeps none slug tk d h = h
with_ticker_keeps (some j) slug tk d h = ground (arith, lookup-insert j tk slug d)

wx_map_keeps :
    (slug_k : Dict String (List String)) (wx : Dict String ℕ) (d : Dict String String) (tk : String)
    → contains tk d ≡ true
    → contains tk (wx_map slug_k wx d) ≡ true
unfolding wx_map
wx_map_keeps slug_k [] d tk h = h
wx_map_keeps slug_k ((s, i) ∷ wx) d tk h =
    let o = first_ticker (lookup s slug_k) in
    wx_map_keeps slug_k wx (with_ticker o s d) tk (with_ticker_keeps o s tk d h)

contains-with_ticker :
    (o : Option String) (slug tk : String) (d : Dict String String)
    → o ≡ some tk
    → contains tk (with_ticker o slug d) ≡ true
contains-with_ticker none slug tk d e = cc
contains-with_ticker (some j) slug tk d e =
    ground (arith, some_eq e, lookup-insert j tk slug d, string_keys.beq_iff j tk)

contains-wx_map :
    (slug_k : Dict String (List String)) (wx : Dict String ℕ) (d : Dict String String)
    (s tk : String)
    → contains s wx ≡ true
    → first_ticker (lookup s slug_k) ≡ some tk
    → contains tk (wx_map slug_k wx d) ≡ true
unfolding wx_map lookup
contains-wx_map slug_k [] d s tk h e = cc
contains-wx_map slug_k ((j, i) ∷ wx) d s tk h e =
    let o = first_ticker (lookup j slug_k) in
    elim (Bool-cases (j =? s)) [
      | inl same ↦
          let this = (string_keys.beq_iff j s).0 same in
          wx_map_keeps slug_k wx (with_ticker o j d) tk
            (contains-with_ticker o j tk d (ap (λ x. first_ticker (lookup x slug_k)) this ∙ e))
      | inr other ↦
          contains-wx_map slug_k wx (with_ticker o j d) s tk
            (sym (ap (λ b. is_some (if b then some i else lookup s wx)) other) ∙ h) e
    ]

elem-first_ticker :
    (o : Option (List String)) (tk : String) → first_ticker o ≡ some tk → elem tk (tickers o) ≡ true
elem-first_ticker none tk e = cc
elem-first_ticker (some []) tk e = cc
elem-first_ticker (some (t ∷ ts)) tk e = ground (arith, some_eq e, string_keys.beq_iff tk t)

module _ {S D : Type 0} where
  -- The map of a world, as the cycle makes it.
  abbrev pub joins : World S D → Dict String String
  joins w = wx_map w.live.slug_k (rows_of w.live.wx) []

  joins_owned :
      (w : World S D) (tk s : String)
      → IsWired w
      → lookup tk (joins w) ≡ some s
      → key_of (owner w.live.k_targets tk) ≡ some s
  joins_owned w tk s h e =
      let k = w.live.slug_k in
      let join =
        All-lookup (IsJoin k) tk s (joins w) e (wx_map-IsJoin k (rows_of w.live.wx) [] tt) in
      h.tickers_owned s tk (elem-first_ticker (lookup s k) tk join)

  joins_own :
      (w : World S D) (o : Option String) (tk s : String)
      → IsWired w
      → lookup tk (joins w) ≡ o
      → is_some o ≡ true
      → first_ticker (lookup s w.live.slug_k) ≡ some tk
      → o ≡ some s
  joins_own w none tk s h e c f = cc
  joins_own w (some s') tk s h e c f =
      sym (joins_owned w tk s' h e)
      ∙ h.tickers_owned s tk (elem-first_ticker (lookup s w.live.slug_k) tk f)

  joins-lookup :
      (w : World S D) (s tk : String)
      → IsWired w
      → contains s (rows_of w.live.wx) ≡ true
      → first_ticker (lookup s w.live.slug_k) ≡ some tk
      → lookup tk (joins w) ≡ some s
  joins-lookup w s tk h c f =
      joins_own w (lookup tk (joins w)) tk s h refl
        (contains-wx_map w.live.slug_k (rows_of w.live.wx) [] s tk c f) f

-- A line of a ticker whose closure has the line's market for its key.
abbrev pub HasOwner : {S D : Type 0} → World S D → TradeRec → Type 0
HasOwner w r =
    (tk : String) × (r.ktk ≡ some tk) × (key_of (owner w.live.k_targets tk) ≡ some r.market)

-- A request for the prints of a ticker is answered with prints of that ticker, or not at all.
abbrev pub AnswersOf : String → Attempt (List Trade) → Type 0
AnswersOf tk raised = Unit
AnswersOf tk (ok trades) = All (IsOf tk) trades

abbrev pub Answers : (String → ℕ → Attempt (List Trade)) → Type 0
Answers fetch = (tk : String) (from : ℕ) → AnswersOf tk (fetch tk from)

module _ (iso_unix : Option String → ℕ) (fetch : String → ℕ → Attempt (List Trade))
    (times : String → Times) where
  poll_with-IsFiled :
      (st : TradePollState) (a : Attempt (List Trade)) (tk market : String) (now : ℕ)
      → AnswersOf tk a
      → All (IsFiled tk market) (poll_with iso_unix st a market now).rows
  poll_with-IsFiled st raised tk market now h = tt
  poll_with-IsFiled st (ok trades) tk market now h =
      ingest_trades-IsFiled iso_unix trades tk market st now h

  poll_ticker-IsFiled :
      (old : Option TradePollState) (tk market : String)
      → Answers fetch
      → All (IsFiled tk market) (poll_ticker iso_unix fetch times old tk market).rows
  unfolding poll_ticker
  poll_ticker-IsFiled old tk market h =
      let st = cursor_of old (times tk).at_contact in
      poll_with-IsFiled st (fetch tk (min_ts st)) tk market (times tk).at_ingest (h tk (min_ts st))

  module _ {S D : Type 0} (w : World S D) where
    abbrev IsOwned : String × String → Type 0
    IsOwned row = key_of (owner w.live.k_targets row.0) ≡ some row.1

    own_rows-HasOwner :
        (m : Dict String String) (tstate : Cursors)
        → Answers fetch
        → All IsOwned m
        → All (HasOwner w) (own_rows iso_unix fetch times m tstate)
    unfolding own_rows
    own_rows-HasOwner [] tstate h a = tt
    own_rows-HasOwner ((tk, market) ∷ m) tstate h a =
        let out = poll_ticker iso_unix fetch times (lookup tk tstate) tk market in
        All-append (HasOwner w) out.rows (own_rows iso_unix fetch times m tstate)
          (All_mono (IsFiled tk market) (HasOwner w) out.rows
            (λ r f. (tk, f.0, a.0 ∙ ap some (sym f.1)))
            (poll_ticker-IsFiled (lookup tk tstate) tk market h))
          (own_rows-HasOwner m tstate h a.1)

    joins-IsOwned : IsWired w → All IsOwned (joins w)
    joins-IsOwned h =
        All_mono (IsJoin w.live.slug_k) IsOwned (joins w)
          (λ row j.
            h.tickers_owned row.1 row.0 (elem-first_ticker (lookup row.1 w.live.slug_k) row.0 j))
          (wx_map-IsJoin w.live.slug_k (rows_of w.live.wx) [] tt)

  own_cursor_mapped :
      (o : Option String) (tk : String) (old : Option TradePollState)
      → is_some (own_cursor iso_unix fetch times tk o old) ≡ true
      → (s : String) × (o ≡ some s)
  own_cursor_mapped none tk old h = cc
  own_cursor_mapped (some s) tk old h = (s, refl)

  module _ {C : Type 0} ⦃e : Eq (List C)⦄ where
    -- A cycle that starts in a world that a run comes to, with a venue that answers a request for a ticker with prints
    -- of that ticker or fails: each logged print is filed under the slug that the closure of its ticker has;
    -- each weather market that lists a ticker is polled, from the ticker's own cursor, and the ticker keeps
    -- the cursor that this poll alone leaves, whatever becomes of the others; and no ticker has a cursor but
    -- those of markets that are tracked.
    pub cycle_files :
        (w w' : LiveWorld) (changes : Option (List C)) (weather : Weather C)
        → Reaches w
        → Answers fetch
        → let out = cycle iso_unix fetch times w w' changes weather in
          All (HasOwner w) out.trades
          × ((s tk : String)
              → contains s (rows_of w.live.wx) ≡ true
              → first_ticker (lookup s w.live.slug_k) ≡ some tk
              → lookup tk out.weather.tstate
                ≡ some (poll_ticker iso_unix fetch times (lookup tk weather.tstate) tk s).st)
          × ((tk : String)
              → contains tk out.weather.tstate ≡ true
              → (s : String) × (key_of (owner w.live.k_targets tk) ≡ some s))
    unfolding cycle
    cycle_files w w' changes weather r h =
        let wired = Reaches-IsWired r in
        let m = joins w in
        let (cursors, rows) =
          poll_trades_lem iso_unix fetch times m weather.tstate
            (wx_map-IsDict w.live.slug_k (rows_of w.live.wx) [] tt) in
        (
          subst (All (HasOwner w)) (sym rows)
              (own_rows-HasOwner w m weather.tstate h (joins-IsOwned w wired)),
          λ s tk c f.
              cursors tk
              ∙ ap (λ o. own_cursor iso_unix fetch times tk o (lookup tk weather.tstate))
                  (joins-lookup w s tk wired c f),
          λ tk c.
              let (s, found) =
                own_cursor_mapped (lookup tk m) tk (lookup tk weather.tstate)
                  (sym (ap is_some (cursors tk)) ∙ c) in
              (s, joins_owned w tk s wired found),
        )
