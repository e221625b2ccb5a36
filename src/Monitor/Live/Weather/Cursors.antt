-- ===== src/Monitor/Live/Weather/Cursors.antt =====
-- That the tickers of a cycle of `weather_poll` do not meddle with each other.
use cross_arb.Prelude.{
  ℕ, ◌≡◌, refl, ap, subst, ◌∙◌, true, Option, none, some, List, [], ◌∷◌, ◌++◌, String, ◌=?◌,
  =?_refl, =?→≡, string_keys, Dict, IsDict, lookup, insert, contains, select, lookup-insert,
  lookup-select_keys, other_key, is_some, if◌then◌else◌, arith, Bool-cases, inl, inr,
}
use cross_arb.Monitor.Edge.{Attempt}
use cross_arb.Monitor.Housekeeping.Trades.{TradePollState}
use cross_arb.Monitor.Housekeeping.TradeLog.{Trade, TradeRec}
use cross_arb.Monitor.Live.Weather.{Times, Cursors, is_mapped, poll_ticker, poll_each, poll_trades}

module _ (iso_unix : Option String → ℕ) (fetch : String → ℕ → Attempt (List Trade))
    (times : String → Times) where
  -- What the poll of a ticker alone makes of its cursor.
  abbrev polled : String → Option String → Option TradePollState → Option TradePollState
  polled tk none old = old
  polled tk (some market) old = some (poll_ticker iso_unix fetch times old tk market).st

  -- The same, where a ticker that is not tracked has no cursor.
  abbrev pub own_cursor : String → Option String → Option TradePollState → Option TradePollState
  own_cursor tk none old = none
  own_cursor tk (some market) old = some (poll_ticker iso_unix fetch times old tk market).st

  -- The lines of each ticker's poll from its own cursor.
  unfoldable pub own_rows : Dict String String → Cursors → List TradeRec
  own_rows [] tstate = []
  own_rows ((tk, market) ∷ m) tstate =
      (poll_ticker iso_unix fetch times (lookup tk tstate) tk market).rows ++ own_rows m tstate

  lookup-poll_each :
      (m : Dict String String) (tstate : Cursors) (tk : String)
      → IsDict m
      → lookup tk (poll_each iso_unix fetch times m tstate).0
        ≡ polled tk (lookup tk m) (lookup tk tstate)
  unfolding poll_each lookup
  lookup-poll_each [] tstate tk h = refl
  lookup-poll_each ((j, market) ∷ m) tstate tk h =
      let out = poll_ticker iso_unix fetch times (lookup j tstate) j market in
      lookup-poll_each m (insert j out.st tstate) tk h.1
      ∙ ap (polled tk (lookup tk m)) (lookup-insert j tk out.st tstate)
      ∙ elim (Bool-cases (j =? tk)) [
        | inl same ↦ rw same (
            subst
              (λ x.
                polled x (lookup x m) (some out.st)
                ≡ some (poll_ticker iso_unix fetch times (lookup x tstate) x market).st)
              (=?→≡ same) (ap (λ o. polled j o (some out.st)) h.0))
        | inr other ↦ rw other refl
      ]

  -- A ticker's cursor is looked at only where the ticker is polled.
  own_rows_other :
      (m : Dict String String) (tstate tstate' : Cursors)
      → ((tk : String) → contains tk m ≡ true → lookup tk tstate' ≡ lookup tk tstate)
      → own_rows m tstate' ≡ own_rows m tstate
  unfolding own_rows lookup
  own_rows_other [] tstate tstate' h = refl
  own_rows_other ((tk, market) ∷ m) tstate tstate' h =
      rw
        (
          h tk (ap (λ b. is_some (if b then some market else lookup tk m)) (=?_refl tk)),
          own_rows_other m tstate tstate' (λ k t. h k (ground arith)),
        )
        refl

  rows-poll_each :
      (m : Dict String String) (tstate : Cursors)
      → IsDict m
      → (poll_each iso_unix fetch times m tstate).1 ≡ own_rows m tstate
  unfolding poll_each own_rows
  rows-poll_each [] tstate h = refl
  rows-poll_each ((tk, market) ∷ m) tstate h =
      let out = poll_ticker iso_unix fetch times (lookup tk tstate) tk market in
      let tstate' = insert tk out.st tstate in
      ap (λ rows. out.rows ++ rows)
        (rows-poll_each m tstate' h.1
          ∙ own_rows_other m tstate tstate' (λ k t.
            lookup-insert tk k out.st tstate
            ∙ other_key m tk k (some out.st) (lookup k tstate) h.0 t))

  own_cursor-polled :
      (o : Option String) (tk : String) (old : Option TradePollState)
      → polled tk o (if is_some o then old else none) ≡ own_cursor tk o old
  own_cursor-polled none tk old = refl
  own_cursor-polled (some market) tk old = refl

  -- After the polls of a cycle each tracked ticker has the cursor that a poll of it alone makes of its own one, and no
  -- other ticker has any; and the log has each ticker's lines from its own cursor, in turn. So neither a
  -- failure nor the answer of another ticker moves a cursor or loses a line.
  pub poll_trades_lem :
      (m : Dict String String) (tstate : Cursors)
      → IsDict m
      → ((tk : String)
          → lookup tk (poll_trades iso_unix fetch times m tstate).0
            ≡ own_cursor tk (lookup tk m) (lookup tk tstate))
        × ((poll_trades iso_unix fetch times m tstate).1 ≡ own_rows m tstate)
  unfolding poll_trades
  poll_trades_lem m tstate h =
      let kept = select (is_mapped m) tstate in
      let found : (tk : String)
          → lookup tk kept ≡ (if contains tk m then lookup tk tstate else none) =
        λ tk. lookup-select_keys (λ k. contains k m) tk tstate in
      (
        λ tk.
            lookup-poll_each m kept tk h
            ∙ ap (polled tk (lookup tk m)) (found tk)
            ∙ own_cursor-polled (lookup tk m) tk (lookup tk tstate),
        rows-poll_each m kept h
            ∙ own_rows_other m tstate kept
                (λ tk t. found tk ∙ ap (λ b. if b then lookup tk tstate else none) t),
      )
