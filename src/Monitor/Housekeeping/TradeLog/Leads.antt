-- ===== src/Monitor/Housekeeping/TradeLog/Leads.antt =====
-- The lines that the polls of a market write, and what they make of a cursor.
use cross_arb.Prelude.{
  ℕ, ◌*◌, ◌≡◌, ◌≢◌, refl, sym, ap, subst, ◌∙◌, Bool, true, false, Option, List, [], ◌∷◌, ◌++◌,
  String, string_keys, All, sort_by, if◌then◌else◌, arith,
}
use cross_arb.Prelude.Int.{ℤ}
use cross_arb.Monitor.Edge.{Attempt, ok, raised, ◌>>=◌}
use cross_arb.Monitor.Housekeeping.Trades.{TradePollState, seen, add}
use cross_arb.Monitor.Housekeeping.TradeLog.{
  or_zero, priced, to_ms, Trade, TradeRec, Ingest, trade_rec, ingest_each, ingest_trades, older,
  or_else, seed_one, take_print,
}

module _ (iso_unix : Option String → ℕ) where
  -- A line whose venue time can be read.
  abbrev pub Timed : TradeRec → Type 0
  Timed r = iso_unix r.vt ≢ 0

  unfoldable pub seed_all : TradePollState → List TradeRec → TradePollState
  seed_all st [] = st
  seed_all st (r ∷ rs) = seed_all (seed_one iso_unix st r) rs

  seed_all-append :
      (rs rs' : List TradeRec) (st : TradePollState)
      → seed_all st (rs ++ rs') ≡ seed_all (seed_all st rs) rs'
  unfolding seed_all
  seed_all-append [] rs' st = refl
  seed_all-append (r ∷ rs) rs' st = seed_all-append rs rs' (seed_one iso_unix st r)

  or_else_timed : (n m m' : ℕ) → n ≢ 0 → or_else n m ≡ or_else n m'
  or_else_timed n m m' h = ground arith

  ok_eq : {A : Type 0} {a b : A} → ok a ≡ ok b → a ≡ b
  ok_eq e = cc

  -- What a line keeps of its print.
  abbrev Keeps : Trade → TradeRec → Type 0
  Keeps tr r = (r.id ≡ tr.trade_id) × (r.vt ≡ tr.created_time) × (r.ktk ≡ tr.ticker)

  Keeps-trade_rec :
      (tr : Trade) (market : String) (now : ℕ) (r : TradeRec)
      → trade_rec tr market now ≡ ok r
      → Keeps tr r
  unfolding trade_rec
  Keeps-trade_rec tr market now r e = go (priced tr.yes_price) e
    where
      go :
          (a : Attempt ℤ)
          → (a >>= λ yes_c. ok (record {
            t = to_ms now;
            market = market;
            ktk = tr.ticker;
            vt = tr.created_time;
            yes_c = yes_c;
            qty = or_zero tr.count;
            taker = tr.taker_side;
            id = tr.trade_id;
          }))
            ≡ ok r
          → Keeps tr r
      go raised e' = cc
      go (ok yes_c) e' =
          let same = ok_eq e' in
          (sym (ap (λ x. x.id) same), sym (ap (λ x. x.vt) same), sym (ap (λ x. x.ktk) same))

  -- A line moves the cursor as its print did.
  seed_one-trade_rec :
      (st : TradePollState) (tr : Trade) (now : ℕ) (r : TradeRec)
      → Keeps tr r
      → Timed r
      → seen st tr.trade_id ≡ false
      → seed_one iso_unix st r ≡ add st tr.trade_id (or_else (iso_unix tr.created_time) now)
  unfolding seed_one
  seed_one-trade_rec st tr now r (same_id, same_vt, same_ktk) h new =
      rw (same_id, new, same_vt)
        (ap (add st tr.trade_id) (
          or_else_timed (iso_unix tr.created_time) (r.t * 1000) now
            (subst (λ v. iso_unix v ≢ 0) same_vt h)))

  -- The lines of a poll lead from the cursor before it to the one after it.
  abbrev Leads : TradePollState → Ingest → Type 0
  Leads st out = All Timed out.rows → seed_all st out.rows ≡ out.st

  either-Leads :
      (st : TradePollState) (b : Bool) (x y : Ingest)
      → (b ≡ true → Leads st x)
      → (b ≡ false → Leads st y)
      → Leads st (if b then x else y)
  either-Leads st true x y hx hy = hx refl
  either-Leads st false x y hx hy = hy refl

  take_print-Leads :
      (st : TradePollState) (tr : Trade) (market : String) (now : ℕ) (a : Attempt TradeRec)
      (rest : Ingest)
      → trade_rec tr market now ≡ a
      → seen st tr.trade_id ≡ false
      → Leads (add st tr.trade_id (or_else (iso_unix tr.created_time) now)) rest
      → Leads st (take_print st a rest)
  unfolding seed_all
  take_print-Leads st tr market now raised rest e new h = λ timed. refl
  take_print-Leads st tr market now (ok r) rest e new h = λ timed.
      ap (λ x. seed_all x rest.rows)
        (seed_one-trade_rec st tr now r (Keeps-trade_rec tr market now r e) timed.0 new)
      ∙ h timed.1

  ingest_each-Leads :
      (trs : List Trade) (market : String) (st : TradePollState) (now : ℕ)
      → Leads st (ingest_each iso_unix trs market st now)
  unfolding ingest_each seed_all
  ingest_each-Leads [] market st now = λ timed. refl
  ingest_each-Leads (tr ∷ trs) market st now =
      let st' = add st tr.trade_id (or_else (iso_unix tr.created_time) now) in
      either-Leads st (seen st tr.trade_id) _ _ (λ known. ingest_each-Leads trs market st now)
        (λ new.
          take_print-Leads st tr market now (trade_rec tr market now) _ refl new
            (ingest_each-Leads trs market st' now))

  -- Polls of one market, each with its clock.
  unfoldable pub poll_all :
      TradePollState → String → List (List Trade × ℕ) → TradePollState × List TradeRec
  poll_all st market [] = (st, [])
  poll_all st market ((trades, now) ∷ polls) =
      let out = ingest_trades iso_unix trades market st now in
      let (st', rows) = poll_all out.st market polls in (st', out.rows ++ rows)

  All-split : (rs rs' : List TradeRec) → All Timed (rs ++ rs') → All Timed rs × All Timed rs'
  All-split [] rs' a = (tt, a)
  All-split (r ∷ rs) rs' (a, b) = let (c, d) = All-split rs rs' b in ((a, c), d)

  pub seed_all-poll_all :
      (st : TradePollState) (market : String) (polls : List (List Trade × ℕ))
      → All Timed (poll_all st market polls).1
      → seed_all st (poll_all st market polls).1 ≡ (poll_all st market polls).0
  unfolding poll_all seed_all ingest_trades
  seed_all-poll_all st market [] h = refl
  seed_all-poll_all st market ((trades, now) ∷ polls) h =
      let out = ingest_trades iso_unix trades market st now in
      let later = poll_all out.st market polls in
      let (first, rest) = All-split out.rows later.1 h in
      seed_all-append out.rows later.1 st
      ∙ ap (λ x. seed_all x later.1) (ingest_each-Leads (sort_by older trades) market st now first)
      ∙ seed_all-poll_all out.st market polls rest
