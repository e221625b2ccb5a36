-- ===== src/Monitor/Housekeeping/TradeLog/Seeded.antt =====
-- The cursor that a restart takes from the log, against the one that wrote it.
use cross_arb.Prelude.{
  ℕ, ◌*◌, ◌≤◌, ◌≡◌, refl, sym, ap, subst, ◌∙◌, Bool, true, false, Option, none, some, List, [], ◌∷◌,
  String, ◌=?◌, =?→≡, string_keys, Dict, lookup, lookup-insert, select, All, if◌then◌else◌, arith,
  Bool-cases, inl, inr,
}
use cross_arb.Monitor.Housekeeping.Trades.{TradePollState, init, unseen-init, add-init}
use cross_arb.Monitor.Housekeeping.TradeLog.{
  or_new, Trade, TradeRec, or_else, seed_one, seed_trade_state, named, or_new, seed_under,
}
use cross_arb.Monitor.Housekeeping.TradeLog.Leads.{Timed, seed_all, poll_all, seed_all-poll_all}

-- The lines of one ticker.
abbrev named_as : String → Option String → Bool
named_as tk none = false
named_as tk (some k) = k =? tk

abbrev pub is_of : String → TradeRec → Bool
is_of tk r = named_as tk r.ktk

module _ (iso_unix : Option String → ℕ) where
  seed_one-init :
      (start : ℕ) (r : TradeRec)
      → Timed iso_unix r
      → start ≤ iso_unix r.vt
      → seed_one iso_unix (init 0) r ≡ seed_one iso_unix (init start) r
  unfolding seed_one
  seed_one-init start r h later =
      rw (unseen-init 0 r.id, unseen-init start r.id)
        (sym (add-init start r.id (or_else (iso_unix r.vt) (r.t * 1000)) (ground arith)))

  abbrev seeded : Option TradePollState → List TradeRec → Option TradePollState
  seeded o [] = o
  seeded o (r ∷ rs) = some (seed_all iso_unix (or_new o) (r ∷ rs))

  seeded_step :
      (o : Option TradePollState) (r : TradeRec) (rs : List TradeRec)
      → seeded (some (seed_one iso_unix (or_new o) r)) rs ≡ seeded o (r ∷ rs)
  unfolding seed_all
  seeded_step o r [] = refl
  seeded_step o r (x ∷ rs) = refl

  lookup-seed_under :
      (d : Dict String TradePollState) (o : Option String) (r : TradeRec) (tk : String)
      → (tk =? "") ≡ false
      → lookup tk (seed_under iso_unix d (named o) r)
        ≡ (if named_as tk o then some (seed_one iso_unix (or_new (lookup tk d)) r) else lookup tk d)
  lookup-seed_under d none r tk real = refl
  lookup-seed_under d (some k) r tk real = elim (Bool-cases (k =? "")) [
    | inl empty ↦ rw (empty, other_name empty) refl
    | inr named_ ↦ rw named_ (
        lookup-insert k tk (seed_one iso_unix (or_new (lookup k d)) r) d
        ∙ elim (Bool-cases (k =? tk)) [
          | inl same ↦
              rw same (ap (λ x. some (seed_one iso_unix (or_new (lookup x d)) r)) (=?→≡ same))
          | inr differs ↦ rw differs refl
        ])
  ]
    where
      other_name : (k =? "") ≡ true → (k =? tk) ≡ false
      other_name empty = ground (
        arith,
        string_keys.beq_iff k "",
        string_keys.beq_iff k tk,
        string_keys.beq_iff tk "",
        real,
      )

  lookup-seed :
      (log : List TradeRec) (d : Dict String TradePollState) (tk : String)
      → (tk =? "") ≡ false
      → lookup tk (seed_trade_state iso_unix d log) ≡ seeded (lookup tk d) (select (is_of tk) log)
  unfolding seed_trade_state
  lookup-seed [] d tk real = refl
  lookup-seed (r ∷ log) d tk real =
      lookup-seed log (seed_under iso_unix d (named r.ktk) r) tk real
      ∙ ap (λ o. seeded o (select (is_of tk) log)) (lookup-seed_under d r.ktk r tk real)
      ∙ elim (Bool-cases (named_as tk r.ktk)) [
        | inl own ↦ rw own (seeded_step (lookup tk d) r (select (is_of tk) log))
        | inr differs ↦ rw differs refl
      ]

  -- A market is polled from a fresh cursor on. Let its lines be the lines of its ticker in the log, among any
  -- lines of other tickers, every venue time in them be one that can be read, and the first not lie before the
  -- cursor's start. Then a restart takes from the log the very cursor that the polls have left.
  pub seed-poll_all :
      (start : ℕ) (market : String) (polls : List (List Trade × ℕ)) (log : List TradeRec)
      (tk : String) (r : TradeRec) (rs : List TradeRec)
      → (tk =? "") ≡ false
      → (poll_all iso_unix (init start) market polls).1 ≡ r ∷ rs
      → select (is_of tk) log ≡ (poll_all iso_unix (init start) market polls).1
      → All (Timed iso_unix) (poll_all iso_unix (init start) market polls).1
      → start ≤ iso_unix r.vt
      → lookup tk (seed_trade_state iso_unix [] log)
        ≡ some (poll_all iso_unix (init start) market polls).0
  unfolding lookup seed_all
  seed-poll_all start market polls log tk r rs real rows same timed later =
      lookup-seed log [] tk real
      ∙ ap (seeded none) (same ∙ rows)
      ∙ ap some (
          ap (λ st. seed_all iso_unix st rs)
            (seed_one-init start r (subst (All (Timed iso_unix)) rows timed).0 later)
          ∙ sym (ap (seed_all iso_unix (init start)) rows)
          ∙ seed_all-poll_all iso_unix (init start) market polls timed)
