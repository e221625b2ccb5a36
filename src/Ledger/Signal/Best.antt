-- ===== src/Ledger/Signal/Best.antt =====
-- What `signal` promises to its callers.
use cross_arb.Prelude.{
  ◌≡◌, refl, ap, subst, Bool, true, false, ◌||◌, Option, none, some, arith, ◌⊎◌, inl, inr,
  Bool-cases, some_eq, ◌^◌,
}
use cross_arb.Prelude.Int.{ℤ, pos, ◌-ℤ◌, ◌≤ℤ◌, ◌<ℤ◌, ltb_ℤ}
use cross_arb.Prelude.Int.Rounding.{scale_laws, round_div_near}
use cross_arb.Ledger.Units.{one, round4}
use cross_arb.Ledger.Signal.{
  Quotes, Dir, dir_p, dir_k, Signal, is_crossed, Choice, edge_p, edge_k, choice_p, choice_k, pick,
  report, signal,
}

-- `round(x, 4)` is positive only if x is.
pub round4_pos : (x : ℤ) → pos 0 <ℤ round4 x → pos 0 <ℤ x
unfolding round4
round4_pos x h = omega (scale_laws, round_div_near x (10 ^ 10) (omega arith))

abbrev pub venue_crossed : Quotes → Bool
venue_crossed px = is_crossed px.p_yb px.p_ya || is_crossed px.k_yb px.k_ya

-- The two touches that a direction needs.
abbrev pub Quoted : Quotes → Dir → ℤ → ℤ → Type 0
Quoted px dir_p ya yb = (px.p_ya ≡ some ya) × (px.k_yb ≡ some yb)
Quoted px dir_k ya yb = (px.k_ya ≡ some ya) × (px.p_yb ≡ some yb)

abbrev pub edge_of : Dir → ℤ → ℤ → ℤ
edge_of dir_p = edge_p
edge_of dir_k = edge_k

-- What a signal stands for: both touches that its direction needs are quoted, the reported asks are
-- those that an entry pays, and the edge before rounding is positive.
pub record IsArb (px : Quotes) (s : Signal) : Type 0 where
  pub ya : ℤ
  pub yb : ℤ
  pub quoted : Quoted px s.dir ya yb
  pub yes_leg : s.yes_ask ≡ some ya
  pub no_leg : s.no_ask ≡ some (one -ℤ yb)
  pub rounded : s.net_edge ≡ round4 (edge_of s.dir ya (one -ℤ yb))
  pub gain : pos 0 <ℤ edge_of s.dir ya (one -ℤ yb)

record IsChoice (px : Quotes) (c : Choice) : Type 0 where
  ya : ℤ
  yb : ℤ
  quoted : Quoted px c.dir ya yb
  yes_leg : c.yes_ask ≡ ya
  no_leg : c.no_ask ≡ one -ℤ yb
  rounded : c.edge ≡ round4 (edge_of c.dir ya (one -ℤ yb))

choice_p-IsChoice :
    (px : Quotes) (crossed : Bool) (a b : Option ℤ) (c : Choice)
    → px.p_ya ≡ a
    → px.k_yb ≡ b
    → choice_p crossed a b ≡ some c
    → (crossed ≡ false) × IsChoice px c
unfolding choice_p
choice_p-IsChoice px false (some ya) (some yb) c ea eb e = (
  refl,
  subst (IsChoice px) (some_eq e) (record {
    ya = ya;
    yb = yb;
    quoted = (ea, eb);
    yes_leg = refl;
    no_leg = refl;
    rounded = refl;
  }),
)
choice_p-IsChoice px false (some ya) none c ea eb e = cc
choice_p-IsChoice px false none b c ea eb e = cc
choice_p-IsChoice px true a b c ea eb e = cc

choice_k-IsChoice :
    (px : Quotes) (crossed : Bool) (a b : Option ℤ) (c : Choice)
    → px.k_ya ≡ a
    → px.p_yb ≡ b
    → choice_k crossed a b ≡ some c
    → (crossed ≡ false) × IsChoice px c
unfolding choice_k
choice_k-IsChoice px false (some ya) (some yb) c ea eb e = (
  refl,
  subst (IsChoice px) (some_eq e) (record {
    ya = ya;
    yb = yb;
    quoted = (ea, eb);
    yes_leg = refl;
    no_leg = refl;
    rounded = refl;
  }),
)
choice_k-IsChoice px false (some ya) none c ea eb e = cc
choice_k-IsChoice px false none b c ea eb e = cc
choice_k-IsChoice px true a b c ea eb e = cc

pick_cases : (a b : Option Choice) (c : Choice) → pick a b ≡ some c → (a ≡ some c) ⊎ (b ≡ some c)
unfolding pick
pick_cases none b c e = inr e
pick_cases (some a) none c e = inl e
pick_cases (some a) (some b) c e = ground arith

pick-IsChoice :
    (px : Quotes) (crossed : Bool) (c : Choice)
    → pick (choice_p crossed px.p_ya px.k_yb) (choice_k crossed px.k_ya px.p_yb) ≡ some c
    → (crossed ≡ false) × IsChoice px c
pick-IsChoice px crossed c e = elim (pick_cases _ _ c e) [
  | inl p ↦ choice_p-IsChoice px crossed px.p_ya px.k_yb c refl refl p
  | inr k ↦ choice_k-IsChoice px crossed px.k_ya px.p_yb c refl refl k
]

report-IsArb :
    (px : Quotes) (crossed : Bool) (o : Option Choice)
    → ((c : Choice) → o ≡ some c → (crossed ≡ false) × IsChoice px c)
    → (report crossed px o).no_arb ≡ false
    → (crossed ≡ false) × IsArb px (report crossed px o)
unfolding report
report-IsArb px crossed none k h = cc
report-IsArb px crossed (some c) k h =
    let (uncrossed, ch) = k c refl in
    let positive : pos 0 <ℤ c.edge = ground arith in
    (
      uncrossed,
      record {
        ya = ch.ya;
        yb = ch.yb;
        quoted = ch.quoted;
        yes_leg = ap some ch.yes_leg;
        no_leg = ap some ch.no_leg;
        rounded = ch.rounded;
        gain = round4_pos _ (subst (λ x. pos 0 <ℤ x) ch.rounded positive);
      },
    )

-- If `signal` reports an arbitrage then no venue is crossed, both touches of its direction are quoted, its
-- legs are these prices, its edge is the rounded one of a pair behind both fees, and before rounding that
-- edge is positive.
pub signal-IsArb :
    (px : Quotes) → (signal px).no_arb ≡ false → (venue_crossed px ≡ false) × IsArb px (signal px)
unfolding signal
signal-IsArb px h =
    report-IsArb px (venue_crossed px) _ (λ c e. pick-IsChoice px (venue_crossed px) c e) h

pick_left :
    (a : Choice) (o : Option Choice)
    → (c : Choice) × (pick (some a) o ≡ some c) × (a.edge ≤ℤ c.edge)
unfolding pick
pick_left a none = (a, refl, omega arith)
pick_left a (some b) = elim (Bool-cases (ltb_ℤ a.edge b.edge)) [
  | inl less ↦ (b, rw less, ground arith)
  | inr not_less ↦ (a, rw not_less, omega arith)
]

pick_right :
    (o : Option Choice) (b : Choice)
    → (c : Choice) × (pick o (some b) ≡ some c) × (b.edge ≤ℤ c.edge)
unfolding pick
pick_right none b = (b, refl, omega arith)
pick_right (some a) b = elim (Bool-cases (ltb_ℤ a.edge b.edge)) [
  | inl less ↦ (b, rw less, omega arith)
  | inr not_less ↦ (a, rw not_less, ground arith)
]

-- No priceable direction of an uncrossed book has a better rounded edge than the reported one; and if one
-- has a positive rounded edge, then an arbitrage is reported.
pub signal_best :
    (px : Quotes) (d : Dir) (ya yb : ℤ)
    → venue_crossed px ≡ false
    → Quoted px d ya yb
    → (round4 (edge_of d ya (one -ℤ yb)) ≤ℤ (signal px).net_edge)
      × (pos 0 <ℤ round4 (edge_of d ya (one -ℤ yb)) → (signal px).no_arb ≡ false)
unfolding signal choice_p choice_k report
signal_best px dir_p ya yb uncrossed (ask, bid) =
    let a : Choice = record {
      dir = dir_p;
      yes_ask = ya;
      no_ask = one -ℤ yb;
      edge = round4 (edge_p ya (one -ℤ yb));
    } in
    let (c, e, le) = pick_left a (choice_k false px.k_ya px.p_yb) in
    rw (uncrossed, ask, bid, e) (le, λ p. ground arith)
signal_best px dir_k ya yb uncrossed (ask, bid) =
    let b : Choice = record {
      dir = dir_k;
      yes_ask = ya;
      no_ask = one -ℤ yb;
      edge = round4 (edge_k ya (one -ℤ yb));
    } in
    let (c, e, le) = pick_right (choice_p false px.p_ya px.k_yb) b in
    rw (uncrossed, ask, bid, e) (le, λ p. ground arith)
