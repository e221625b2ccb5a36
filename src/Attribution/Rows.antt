-- ===== src/Attribution/Rows.antt =====
-- What a row of `open_classes` says of the log.
use cross_arb.Prelude.{
  ◌≡◌, ◌&&◌, refl, ◌∙◌, subst, ◌++◌, String, some_eq, false, Option, none, some, List, ◌∷◌,
  string_keys, All, Bool-cases, inl, inr, arith,
}
use cross_arb.Prelude.Int.{ℤ, pos, ◌-ℤ◌, ◌≤ℤ◌, ◌<ℤ◌, leb_ℤ, ltb_ℤ, int_laws}
use cross_arb.Persistence.Category.{category}
use cross_arb.Persistence.Episodes.{Heading, p, k, pk, kp}
use cross_arb.Monitor.Edge.{opened}
use cross_arb.Attribution.{
  Touches, PxRecord, OpenTag, cheap_made, dear_made, mixed_open, tag_by, legs, open_moves,
  open_attrib, censored_between, OpenRow, opposite,
}

-- The leg that is named moved, and by more than the other (at least as much, for the dear one); with no
-- leg named neither of them did.
abbrev pub IsCause : OpenTag → ℤ → ℤ → Type 0
IsCause cheap_made fall rise = (pos 0 <ℤ fall) × (rise <ℤ fall)
IsCause dear_made fall rise = (pos 0 <ℤ rise) × (fall ≤ℤ rise)
IsCause mixed_open fall rise = (fall ≤ℤ pos 0) × (rise ≤ℤ pos 0)

-- A touch that fell by this much, and one that rose by it.
abbrev pub Fell : Option ℤ → Option ℤ → ℤ → Type 0
Fell was now x = (a : ℤ) × (b : ℤ) × (was ≡ some a) × (now ≡ some b) × (x ≡ a -ℤ b)

abbrev pub Rose : Option ℤ → Option ℤ → ℤ → Type 0
Rose was now x = (a : ℤ) × (b : ℤ) × (was ≡ some a) × (now ≡ some b) × (x ≡ b -ℤ a)

-- The moves of the touches that a direction trades at: the ask of the venue that it buys YES at, and the bid of
-- the venue that it sells YES at. In a game the other side is bought at Kalshi by selling at its bid for
-- the opponent's side: that bid falls when the dear leg rises.
abbrev pub Moves : Heading → Touches → Touches → ℤ → ℤ → Type 0
Moves p was now fall rise = Fell was.p_ya now.p_ya fall × Rose was.k_yb now.k_yb rise
Moves k was now fall rise = Fell was.k_ya now.k_ya fall × Rose was.p_yb now.p_yb rise
Moves pk was now fall rise = Fell was.pm_a now.pm_a fall × Fell was.kb now.kb rise
Moves kp was now fall rise = Fell was.ka now.ka fall × Rose was.pm_b now.pm_b rise

-- The last touches of a market in a log, with their time.
abbrev pub IsLatest : String → List PxRecord → ℤ × Touches → Type 0
IsLatest m recs (t, px) =
    (before : List PxRecord) × (r : PxRecord) × (after : List PxRecord) × (recs
      ≡ before ++ r ∷ after)
    × (r.market ≡ m)
    × (r.t ≡ t)
    × (r.px ≡ some px)
    × All (λ x. x.market ≡ m → x.px ≡ none) after

-- What a row says of a log with these sessions: it is of an OPEN of the log, its moves are those of the touches
-- since the last ones of the market, its class is the cause, and no session is between the two.
pub record IsRow (recs : List PxRecord) (sessions : List ℤ) (row : OpenRow) : Type 0 where
  pub before : List PxRecord
  pub source : PxRecord
  pub after : List PxRecord
  pub found : recs ≡ before ++ source ∷ after
  pub labelled : source.transition ≡ opened
  pub now : Touches
  pub touched : source.px ≡ some now
  pub was : ℤ × Touches
  pub prior : IsLatest source.market before was
  pub market : row.market ≡ source.market
  pub cat : row.cat ≡ category source.market
  pub open_t : row.open_t ≡ source.t
  pub dir : row.dir ≡ source.dir
  pub gap : row.gap ≡ source.t -ℤ was.0
  pub moves : Moves source.dir was.1 now row.cheap_fall row.dear_rise
  pub cause : IsCause row.cls row.cheap_fall row.dear_rise
  pub unbroken : censored_between was.0 source.t sessions ≡ false

abbrev Caused : Option ℤ × Option ℤ → Option ℤ × Option ℤ → OpenTag → ℤ → ℤ → Type 0
Caused (cp, dp) (co, do_) cls fall rise = IsCause cls fall rise × Fell cp co fall × Rose dp do_ rise

pub none_ne_some : {V : Type 0} (c : V) → none ≡ some c → ⊥
none_ne_some c h = cc

tag_by_lem :
    (a b : ℤ)
    → let (t, fall, rise) = tag_by cheap_made dear_made mixed_open a b in
      IsCause t fall rise × (fall ≡ a) × (rise ≡ b)
tag_by_lem a b = elim (Bool-cases (leb_ℤ a (pos 0) && leb_ℤ b (pos 0))) [
  | inl still ↦ rw still ((ground arith, ground arith), refl, refl)
  | inr moved ↦ elim (Bool-cases (ltb_ℤ b a)) [
    | inl first ↦ rw (moved, first) ((ground arith, ground arith), refl, refl)
    | inr second ↦ rw (moved, second) ((ground arith, ground arith), refl, refl)
  ]
]

open_moves-Caused :
    (was now : Option ℤ × Option ℤ) (cls : OpenTag) (fall rise : ℤ)
    → open_moves was now ≡ some (cls, fall, rise)
    → Caused was now cls fall rise
unfolding open_moves
open_moves-Caused (some cp, some dp) (some co, some do_) cls fall rise h =
    let (c, f, r) =
      subst (λ (t, a, b). IsCause t a b × (a ≡ cp -ℤ co) × (b ≡ do_ -ℤ dp)) (some_eq h)
        (tag_by_lem (cp -ℤ co) (do_ -ℤ dp)) in
    (c, (cp, co, refl, refl, f), (dp, do_, refl, refl, r))
open_moves-Caused (none, dp) now cls fall rise h = cc
open_moves-Caused (some cp, none) now cls fall rise h = cc
open_moves-Caused (some cp, some dp) (none, do_) cls fall rise h = cc
open_moves-Caused (some cp, some dp) (some co, none) cls fall rise h = cc

opposite_lem : (a b c d x : ℤ) → pos 10000 -ℤ a ≡ c → pos 10000 -ℤ b ≡ d → x ≡ d -ℤ c → x ≡ a -ℤ b
opposite_lem a b c d x ec ed e =
    e
    ∙ subst (λ c'. d -ℤ c' ≡ a -ℤ b) ec
        (subst (λ d'. d' -ℤ (pos 10000 -ℤ a) ≡ a -ℤ b) ed (omega int_laws))

Rose-opposite : (was now : Option ℤ) (x : ℤ) → Rose (opposite was) (opposite now) x → Fell was now x
Rose-opposite (some a) (some b) x (c, d, ec, ed, e) =
    (a, b, refl, refl, opposite_lem a b c d x (some_eq ec) (some_eq ed) e)
Rose-opposite none now x (c, d, ec, ed, e) = absurd (none_ne_some c ec)
Rose-opposite (some a) none x (c, d, ec, ed, e) = absurd (none_ne_some d ed)

legs-Moves :
    (d : Heading) (was now : Touches) (cls : OpenTag) (fall rise : ℤ)
    → Caused (legs d (some was)) (legs d (some now)) cls fall rise
    → Moves d was now fall rise
unfolding legs
legs-Moves p was now cls fall rise (c, f, r) = (f, r)
legs-Moves k was now cls fall rise (c, f, r) = (f, r)
legs-Moves pk was now cls fall rise (c, f, r) = (f, Rose-opposite was.kb now.kb rise r)
legs-Moves kp was now cls fall rise (c, f, r) = (f, r)

pub open_attrib-Moves :
    (d : Heading) (was now : Touches) (cls : OpenTag) (fall rise : ℤ)
    → open_attrib d (some was) (some now) ≡ some (cls, fall, rise)
    → IsCause cls fall rise × Moves d was now fall rise
unfolding open_attrib
open_attrib-Moves d was now cls fall rise h =
    let c = open_moves-Caused (legs d (some was)) (legs d (some now)) cls fall rise h in
    (c.0, legs-Moves d was now cls fall rise c)
