-- ===== src/Attribution/Classified.antt =====
-- `open_classes` accounts for every OPEN.
use cross_arb.Prelude.{
  ℕ, ◌+◌, ◌≡◌, refl, sym, ap, ◌∙◌, subst, ◌++◌, String, ◌=?◌, =?→≡, =?_refl, lookup-insert, some_eq,
  false, Option, none, some, List, [], ◌∷◌, length, length-append, string_keys, lookup, All,
  All-append, Bool-cases, inl, inr, arith,
}
use cross_arb.Prelude.Int.{ℤ}
use cross_arb.Monitor.Edge.{Transition, opened, closed, flipped, widened, narrowed}
use cross_arb.Attribution.{
  Touches, PxRecord, OpenTag, open_attrib, censored_between, OpenRow, Skips, LastPx, classed,
  classify_open, class_at, seen_px, classes_each, open_classes,
}
use cross_arb.Attribution.Kept.{HasRow, HasMoves, HasMoves-HasRow}
use cross_arb.Attribution.Rows.{IsLatest, IsRow, none_ne_some, open_attrib-Moves}

-- The skips of all kinds.
abbrev pub skipped : Skips → ℕ
skipped s = s.no_prior + s.censor_gap + s.missing_fields

-- What one OPEN adds: one row or one skip.
abbrev Adds : (OpenRow → Type 0) → ℕ → Skips → List OpenRow × Skips → Type 0
Adds P n skips (rows, skips') = (length rows + skipped skips' ≡ n + skipped skips) × All P rows

-- The state of the loop holds last touches of the log so far.
abbrev Holds : List PxRecord → LastPx → Type 0
Holds before last_px =
    (m : String) (v : ℤ × Touches) → lookup m last_px ≡ some v → IsLatest m before v

append_assoc : (xs ys zs : List PxRecord) → (xs ++ ys) ++ zs ≡ xs ++ (ys ++ zs)
append_assoc [] ys zs = refl
append_assoc (x ∷ xs) ys zs = ap (λ l. x ∷ l) (append_assoc xs ys zs)

IsLatest-snoc :
    (m : String) (recs : List PxRecord) (v : ℤ × Touches) (r : PxRecord)
    → (r.market ≡ m → r.px ≡ none)
    → IsLatest m recs v
    → IsLatest m (recs ++ r ∷ []) v
IsLatest-snoc m recs (t, px) r silent (before, q, after, e, market, at, held, rest) = (
  before,
  q,
  after ++ r ∷ [],
  ap (λ l. l ++ r ∷ []) e ∙ append_assoc before (q ∷ after) (r ∷ []),
  market,
  at,
  held,
  All-append _ after (r ∷ []) rest (silent, tt),
)

seen_px-Holds :
    (r : PxRecord) (o : Option Touches) (before : List PxRecord) (last_px : LastPx)
    → r.px ≡ o
    → Holds before last_px
    → Holds (before ++ r ∷ []) (seen_px r o last_px)
seen_px-Holds r none before last_px e h m v f = IsLatest-snoc m before v r (λ same. e) (h m v f)
seen_px-Holds r (some px) before last_px e h m v f = elim (Bool-cases (r.market =? m)) [
  | inl here ↦
      let same : some (r.t, px) ≡ some v =
        rw (lookup-insert r.market m (r.t, px) last_px, here) at f in
      subst (IsLatest m (before ++ r ∷ [])) (some_eq same)
        (before, r, [], refl, =?→≡ here, refl, e, tt)
  | inr there ↦
      IsLatest-snoc m before v r
        (λ same. cc (sym (=?_refl m) ∙ subst (λ j. (j =? m) ≡ false) same there))
        (h m v (rw (lookup-insert r.market m (r.t, px) last_px, there) at f))
]

-- An OPEN with touches.
abbrev pub counted : Transition → Option Touches → ℕ
counted opened (some px) = 1
counted _ _ = 0

pub opens_with_px : List PxRecord → ℕ
opens_with_px [] = 0
opens_with_px (r ∷ recs) = counted r.transition r.px + opens_with_px recs

module _ (recs : List PxRecord) (sess : List ℤ) where
  classed-Adds :
      (before after : List PxRecord) (r : PxRecord) (px : Touches) (was : ℤ × Touches)
      (o : Option (OpenTag × ℤ × ℤ)) (skips : Skips)
      → recs ≡ before ++ r ∷ after
      → r.transition ≡ opened
      → r.px ≡ some px
      → IsLatest r.market before was
      → censored_between was.0 r.t sess ≡ false
      → open_attrib r.dir (some was.1) (some px) ≡ o
      → Adds (IsRow recs sess) 1 skips (classed r was.0 o skips)
  classed-Adds before after r px was none skips split l e prior h c = (omega arith, tt)
  classed-Adds before after r px was (some (cls, fall, rise)) skips split l e prior h c = (
    omega arith,
    (
      record {
        before = before;
        source = r;
        after = after;
        found = split;
        labelled = l;
        now = px;
        touched = e;
        was = was;
        prior = prior;
        market = refl;
        cat = refl;
        open_t = refl;
        dir = refl;
        gap = refl;
        moves = (open_attrib-Moves r.dir was.1 px cls fall rise c).1;
        cause = (open_attrib-Moves r.dir was.1 px cls fall rise c).0;
        unbroken = h;
      },
      tt,
    ),
  )

  classify_open-Adds :
      (before after : List PxRecord) (r : PxRecord) (px : Touches) (o : Option (ℤ × Touches))
      (skips : Skips)
      → recs ≡ before ++ r ∷ after
      → r.transition ≡ opened
      → r.px ≡ some px
      → ((v : ℤ × Touches) → o ≡ some v → IsLatest r.market before v)
      → Adds (IsRow recs sess) 1 skips (classify_open sess r px o skips)
  classify_open-Adds before after r px none skips split l e prior = (omega arith, tt)
  classify_open-Adds before after r px (some (t, was)) skips split l e prior =
      elim (Bool-cases (censored_between t r.t sess)) [
        | inl broken ↦ rw broken (omega arith, tt)
        | inr whole ↦ rw whole (
            classed-Adds before after r px (t, was) (open_attrib r.dir (some was) (some px)) skips
              split l e (prior (t, was) refl) whole refl)
      ]

  class_at-Adds :
      (before after : List PxRecord) (r : PxRecord) (last_px : LastPx) (l : Transition)
      (px : Option Touches) (skips : Skips)
      → recs ≡ before ++ r ∷ after
      → r.transition ≡ l
      → r.px ≡ px
      → Holds before last_px
      → Adds (IsRow recs sess) (counted l px) skips (class_at sess r last_px l px skips)
  class_at-Adds before after r last_px opened (some px) skips split l e h =
      classify_open-Adds before after r px (lookup r.market last_px) skips split l e (h r.market)
  class_at-Adds before after r last_px opened none skips split l e h = (omega arith, tt)
  class_at-Adds before after r last_px closed px skips split l e h = (omega arith, tt)
  class_at-Adds before after r last_px flipped px skips split l e h = (omega arith, tt)
  class_at-Adds before after r last_px widened px skips split l e h = (omega arith, tt)
  class_at-Adds before after r last_px narrowed px skips split l e h = (omega arith, tt)

  classes_each-Adds :
      (before after : List PxRecord) (last_px : LastPx) (skips : Skips)
      → recs ≡ before ++ after
      → Holds before last_px
      → Adds (IsRow recs sess) (opens_with_px after) skips (classes_each sess last_px skips after)
  unfolding classes_each opens_with_px
  classes_each-Adds before [] last_px skips split h = (omega arith, tt)
  classes_each-Adds before (r ∷ after) last_px skips split h =
      let out = class_at sess r last_px r.transition r.px skips in
      let (n, here) =
        class_at-Adds before after r last_px r.transition r.px skips split refl refl h in
      let (m, behind) =
        classes_each-Adds (before ++ r ∷ []) after (seen_px r r.px last_px) out.1
          (split ∙ sym (append_assoc before (r ∷ []) after))
          (seen_px-Holds r r.px before last_px refl h) in
      (
        rw (length-append out.0) (omega (arith, n, m)),
        All-append (IsRow recs sess) out.0 _ here behind,
      )

-- Every OPEN with touches is classified or counted as skipped for one reason. Each row is of an OPEN of the log,
-- and its two moves are those of the touches that its direction trades at, from the last touches of its market
-- before that OPEN. Its class names the leg that moved more, the dear one on a tie, or neither if neither moved
-- to open the edge; and no session lies between those last touches and the OPEN. Every OPEN with such last
-- touches, with no session between and with moves, has a row.
pub open_classes_lem :
    (recs : List PxRecord) (sessions : List ℤ)
    → let (rows, skips) = open_classes recs sessions in
      (length rows + skipped skips ≡ opens_with_px recs)
      × All (IsRow recs sessions) rows
      × ((r : PxRecord) → HasMoves recs sessions r → HasRow r rows)
unfolding open_classes
open_classes_lem recs sessions =
    let start : Skips = record { no_prior = 0; censor_gap = 0; missing_fields = 0 } in
    let (n, rows) =
      classes_each-Adds recs sessions [] recs [] start refl
        (unfold lookup in λ m v f. absurd (none_ne_some v f)) in
    (omega (arith, n), rows, λ r h. HasMoves-HasRow recs sessions start r h)
