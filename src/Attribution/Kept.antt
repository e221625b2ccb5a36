-- ===== src/Attribution/Kept.antt =====
-- The OPENs that `open_classes` has a row for.
use cross_arb.Prelude.{
  ◌≡◌, refl, sym, ◌∙◌, subst, ◌⊎◌, inl, inr, false, Option, none, some, List, [], ◌∷◌, ◌++◌, String,
  ◌=?◌, =?→≡, string_keys, lookup, lookup-insert, lookup-insert_self, All, Bool-cases,
}
use cross_arb.Prelude.Int.{ℤ}
use cross_arb.Persistence.Episodes.{Heading, p, k, pk, kp}
use cross_arb.Monitor.Edge.{Transition, opened}
use cross_arb.Attribution.{
  Touches, PxRecord, legs, open_moves, open_attrib, censored_between, OpenRow, OpenTag, Skips,
  LastPx, classed, classify_open, class_at, seen_px, classes_each,
}
use cross_arb.Attribution.Rows.{Moves, IsLatest, none_ne_some}

-- One of the rows is of this OPEN, by its market and its time.
abbrev pub HasRow : PxRecord → List OpenRow → Type 0
HasRow r [] = ⊥
HasRow r (row ∷ rows) = ((row.market ≡ r.market) × (row.open_t ≡ r.t)) ⊎ HasRow r rows

-- An OPEN of the log with touches and last touches before it, no session between the two, and moves of the touches
-- that its direction trades at.
pub record HasMoves (recs : List PxRecord) (sess : List ℤ) (r : PxRecord) : Type 0 where
  pub before : List PxRecord
  pub after : List PxRecord
  pub found : recs ≡ before ++ r ∷ after
  pub labelled : r.transition ≡ opened
  pub now : Touches
  pub touched : r.px ≡ some now
  pub was : ℤ × Touches
  pub prior : IsLatest r.market before was
  pub unbroken : censored_between was.0 r.t sess ≡ false
  pub fall : ℤ
  pub rise : ℤ
  pub moves : Moves r.dir was.1 now fall rise

-- The state of the loop behind these records.
abbrev Seen : LastPx → List PxRecord → LastPx
Seen last_px [] = last_px
Seen last_px (r ∷ recs) = Seen (seen_px r r.px last_px) recs

HasRow-append_left : (r : PxRecord) (xs ys : List OpenRow) → HasRow r xs → HasRow r (xs ++ ys)
HasRow-append_left r [] ys h = elim h [ ]
HasRow-append_left r (x ∷ xs) ys h = elim h [
  | inl here ↦ inl here
  | inr there ↦ inr (HasRow-append_left r xs ys there)
]

HasRow-append_right : (r : PxRecord) (xs ys : List OpenRow) → HasRow r ys → HasRow r (xs ++ ys)
HasRow-append_right r [] ys h = h
HasRow-append_right r (x ∷ xs) ys h = inr (HasRow-append_right r xs ys h)

silent_keeps :
    (m : String) (x : PxRecord) (o : Option Touches) (last_px : LastPx)
    → x.px ≡ o
    → (x.market ≡ m → x.px ≡ none)
    → lookup m (seen_px x o last_px) ≡ lookup m last_px
silent_keeps m x none last_px e silent = refl
silent_keeps m x (some px) last_px e silent = elim (Bool-cases (x.market =? m)) [
  | inl here ↦ absurd (none_ne_some px (sym (silent (=?→≡ here)) ∙ e))
  | inr there ↦ rw (lookup-insert x.market m (x.t, px) last_px, there)
]

Seen-silent :
    (m : String) (xs : List PxRecord) (last_px : LastPx)
    → All (λ x. x.market ≡ m → x.px ≡ none) xs
    → lookup m (Seen last_px xs) ≡ lookup m last_px
Seen-silent m [] last_px a = refl
Seen-silent m (x ∷ xs) last_px (a, as_) =
    Seen-silent m xs (seen_px x x.px last_px) as_ ∙ silent_keeps m x x.px last_px refl a

seen_px-lookup :
    (q : PxRecord) (o : Option Touches) (px : Touches) (last_px : LastPx)
    → o ≡ some px
    → lookup q.market (seen_px q o last_px) ≡ some (q.t, px)
seen_px-lookup q o px last_px e =
    subst (λ o. lookup q.market (seen_px q o last_px) ≡ some (q.t, px)) (sym e)
      (lookup-insert_self q.market (q.t, px) last_px)

Seen-latest :
    (b : List PxRecord) (q : PxRecord) (a : List PxRecord) (px : Touches) (last_px : LastPx)
    → q.px ≡ some px
    → All (λ x. x.market ≡ q.market → x.px ≡ none) a
    → lookup q.market (Seen last_px (b ++ q ∷ a)) ≡ some (q.t, px)
Seen-latest [] q a px last_px e silent =
    Seen-silent q.market a (seen_px q q.px last_px) silent ∙ seen_px-lookup q q.px px last_px e
Seen-latest (x ∷ b) q a px last_px e silent = Seen-latest b q a px (seen_px x x.px last_px) e silent

Seen-IsLatest :
    (m : String) (recs : List PxRecord) (was : ℤ × Touches) (last_px : LastPx)
    → IsLatest m recs was
    → lookup m (Seen last_px recs) ≡ some was
Seen-IsLatest m recs (t, px) last_px (b, q, a, split, market, at, held, silent) =
    subst (λ l. lookup m (Seen last_px l) ≡ some (t, px)) (sym split)
      (subst (λ u. lookup m (Seen last_px (b ++ q ∷ a)) ≡ some (u, px)) at
        (subst (λ j. lookup j (Seen last_px (b ++ q ∷ a)) ≡ some (q.t, px)) market
          (Seen-latest b q a px last_px held
            (subst (λ j. All (λ x. x.market ≡ j → x.px ≡ none) a) (sym market) silent))))

-- With moves there is an answer.
touches_answer :
    (d : Heading) (was now : Touches) (fall rise : ℤ)
    → Moves d was now fall rise
    → (x : OpenTag × ℤ × ℤ) × (open_attrib d (some was) (some now) ≡ some x)
unfolding open_attrib legs open_moves
touches_answer p was now fall rise ((a, b, e, f, g), (a', b', e', f', g')) =
    rw (e, f, e', f') (_, refl)
touches_answer k was now fall rise ((a, b, e, f, g), (a', b', e', f', g')) =
    rw (e, f, e', f') (_, refl)
touches_answer pk was now fall rise ((a, b, e, f, g), (a', b', e', f', g')) =
    rw (e, f, e', f') (_, refl)
touches_answer kp was now fall rise ((a, b, e, f, g), (a', b', e', f', g')) =
    rw (e, f, e', f') (_, refl)

module _ (sess : List ℤ) where
  classify_open-HasRow :
      (r : PxRecord) (now : Touches) (was : ℤ × Touches) (skips : Skips) (x : OpenTag × ℤ × ℤ)
      → censored_between was.0 r.t sess ≡ false
      → open_attrib r.dir (some was.1) (some now) ≡ some x
      → HasRow r (classify_open sess r now (some was) skips).0
  classify_open-HasRow r now (t, was) skips (cls, fall, rise) whole e =
      rw whole (subst (λ o. HasRow r (classed r t o skips).0) (sym e) (inl (refl, refl)))

  class_at-HasRow :
      (r : PxRecord) (last_px : LastPx) (now : Touches) (was : ℤ × Touches) (skips : Skips)
      (x : OpenTag × ℤ × ℤ) (l : Transition) (px : Option Touches)
      → l ≡ opened
      → px ≡ some now
      → lookup r.market last_px ≡ some was
      → censored_between was.0 r.t sess ≡ false
      → open_attrib r.dir (some was.1) (some now) ≡ some x
      → HasRow r (class_at sess r last_px l px skips).0
  class_at-HasRow r last_px now was skips x l px el ep found whole e =
      subst (λ l. HasRow r (class_at sess r last_px l px skips).0) (sym el)
        (subst (λ px. HasRow r (class_at sess r last_px opened px skips).0) (sym ep)
          (subst (λ o. HasRow r (classify_open sess r now o skips).0) (sym found)
            (classify_open-HasRow r now was skips x whole e)))

  classes_each-HasRow :
      (before after : List PxRecord) (r : PxRecord) (last_px : LastPx) (skips : Skips)
      (now : Touches) (was : ℤ × Touches) (fall rise : ℤ)
      → r.transition ≡ opened
      → r.px ≡ some now
      → lookup r.market (Seen last_px before) ≡ some was
      → censored_between was.0 r.t sess ≡ false
      → Moves r.dir was.1 now fall rise
      → HasRow r (classes_each sess last_px skips (before ++ r ∷ after)).0
  unfolding classes_each
  classes_each-HasRow [] after r last_px skips now was fall rise l e found whole moves =
      let (x, answer) = touches_answer r.dir was.1 now fall rise moves in
      HasRow-append_left r (class_at sess r last_px r.transition r.px skips).0 _
        (class_at-HasRow r last_px now was skips x r.transition r.px l e found whole answer)
  classes_each-HasRow (y ∷ before) after r last_px skips now was fall rise l e found whole moves =
      HasRow-append_right r (class_at sess y last_px y.transition y.px skips).0 _ (
        classes_each-HasRow before after r (seen_px y y.px last_px)
          (class_at sess y last_px y.transition y.px skips).1 now was fall rise l e found whole
          moves)

pub HasMoves-HasRow :
    (recs : List PxRecord) (sess : List ℤ) (skips : Skips) (r : PxRecord)
    → HasMoves recs sess r
    → HasRow r (classes_each sess [] skips recs).0
HasMoves-HasRow recs sess skips r h =
    subst (λ l. HasRow r (classes_each sess [] skips l).0) (sym h.found)
      (classes_each-HasRow sess h.before h.after r [] skips h.now h.was h.fall h.rise h.labelled
        h.touched (Seen-IsLatest r.market h.before h.was [] h.prior) h.unbroken h.moves)
