-- ===== src/Attribution.antt =====
-- scripts/adverse_selection.py: which leg made an edge when it opened, and which one closed it. A price is
-- in 1/10000 dollar and a time in milliseconds.
pub mod Rows
pub mod Kept
pub mod Classified
mod Tests
use cross_arb.Prelude.{
  ℕ, ◌+◌, ◌≡◌, Bool, true, false, not, ◌&&◌, ◌||◌, Option, none, some, List, [], ◌∷◌, ◌++◌, String,
  string_keys, Dict, lookup, insert, erase, sort_by, if◌then◌else◌,
}
use cross_arb.Prelude.Int.{ℤ, pos, ◌+ℤ◌, ◌-ℤ◌, ltb_ℤ, leb_ℤ}
use cross_arb.Monitor.Edge.{Transition, opened, closed}
use cross_arb.Persistence.Category.{Category, category}
use cross_arb.Persistence.Episodes.{Heading, p, k, pk, kp}

-- The touches of a record: those of a market or those of a game. A key that is missing is none.
pub record Touches : Type 0 where
  pub p_yb : Option ℤ
  pub p_ya : Option ℤ
  pub k_yb : Option ℤ
  pub k_ya : Option ℤ
  pub pm_b : Option ℤ
  pub pm_a : Option ℤ
  pub ka : Option ℤ
  pub kb : Option ℤ

-- What the analysis reads of a line of the log; no touches where the dict is missing or empty.
pub record PxRecord : Type 0 where
  pub t : ℤ
  pub market : String
  pub transition : Transition
  pub dir : Heading
  pub px : Option Touches

abbrev pub opposite : Option ℤ → Option ℤ
opposite none = none
opposite (some kb) = some (pos 10000 -ℤ kb)

-- `_legs`: the cheap and the dear touch, in YES prices.
unfoldable pub legs : Heading → Option Touches → Option ℤ × Option ℤ
legs d none = (none, none)
legs p (some px) = (px.p_ya, px.k_yb)
legs k (some px) = (px.k_ya, px.p_yb)
legs pk (some px) = (px.pm_a, opposite px.kb)
legs kp (some px) = (px.ka, px.pm_b)

pub data CloseTag : Type 0 where
  cheap_rose dear_fell mixed_close : CloseTag

pub data OpenTag : Type 0 where
  cheap_made dear_made mixed_open : OpenTag

-- The tag, and the two moves; none where a touch is missing.
abbrev pub Attributed : Type 0 → Type 0
Attributed T = Option (T × ℤ × ℤ)

-- The two moves, and the tag by the larger one: the second on a tie, `mixed` where neither is positive.
abbrev tag_by : {T : Type 0} → T → T → T → ℤ → ℤ → T × ℤ × ℤ
tag_by first second mixed a b =
    if leb_ℤ a (pos 0) && leb_ℤ b (pos 0)
    then (mixed, a, b)
    else if ltb_ℤ b a
    then (first, a, b)
    else (second, a, b)

unfoldable close_moves : Option ℤ × Option ℤ → Option ℤ × Option ℤ → Attributed CloseTag
close_moves (some co, some do_) (some cc_, some dc) =
    some (tag_by cheap_rose dear_fell mixed_close (cc_ -ℤ co) (do_ -ℤ dc))
close_moves _ _ = none

unfoldable pub attribute : Heading → Option Touches → Option Touches → Attributed CloseTag
unfolding legs close_moves
attribute d px_open px_close = close_moves (legs d px_open) (legs d px_close)

unfoldable open_moves : Option ℤ × Option ℤ → Option ℤ × Option ℤ → Attributed OpenTag
open_moves (some cp, some dp) (some co, some do_) =
    some (tag_by cheap_made dear_made mixed_open (cp -ℤ co) (do_ -ℤ dp))
open_moves _ _ = none

unfoldable pub open_attrib : Heading → Option Touches → Option Touches → Attributed OpenTag
unfolding legs open_moves
open_attrib d px_prior px_open = open_moves (legs d px_prior) (legs d px_open)

-- `any(a < s <= b for s in sess)`; the order of the sessions plays no part.
abbrev pub censored_between : ℤ → ℤ → List ℤ → Bool
censored_between a b [] = false
censored_between a b (s ∷ sess) = ltb_ℤ a s && leb_ℤ s b || censored_between a b sess

abbrev pub Opens : Type 0
Opens = Dict String PxRecord

-- A CLOSE with the OPEN that it may be paired with.
abbrev pub pair_close : PxRecord → List ℤ → Option PxRecord → List (PxRecord × PxRecord)
pair_close r sess none = []
pair_close r sess (some o) = if not (censored_between o.t r.t sess) then (o, r) ∷ [] else []

abbrev after_label : PxRecord → Opens → Transition → Opens
after_label r open_st opened = insert r.market r open_st
after_label r open_st closed = erase r.market open_st
after_label r open_st _ = open_st

abbrev at_label : PxRecord → Opens → List ℤ → Transition → List (PxRecord × PxRecord)
at_label r open_st sess closed = pair_close r sess (lookup r.market open_st)
at_label r open_st sess _ = []

-- The loop of `episodes_with_px`.
unfoldable pub pair_each : List ℤ → Opens → List PxRecord → List (PxRecord × PxRecord)
pair_each sess open_st [] = []
pair_each sess open_st (r ∷ recs) =
    at_label r open_st sess r.transition ++ pair_each sess (after_label r open_st r.transition) recs

unfoldable pub episodes_with_px : List PxRecord → List ℤ → List (PxRecord × PxRecord)
unfolding pair_each
episodes_with_px recs sessions = pair_each sessions [] recs

-- A classified OPEN, with the moves of its legs and the time since the record before.
pub record OpenRow : Type 0 where
  pub market : String
  pub cat : Category
  pub open_t : ℤ
  pub dir : Heading
  pub cls : OpenTag
  pub cheap_fall : ℤ
  pub dear_rise : ℤ
  pub gap : ℤ

pub record Skips : Type 0 where
  pub no_prior : ℕ
  pub censor_gap : ℕ
  pub missing_fields : ℕ

abbrev pub LastPx : Type 0
LastPx = Dict String (ℤ × Touches)

abbrev pub Classes : Type 0
Classes = List OpenRow × Skips

abbrev classed : PxRecord → ℤ → Attributed OpenTag → Skips → Classes
classed r prior_t none skips = ([], record skips { missing_fields = skips.missing_fields + 1 })
classed r prior_t (some (cls, cf, dr)) skips = (
  record {
    market = r.market;
    cat = category r.market;
    open_t = r.t;
    dir = r.dir;
    cls = cls;
    cheap_fall = cf;
    dear_rise = dr;
    gap = r.t -ℤ prior_t;
  }
      ∷ [],
  skips,
)

-- An OPEN with touches, against the last touches of its market.
abbrev pub classify_open : List ℤ → PxRecord → Touches → Option (ℤ × Touches) → Skips → Classes
classify_open sess r px none skips = ([], record skips { no_prior = skips.no_prior + 1 })
classify_open sess r px (some (prior_t, prior_px)) skips =
    if censored_between prior_t r.t sess
    then ([], record skips { censor_gap = skips.censor_gap + 1 })
    else classed r prior_t (open_attrib r.dir (some prior_px) (some px)) skips

abbrev class_at : List ℤ → PxRecord → LastPx → Transition → Option Touches → Skips → Classes
class_at sess r last_px opened (some px) skips =
    classify_open sess r px (lookup r.market last_px) skips
class_at sess r last_px _ _ skips = ([], skips)

abbrev seen_px : PxRecord → Option Touches → LastPx → LastPx
seen_px r none last_px = last_px
seen_px r (some px) last_px = insert r.market (r.t, px) last_px

-- The loop of `open_classes`.
unfoldable pub classes_each : List ℤ → LastPx → Skips → List PxRecord → Classes
classes_each sess last_px skips [] = ([], skips)
classes_each sess last_px skips (r ∷ recs) =
    let (rows, skips') = class_at sess r last_px r.transition r.px skips in
    let (rest, end) = classes_each sess (seen_px r r.px last_px) skips' recs in (rows ++ rest, end)

unfoldable pub open_classes : List PxRecord → List ℤ → Classes
unfolding classes_each
open_classes recs sessions =
    classes_each sessions [] (record { no_prior = 0; censor_gap = 0; missing_fields = 0 }) recs
