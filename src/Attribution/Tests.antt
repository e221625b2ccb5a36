-- ===== src/Attribution/Tests.antt =====
-- One market: a record that only widens, an OPEN made by the cheap leg, a CLOSE by the dear one, and an OPEN
-- after a restart.
use cross_arb.Prelude.{
  ◌≡◌, refl, Option, none, some, List, [], ◌∷◌, All, ◌+◌, length, lookup, insert, map,
}
use cross_arb.Prelude.Int.{ℤ, pos, ◌-ℤ◌}
use cross_arb.Monitor.Edge.{Transition, opened, closed, widened}
use cross_arb.Persistence.Category.{category}
use cross_arb.Persistence.Episodes.{p}
use cross_arb.Attribution.{
  Touches, PxRecord, OpenTag, cheap_made, dear_fell, attribute, open_attrib, legs, open_moves,
  close_moves, open_classes, classes_each, episodes_with_px, pair_each,
}
use cross_arb.Attribution.Rows.{IsRow}
use cross_arb.Attribution.Kept.{HasRow, HasMoves}
use cross_arb.Attribution.Classified.{skipped, opens_with_px, open_classes_lem}

abbrev touches : ℤ → ℤ → Option Touches
touches ask bid = some (record {
  p_yb = some (pos 0);
  p_ya = some ask;
  k_yb = some bid;
  k_ya = some (pos 10000);
  pm_b = none;
  pm_a = none;
  ka = none;
  kb = none;
})

abbrev at : ℤ → Transition → Option Touches → PxRecord
at t l px = record { t = t; market = "tc-temp-nyc"; transition = l; dir = p; px = px }

abbrev log : List PxRecord
log =
    at (pos 100) widened (touches (pos 4500) (pos 4400))
    ∷ at (pos 200) opened (touches (pos 4000) (pos 4500))
    ∷ at (pos 300) closed (touches (pos 4000) (pos 4100))
    ∷ at (pos 500) opened (touches (pos 3900) (pos 4500))
    ∷ []

abbrev sessions : List ℤ
sessions = pos 0 ∷ pos 400 ∷ []

classes_run :
    map {B = OpenTag × ℤ × ℤ × ℤ}
      (λ r. (r.cls, r.cheap_fall, r.dear_rise, r.gap))
      (open_classes log sessions).0
    ≡ (cheap_made, pos 500, pos 100, pos 100) ∷ []
unfolding open_classes classes_each open_attrib open_moves legs category lookup insert ◌-ℤ◌
classes_run = refl

pairs_run :
    map {B = ℤ × ℤ} (λ (o, c). (o.t, c.t)) (episodes_with_px log sessions) ≡ (pos 200, pos 300) ∷ []
unfolding episodes_with_px pair_each lookup insert
pairs_run = refl

close_run :
    attribute p (touches (pos 4000) (pos 4500)) (touches (pos 4000) (pos 4100))
    ≡ some (dear_fell, pos 0, pos 400)
unfolding attribute legs close_moves ◌-ℤ◌
close_run = refl

open_classes_lem_example :
    let (rows, skips) = open_classes log sessions in
    (length rows + skipped skips ≡ opens_with_px log)
    × All (IsRow log sessions) rows
    × ((r : PxRecord) → HasMoves log sessions r → HasRow r rows)
open_classes_lem_example = open_classes_lem log sessions
