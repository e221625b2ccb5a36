-- ===== src/Capital/Peak.antt =====
-- `peak_and_avg` of scripts/capital_sim.py. An amount is in any unit of money.
mod Order
pub mod Attained
pub mod Area
use cross_arb.Prelude.{
  ℕ, ◌≡◌, Bool, true, false, ◌&&◌, ◌||◌, Option, none, some, List, [], ◌∷◌, if◌then◌else◌,
}
use cross_arb.Prelude.Int.{ℤ, pos, ◌+ℤ◌, ◌-ℤ◌, ◌*ℤ◌, ltb_ℤ, leb_ℤ, eqb_ℤ, max_ℤ}

-- (start, end, amount)
pub record Interval : Type 0 where
  pub start : ℤ
  pub end : ℤ
  pub amount : ℤ

-- (time, change of the amount)
abbrev pub Event : Type 0
Event = ℤ × ℤ

-- `if e <= s: e = s + 1`
abbrev pub end_of : Interval → ℤ
end_of i = if leb_ℤ i.end i.start then i.start +ℤ pos 1000 else i.end

unfoldable pub events : List Interval → List Event
events [] = []
events (i ∷ is) = (i.start, i.amount) ∷ (end_of i, pos 0 -ℤ i.amount) ∷ events is

-- The order by `(x[0], -x[1])`: at a tie of times a lock is before a release.
abbrev pub before : Event → Event → Bool
before (t, da) (u, db) = ltb_ℤ t u || eqb_ℤ t u && leb_ℤ db da

unfoldable pub insert_event : Event → List Event → List Event
insert_event x [] = x ∷ []
insert_event x (y ∷ ys) =
    let rest = insert_event x ys in if before x y then x ∷ y ∷ ys else y ∷ rest

unfoldable pub sort : List Event → List Event
unfolding insert_event
sort [] = []
sort (x ∷ xs) = insert_event x (sort xs)

-- The loop, from `cur`, `peak`, `area` and `last`; the peak and the area.
unfoldable pub scan : List Event → ℤ → ℤ → ℤ → ℤ → ℤ × ℤ
scan [] cur peak area last = (peak, area)
scan ((t, da) ∷ evs) cur peak area last =
    let cur' = cur +ℤ da in scan evs cur' (max_ℤ peak cur') (area +ℤ cur *ℤ (t -ℤ last)) t

-- `evs[-1][0]`, or the given time.
unfoldable pub last_time : ℤ → List Event → ℤ
last_time t [] = t
last_time t ((u, da) ∷ evs) = last_time u evs

-- The peak, the area and the span.
pub record Profile : Type 0 where
  pub peak : ℤ
  pub area : ℤ
  pub span : ℤ

unfoldable pub profile_of : List Event → Profile
unfolding scan last_time
profile_of [] = record { peak = pos 0; area = pos 0; span = pos 0 }
profile_of ((t, da) ∷ evs) =
    let (peak, area) = scan ((t, da) ∷ evs) (pos 0) (pos 0) (pos 0) t in
    record { peak = peak; area = area; span = last_time t evs -ℤ t }

unfoldable pub profile : List Interval → Profile
unfolding profile_of sort events
profile is = profile_of (sort (events is))

-- `area / span if span > 0 else 0.0`
abbrev average : Profile → ℤ × ℤ
average p = if ltb_ℤ (pos 0) p.span then (p.area, p.span) else (pos 0, pos 1)

-- The peak, and the average as a quotient of two integers.
unfoldable pub peak_and_avg : List Interval → ℤ × ℤ × ℤ
unfolding profile
peak_and_avg is = let p = profile is in let (area, span) = average p in (p.peak, area, span)
