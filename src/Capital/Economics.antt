-- ===== src/Capital/Economics.antt =====
-- `settle_t`, `void_haircut` and `simulate` of scripts/capital_sim.py. Times are in milliseconds, a net edge
-- is in 1/10000 dollar, and money in 1/2000000 dollar, the finest step of the costs and profits.
use cross_arb.Prelude.{
  ℕ, ◌+◌, ◌-◌, ◌*◌, ◌/◌, ◌%◌, Bool, not, ◌&&◌, ◌||◌, Option, none, some, List, [], ◌∷◌, String,
  ◌=?◌, string_keys, starts_with, codes, ltb, leb, ◌==◌, if◌then◌else◌,
}
use cross_arb.Prelude.Int.{ℤ, pos, sub_ℕ, ◌+ℤ◌, ◌-ℤ◌, ◌*ℤ◌, ltb_ℤ, eqb_ℤ, min_ℤ, max_ℤ}
use cross_arb.Persistence.Episodes.{Episode}
use cross_arb.Capital.Peak.{Interval, peak_and_avg}
use cross_arb.Capital.Select.{one_per_market}

-- A year, a month and a day.
abbrev pub Date : Type 0
Date = ℕ × ℕ × ℕ

abbrev is_digit : ℕ → Bool
is_digit c = leb b'0' c && leb c b'9'

abbrev digit : ℕ → ℕ
digit c = c - b'0'

-- `\d{4}-\d{2}-\d{2}` at the start of a text, and the text behind it.
unfoldable pub match_date : List ℕ → Option (Date × List ℕ)
match_date (y ∷ e ∷ a ∷ r ∷ s ∷ m ∷ o ∷ t ∷ d ∷ f ∷ rest) =
    if is_digit y
      && is_digit e
      && is_digit a
      && is_digit r
      && s == b'-'
      && is_digit m
      && is_digit o
      && t == b'-'
      && is_digit d
      && is_digit f
    then some (
      (
        1000 * digit y + 100 * digit e + 10 * digit a + digit r,
        10 * digit m + digit o,
        10 * digit d + digit f,
      ),
      rest,
    )
    else none
match_date _ = none

-- `_DATE.search`: the first place that matches.
unfoldable pub search_date : List ℕ → Option (Date × List ℕ)
unfolding match_date
search_date [] = none
search_date (c ∷ cs) = elim (match_date (c ∷ cs)) [ some d ↦ some d | none ↦ search_date cs ]

abbrev is_leap : ℕ → Bool
is_leap y = y % 4 == 0 && (not (y % 100 == 0) || y % 400 == 0)

-- The days of a year before its month.
abbrev days_before : ℕ → ℕ → ℕ
days_before y m =
    (if m == 1
      then 0
      else if m == 2
      then 31
      else if m == 3
      then 59
      else if m == 4
      then 90
      else if m == 5
      then 120
      else if m == 6
      then 151
      else if m == 7
      then 181
      else if m == 8
      then 212
      else if m == 9
      then 243
      else if m == 10
      then 273
      else if m == 11
      then 304
      else 334)
    + (if ltb 2 m && is_leap y then 1 else 0)

-- Days from year 1 to the first of the month, as `date.toordinal` counts them.
abbrev ordinal : ℕ → ℕ → ℕ
ordinal y m = let z = y - 1 in 365 * z + z / 4 - z / 100 + z / 400 + days_before y m + 1

-- `calendar.timegm` at midnight, in seconds; it raises for a year 0 and for a month that is none. The day
-- is only added.
unfoldable pub timegm : Date → Option ℤ
timegm (y, m, d) =
    if ltb 0 y && ltb 0 m && leb m 12
    then some (pos 86400 *ℤ sub_ℕ (ordinal y m + d) 719164)
    else none

-- What `settle_t` does with the time of the event.
abbrev pub settle_at : ℤ → ℤ → Option ℤ → Option ℤ
settle_at open_t offset_s none = none
settle_at open_t offset_s (some midnight) =
    let s = pos 1000 *ℤ (midnight +ℤ offset_s) in
    some (if ltb_ℤ open_t s then s else open_t +ℤ pos 3600000)

abbrev pub settle_on : ℤ → ℤ → Option (Date × List ℕ) → Option ℤ
settle_on open_t offset_s none = some (open_t +ℤ pos 3600000)
settle_on open_t offset_s (some (d, rest)) = settle_at open_t offset_s (timegm d)

-- `offset_s` is `int(offset_h * 3600)`; none is the `ValueError` of a date that is none.
unfoldable pub settle_t : String → ℤ → ℤ → Option ℤ
unfolding search_date timegm
settle_t market open_t offset_s = settle_on open_t offset_s (search_date (codes market))

-- The second part of the slug is the league.
abbrev is_mlb : String → Bool
is_mlb m = starts_with m "aec-mlb-" || m =? "aec-mlb"

-- `mult` in hundredths. Rate, gap and loss multiply to 0.0008, 0.0026 and 0.001 dollar.
unfoldable pub void_haircut : String → ℤ → ℤ
void_haircut m mult =
    if starts_with m "atc-fwc-"
    then mult *ℤ pos 16
    else if not (starts_with m "aec-")
    then pos 0
    else mult *ℤ (if is_mlb m then pos 52 else pos 20)

-- `max(0.1, 1.0 - open_net)`
unfoldable pub cost_per : Episode → ℤ
cost_per e = pos 200 *ℤ max_ℤ (pos 1000) (pos 10000 -ℤ e.open_net)

-- `max(DEPTH_BOUNDARY_NET, (open_net + DEPTH_BOUNDARY_NET) / 2.0)`
unfoldable pub avg_edge : Episode → ℤ
avg_edge e = pos 100 *ℤ max_ℤ (pos 100) (e.open_net +ℤ pos 50)

-- The profit of one contract.
unfoldable pub profit_per : Episode → ℤ → ℤ → ℤ
unfolding avg_edge void_haircut
profit_per e haircut void_mult =
    max_ℤ (pos 0) (avg_edge e -ℤ haircut -ℤ void_haircut e.market void_mult)

-- The arguments of `simulate`; a fixed hold of 0 is none.
pub record Setting : Type 0 where
  pub max_clip : ℤ
  pub haircut : ℤ
  pub offset_s : ℤ
  pub fixed_w : ℤ
  pub void_mult : ℤ

abbrev end_time : Setting → Episode → Option ℤ
end_time s e =
    if eqb_ℤ s.fixed_w (pos 0)
    then settle_t e.market e.open_t s.offset_s
    else some (e.open_t +ℤ s.fixed_w)

abbrev with_interval : Interval → ℤ → Option (List Interval × ℤ) → Option (List Interval × ℤ)
with_interval i profit none = none
with_interval i profit (some (is, total)) = some (i ∷ is, profit +ℤ total)

abbrev hold : Episode → ℤ → ℤ → Option ℤ → Option (List Interval × ℤ) → Option (List Interval × ℤ)
hold e capital profit none rest = none
hold e capital profit (some end) rest =
    with_interval (record { start = e.open_t; end = end; amount = capital }) profit rest

-- The loop of `simulate`: the intervals, and the sum of the profits.
unfoldable pub positions : Setting → List Episode → Option (List Interval × ℤ)
unfolding cost_per profit_per settle_t
positions s [] = some ([], pos 0)
positions s (e ∷ es) =
    let size = min_ℤ e.open_c2 s.max_clip in
    hold e (size *ℤ cost_per e) (size *ℤ profit_per e s.haircut s.void_mult) (end_time s e)
      (positions s es)

-- (intervals, peak, (area, span), profit)
abbrev summary : Option (List Interval × ℤ) → Option (List Interval × (ℤ × ℤ × ℤ) × ℤ)
summary none = none
summary (some (is, profit)) = some (is, peak_and_avg is, profit)

unfoldable pub simulate : List Episode → Setting → Option (List Interval × (ℤ × ℤ × ℤ) × ℤ)
unfolding positions
simulate cap s = summary (positions s (one_per_market cap))
