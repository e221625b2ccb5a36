-- ===== src/Gates/Velocity.antt =====
-- The velocity gates of scripts/velocity_gate_experiment.py. Times are in milliseconds, as the episodes have them; a
-- limit on the days to the event is in 1/1000 day, and a floor of the edge rate in 1/1000 cent for a dollar-day.
-- None stands for the `ValueError` of a date that is none.
pub mod Picked
pub mod Split
use cross_arb.Prelude.{
  ℕ, suc, ◌+◌, ◌≡◌, Bool, true, false, not, ◌&&◌, ◌||◌, Option, none, some, List, [], ◌∷◌, String,
  codes, length, select, sort_by, if◌then◌else◌,
}
use cross_arb.Prelude.Int.{ℤ, pos, ◌+ℤ◌, ◌-ℤ◌, ◌*ℤ◌, ltb_ℤ, leb_ℤ, eqb_ℤ, max_ℤ}
use cross_arb.Prelude.Int.Sums.{sum_of}
use cross_arb.Persistence.Category.{Category, weather, sports, econ, other}
use cross_arb.Persistence.Episodes.{Episode}
use cross_arb.Capital.Economics.{Date, search_date, timegm}
use cross_arb.Gates.{BotConfig}
use cross_arb.Gates.Caps.{Entry, cap_constrained_entries}

abbrev in_ms : Option ℤ → Option (Option ℤ)
in_ms none = none
in_ms (some s) = some (some (pos 1000 *ℤ s))

abbrev epoch_of : Option (Date × List ℕ) → Option (Option ℤ)
epoch_of none = some none
epoch_of (some (d, rest)) = in_ms (timegm d)

-- The midnight of the slug's date, or none for a slug without one.
unfoldable pub event_epoch : String → Option (Option ℤ)
unfolding search_date timegm
event_epoch market = epoch_of (search_date (codes market))

abbrev minus : ℤ → Option (Option ℤ) → Option (Option ℤ)
minus open_t none = none
minus open_t (some none) = some none
minus open_t (some (some ev)) = some (some (ev -ℤ open_t))

-- From the OPEN to the event.
unfoldable pub time_to_event : String → ℤ → Option (Option ℤ)
unfolding event_epoch
time_to_event market open_t = minus open_t (event_epoch market)

-- `LOCK_WEATHER`, `LOCK_SPORTS_FLOOR` and `LOCK_ECON_FALLBACK`: 1.2, 0.4 and 21 days.
abbrev lock_weather : ℤ
lock_weather = pos 103680000

abbrev lock_sports_floor : ℤ
lock_sports_floor = pos 34560000

abbrev lock_econ_fallback : ℤ
lock_econ_fallback = pos 1814400000

abbrev sports_lock : Option (Option ℤ) → Option ℤ
sports_lock none = none
sports_lock (some none) = some lock_sports_floor
sports_lock (some (some d)) = some (max_ℤ d lock_sports_floor)

-- `lock_days_live`, of an episode's or of an entry's category, market and OPEN.
unfoldable pub lock_live : Category → String → ℤ → Option ℤ
unfolding time_to_event
lock_live weather market open_t = some lock_weather
lock_live sports market open_t = sports_lock (time_to_event market open_t)
lock_live econ market open_t = some lock_econ_fallback
lock_live other market open_t = some lock_econ_fallback

abbrev near : ℤ → Option (Option ℤ) → Option Bool
near max_days none = none
near max_days (some none) = some true
near max_days (some (some d)) = some (leb_ℤ d (max_days *ℤ pos 86400))

unfoldable pub passes_proximity : Episode → ℤ → Option Bool
unfolding time_to_event
passes_proximity e max_days =
    if leb_ℤ max_days (pos 0) then some true else near max_days (time_to_event e.market e.open_t)

-- `open_net * 100 / lock_days >= min_cpd`, both sides times the lock, which is above zero.
abbrev fast : ℤ → ℤ → Option ℤ → Option Bool
fast net min_cpd none = none
fast net min_cpd (some lock) = some (leb_ℤ (min_cpd *ℤ lock) (net *ℤ pos 864000000))

unfoldable pub passes_edge_rate : Episode → ℤ → Option Bool
unfolding lock_live
passes_edge_rate e min_cpd =
    if leb_ℤ min_cpd (pos 0)
    then some true
    else fast e.open_net min_cpd (lock_live e.cat e.market e.open_t)

-- `and`: the second gate is not looked at behind a first that is closed.
abbrev and_then : Option Bool → Option Bool → Option Bool
and_then none b = none
and_then (some false) b = some false
and_then (some true) b = b

unfoldable pub passes : ℤ → ℤ → Episode → Option Bool
unfolding passes_proximity passes_edge_rate
passes max_days min_cpd e = and_then (passes_proximity e max_days) (passes_edge_rate e min_cpd)

abbrev keep_if : Episode → Option Bool → Option (List Episode) → Option (List Episode)
keep_if e (some true) (some es) = some (e ∷ es)
keep_if e (some false) (some es) = some es
keep_if e _ _ = none

unfoldable pub eligible : ℤ → ℤ → List Episode → Option (List Episode)
unfolding passes
eligible max_days min_cpd [] = some []
eligible max_days min_cpd (e ∷ es) =
    keep_if e (passes max_days min_cpd e) (eligible max_days min_cpd es)

-- (time, change of the number)
abbrev Change : Type 0
Change = ℤ × ℤ

abbrev changes : List Entry → List Change
changes [] = []
changes (x ∷ xs) = (x.open_t, pos 1) ∷ (x.settle_t, pos 0 -ℤ pos 1) ∷ changes xs

-- The order of pairs.
abbrev not_after : Change → Change → Bool
not_after (t, a) (u, b) = ltb_ℤ t u || eqb_ℤ t u && leb_ℤ a b

abbrev peak_from : List Change → ℤ → ℤ → ℤ
peak_from [] cur peak = peak
peak_from ((t, d) ∷ evs) cur peak = let cur' = cur +ℤ d in peak_from evs cur' (max_ℤ peak cur')

unfoldable pub peak_concurrent : List Entry → ℤ
peak_concurrent entered = peak_from (sort_by not_after (changes entered)) (pos 0) (pos 0)

abbrev pub settled_by : ℤ → Entry → Bool
settled_by window_end x = leb_ℤ x.settle_t window_end

abbrev pub open_at : ℤ → Entry → Bool
open_at window_end x = ltb_ℤ window_end x.settle_t

-- The sum of capital times lock, over the entries.
abbrev weigh : ℤ → Option ℤ → Option ℤ → Option ℤ
weigh capital (some lock) (some rest) = some (capital *ℤ lock +ℤ rest)
weigh capital _ _ = none

unfoldable pub cap_wt_lock : List Entry → Option ℤ
unfolding lock_live
cap_wt_lock [] = some (pos 0)
cap_wt_lock (x ∷ xs) = weigh x.capital (lock_live x.cat x.market x.open_t) (cap_wt_lock xs)

-- The dict that `run_config` returns, but for `by_cat`; the weighted lock is `lock_sum` by `deployed`.
pub record ConfigRun : Type 0 where
  pub eligible : ℕ
  pub entered : List Entry
  pub realized : ℤ
  pub unreal : ℤ
  pub locked : ℤ
  pub turns : ℕ
  pub peak_conc : ℤ
  pub deployed : ℤ
  pub lock_sum : ℤ

abbrev pub profit_of : Entry → ℤ
profit_of x = x.profit

abbrev capital_of : Entry → ℤ
capital_of x = x.capital

abbrev summed : ℤ → ℕ → List Entry → Option ℤ → Option ConfigRun
summed window_end n entered none = none
summed window_end n entered (some lock_sum) = some (record {
  eligible = n;
  entered = entered;
  realized = sum_of profit_of (select (settled_by window_end) entered);
  unreal = sum_of profit_of (select (open_at window_end) entered);
  locked = sum_of capital_of (select (open_at window_end) entered);
  turns = length (select (settled_by window_end) entered);
  peak_conc = peak_concurrent entered;
  deployed = sum_of capital_of entered;
  lock_sum = lock_sum;
})

abbrev with_entries : ℤ → ℕ → Option (List Entry) → Option ConfigRun
with_entries window_end n none = none
with_entries window_end n (some entered) = summed window_end n entered (cap_wt_lock entered)

abbrev with_eligible : BotConfig → ℤ → ℤ → Option (List Episode) → Option ConfigRun
with_eligible cfg capital0 window_end none = none
with_eligible cfg capital0 window_end (some elig) =
    with_entries window_end (length elig)
      (cap_constrained_entries elig cfg (pos 0) (pos 100) capital0)

-- The walk has no haircut and the full void rate.
unfoldable pub run_config : List Episode → BotConfig → ℤ → ℤ → ℤ → ℤ → Option ConfigRun
unfolding eligible peak_concurrent cap_wt_lock
run_config base cfg max_days min_cpd capital0 window_end =
    with_eligible cfg capital0 window_end (eligible max_days min_cpd base)
