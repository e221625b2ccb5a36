-- ===== src/Latency/Fill.antt =====
-- `shadow_fill` of scripts/shadow_fill.py and the summaries that it makes. A median is doubled and a percentile is
-- in hundredths, so that both stay whole.
pub mod Monotone
use cross_arb.Prelude.{
  ℕ, zero, suc, ◌+◌, ◌-◌, ◌*◌, ◌/◌, ◌%◌, Bool, true, false, not, ◌&&◌, ◌||◌, Option, none, some,
  List, [], ◌∷◌, length, select, sort_by, ltb, ◌==◌, if◌then◌else◌,
}
use cross_arb.Prelude.Int.{ℤ, pos, ◌+ℤ◌, ◌-ℤ◌, ◌*ℤ◌, ltb_ℤ, leb_ℤ}
use cross_arb.Prelude.Int.Sums.{sum_of}
use cross_arb.Persistence.Episodes.{LogRecord}
use cross_arb.Capital.Select.{Filter, keeps}
use cross_arb.Latency.Trajectory.{Traced, edge_at, get_elem?}

abbrev after_epoch : ℤ → LogRecord → Bool
after_epoch epoch r = leb_ℤ epoch r.t

pub post_epoch : List LogRecord → ℤ → List LogRecord
post_epoch records epoch = select (after_epoch epoch) records

-- `capturable`: the shared gate, with nothing but restarts dropped.
abbrev gate : ℤ → ℤ → ℤ → Filter
gate edge_min window_min liq_floor = record {
  edge_min = edge_min;
  window_min = window_min;
  liq_floor = liq_floor;
  max_age = none;
  drop_restart = true;
  drop_flat = false;
}

abbrev passes : Filter → Traced → Bool
passes f e = keeps f e.ep

unfoldable pub capturable : List Traced → ℤ → ℤ → ℤ → List Traced
capturable episodes edge_min window_min liq_floor =
    select (passes (gate edge_min window_min liq_floor)) episodes

-- `any(ft <= x for ft in flip_ts)`
abbrev pub flipped_by : ℤ → List ℤ → Bool
flipped_by x [] = false
flipped_by x (ft ∷ fts) = leb_ℤ ft x || flipped_by x fts

-- The legs fail: the episode is closed by then, or has flipped.
abbrev pub fails : ℤ → Traced → Bool
fails latency e = let x = e.ep.open_t +ℤ latency in leb_ℤ e.ep.close_t x || flipped_by x e.flip_ts

abbrev positive : Option ℤ → Option ℤ
positive none = none
positive (some net) = if ltb_ℤ (pos 0) net then some net else none

-- `survived`, `realized` and `failed`.
pub record Tally : Type 0 where
  pub survived : ℕ
  pub realized : List ℤ
  pub failed : ℕ

abbrev fail : Tally → Tally
fail t = record t { failed = suc t.failed }

abbrev survive : Option ℤ → Tally → Tally
survive none t = t
survive (some net) t = record t { survived = suc t.survived; realized = net ∷ t.realized }

-- The loop over the cohort, for one latency.
unfoldable pub tally : ℤ → List Traced → Tally
unfolding edge_at
tally latency [] = record { survived = 0; realized = []; failed = 0 }
tally latency (e ∷ es) =
    let rest = tally latency es in
    if fails latency e
    then fail rest
    else survive (positive (edge_at e (e.ep.open_t +ℤ latency))) rest

abbrev or_zero : Option ℤ → ℤ
or_zero none = pos 0
or_zero (some n) = n

abbrev at : List ℤ → ℕ → ℤ
at xs i = or_zero (get_elem? xs i)

unfoldable pub sorted : List ℤ → List ℤ
sorted xs = sort_by leb_ℤ xs

unfoldable pub median : List ℤ → ℤ
unfolding sorted
median [] = pos 0
median (x ∷ xs) =
    let s = sorted (x ∷ xs) in
    let m = length s / 2 in if length s % 2 == 0 then at s (m - 1) +ℤ at s m else pos 2 *ℤ at s m

abbrev min_ℕ : ℕ → ℕ → ℕ
min_ℕ a b = if ltb b a then b else a

unfoldable pub pct : List ℤ → ℕ → ℤ
unfolding sorted
pct [] p = pos 0
pct (x ∷ xs) p =
    let s = sorted (x ∷ xs) in
    let k = (length s - 1) * p in
    let lo = k / 100 in
    let hi = min_ℕ (lo + 1) (length s - 1) in
    pos 100 *ℤ at s lo +ℤ (at s hi -ℤ at s lo) *ℤ pos (k % 100)

-- A row: a share is a count of `n`, and a mean a sum over `n_survived`.
pub record FillRow : Type 0 where
  pub latency : ℤ
  pub n : ℕ
  pub n_survived : ℕ
  pub n_failed : ℕ
  pub realized_median : ℤ
  pub realized_sum : ℤ
  pub realized_p25 : ℤ

abbrev row_of : ℤ → ℕ → Tally → FillRow
row_of latency n t = record {
  latency = latency;
  n = n;
  n_survived = t.survived;
  n_failed = t.failed;
  realized_median = median t.realized;
  realized_sum = sum_of (λ x. x) t.realized;
  realized_p25 = pct t.realized 25;
}

unfoldable pub rows_of : List Traced → List ℤ → List FillRow
unfolding tally median pct
rows_of cohort [] = []
rows_of cohort (latency ∷ ls) =
    row_of latency (length cohort) (tally latency cohort) ∷ rows_of cohort ls

unfoldable pub shadow_fill : List Traced → ℤ → List ℤ → ℤ → ℤ → List FillRow × ℕ
unfolding capturable rows_of
shadow_fill episodes edge_min latencies window_min liq_floor =
    let cohort = capturable episodes edge_min window_min liq_floor in
    (rows_of cohort latencies, length cohort)
