-- ===== src/Settlement/Days.antt =====
-- `bucket_hit`, `classify_day` and `day_state` of scripts/settle_recon.py. A temperature is a whole degree.
pub mod Legs
pub mod Graded
use cross_arb.Prelude.{
  ℕ, suc, ◌+◌, ◌≡◌, Bool, true, false, not, ◌&&◌, ◌||◌, Option, none, some, List, [], ◌∷◌, map, ltb,
  if◌then◌else◌,
}
use cross_arb.Prelude.Int.{ℤ, leb_ℤ}

-- A market's outcome; any other label is none, since the code only asks for these two.
pub data Outcome : Type 0 where
  yes_side no_side : Outcome

-- A pair of markets for one bucket of the daily maximum, with inclusive bounds.
pub record Bucket : Type 0 where
  pub lo : Option ℤ
  pub hi : Option ℤ
  pub pm_out : Option Outcome
  pub kal_result : Option Outcome

abbrev at_least : ℤ → Option ℤ → Bool
at_least mx none = true
at_least mx (some lo) = leb_ℤ lo mx

abbrev at_most : ℤ → Option ℤ → Bool
at_most mx none = true
at_most mx (some hi) = leb_ℤ mx hi

unfoldable pub bucket_hit : Option ℤ → Option ℤ → Option ℤ → Option Bool
bucket_hit lo hi none = none
bucket_hit none none (some mx) = none
bucket_hit (some lo) hi (some mx) = some (leb_ℤ lo mx && at_most mx hi)
bucket_hit none (some hi) (some mx) = some (leb_ℤ mx hi)

pub data Match : Type 0 where
  matched mismatched : Match

pub data Status : Type 0 where
  agree diverge pm_inconsistent pm_unresolved kal_unsettled : Status

-- A bucket with what the classification adds to it.
pub record GradedBucket : Type 0 where
  pub bucket : Bucket
  pub cli_hit : Option Bool
  pub kal_vs_cli : Option Match
  pub pm_vs_cli : Option Match
  pub status : Status

abbrev pub is_yes : Outcome → Bool
is_yes yes_side = true
is_yes no_side = false

abbrev same : Bool → Bool → Bool
same true b = b
same false b = not b

-- A leg against the report: none where either is unknown.
abbrev pub leg_vs_cli : Option Outcome → Option Bool → Option Match
leg_vs_cli (some o) (some hit) = some (if same (is_yes o) hit then matched else mismatched)
leg_vs_cli _ _ = none

abbrev pub status_of : Bool → Option Outcome → Option Outcome → Status
status_of multi none kr = pm_unresolved
status_of multi (some po) none = kal_unsettled
status_of true (some po) (some kr) = pm_inconsistent
status_of false (some po) (some kr) = if same (is_yes po) (is_yes kr) then agree else diverge

unfoldable pub grade : Bool → Option ℤ → Bucket → GradedBucket
unfolding bucket_hit
grade multi truth b =
    let hit = bucket_hit b.lo b.hi truth in
    record {
      bucket = b;
      cli_hit = hit;
      kal_vs_cli = leg_vs_cli b.kal_result hit;
      pm_vs_cli = if multi then none else leg_vs_cli b.pm_out hit;
      status = status_of multi b.pm_out b.kal_result;
    }

abbrev one_if_yes : Option Outcome → ℕ → ℕ
one_if_yes (some yes_side) n = suc n
one_if_yes _ n = n

unfoldable pub pm_yes_count : List Bucket → ℕ
pm_yes_count [] = 0
pm_yes_count (b ∷ bs) = one_if_yes b.pm_out (pm_yes_count bs)

abbrev pub pm_multi_yes : List Bucket → Bool
pm_multi_yes bs = ltb 1 (pm_yes_count bs)

-- The buckets after the pass, and the flag of the day.
unfoldable pub classify_day : List Bucket → Option ℤ → List GradedBucket × Bool
unfolding pm_yes_count grade
classify_day bs truth = let multi = pm_multi_yes bs in (map (grade multi truth) bs, multi)

pub data DayState : Type 0 where
  day_diverges day_inconsistent day_clean day_partial day_pending : DayState

abbrev pub is_diverge : Status → Bool
is_diverge diverge = true
is_diverge _ = false

abbrev pub is_agree : Status → Bool
is_agree agree = true
is_agree _ = false

-- `any` and `all` of the statuses.
unfoldable pub any_status : (Status → Bool) → List GradedBucket → Bool
any_status test [] = false
any_status test (g ∷ gs) = test g.status || any_status test gs

unfoldable pub all_status : (Status → Bool) → List GradedBucket → Bool
all_status test [] = true
all_status test (g ∷ gs) = test g.status && all_status test gs

unfoldable pub day_state : List GradedBucket → Bool → DayState
unfolding any_status all_status
day_state [] multi = if multi then day_inconsistent else day_pending
day_state (g ∷ gs) multi =
    if any_status is_diverge (g ∷ gs)
    then day_diverges
    else if multi
    then day_inconsistent
    else if all_status is_agree (g ∷ gs)
    then day_clean
    else if any_status is_agree (g ∷ gs)
    then day_partial
    else day_pending
