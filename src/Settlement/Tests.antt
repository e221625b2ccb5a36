-- ===== src/Settlement/Tests.antt =====
-- Two days, and a combination of verdicts.
use cross_arb.Prelude.{◌≡◌, ◌≢◌, ◌↔◌, refl, true, false, none, some, List, [], ◌∷◌, map, All}
use cross_arb.Prelude.Int.{ℤ, pos, ◌+ℤ◌}
use cross_arb.Settlement.Days.{
  Outcome, yes_side, no_side, Bucket, mismatched, bucket_hit, grade, pm_yes_count, classify_day,
  day_diverges, day_inconsistent, day_clean, any_status, all_status, day_state,
}
use cross_arb.Settlement.Days.Legs.{Agrees, IsGraded}
use cross_arb.Settlement.Days.Graded.{TwoYes, classify_day_lem}
use cross_arb.Settlement.Verdicts.{
  identical, tail, needs_manual, bare, priced, tail_cost, any_verdict, combine,
}

abbrev bucket : ℤ → ℤ → Outcome → Outcome → Bucket
bucket lo hi po kr = record { lo = some lo; hi = some hi; pm_out = some po; kal_result = some kr }

abbrev settled_day : List Bucket
settled_day =
    bucket (pos 70) (pos 71) no_side no_side ∷ bucket (pos 72) (pos 73) yes_side yes_side ∷ []

day_runs :
    (day_state (classify_day settled_day (some (pos 72))).0 false ≡ day_clean)
    × (map (λ g. g.pm_vs_cli) (classify_day settled_day (some (pos 71))).0
        ≡ some mismatched ∷ some mismatched ∷ [])
    × (day_state
          (classify_day (bucket (pos 70) (pos 71) yes_side no_side ∷ settled_day) none).0
          true
        ≡ day_inconsistent)
    × (day_state (classify_day (bucket (pos 70) (pos 71) yes_side no_side ∷ []) none).0 false
        ≡ day_diverges)
unfolding classify_day day_state grade bucket_hit pm_yes_count any_status all_status
day_runs = (refl, refl, refl, refl)

combine_runs :
    (combine (bare identical ∷ priced tail (pos 2600) ∷ priced tail (pos 800) ∷ [])
      ≡ (tail, pos 3400))
    × (combine (bare tail ∷ bare needs_manual ∷ []) ≡ (needs_manual, pos 0))
    × (combine [] ≡ (needs_manual, pos 0))
unfolding combine tail_cost any_verdict ◌+ℤ◌
combine_runs = (refl, refl, refl)

classify_day_lem_example :
    let (gs, multi) = classify_day settled_day (some (pos 72)) in
    All (IsGraded (some (pos 72))) gs
    × ((multi ≡ true) ↔ TwoYes settled_day)
    × (TwoYes settled_day → day_state gs multi ≡ day_inconsistent)
    × ((day_state gs multi ≡ day_clean)
        ↔ ((settled_day ≢ []) × (¬ TwoYes settled_day) × All Agrees settled_day))
classify_day_lem_example = classify_day_lem settled_day (some (pos 72))
