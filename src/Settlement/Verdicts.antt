-- ===== src/Settlement/Verdicts.antt =====
-- `_combine` of scripts/settlement_identity.py. A cost is in 1/10000 cent, the step to which it is rounded.
pub mod Worst
use cross_arb.Prelude.{
  ◌≡◌, Bool, true, false, ◌||◌, Option, none, some, List, [], ◌∷◌, map, if◌then◌else◌,
}
use cross_arb.Prelude.Int.{ℤ, pos, ◌+ℤ◌}

pub data Verdict : Type 0 where
  identical tail needs_manual divergent : Verdict

-- A dimension's status: a bare one, or one with a cost.
pub data Dimension : Type 0 where
  bare : Verdict → Dimension
  priced : Verdict → ℤ → Dimension

abbrev pub verdict_of : Dimension → Verdict
verdict_of (bare v) = v
verdict_of (priced v c) = v

abbrev pub tail_part : Dimension → ℤ
tail_part (priced tail c) = c
tail_part _ = pos 0

unfoldable pub tail_cost : List Dimension → ℤ
tail_cost [] = pos 0
tail_cost (d ∷ ds) = tail_part d +ℤ tail_cost ds

abbrev pub is_divergent : Verdict → Bool
is_divergent divergent = true
is_divergent _ = false

abbrev pub is_manual : Verdict → Bool
is_manual needs_manual = true
is_manual _ = false

abbrev pub is_tail : Verdict → Bool
is_tail tail = true
is_tail _ = false

-- `V in plain`
unfoldable pub any_verdict : (Verdict → Bool) → List Dimension → Bool
any_verdict test [] = false
any_verdict test (d ∷ ds) = test (verdict_of d) || any_verdict test ds

abbrev is_empty : List Dimension → Bool
is_empty [] = true
is_empty _ = false

-- The status and its cost; the dimensions and the reasons are passed on.
unfoldable pub combine : List Dimension → Verdict × ℤ
unfolding tail_cost any_verdict
combine ds =
    if any_verdict is_divergent ds
    then (divergent, pos 0)
    else if any_verdict is_manual ds || is_empty ds
    then (needs_manual, pos 0)
    else if any_verdict is_tail ds
    then (tail, tail_cost ds)
    else (identical, pos 0)
