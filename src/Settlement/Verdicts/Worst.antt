-- ===== src/Settlement/Verdicts/Worst.antt =====
-- The combined verdict is the worst one.
use mathlib.Core.List.{Memᴰ}
use cross_arb.Prelude.{
  ℕ, ◌≤◌, ◌≡◌, refl, sym, subst, Bool, true, false, ◌||◌, List, [], ◌∷◌, All, Bool-cases, inl, inr,
  if◌then◌else◌, arith,
}
use cross_arb.Prelude.Int.{ℤ, pos}
use cross_arb.Settlement.Verdicts.{
  Verdict, identical, tail, needs_manual, divergent, Dimension, verdict_of, is_divergent, is_manual,
  is_tail, any_verdict, tail_cost, combine,
}

-- How bad a verdict is.
abbrev pub rank : Verdict → ℕ
rank identical = 0
rank tail = 1
rank needs_manual = 2
rank divergent = 3

abbrev AtMost : ℕ → List Dimension → Type 0
AtMost n ds = All (λ d. rank (verdict_of d) ≤ n) ds

AtMost-3 : (ds : List Dimension) → AtMost 3 ds
AtMost-3 [] = tt
AtMost-3 (d ∷ ds) = (three (verdict_of d), AtMost-3 ds)
  where
    three : (v : Verdict) → rank v ≤ 3
    three identical = omega arith
    three tail = omega arith
    three needs_manual = omega arith
    three divergent = omega arith

both_false : (x y : Bool) → (x || y) ≡ false → (x ≡ false) × (y ≡ false)
both_false true y h = cc
both_false false y h = (refl, h)

-- What an absent verdict takes off the bound.
lowered :
    (n m : ℕ) (test : Verdict → Bool) (ds : List Dimension)
    → ((v : Verdict) → rank v ≤ n → test v ≡ false → rank v ≤ m)
    → AtMost n ds
    → any_verdict test ds ≡ false
    → AtMost m ds
unfolding any_verdict
lowered n m test [] step h absent = tt
lowered n m test (d ∷ ds) step h absent =
    let (here, behind) = both_false (test (verdict_of d)) (any_verdict test ds) absent in
    (step (verdict_of d) h.0 here, lowered n m test ds step h.1 behind)

without_divergent : (v : Verdict) → rank v ≤ 3 → is_divergent v ≡ false → rank v ≤ 2
without_divergent identical h e = omega arith
without_divergent tail h e = omega arith
without_divergent needs_manual h e = omega arith
without_divergent divergent h e = cc

without_manual : (v : Verdict) → rank v ≤ 2 → is_manual v ≡ false → rank v ≤ 1
without_manual identical h e = omega arith
without_manual tail h e = omega arith
without_manual needs_manual h e = cc
without_manual divergent h e = absurd (omega (arith, h))

without_tail : (v : Verdict) → rank v ≤ 1 → is_tail v ≡ false → rank v ≤ 0
without_tail identical h e = omega arith
without_tail tail h e = cc
without_tail needs_manual h e = absurd (omega (arith, h))
without_tail divergent h e = absurd (omega (arith, h))

-- Some dimension has this verdict.
abbrev pub Has : Verdict → List Dimension → Type 0
Has v ds = (d : Dimension) × Memᴰ d ds × (verdict_of d ≡ v)

found :
    (test : Verdict → Bool) (v : Verdict) (ds : List Dimension)
    → ((u : Verdict) → test u ≡ true → u ≡ v)
    → any_verdict test ds ≡ true
    → Has v ds
unfolding any_verdict
found test v [] only h = cc
found test v (d ∷ ds) only h = elim (Bool-cases (test (verdict_of d))) [
  | inl present ↦ (d, Memᴰ.head refl, only (verdict_of d) present)
  | inr other ↦
      let (x, m, e) =
        found test v ds only (subst (λ b. (b || any_verdict test ds) ≡ true) other h) in
      (x, Memᴰ.tail m, e)
]

only_divergent : (u : Verdict) → is_divergent u ≡ true → u ≡ divergent
only_divergent identical h = cc
only_divergent tail h = cc
only_divergent needs_manual h = cc
only_divergent divergent h = refl

only_manual : (u : Verdict) → is_manual u ≡ true → u ≡ needs_manual
only_manual identical h = cc
only_manual tail h = cc
only_manual needs_manual h = refl
only_manual divergent h = cc

only_tail : (u : Verdict) → is_tail u ≡ true → u ≡ tail
only_tail identical h = cc
only_tail tail h = refl
only_tail needs_manual h = cc
only_tail divergent h = cc

only_identical : (u : Verdict) → rank u ≤ 0 → u ≡ identical
only_identical identical h = refl
only_identical tail h = absurd (omega (arith, h))
only_identical needs_manual h = absurd (omega (arith, h))
only_identical divergent h = absurd (omega (arith, h))

-- The worst of these, with the cost of all tails together if it is a tail, and else with none.
abbrev pub IsWorst : List Dimension → Verdict × ℤ → Type 0
IsWorst ds (v, cost) =
    All (λ x. rank (verdict_of x) ≤ rank v) ds
    × Has v ds
    × (cost ≡ (if is_tail v then tail_cost ds else pos 0))

IsWorst-when :
    (ds : List Dimension) (v : Verdict) (cost : ℤ)
    → combine ds ≡ (v, cost)
    → AtMost (rank v) ds
    → Has v ds
    → cost ≡ (if is_tail v then tail_cost ds else pos 0)
    → IsWorst ds (combine ds)
IsWorst-when ds v cost e h m c = subst (IsWorst ds) (sym e) (h, m, c)

-- Where there is a dimension, the verdict is the worst of theirs and one of them has it. The cost is that of all
-- tails together if the verdict is a tail, and nothing for any other verdict.
pub combine-IsWorst : (d : Dimension) (ds : List Dimension) → IsWorst (d ∷ ds) (combine (d ∷ ds))
unfolding combine
combine-IsWorst d ds =
    let all = d ∷ ds in
    elim (Bool-cases (any_verdict is_divergent all)) [
      | inl broken ↦
          IsWorst-when all divergent (pos 0) (rw broken refl) (AtMost-3 all)
            (found is_divergent divergent all only_divergent broken) refl
      | inr sound ↦
          let two = lowered 3 2 is_divergent all without_divergent (AtMost-3 all) sound in
          elim (Bool-cases (any_verdict is_manual all)) [
            | inl unknown ↦
                IsWorst-when all needs_manual (pos 0) (rw (sound, unknown) refl) two
                  (found is_manual needs_manual all only_manual unknown) refl
            | inr known ↦
                let one = lowered 2 1 is_manual all without_manual two known in
                elim (Bool-cases (any_verdict is_tail all)) [
                  | inl costs ↦
                      IsWorst-when all tail (tail_cost all) (rw (sound, known, costs) refl) one
                        (found is_tail tail all only_tail costs) refl
                  | inr free ↦
                      let least = lowered 1 0 is_tail all without_tail one free in
                      IsWorst-when all identical (pos 0) (rw (sound, known, free) refl) least
                        (d, Memᴰ.head refl, only_identical (verdict_of d) least.0) refl
                ]
          ]
    ]
