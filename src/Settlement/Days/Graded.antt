-- ===== src/Settlement/Days/Graded.antt =====
-- What the state of a day says of its buckets.
use cross_arb.Prelude.{
  ℕ, ◌≤◌, suc, ◌⊎◌, inl, inr, ◌∙◌, arith, ◌≡◌, ◌≢◌, ◌↔◌, refl, sym, subst, Bool, true, false,
  Option, none, some, List, [], ◌∷◌, map, All, if◌then◌else◌,
}
use cross_arb.Prelude.Int.{ℤ}
use cross_arb.Settlement.Days.{
  Outcome, yes_side, no_side, Bucket, pm_yes_count, one_if_yes, Status, agree, diverge,
  pm_inconsistent, pm_unresolved, kal_unsettled, status_of, grade, pm_multi_yes, classify_day,
  day_diverges, day_inconsistent, day_clean, day_partial, day_pending, is_diverge, is_agree,
  any_status, all_status, day_state,
}
use cross_arb.Settlement.Days.Legs.{Agrees, IsGraded, both_true, grade-IsGraded, All-IsGraded}

-- Two buckets settled YES at polymarket.
abbrev pub OneYes : List Bucket → Type 0
OneYes [] = ⊥
OneYes (b ∷ bs) = (b.pm_out ≡ some yes_side) ⊎ OneYes bs

abbrev pub TwoYes : List Bucket → Type 0
TwoYes [] = ⊥
TwoYes (b ∷ bs) = ((b.pm_out ≡ some yes_side) × OneYes bs) ⊎ TwoYes bs

not_true : (b : Bool) → ¬ (b ≡ true) → b ≡ false
not_true true h = absurd (h refl)
not_true false h = refl

yes_cases :
    (o : Option Outcome)
    → ((o ≡ some yes_side) × ((n : ℕ) → one_if_yes o n ≡ suc n))
      ⊎ ((o ≢ some yes_side) × ((n : ℕ) → one_if_yes o n ≡ n))
yes_cases none = inr (λ e. cc, λ n. refl)
yes_cases (some yes_side) = inl (refl, λ n. refl)
yes_cases (some no_side) = inr (λ e. cc, λ n. refl)

-- The count, against the buckets.
one_iff : (bs : List Bucket) → (1 ≤ pm_yes_count bs) ↔ OneYes bs
unfolding pm_yes_count
one_iff [] = (λ h. absurd (omega (arith, h)), λ h. elim h [ ])
one_iff (b ∷ bs) = elim (yes_cases b.pm_out) [
  | inl (y, up) ↦ rw (up (pm_yes_count bs)) (λ h. inl y, λ h. omega arith)
  | inr (other, same) ↦ rw (same (pm_yes_count bs)) (
    λ h. inr ((one_iff bs).0 h),
    λ h. elim h [ inl y ↦ absurd (other y) | inr rest ↦ (one_iff bs).1 rest ],
  )
]

two_iff : (bs : List Bucket) → (2 ≤ pm_yes_count bs) ↔ TwoYes bs
unfolding pm_yes_count
two_iff [] = (λ h. absurd (omega (arith, h)), λ h. elim h [ ])
two_iff (b ∷ bs) = elim (yes_cases b.pm_out) [
  | inl (y, up) ↦ rw (up (pm_yes_count bs)) (
    λ h. inl (y, (one_iff bs).0 (omega (arith, h))),
    λ h. elim h [
      | inl both ↦ let one = (one_iff bs).1 both.1 in omega (arith, one)
      | inr two ↦ let rest = (two_iff bs).1 two in omega (arith, rest)
    ],
  )
  | inr (other, same) ↦ rw (same (pm_yes_count bs)) (
    λ h. inr ((two_iff bs).0 h),
    λ h. elim h [ inl both ↦ absurd (other both.0) | inr rest ↦ (two_iff bs).1 rest ],
  )
]

multi_iff : (bs : List Bucket) → (pm_multi_yes bs ≡ true) ↔ TwoYes bs
multi_iff bs = let (f, g) = two_iff bs in (λ h. f (ground arith), λ t. let m = g t in ground arith)

no_diverge_when_multi :
    (truth : Option ℤ) (bs : List Bucket)
    → any_status is_diverge (map (grade true truth) bs) ≡ false
unfolding any_status grade
no_diverge_when_multi truth [] = refl
no_diverge_when_multi truth (b ∷ bs) =
    rw (no_diverge b.pm_out b.kal_result) (no_diverge_when_multi truth bs)
  where
    no_diverge : (po kr : Option Outcome) → is_diverge (status_of true po kr) ≡ false
    no_diverge none kr = refl
    no_diverge (some po) none = refl
    no_diverge (some po) (some kr) = refl

is_agree_only : (s : Status) → is_agree s ≡ true → s ≡ agree
is_agree_only agree h = refl
is_agree_only diverge h = cc
is_agree_only pm_inconsistent h = cc
is_agree_only pm_unresolved h = cc
is_agree_only kal_unsettled h = cc

Agrees-of_clean :
    (multi : Bool) (truth : Option ℤ) (bs : List Bucket)
    → all_status is_agree (map (grade multi truth) bs) ≡ true
    → All Agrees bs
unfolding all_status grade
Agrees-of_clean multi truth [] h = tt
Agrees-of_clean multi truth (b ∷ bs) h =
    let (first, rest) = both_true (is_agree (grade multi truth b).status) _ h in
    (
      ((grade-IsGraded multi truth b).agrees (is_agree_only (grade multi truth b).status first)).0,
      Agrees-of_clean multi truth bs rest,
    )

agree_when :
    (po kr : Option Outcome) (o : Outcome)
    → po ≡ some o
    → kr ≡ some o
    → status_of false po kr ≡ agree
agree_when po kr yes_side p k = rw (p, k) refl
agree_when po kr no_side p k = rw (p, k) refl

clean_of_Agrees :
    (truth : Option ℤ) (bs : List Bucket)
    → All Agrees bs
    → (any_status is_diverge (map (grade false truth) bs) ≡ false)
      × (all_status is_agree (map (grade false truth) bs) ≡ true)
unfolding any_status all_status grade
clean_of_Agrees truth [] h = (refl, refl)
clean_of_Agrees truth (b ∷ bs) ((o, p, k), h) =
    let (calm, rest) = clean_of_Agrees truth bs h in
    let here = agree_when b.pm_out b.kal_result o p k in (rw here calm, rw here rest)

clean_tests :
    (diverging multi all part : Bool)
    → (if diverging
        then day_diverges
        else if multi
        then day_inconsistent
        else if all
        then day_clean
        else if part
        then day_partial
        else day_pending)
      ≡ day_clean
    → (multi ≡ false) × (all ≡ true)
clean_tests true multi all part h = cc
clean_tests false true all part h = cc
clean_tests false false true part h = (refl, refl)
clean_tests false false false true h = cc
clean_tests false false false false h = cc

-- A day is clean only this way.
clean_only :
    (multi : Bool) (truth : Option ℤ) (bs : List Bucket)
    → day_state (map (grade multi truth) bs) multi ≡ day_clean
    → (bs ≢ []) × (multi ≡ false) × All Agrees bs
unfolding day_state
clean_only true truth [] h = cc
clean_only false truth [] h = cc
clean_only multi truth (b ∷ bs) h =
    let gs = map (grade multi truth) (b ∷ bs) in
    let (single, all) = clean_tests (any_status is_diverge gs) multi (all_status is_agree gs) _ h in
    (λ e. cc, single, Agrees-of_clean multi truth (b ∷ bs) all)

clean_if :
    (truth : Option ℤ) (bs : List Bucket)
    → bs ≢ []
    → All Agrees bs
    → day_state (map (grade false truth) bs) false ≡ day_clean
unfolding day_state
clean_if truth [] n h = absurd (n refl)
clean_if truth (b ∷ bs) n h =
    let (calm, all) = clean_of_Agrees truth (b ∷ bs) h in rw (calm, all) refl

inconsistent_if :
    (truth : Option ℤ) (bs : List Bucket)
    → day_state (map (grade true truth) bs) true ≡ day_inconsistent
unfolding day_state
inconsistent_if truth [] = refl
inconsistent_if truth (b ∷ bs) = rw (no_diverge_when_multi truth (b ∷ bs)) refl

-- A bucket is said to agree only if both venues settled on one side, and both legs then stand alike to the
-- report; it is said to diverge only if they settled on different sides, and the legs then stand to it in
-- opposite ways, if it is known. Where it is known, and the bucket has a bound, the leg of a settled Kalshi market
-- matches exactly if the maximum is within the bounds for YES, or outside them for NO. The day is flagged exactly
-- if polymarket settled two buckets YES; it is inconsistent then, whatever else there is. A day is clean exactly
-- if it has a bucket, no two such outcomes, and both venues settled on one side in each bucket.
pub classify_day_lem :
    (bs : List Bucket) (truth : Option ℤ)
    → let (gs, multi) = classify_day bs truth in
      All (IsGraded truth) gs
      × ((multi ≡ true) ↔ TwoYes bs)
      × (TwoYes bs → day_state gs multi ≡ day_inconsistent)
      × ((day_state gs multi ≡ day_clean) ↔ ((bs ≢ []) × (¬ TwoYes bs) × All Agrees bs))
unfolding classify_day
classify_day_lem bs truth =
    let two = multi_iff bs in
    (
      All-IsGraded (pm_multi_yes bs) truth bs,
      two,
      λ h.
          subst (λ m. day_state (map (grade m truth) bs) m ≡ day_inconsistent) (sym (two.1 h))
            (inconsistent_if truth bs),
      (
        λ c.
            let (n, single, a) = clean_only (pm_multi_yes bs) truth bs c in
            (n, λ t. cc (sym (two.1 t) ∙ single), a),
        λ (n, t, a).
            subst (λ m. day_state (map (grade m truth) bs) m ≡ day_clean)
              (sym (not_true (pm_multi_yes bs) (λ e. t (two.0 e)))) (clean_if truth bs n a),
      ),
    )
