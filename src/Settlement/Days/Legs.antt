-- ===== src/Settlement/Days/Legs.antt =====
-- How `grade` judges the legs of one bucket.
use cross_arb.Prelude.{
  ◌⊎◌, inl, inr, ◌≡◌, ◌≢◌, ◌↔◌, refl, sym, subst, Bool, true, false, ◌&&◌, Option, none, some, List,
  [], ◌∷◌, map, All, if◌then◌else◌,
}
use cross_arb.Prelude.Int.{ℤ, ◌≤ℤ◌, leb_ℤ, leb_ℤ→≤ℤ, ≤ℤ→leb_ℤ}
use cross_arb.Settlement.Days.{
  Outcome, yes_side, no_side, Bucket, bucket_hit, Match, matched, mismatched, agree, diverge,
  GradedBucket, leg_vs_cli, status_of, grade,
}

abbrev pub flipped : Match → Match
flipped matched = mismatched
flipped mismatched = matched

abbrev pub flip_known : Option Match → Option Match
flip_known none = none
flip_known (some m) = some (flipped m)

-- Both venues settled, on the same side.
abbrev pub Agrees : Bucket → Type 0
Agrees b = (o : Outcome) × (b.pm_out ≡ some o) × (b.kal_result ≡ some o)

-- Both venues settled, on different sides.
abbrev pub Differs : Bucket → Type 0
Differs b = (o : Outcome) × (u : Outcome) × (b.pm_out ≡ some o) × (b.kal_result ≡ some u) × (o ≢ u)

abbrev pub AtLeast : Option ℤ → ℤ → Type 0
AtLeast none mx = Unit
AtLeast (some lo) mx = lo ≤ℤ mx

abbrev pub AtMost : Option ℤ → ℤ → Type 0
AtMost none mx = Unit
AtMost (some hi) mx = mx ≤ℤ hi

-- The maximum is within the bounds that the bucket has.
abbrev pub Inside : Bucket → ℤ → Type 0
Inside b mx = AtLeast b.lo mx × AtMost b.hi mx

abbrev pub IsBounded : Bucket → Type 0
IsBounded b = (b.lo ≢ none) ⊎ (b.hi ≢ none)

-- An outcome is what the report says.
abbrev pub Correct : Outcome → Bucket → ℤ → Type 0
Correct yes_side b mx = Inside b mx
Correct no_side b mx = ¬ Inside b mx

-- The status of a bucket on a day, and how its legs stand to the report: the Kalshi leg is known only against a
-- report, for a bucket with a bound and a market that settled, and then matches exactly if it is correct.
pub record IsGraded (truth : Option ℤ) (g : GradedBucket) : Type 0 where
  pub agrees : g.status ≡ agree → Agrees g.bucket × (g.pm_vs_cli ≡ g.kal_vs_cli)
  pub differs : g.status ≡ diverge → Differs g.bucket × (g.pm_vs_cli ≡ flip_known g.kal_vs_cli)
  pub unknown : truth ≡ none → g.kal_vs_cli ≡ none
  pub judged :
      (mx : ℤ) (o : Outcome)
      → truth ≡ some mx
      → IsBounded g.bucket
      → g.bucket.kal_result ≡ some o
      → (g.kal_vs_cli ≢ none) × ((g.kal_vs_cli ≡ some matched) ↔ Correct o g.bucket mx)

agree_lem :
    (multi : Bool) (po kr : Option Outcome) (hit : Option Bool)
    → status_of multi po kr ≡ agree
    → ((o : Outcome) × (po ≡ some o) × (kr ≡ some o))
      × ((if multi then none else leg_vs_cli po hit) ≡ leg_vs_cli kr hit)
agree_lem multi none kr hit h = cc
agree_lem multi (some po) none hit h = cc
agree_lem true (some po) (some kr) hit h = cc
agree_lem false (some yes_side) (some yes_side) hit h = ((yes_side, refl, refl), refl)
agree_lem false (some yes_side) (some no_side) hit h = cc
agree_lem false (some no_side) (some yes_side) hit h = cc
agree_lem false (some no_side) (some no_side) hit h = ((no_side, refl, refl), refl)

differ_lem :
    (multi : Bool) (po kr : Option Outcome) (hit : Option Bool)
    → status_of multi po kr ≡ diverge
    → ((o : Outcome) × (u : Outcome) × (po ≡ some o) × (kr ≡ some u) × (o ≢ u))
      × ((if multi then none else leg_vs_cli po hit) ≡ flip_known (leg_vs_cli kr hit))
differ_lem multi none kr hit h = cc
differ_lem multi (some po) none hit h = cc
differ_lem true (some po) (some kr) hit h = cc
differ_lem false (some yes_side) (some yes_side) hit h = cc
differ_lem false (some yes_side) (some no_side) none h =
    ((yes_side, no_side, refl, refl, λ e. cc), refl)
differ_lem false (some yes_side) (some no_side) (some true) h =
    ((yes_side, no_side, refl, refl, λ e. cc), refl)
differ_lem false (some yes_side) (some no_side) (some false) h =
    ((yes_side, no_side, refl, refl, λ e. cc), refl)
differ_lem false (some no_side) (some yes_side) none h =
    ((no_side, yes_side, refl, refl, λ e. cc), refl)
differ_lem false (some no_side) (some yes_side) (some true) h =
    ((no_side, yes_side, refl, refl, λ e. cc), refl)
differ_lem false (some no_side) (some yes_side) (some false) h =
    ((no_side, yes_side, refl, refl, λ e. cc), refl)
differ_lem false (some no_side) (some no_side) hit h = cc

pub both_true : (x y : Bool) → (x && y) ≡ true → (x ≡ true) × (y ≡ true)
both_true true y h = (refl, h)
both_true false y h = cc

-- What the test of the maximum against the bounds says.
hit_lem :
    (lo hi : Option ℤ) (mx : ℤ)
    → (lo ≢ none) ⊎ (hi ≢ none)
    → (h : Bool) × (bucket_hit lo hi (some mx) ≡ some h)
      × ((h ≡ true) ↔ (AtLeast lo mx × AtMost hi mx))
unfolding bucket_hit
hit_lem none none mx (inl h) = absurd (h refl)
hit_lem none none mx (inr h) = absurd (h refl)
hit_lem (some l) none mx h = (
  leb_ℤ l mx && true,
  refl,
  (λ e. (leb_ℤ→≤ℤ l mx (both_true _ true e).0, tt), λ k. rw (≤ℤ→leb_ℤ l mx k.0) refl),
)
hit_lem none (some u) mx h =
    (leb_ℤ mx u, refl, (λ e. (tt, leb_ℤ→≤ℤ mx u e), λ k. ≤ℤ→leb_ℤ mx u k.1))
hit_lem (some l) (some u) mx h = (
  leb_ℤ l mx && leb_ℤ mx u,
  refl,
  (
    λ e. let (a, b) = both_true (leb_ℤ l mx) _ e in (leb_ℤ→≤ℤ l mx a, leb_ℤ→≤ℤ mx u b),
    λ k. rw (≤ℤ→leb_ℤ l mx k.0, ≤ℤ→leb_ℤ mx u k.1) refl,
  ),
)

leg_lem :
    (b : Bucket) (mx : ℤ) (o : Outcome) (h : Bool)
    → ((h ≡ true) ↔ Inside b mx)
    → (leg_vs_cli (some o) (some h) ≢ none)
      × ((leg_vs_cli (some o) (some h) ≡ some matched) ↔ Correct o b mx)
leg_lem b mx yes_side true k = (λ e. cc, (λ e. k.0 refl, λ c. refl))
leg_lem b mx yes_side false k = (λ e. cc, (λ e. cc, λ c. cc (k.1 c)))
leg_lem b mx no_side true k = (λ e. cc, (λ e. cc, λ c. absurd (c (k.0 refl))))
leg_lem b mx no_side false k = (λ e. cc, (λ e i. cc (k.1 i), λ c. refl))

leg_unknown : (kr : Option Outcome) → leg_vs_cli kr none ≡ none
leg_unknown none = refl
leg_unknown (some o) = refl

judged_lem :
    (b : Bucket) (truth : Option ℤ) (mx : ℤ) (o : Outcome)
    → truth ≡ some mx
    → IsBounded b
    → b.kal_result ≡ some o
    → let leg = leg_vs_cli b.kal_result (bucket_hit b.lo b.hi truth) in
      (leg ≢ none) × ((leg ≡ some matched) ↔ Correct o b mx)
judged_lem b truth mx o e bounded k =
    let (h, hit, says) = hit_lem b.lo b.hi mx bounded in
    subst (λ leg. (leg ≢ none) × ((leg ≡ some matched) ↔ Correct o b mx))
      (sym (same_leg b.kal_result o k truth mx e h hit)) (leg_lem b mx o h says)
  where
    same_leg :
        (kr : Option Outcome) (o : Outcome)
        → kr ≡ some o
        → (t : Option ℤ) (mx : ℤ) → t ≡ some mx
        → (h : Bool) → bucket_hit b.lo b.hi (some mx) ≡ some h
        → leg_vs_cli kr (bucket_hit b.lo b.hi t) ≡ leg_vs_cli (some o) (some h)
    same_leg kr o k t mx e h hit = rw (k, e, hit) refl

unknown_lem :
    (b : Bucket) (truth : Option ℤ)
    → truth ≡ none
    → leg_vs_cli b.kal_result (bucket_hit b.lo b.hi truth) ≡ none
unfolding bucket_hit
unknown_lem b truth e = rw e (leg_unknown b.kal_result)

pub grade-IsGraded :
    (multi : Bool) (truth : Option ℤ) (b : Bucket) → IsGraded truth (grade multi truth b)
unfolding grade
grade-IsGraded multi truth b = record {
  agrees = agree_lem multi b.pm_out b.kal_result (bucket_hit b.lo b.hi truth);
  differs = differ_lem multi b.pm_out b.kal_result (bucket_hit b.lo b.hi truth);
  unknown = unknown_lem b truth;
  judged = λ mx o. judged_lem b truth mx o;
}

pub All-IsGraded :
    (multi : Bool) (truth : Option ℤ) (bs : List Bucket)
    → All (IsGraded truth) (map (grade multi truth) bs)
All-IsGraded multi truth [] = tt
All-IsGraded multi truth (b ∷ bs) = (grade-IsGraded multi truth b, All-IsGraded multi truth bs)
