-- ===== src/Monitor/Live/Pmus/Waits.antt =====
-- The waits between the connections of a venue.
use mathlib.Core.Path.{ap₂}
use cross_arb.Prelude.{
  ℕ, zero, suc, ◌*◌, ◌^◌, ◌≤◌, ◌≡◌, refl, sym, ap, subst, ◌∙◌, Bool, true, false, List, [], ◌∷◌,
  String, ltb, if◌then◌else◌, arith, All,
}
use cross_arb.Monitor.Live.Pmus.{Round, Marker, backoff_of, next_backoff, supervise}

-- The least of a power of two and half a minute.
abbrev pub wait_of : ℕ → ℕ
wait_of n = if ltb 30 (2 ^ n) then 30 else 2 ^ n

-- For each connection the number of those since the last one that was subscribed, or since the start.
unfoldable pub failures : ℕ → List Round → List ℕ
failures n [] = []
failures n (r ∷ rs) = let k = if r.subscribed then 0 else n in k ∷ failures (suc k) rs

abbrev pub expected : String → List Round → List ℕ → List (Marker × ℕ)
expected venue (r ∷ rs) (k ∷ ks) =
    (record { venue = venue; reason = r.reason }, wait_of k) ∷ expected venue rs ks
expected venue _ _ = []

double : (n : ℕ) → 2 ^ suc n ≡ 2 ^ n * 2
double n = omega arith

next-wait_of : (n : ℕ) → next_backoff (wait_of n) ≡ wait_of (suc n)
next-wait_of n = ground (arith, double n)

reset-wait_of : (b : Bool) (n : ℕ) → (if b then 1 else wait_of n) ≡ wait_of (if b then 0 else n)
reset-wait_of true n = refl
reset-wait_of false n = refl

supervise-wait_of :
    (venue : String) (n : ℕ) (rs : List Round)
    → supervise venue (wait_of n) rs ≡ expected venue rs (failures n rs)
unfolding supervise failures
supervise-wait_of venue n [] = refl
supervise-wait_of venue n (r ∷ rs) =
    let k = if r.subscribed then 0 else n in
    let wait : backoff_of (wait_of n) r ≡ wait_of k = reset-wait_of r.subscribed n in
    ap₂ (λ b l. (record { venue = venue; reason = r.reason }, b) ∷ l) wait
      (ap (λ b. supervise venue b rs) (ap next_backoff wait ∙ next-wait_of k)
        ∙ supervise-wait_of venue (suc k) rs)

power_pos : (n : ℕ) → 1 ≤ 2 ^ n
power_pos zero = omega arith
power_pos (suc n) = omega (arith, power_pos n)

wait_of_bounds : (n : ℕ) → (1 ≤ wait_of n) × (wait_of n ≤ 30)
wait_of_bounds n = ground (arith, power_pos n)

expected_bounds :
    (venue : String) (rs : List Round) (ks : List ℕ)
    → All (λ x. (1 ≤ x.1) × (x.1 ≤ 30)) (expected venue rs ks)
expected_bounds venue [] ks = tt
expected_bounds venue (r ∷ rs) [] = tt
expected_bounds venue (r ∷ rs) (k ∷ ks) = (wait_of_bounds k, expected_bounds venue rs ks)

-- Over any connections, the markers are one for each, in order, with how it ended; and the wait behind each is two
-- to the number of connections since the last one that was subscribed, or since the start, and half a minute
-- where that is more: so never less than a second, and never more than half a minute.
pub supervise_lem :
    (venue : String) (rs : List Round)
    → (supervise venue 1 rs ≡ expected venue rs (failures 0 rs))
      × All (λ x. (1 ≤ x.1) × (x.1 ≤ 30)) (supervise venue 1 rs)
supervise_lem venue rs =
    let e = supervise-wait_of venue 0 rs in
    (
      e,
      subst (All (λ x. (1 ≤ x.1) × (x.1 ≤ 30))) (sym e) (expected_bounds venue rs (failures 0 rs)),
    )
