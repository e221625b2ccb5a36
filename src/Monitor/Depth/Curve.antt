-- ===== src/Monitor/Depth/Curve.antt =====
-- The walk down both ladders ends, and its totals are sizes that both ladders can fill.
use cross_arb.Prelude.{
  ℕ, zero, suc, ◌+◌, ◌≡◌, refl, sym, ap, subst, ◌∙◌, int_keys, insert, some, List, [], ◌∷◌, length,
  arith, All, Bool-cases, some_eq, inl, inr,
}
use cross_arb.Prelude.Int.{
  ℤ, pos, pos_part, neg_part, ◌-ℤ◌, ◌≤ℤ◌, ◌<ℤ◌, leb_ℤ, ltb_ℤ, min_ℤ, int_laws,
}
use cross_arb.Ledger.Units.{one}
use cross_arb.Monitor.Depth.{
  Pairs, Totals, add_step, min_threshold, head_qty, advance, refill, walk, zeros, depth_curve,
}
use cross_arb.Monitor.Depth.Walk.{
  walk_total, total, IsFilled, remaining, remaining-head, remaining-advance, total_nonneg, Within,
  add_each-Within, IsNested, add_each-IsNested, HasKeys, IsFalling, below_other, add_step-each,
  add_each-HasKeys,
}

min_bounds :
    (x y : ℤ) → pos 0 ≤ℤ x → pos 0 ≤ℤ y → (min_ℤ x y ≤ℤ x) × (min_ℤ x y ≤ℤ y) × (pos 0 ≤ℤ min_ℤ x y)
min_bounds x y h k = ground arith

-- The loop invariant: totals in order, and within the sizes of both ladders with what is left of them.
record IsWalk (a_size b_size : ℤ) (ts : List ℤ) (xs ys : Pairs) (x y : ℤ) (out : Totals)
    : Type 0 where
  a_filled : IsFilled xs
  b_filled : IsFilled ys
  a_rem : pos 0 ≤ℤ x
  b_rem : pos 0 ≤ℤ y
  a_within : Within a_size (remaining xs x) out
  b_within : Within b_size (remaining ys y) out
  nested : IsNested out
  keyed : HasKeys ts out

-- What holds of the totals at the end.
abbrev pub Fits : ℤ → ℤ → List ℤ → Totals → Type 0
Fits a_size b_size ts out =
    HasKeys ts out
    × All (λ e. (pos 0 ≤ℤ e.1) × (e.1 ≤ℤ a_size) × (e.1 ≤ℤ b_size)) out
    × IsNested out

advance-IsFilled : (a : ℤ × ℤ) (xs : Pairs) (r : ℤ) → IsFilled (a ∷ xs) → IsFilled (advance xs a r)
advance-IsFilled a xs r h = elim (Bool-cases (leb_ℤ r (pos 0))) [
  | inl used ↦ rw used h.1
  | inr left ↦ rw left h
]

refill_nonneg : (xs : Pairs) (r : ℤ) → IsFilled xs → pos 0 ≤ℤ r → pos 0 ≤ℤ refill xs r
unfolding head_qty
refill_nonneg [] r h p = ground arith
refill_nonneg (a ∷ xs) r h p = ground arith

IsWalk-step :
    (a_size b_size : ℤ) (ts : List ℤ) (a b : ℤ × ℤ) (xs ys : Pairs) (x y edge : ℤ) (out : Totals)
    → IsFalling ts
    → IsWalk a_size b_size ts (a ∷ xs) (b ∷ ys) x y out
    → IsWalk a_size b_size ts
        (advance xs a (x -ℤ min_ℤ x y))
        (advance ys b (y -ℤ min_ℤ x y))
        (refill xs (x -ℤ min_ℤ x y))
        (refill ys (y -ℤ min_ℤ x y))
        (add_step edge (min_ℤ x y) ts out)
IsWalk-step a_size b_size ts a b xs ys x y edge out f w =
    subst
      (IsWalk a_size b_size ts (advance xs a (x -ℤ m)) (advance ys b (y -ℤ m)) (refill xs (x -ℤ m))
        (refill ys (y -ℤ m)))
      (sym (add_step-each edge m ts out f w.keyed))
      (record {
        a_filled = advance-IsFilled a xs (x -ℤ m) w.a_filled;
        b_filled = advance-IsFilled b ys (y -ℤ m) w.b_filled;
        a_rem = refill_nonneg xs (x -ℤ m) w.a_filled.1 (omega (int_laws, small.0));
        b_rem = refill_nonneg ys (y -ℤ m) w.b_filled.1 (omega (int_laws, small.1));
        a_within =
            add_each-Within a_size (remaining (a ∷ xs) x)
              (remaining (advance xs a (x -ℤ m)) (refill xs (x -ℤ m))) edge m out small.2
              (remaining-advance a xs x m small.0) w.a_within;
        b_within =
            add_each-Within b_size (remaining (b ∷ ys) y)
              (remaining (advance ys b (y -ℤ m)) (refill ys (y -ℤ m))) edge m out small.2
              (remaining-advance b ys y m small.1) w.b_within;
        nested = add_each-IsNested edge m out small.2 w.nested;
        keyed = add_each-HasKeys edge m ts out w.keyed;
      })
  where
    m : ℤ
    m = min_ℤ x y

    small : (m ≤ℤ x) × (m ≤ℤ y) × (pos 0 ≤ℤ m)
    small = min_bounds x y w.a_rem w.b_rem

Within-both :
    (a_size b_size a_left b_left : ℤ) (out : Totals)
    → pos 0 ≤ℤ a_left
    → pos 0 ≤ℤ b_left
    → Within a_size a_left out
    → Within b_size b_left out
    → All (λ e. (pos 0 ≤ℤ e.1) × (e.1 ≤ℤ a_size) × (e.1 ≤ℤ b_size)) out
Within-both a_size b_size a_left b_left [] h k u v = tt
Within-both a_size b_size a_left b_left (e ∷ out) h k u v =
    (omega (int_laws, u.0, v.0), Within-both a_size b_size a_left b_left out h k u.1 v.1)

remaining_nonneg : (xs : Pairs) (x : ℤ) → IsFilled xs → pos 0 ≤ℤ x → pos 0 ≤ℤ remaining xs x
remaining_nonneg [] x h p = p
remaining_nonneg (a ∷ xs) x h p = omega (int_laws, total_nonneg xs h.1)

IsWalk-Fits :
    (a_size b_size : ℤ) (ts : List ℤ) (xs ys : Pairs) (x y : ℤ) (out : Totals)
    → IsWalk a_size b_size ts xs ys x y out
    → Fits a_size b_size ts out
IsWalk-Fits a_size b_size ts xs ys x y out w = (
  w.keyed,
  Within-both a_size b_size (remaining xs x) (remaining ys y) out
      (remaining_nonneg xs x w.a_filled w.a_rem) (remaining_nonneg ys y w.b_filled w.b_rem)
      w.a_within w.b_within,
  w.nested,
)

walk-Fits :
    (fuel : ℕ) (lo a_size b_size : ℤ) (ts : List ℤ) (xs ys : Pairs) (x y : ℤ) (out r : Totals)
    → IsFalling ts
    → IsWalk a_size b_size ts xs ys x y out
    → walk fuel lo ts xs ys x y out ≡ some r
    → Fits a_size b_size ts r
unfolding walk
walk-Fits zero lo a_size b_size ts xs ys x y out r f w e = cc
walk-Fits (suc fuel) lo a_size b_size ts [] ys x y out r f w e =
    subst (Fits a_size b_size ts) (some_eq e) (IsWalk-Fits a_size b_size ts [] ys x y out w)
walk-Fits (suc fuel) lo a_size b_size ts (a ∷ xs) [] x y out r f w e =
    subst (Fits a_size b_size ts) (some_eq e) (IsWalk-Fits a_size b_size ts (a ∷ xs) [] x y out w)
walk-Fits (suc fuel) lo a_size b_size ts (a ∷ xs) (b ∷ ys) x y out r f w e =
    elim (Bool-cases (ltb_ℤ (one -ℤ a.0 -ℤ b.0) lo)) [
      | inl thin ↦
          subst (Fits a_size b_size ts) (some_eq (rw thin at e))
            (IsWalk-Fits a_size b_size ts (a ∷ xs) (b ∷ ys) x y out w)
      | inr rich ↦ elim (Bool-cases (leb_ℤ (min_ℤ x y) (pos 0))) [
        | inl nothing ↦
            subst (Fits a_size b_size ts) (some_eq (rw (rich, nothing) at e))
              (IsWalk-Fits a_size b_size ts (a ∷ xs) (b ∷ ys) x y out w)
        | inr some_left ↦
            walk-Fits fuel lo a_size b_size ts (advance xs a (x -ℤ min_ℤ x y))
              (advance ys b (y -ℤ min_ℤ x y)) (refill xs (x -ℤ min_ℤ x y))
              (refill ys (y -ℤ min_ℤ x y)) (add_step (one -ℤ a.0 -ℤ b.0) (min_ℤ x y) ts out) r f
              (IsWalk-step a_size b_size ts a b xs ys x y (one -ℤ a.0 -ℤ b.0) out f w)
              (rw (rich, some_left) at e)
      ]
    ]

-- The totals before the walk.
blank : List ℤ → Totals
blank [] = []
blank (t ∷ ts) = (t, pos 0) ∷ blank ts

zeros-head :
    (u q : ℤ) (ts : List ℤ) (out : Totals)
    → All (λ t. t <ℤ u) ts
    → zeros ts ((u, q) ∷ out) ≡ (u, q) ∷ zeros ts out
unfolding zeros insert
zeros-head u q [] out h = refl
zeros-head u q (t ∷ ts) out h =
    rw (below_other u t h.0) (zeros-head u q ts (insert t (pos 0) out) h.1)

zeros-blank : (ts : List ℤ) → IsFalling ts → zeros ts [] ≡ blank ts
unfolding zeros insert blank
zeros-blank [] f = refl
zeros-blank (t ∷ ts) f =
    zeros-head t (pos 0) ts [] f.0 ∙ ap (λ l. (t, pos 0) ∷ l) (zeros-blank ts f.1)

blank-HasKeys : (ts : List ℤ) → HasKeys ts (blank ts)
unfolding blank
blank-HasKeys [] = tt
blank-HasKeys (t ∷ ts) = (refl, blank-HasKeys ts)

blank-IsNested : (ts : List ℤ) → IsFalling ts → IsNested (blank ts)
unfolding blank
blank-IsNested [] h = tt
blank-IsNested (t ∷ []) h = tt
blank-IsNested (t ∷ t' ∷ ts) h = (omega (arith, h.0.0), omega arith, blank-IsNested (t' ∷ ts) h.1)

blank-Within : (size left : ℤ) (ts : List ℤ) → left ≤ℤ size → Within size left (blank ts)
unfolding blank
blank-Within size left [] h = tt
blank-Within size left (t ∷ ts) h = ((omega arith, omega int_laws), blank-Within size left ts h)

head_qty_nonneg : (xs : Pairs) → IsFilled xs → pos 0 ≤ℤ head_qty xs
unfolding head_qty
head_qty_nonneg [] h = omega arith
head_qty_nonneg (a ∷ xs) h = h.0

-- Over ladders of quantities that are not negative, and for thresholds from high to low of which none comes twice,
-- the walk ends. There is one total for each threshold, between nothing and the whole size of either ladder; and
-- the totals go from low to high, so a stricter edge never promises more pairs.
pub depth_curve-Fits :
    (xs ys : Pairs) (t : ℤ) (ts : List ℤ)
    → IsFilled xs
    → IsFilled ys
    → IsFalling (t ∷ ts)
    → (r : Totals) × (depth_curve xs ys t ts ≡ some r) × Fits (total xs) (total ys) (t ∷ ts) r
unfolding depth_curve
depth_curve-Fits xs ys t ts ha hb falling =
    let fuel = length xs + length ys + 1 in
    let lo = min_threshold t ts in
    let (r, e) =
      walk_total fuel lo (t ∷ ts) xs ys (head_qty xs) (head_qty ys) (zeros (t ∷ ts) [])
        (omega arith) in
    (
      r,
      e,
      walk-Fits fuel lo (total xs) (total ys) (t ∷ ts) xs ys (head_qty xs) (head_qty ys)
          (zeros (t ∷ ts) []) r falling
          (subst (IsWalk (total xs) (total ys) (t ∷ ts) xs ys (head_qty xs) (head_qty ys))
            (sym (zeros-blank (t ∷ ts) falling)) start)
          e,
    )
  where
    start : IsWalk (total xs) (total ys) (t ∷ ts) xs ys (head_qty xs) (head_qty ys) (blank (t ∷ ts))
    start = record {
      a_filled = ha;
      b_filled = hb;
      a_rem = head_qty_nonneg xs ha;
      b_rem = head_qty_nonneg ys hb;
      a_within =
          blank-Within (total xs) _ (t ∷ ts)
            (omega (arith, ap pos_part (remaining-head xs), ap neg_part (remaining-head xs)));
      b_within =
          blank-Within (total ys) _ (t ∷ ts)
            (omega (arith, ap pos_part (remaining-head ys), ap neg_part (remaining-head ys)));
      nested = blank-IsNested (t ∷ ts) falling;
      keyed = blank-HasKeys (t ∷ ts);
    }
