-- ===== src/Monitor/Depth/Walk.antt =====
-- One step of the walk down both ladders: it uses up a rung, and keeps the totals in order and in bounds.
use cross_arb.Prelude.{
  ℕ, zero, suc, ◌+◌, ◌<◌, ◌≡◌, refl, sym, ap, subst, ◌∙◌, false, some, List, [], ◌∷◌, ◌=?◌, =?_refl,
  int_keys, length, arith, All, if◌then◌else◌, Bool-cases, inl, inr,
}
use cross_arb.Prelude.Int.{
  ℤ, pos, ◌+ℤ◌, ◌-ℤ◌, ◌≤ℤ◌, ◌<ℤ◌, leb_ℤ, ltb_ℤ, min_ℤ, int_laws, leb_ℤ→≤ℤ, ≤ℤ→leb_ℤ,
}
use cross_arb.Ledger.Units.{one}
use cross_arb.Monitor.Depth.{Pairs, Totals, add_at, add_step, head_qty, advance, refill, walk}

-- At least one of the two sides is used up by a step.
length-advance :
    (xs ys : Pairs) (a b : ℤ × ℤ) (x y : ℤ)
    → length (advance xs a (x -ℤ min_ℤ x y)) + length (advance ys b (y -ℤ min_ℤ x y))
      < suc (length xs) + suc (length ys)
unfolding ◌-ℤ◌
length-advance xs ys a b x y = ground arith

pub walk_total :
    (fuel : ℕ) (lo : ℤ) (ts : List ℤ) (xs ys : Pairs) (x y : ℤ) (out : Totals)
    → length xs + length ys < fuel
    → (r : Totals) × (walk fuel lo ts xs ys x y out ≡ some r)
unfolding walk
walk_total zero lo ts xs ys x y out h = absurd (omega arith)
walk_total (suc fuel) lo ts [] ys x y out h = (out, refl)
walk_total (suc fuel) lo ts (a ∷ xs) [] x y out h = (out, refl)
walk_total (suc fuel) lo ts (a ∷ xs) (b ∷ ys) x y out h =
    elim (Bool-cases (ltb_ℤ (one -ℤ a.0 -ℤ b.0) lo)) [
      | inl thin ↦ (out, rw thin)
      | inr rich ↦ elim (Bool-cases (leb_ℤ (min_ℤ x y) (pos 0))) [
        | inl nothing ↦ (out, rw (rich, nothing))
        | inr some_left ↦
            rw (rich, some_left)
              (walk_total fuel lo ts (advance xs a (x -ℤ min_ℤ x y)) (advance ys b (y -ℤ min_ℤ x y))
                (refill xs (x -ℤ min_ℤ x y)) (refill ys (y -ℤ min_ℤ x y))
                (add_step (one -ℤ a.0 -ℤ b.0) (min_ℤ x y) ts out)
                (omega (arith, length-advance xs ys a b x y)))
      ]
    ]

abbrev pub total : Pairs → ℤ
total [] = pos 0
total ((p, q) ∷ xs) = q +ℤ total xs

-- Every rung holds a quantity that is not negative.
abbrev pub IsFilled : Pairs → Type 0
IsFilled = All (λ e. pos 0 ≤ℤ e.1)

-- What the first rung still holds, and the rungs behind it.
abbrev pub remaining : Pairs → ℤ → ℤ
remaining [] x = x
remaining (a ∷ xs) x = x +ℤ total xs

pub remaining-head : (xs : Pairs) → remaining xs (head_qty xs) ≡ total xs
unfolding head_qty
remaining-head [] = refl
remaining-head (a ∷ xs) = refl

pub remaining-advance :
    (a : ℤ × ℤ) (xs : Pairs) (x s : ℤ)
    → s ≤ℤ x
    → remaining (advance xs a (x -ℤ s)) (refill xs (x -ℤ s)) +ℤ s ≡ remaining (a ∷ xs) x
remaining-advance a xs x s h = elim (Bool-cases (leb_ℤ (x -ℤ s) (pos 0))) [
  | inl used ↦ rw (used, remaining-head) (omega (int_laws, leb_ℤ→≤ℤ (x -ℤ s) (pos 0) used))
  | inr left ↦ rw left (omega int_laws)
]

pub total_nonneg : (xs : Pairs) → IsFilled xs → pos 0 ≤ℤ total xs
total_nonneg [] h = omega arith
total_nonneg (a ∷ xs) h = omega (int_laws, total_nonneg xs h.1, h.0)

-- The totals and what remains of a ladder stay within its size.
abbrev pub Within : ℤ → ℤ → Totals → Type 0
Within size left = All (λ e. (pos 0 ≤ℤ e.1) × (e.1 +ℤ left ≤ℤ size))

-- What a step adds, where each threshold comes once.
pub add_each : ℤ → ℤ → Totals → Totals
add_each edge step [] = []
add_each edge step ((t, q) ∷ out) =
    (t, (if leb_ℤ t edge then q +ℤ step else q)) ∷ add_each edge step out

-- The totals have these keys, in this order.
abbrev pub HasKeys : List ℤ → Totals → Type 0
HasKeys [] [] = Unit
HasKeys (t ∷ ts) ((u, q) ∷ out) = (u ≡ t) × HasKeys ts out
HasKeys _ _ = ⊥

-- Thresholds from high to low, none of them twice.
abbrev pub IsFalling : List ℤ → Type 0
IsFalling [] = Unit
IsFalling (t ∷ ts) = All (λ u. u <ℤ t) ts × IsFalling ts

pub below_other : (t u : ℤ) → u <ℤ t → (t =? u) ≡ false
below_other t u h = ground (arith, int_keys.beq_iff t u)

add_step-head :
    (edge step u q : ℤ) (ts : List ℤ) (out : Totals)
    → All (λ t. t <ℤ u) ts
    → add_step edge step ts ((u, q) ∷ out) ≡ (u, q) ∷ add_step edge step ts out
unfolding add_step
add_step-head edge step u q [] out h = refl
add_step-head edge step u q (t ∷ ts) out h = elim (Bool-cases (leb_ℤ t edge)) [
  | inl counted ↦
      rw (counted, below_other u t h.0) (add_step-head edge step u q ts (add_at t step out) h.1)
  | inr passed ↦ rw passed (add_step-head edge step u q ts out h.1)
]

pub add_step-each :
    (edge step : ℤ) (ts : List ℤ) (out : Totals)
    → IsFalling ts
    → HasKeys ts out
    → add_step edge step ts out ≡ add_each edge step out
unfolding add_step add_each add_at
add_step-each edge step [] [] f k = refl
add_step-each edge step [] (e ∷ out) f k = elim k [ ]
add_step-each edge step (t ∷ ts) [] f k = elim k [ ]
add_step-each edge step (t ∷ ts) ((u, q) ∷ out) f k =
    let ih = add_step-each edge step ts out f.1 k.1 in
    subst (λ x. add_step edge step (t ∷ ts) ((x, q) ∷ out) ≡ add_each edge step ((x, q) ∷ out))
      (sym k.0)
      (elim (Bool-cases (leb_ℤ t edge)) [
        | inl counted ↦
            rw (counted, =?_refl t)
              (add_step-head edge step t (q +ℤ step) ts out f.0 ∙ ap (λ l. (t, q +ℤ step) ∷ l) ih)
        | inr passed ↦ rw passed (add_step-head edge step t q ts out f.0 ∙ ap (λ l. (t, q) ∷ l) ih)
      ])

pub add_each-HasKeys :
    (edge step : ℤ) (ts : List ℤ) (out : Totals)
    → HasKeys ts out
    → HasKeys ts (add_each edge step out)
unfolding add_each
add_each-HasKeys edge step [] [] k = tt
add_each-HasKeys edge step [] (e ∷ out) k = elim k [ ]
add_each-HasKeys edge step (t ∷ ts) [] k = elim k [ ]
add_each-HasKeys edge step (t ∷ ts) ((u, q) ∷ out) k = (k.0, add_each-HasKeys edge step ts out k.1)

-- A total after a step, within and above what it may be.
bump_bounds :
    (t q edge step : ℤ)
    → pos 0 ≤ℤ step
    → (q ≤ℤ (if leb_ℤ t edge then q +ℤ step else q))
      × ((if leb_ℤ t edge then q +ℤ step else q) ≤ℤ q +ℤ step)
bump_bounds t q edge step h = elim (Bool-cases (leb_ℤ t edge)) [
  | inl counted ↦ rw counted (omega int_laws, omega int_laws)
  | inr passed ↦ rw passed (omega int_laws, omega int_laws)
]

bump_mono :
    (e f : ℤ × ℤ) (edge step : ℤ)
    → pos 0 ≤ℤ step
    → f.0 ≤ℤ e.0
    → e.1 ≤ℤ f.1
    → (if leb_ℤ e.0 edge then e.1 +ℤ step else e.1) ≤ℤ (if leb_ℤ f.0 edge then f.1 +ℤ step else f.1)
bump_mono e f edge step h t q = elim (Bool-cases (leb_ℤ e.0 edge)) [
  | inl counted ↦
      rw (counted, ≤ℤ→leb_ℤ f.0 edge (omega (arith, leb_ℤ→≤ℤ e.0 edge counted))) (omega int_laws)
  | inr passed ↦ rw passed (omega (int_laws, bump_bounds f.0 f.1 edge step h))
]

pub add_each-Within :
    (size left left' edge step : ℤ) (out : Totals)
    → pos 0 ≤ℤ step
    → left' +ℤ step ≡ left
    → Within size left out
    → Within size left' (add_each edge step out)
unfolding add_each
add_each-Within size left left' edge step [] h e w = tt
add_each-Within size left left' edge step ((t, q) ∷ out) h e w =
    let b = bump_bounds t q edge step h in
    let w' : q +ℤ (left' +ℤ step) ≤ℤ size = rw e w.0.1 in
    (
      (omega (int_laws, b, w.0), omega (int_laws, b, w')),
      add_each-Within size left left' edge step out h e w.1,
    )

-- For thresholds from high to low the totals go from low to high.
abbrev pub IsNested : Totals → Type 0
IsNested [] = Unit
IsNested (e ∷ []) = Unit
IsNested (e ∷ f ∷ out) = (f.0 ≤ℤ e.0) × (e.1 ≤ℤ f.1) × IsNested (f ∷ out)

pub add_each-IsNested :
    (edge step : ℤ) (out : Totals)
    → pos 0 ≤ℤ step
    → IsNested out
    → IsNested (add_each edge step out)
unfolding add_each
add_each-IsNested edge step [] h n = tt
add_each-IsNested edge step (e ∷ []) h n = tt
add_each-IsNested edge step (e ∷ f ∷ out) h n =
    (n.0, bump_mono e f edge step h n.0 n.1, add_each-IsNested edge step (f ∷ out) h n.2)
