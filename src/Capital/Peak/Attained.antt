-- ===== src/Capital/Peak/Attained.antt =====
-- The peak of `peak_and_avg` is the largest amount that is held at one time.
use cross_arb.Prelude.{
  ◌≡◌, ◌⊎◌, refl, sym, ap, subst, ◌∙◌, true, false, ◌&&◌, ◌||◌, List, [], ◌∷◌, All, inl, inr,
  Bool-cases, if◌then◌else◌, arith,
}
use cross_arb.Prelude.Int.{
  ℤ, pos, ◌+ℤ◌, ◌-ℤ◌, ◌*ℤ◌, ◌≤ℤ◌, ◌<ℤ◌, pos_part, neg_part, ltb_ℤ, leb_ℤ, eqb_ℤ, max_ℤ, int_laws,
  eq_of_parts, +ℤ_parts,
}
use cross_arb.Capital.Peak.{
  Interval, Event, end_of, events, before, insert_event, sort, scan, profile_of, profile,
  peak_and_avg,
}
use cross_arb.Capital.Peak.Order.{IsSorted, sort-IsSorted}

-- What an event adds up to the moment t, the locks at t among them and the releases at t not.
abbrev weight : ℤ → Event → ℤ
weight t (u, da) = if ltb_ℤ u t || eqb_ℤ u t && ltb_ℤ (pos 0) da then da else pos 0

weights : ℤ → List Event → ℤ
weights t [] = pos 0
weights t (x ∷ xs) = weight t x +ℤ weights t xs

weights-insert_event :
    (t : ℤ) (x : Event) (ys : List Event)
    → weights t (insert_event x ys) ≡ weight t x +ℤ weights t ys
unfolding insert_event weights
weights-insert_event t x [] = refl
weights-insert_event t x (y ∷ ys) = elim (Bool-cases (before x y)) [
  | inl first ↦ rw first refl
  | inr later ↦ rw (later, weights-insert_event t x ys) (omega int_laws)
]

weights-sort : (t : ℤ) (xs : List Event) → weights t (sort xs) ≡ weights t xs
unfolding sort weights
weights-sort t [] = refl
weights-sort t (x ∷ xs) =
    weights-insert_event t x (sort xs) ∙ ap (λ w. weight t x +ℤ w) (weights-sort t xs)

-- Behind an event that does not count by t none does.
weights_behind :
    (t : ℤ) (x : Event) (ys : List Event)
    → (ltb_ℤ x.0 t || eqb_ℤ x.0 t && ltb_ℤ (pos 0) x.1) ≡ false
    → All (λ y. before x y ≡ true) ys
    → weights t ys ≡ pos 0
unfolding weights
weights_behind t x [] h a = refl
weights_behind t x (y ∷ ys) h a = rw (behind, weights_behind t x ys h a.1) (omega int_laws)
  where
    behind : (ltb_ℤ y.0 t || eqb_ℤ y.0 t && ltb_ℤ (pos 0) y.1) ≡ false
    behind = ground (arith, a.0, eq_of_parts x.0 y.0)

max_ℤ_left : (a b : ℤ) → a ≤ℤ max_ℤ a b
max_ℤ_left a b = ground arith

max_ℤ_right : (a b : ℤ) → b ≤ℤ max_ℤ a b
max_ℤ_right a b = ground arith

scan_keeps : (evs : List Event) (cur peak area last : ℤ) → peak ≤ℤ (scan evs cur peak area last).0
unfolding scan
scan_keeps [] cur peak area last = omega arith
scan_keeps ((u, da) ∷ evs) cur peak area last = omega (
  arith,
  scan_keeps evs (cur +ℤ da) (max_ℤ peak (cur +ℤ da)) (area +ℤ cur *ℤ (u -ℤ last)) u,
  max_ℤ_left peak (cur +ℤ da),
)

-- The peak is at least the amount at each moment.
scan_covers :
    (t : ℤ) (evs : List Event) (cur peak area last : ℤ)
    → IsSorted evs
    → cur ≤ℤ peak
    → cur +ℤ weights t evs ≤ℤ (scan evs cur peak area last).0
unfolding scan weights
scan_covers t [] cur peak area last s h = omega int_laws
scan_covers t ((u, da) ∷ evs) cur peak area last (a, s) h =
    elim (Bool-cases (ltb_ℤ u t || eqb_ℤ u t && ltb_ℤ (pos 0) da)) [
      | inl counts ↦ rw counts (
          omega (
            int_laws,
            scan_covers t evs (cur +ℤ da) (max_ℤ peak (cur +ℤ da)) (area +ℤ cur *ℤ (u -ℤ last)) u s
                (max_ℤ_right peak (cur +ℤ da)),
          ))
      | inr not_yet ↦
          rw (not_yet, weights_behind t (u, da) evs not_yet a)
            (omega (
              int_laws,
              scan_keeps evs (cur +ℤ da) (max_ℤ peak (cur +ℤ da)) (area +ℤ cur *ℤ (u -ℤ last)) u,
              max_ℤ_left peak (cur +ℤ da),
            ))
    ]

weight_bound : (t v da : ℤ) → v ≤ℤ t → da ≤ℤ weight t (v, da)
weight_bound t v da h = ground (arith, eq_of_parts v t)

-- At the moment of an event the later ones count only if they lock.
weights_after :
    (x : Event) (ys : List Event) → All (λ y. before x y ≡ true) ys → pos 0 ≤ℤ weights x.0 ys
unfolding weights
weights_after x [] a = omega arith
weights_after x (y ∷ ys) a = omega (int_laws, counted, weights_after x ys a.1)
  where
    counted : pos 0 ≤ℤ weight x.0 y
    counted = ground (arith, a.0)

All-later :
    (x : Event) (ys : List Event) → All (λ y. before x y ≡ true) ys → All (λ y. x.0 ≤ℤ y.0) ys
All-later x [] a = tt
All-later x (y ∷ ys) a = (ground (arith, a.0), All-later x ys a.1)

-- It is the one before, or the amount at a moment from `u` on.
scan_attained :
    (u : ℤ) (evs : List Event) (cur peak area last : ℤ)
    → IsSorted evs
    → All (λ e. u ≤ℤ e.0) evs
    → cur ≤ℤ peak
    → ((scan evs cur peak area last).0 ≡ peak)
      ⊎ ((t : ℤ) × (u ≤ℤ t) × ((scan evs cur peak area last).0 ≤ℤ cur +ℤ weights t evs))
unfolding scan weights
scan_attained u [] cur peak area last s l h = inl refl
scan_attained u ((v, da) ∷ evs) cur peak area last (a, s) (lv, l) h =
    let high = max_ℤ peak (cur +ℤ da) in
    elim (scan_attained v evs (cur +ℤ da) high (area +ℤ cur *ℤ (v -ℤ last)) v s
      (All-later (v, da) evs a) (max_ℤ_right peak (cur +ℤ da))) [
        | inl e ↦ elim (Bool-cases (ltb_ℤ peak (cur +ℤ da))) [
          | inl higher ↦ inr (
            v,
            lv,
            subst (λ p. p ≤ℤ cur +ℤ weights v ((v, da) ∷ evs))
                (sym (e ∙ ap (λ b. if b then cur +ℤ da else peak) higher))
                (omega (int_laws, weight_bound v v da (omega arith), weights_after (v, da) evs a)),
          )
          | inr lower ↦ inl (e ∙ ap (λ b. if b then cur +ℤ da else peak) lower)
        ]
        | inr (t, vt, b) ↦
            inr (t, omega (arith, vt, lv), omega (int_laws, b, weight_bound t v da vt))
      ]

-- The amount that is held at the moment t, from the start of an interval to its end, both included.
pub held : ℤ → List Interval → ℤ
held t [] = pos 0
held t (i ∷ is) = (if leb_ℤ i.start t && leb_ℤ t (end_of i) then i.amount else pos 0) +ℤ held t is

end_of_later : (i : Interval) → i.start <ℤ end_of i
end_of_later i = ground (arith, +ℤ_parts i.start (pos 1000))

-- A lock and its release, with the release not counted at its own moment.
weight_pair :
    (t s e a : ℤ)
    → s <ℤ e
    → pos 0 ≤ℤ a
    → weight t (s, a) +ℤ weight t (e, pos 0 -ℤ a) ≡ (if leb_ℤ s t && leb_ℤ t e then a else pos 0)
unfolding ◌+ℤ◌ ◌-ℤ◌
weight_pair t s e a h n = ground arith

weight-events :
    (t : ℤ) (is : List Interval)
    → All (λ i. pos 0 ≤ℤ i.amount) is
    → weights t (events is) ≡ held t is
unfolding weights events held
weight-events t [] h = refl
weight-events t (i ∷ is) h = omega (
  int_laws,
  ap pos_part (weight_pair t i.start (end_of i) i.amount (end_of_later i) h.0),
  ap neg_part (weight_pair t i.start (end_of i) i.amount (end_of_later i) h.0),
  ap pos_part (weight-events t is h.1),
  ap neg_part (weight-events t is h.1),
)

profile_of-attained :
    (evs : List Event)
    → IsSorted evs
    → ((t : ℤ) → weights t evs ≤ℤ (profile_of evs).peak)
      × ((profile_of evs).peak ≡ pos 0 ⊎ ((t : ℤ) × ((profile_of evs).peak ≡ weights t evs)))
unfolding profile_of weights
profile_of-attained [] s = (λ t. omega arith, inl refl)
profile_of-attained ((u, da) ∷ evs) s =
    let covers =
      λ (t : ℤ). scan_covers t ((u, da) ∷ evs) (pos 0) (pos 0) (pos 0) u s (omega arith) in
    (
      λ t. omega (int_laws, covers t),
      elim (scan_attained u ((u, da) ∷ evs) (pos 0) (pos 0) (pos 0) u s
          (omega arith, All-later (u, da) evs s.0) (omega arith)) [
            | inl none ↦ inl none
            | inr (t, h, b) ↦ inr (t, omega (int_laws, b, covers t))
          ],
    )

-- Where no amount is negative the peak is never below what is held at any one moment, and unless it is
-- nothing it is held at some moment: an interval that ends when another starts still counts with it.
pub peak_attained :
    (is : List Interval)
    → All (λ i. pos 0 ≤ℤ i.amount) is
    → ((t : ℤ) → held t is ≤ℤ (peak_and_avg is).0)
      × ((peak_and_avg is).0 ≡ pos 0 ⊎ ((t : ℤ) × ((peak_and_avg is).0 ≡ held t is)))
unfolding peak_and_avg profile
peak_attained is h =
    let sum = λ (t : ℤ). weights-sort t (events is) ∙ weight-events t is h in
    let (covers, attained) = profile_of-attained (sort (events is)) (sort-IsSorted (events is)) in
    (
      λ t. subst (λ w. w ≤ℤ (profile is).peak) (sum t) (covers t),
      elim attained [ inl none ↦ inl none | inr (t, e) ↦ inr (t, e ∙ sum t) ],
    )
