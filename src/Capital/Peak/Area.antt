-- ===== src/Capital/Peak/Area.antt =====
-- The area of `peak_and_avg` is what each interval holds, times how long it holds it.
use cross_arb.Prelude.{◌≡◌, refl, ap, ◌∙◌, List, [], ◌∷◌, Bool-cases, inl, inr, arith}
use cross_arb.Prelude.Int.{
  ℤ, pos, pos_part, neg_part, ◌+ℤ◌, ◌-ℤ◌, ◌*ℤ◌, max_ℤ, int_laws, *ℤ_sub, add_*ℤ, sub_*ℤ,
}
use cross_arb.Capital.Peak.{
  Interval, Event, end_of, events, before, insert_event, sort, scan, last_time, profile_of, profile,
}

-- The sum of the changes, each times what is left of the time until `end`.
moments : ℤ → List Event → ℤ
moments end [] = pos 0
moments end ((t, da) ∷ evs) = da *ℤ (end -ℤ t) +ℤ moments end evs

moments-insert_event :
    (end : ℤ) (x : Event) (ys : List Event) → moments end (insert_event x ys) ≡ moments end (x ∷ ys)
unfolding insert_event moments
moments-insert_event end x [] = refl
moments-insert_event end x (y ∷ ys) = elim (Bool-cases (before x y)) [
  | inl first ↦ rw first refl
  | inr later ↦ rw (later, moments-insert_event end x ys) (omega int_laws)
]

moments-sort : (end : ℤ) (xs : List Event) → moments end (sort xs) ≡ moments end xs
unfolding sort moments
moments-sort end [] = refl
moments-sort end (x ∷ xs) =
    moments-insert_event end x (sort xs) ∙ ap (λ m. x.1 *ℤ (end -ℤ x.0) +ℤ m) (moments-sort end xs)

-- The times telescope.
held_split :
    (cur da u last end : ℤ)
    → cur *ℤ (u -ℤ last) +ℤ (cur +ℤ da) *ℤ (end -ℤ u) ≡ cur *ℤ (end -ℤ last) +ℤ da *ℤ (end -ℤ u)
held_split cur da u last end =
    rw (add_*ℤ cur da (end -ℤ u), *ℤ_sub cur u last, *ℤ_sub cur end u, *ℤ_sub cur end last)
      (omega int_laws)

*ℤ_self : (cur t : ℤ) → cur *ℤ (t -ℤ t) ≡ pos 0
*ℤ_self cur t = *ℤ_sub cur t t ∙ omega int_laws

scan_area :
    (evs : List Event) (cur peak area last : ℤ)
    → (scan evs cur peak area last).1
      ≡ area +ℤ cur *ℤ (last_time last evs -ℤ last) +ℤ moments (last_time last evs) evs
unfolding scan last_time moments
scan_area [] cur peak area last = rw (*ℤ_self cur last) (omega int_laws)
scan_area ((u, da) ∷ evs) cur peak area last =
    scan_area evs (cur +ℤ da) (max_ℤ peak (cur +ℤ da)) (area +ℤ cur *ℤ (u -ℤ last)) u
    ∙ omega (int_laws, ap pos_part split, ap neg_part split)
  where
    split :
        cur *ℤ (u -ℤ last) +ℤ (cur +ℤ da) *ℤ (last_time u evs -ℤ u)
        ≡ cur *ℤ (last_time u evs -ℤ last) +ℤ da *ℤ (last_time u evs -ℤ u)
    split = held_split cur da u last (last_time u evs)

-- The sum over the intervals of amount times duration.
pub held_time : List Interval → ℤ
held_time [] = pos 0
held_time (i ∷ is) = i.amount *ℤ (end_of i -ℤ i.start) +ℤ held_time is

zero_*ℤ : (x : ℤ) → pos 0 *ℤ x ≡ pos 0
unfolding ◌*ℤ◌
zero_*ℤ x = ground arith

interval_moment : (a s e end : ℤ) → a *ℤ (end -ℤ s) +ℤ (pos 0 -ℤ a) *ℤ (end -ℤ e) ≡ a *ℤ (e -ℤ s)
interval_moment a s e end =
    rw
      (
        sub_*ℤ (pos 0) a (end -ℤ e),
        zero_*ℤ (end -ℤ e),
        *ℤ_sub a end s,
        *ℤ_sub a end e,
        *ℤ_sub a e s,
      )
      (omega int_laws)

moments-events : (end : ℤ) (is : List Interval) → moments end (events is) ≡ held_time is
unfolding moments events held_time
moments-events end [] = refl
moments-events end (i ∷ is) =
    let whole = interval_moment i.amount i.start (end_of i) end in
    rw (moments-events end is) (omega (int_laws, ap pos_part whole, ap neg_part whole))

profile_of-area : (evs : List Event) → (end : ℤ) × ((profile_of evs).area ≡ moments end evs)
unfolding profile_of moments
profile_of-area [] = (pos 0, refl)
profile_of-area ((t, da) ∷ evs) =
    let end = last_time t ((t, da) ∷ evs) in
    (
      end,
      scan_area ((t, da) ∷ evs) (pos 0) (pos 0) (pos 0) t
          ∙ ap (λ z. pos 0 +ℤ z +ℤ moments end ((t, da) ∷ evs)) (zero_*ℤ (end -ℤ t))
          ∙ omega int_laws,
    )

-- The area under the held amount, which is averaged over the span of the events, is the sum over the
-- intervals of the amount times the time that it is held, whatever the order of the events.
pub area-eq-held_time : (is : List Interval) → (profile is).area ≡ held_time is
unfolding profile
area-eq-held_time is =
    let (end, area) = profile_of-area (sort (events is)) in
    area ∙ moments-sort end (events is) ∙ moments-events end is
