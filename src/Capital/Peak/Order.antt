-- ===== src/Capital/Peak/Order.antt =====
-- The events in the order of `peak_and_avg`.
use cross_arb.Prelude.{◌≡◌, true, false, List, [], ◌∷◌, All, inl, inr, Bool-cases, arith}
use cross_arb.Prelude.Int.{eq_of_parts}
use cross_arb.Capital.Peak.{Event, before, insert_event, sort}

abbrev pub IsSorted : List Event → Type 0
IsSorted [] = Unit
IsSorted (x ∷ xs) = All (λ y. before x y ≡ true) xs × IsSorted xs

before_total : (x y : Event) → before x y ≡ false → before y x ≡ true
before_total x y h = ground (arith, eq_of_parts x.0 y.0)

before_trans : (x y z : Event) → before x y ≡ true → before y z ≡ true → before x z ≡ true
before_trans x y z h k = ground (arith, eq_of_parts x.0 y.0)

All-before :
    (x y : Event) (ys : List Event)
    → before x y ≡ true
    → All (λ z. before y z ≡ true) ys
    → All (λ z. before x z ≡ true) ys
All-before x y [] h a = tt
All-before x y (z ∷ zs) h a = (before_trans x y z h a.0, All-before x y zs h a.1)

All-insert_event :
    (P : Event → Type 0) (x : Event) (ys : List Event) → P x → All P ys → All P (insert_event x ys)
unfolding insert_event
All-insert_event P x [] p a = (p, tt)
All-insert_event P x (y ∷ ys) p a = elim (Bool-cases (before x y)) [
  | inl first ↦ rw first (p, a)
  | inr later ↦ rw later (a.0, All-insert_event P x ys p a.1)
]

insert_event-IsSorted : (x : Event) (ys : List Event) → IsSorted ys → IsSorted (insert_event x ys)
unfolding insert_event
insert_event-IsSorted x [] h = (tt, tt)
insert_event-IsSorted x (y ∷ ys) h = elim (Bool-cases (before x y)) [
  | inl first ↦ rw first ((first, All-before x y ys first h.0), h)
  | inr later ↦
      rw later
        (All-insert_event _ x ys (before_total x y later) h.0, insert_event-IsSorted x ys h.1)
]

pub sort-IsSorted : (xs : List Event) → IsSorted (sort xs)
unfolding sort
sort-IsSorted [] = tt
sort-IsSorted (x ∷ xs) = insert_event-IsSorted x (sort xs) (sort-IsSorted xs)
