-- ===== src/Kalshi/Book/Order.antt =====
-- The ladders that bot/kalshi_book.py hands to the monitor are in order, and `best` is their top.
use mathlib.Core.List.{Perm}
use mathlib.Core.List.Perm
use cross_arb.Prelude.{
  ◌≡◌, refl, sym, ap, ◌∙◌, Option, none, some, List, [], ◌∷◌, map, arith, inl, inr, Bool-cases,
}
use cross_arb.Prelude.Int.{ℤ, ◌≤ℤ◌, max_ℤ, int_laws, eq_of_parts}
use cross_arb.Kalshi.Book.{
  KalshiBook, Levels, above, insert_sorted, sorted_desc, yes_bid_ladder, yes_offer_ladder,
  reciprocal, max_price, ask_of, best, offer_pairs,
}

-- The price of the first rung, if there is one.
abbrev pub first_price : List (ℤ × ℤ) → Option ℤ
first_price [] = none
first_price ((p, q) ∷ xs) = some p

-- Each rung is priced at or below the one before it (for asks: at or above).
abbrev pub IsDescending : List (ℤ × ℤ) → Type 0
IsDescending [] = Unit
IsDescending (x ∷ []) = Unit
IsDescending (x ∷ y ∷ xs) = (y.0 ≤ℤ x.0) × IsDescending (y ∷ xs)

abbrev pub IsAscending : List (ℤ × ℤ) → Type 0
IsAscending [] = Unit
IsAscending (x ∷ []) = Unit
IsAscending (x ∷ y ∷ xs) = (x.0 ≤ℤ y.0) × IsAscending (y ∷ xs)

insert_sorted-IsDescending :
    (e : ℤ × ℤ) (xs : List (ℤ × ℤ)) → IsDescending xs → IsDescending (insert_sorted e xs)
unfolding insert_sorted
insert_sorted-IsDescending e [] h = tt
insert_sorted-IsDescending e (x ∷ []) h = ground arith
insert_sorted-IsDescending e (x ∷ y ∷ xs) h =
    ground (arith, insert_sorted-IsDescending e (y ∷ xs) h.1)

sorted_desc-IsDescending : (xs : List (ℤ × ℤ)) → IsDescending (sorted_desc xs)
unfolding sorted_desc
sorted_desc-IsDescending [] = tt
sorted_desc-IsDescending (x ∷ xs) =
    insert_sorted-IsDescending x (sorted_desc xs) (sorted_desc-IsDescending xs)

insert_sorted-perm : (e : ℤ × ℤ) (xs : List (ℤ × ℤ)) → Perm (insert_sorted e xs) (e ∷ xs)
unfolding insert_sorted
insert_sorted-perm e [] = Perm.refl (e ∷ [])
insert_sorted-perm e (x ∷ xs) = elim (Bool-cases (above e x)) [
  | inl first ↦ rw first (Perm.refl (e ∷ x ∷ xs))
  | inr later ↦ rw later (Perm.trans (Perm.cons x (insert_sorted-perm e xs)) (Perm.swap e x xs))
]

sorted_desc-perm : (xs : List (ℤ × ℤ)) → Perm (sorted_desc xs) xs
unfolding sorted_desc
sorted_desc-perm [] = Perm.refl []
sorted_desc-perm (x ∷ xs) =
    Perm.trans (insert_sorted-perm x (sorted_desc xs)) (Perm.cons x (sorted_desc-perm xs))

map-reciprocal-IsAscending : (xs : List (ℤ × ℤ)) → IsDescending xs → IsAscending (map reciprocal xs)
map-reciprocal-IsAscending [] h = tt
map-reciprocal-IsAscending (x ∷ []) h = tt
map-reciprocal-IsAscending (x ∷ y ∷ xs) h =
    (omega (int_laws, h.0), map-reciprocal-IsAscending (y ∷ xs) h.1)

-- The bid ladder holds exactly the resting YES bids, from the highest price down; the offer ladder
-- exactly the resting NO bids as YES asks, from the lowest price up.
pub ladders_sorted :
    (b : KalshiBook)
    → IsDescending (yes_bid_ladder b)
      × Perm (yes_bid_ladder b) b.yes_book
      × IsAscending (yes_offer_ladder b)
      × Perm (yes_offer_ladder b) (map reciprocal b.no_book)
unfolding yes_bid_ladder yes_offer_ladder
ladders_sorted b = (
  sorted_desc-IsDescending b.yes_book,
  sorted_desc-perm b.yes_book,
  map-reciprocal-IsAscending (sorted_desc b.no_book) (sorted_desc-IsDescending b.no_book),
  Perm.map reciprocal (sorted_desc-perm b.no_book),
)

max_of : ℤ → Option ℤ → ℤ
max_of p none = p
max_of p (some m) = max_ℤ p m

first_price-insert_sorted :
    (e : ℤ × ℤ) (xs : List (ℤ × ℤ))
    → first_price (insert_sorted e xs) ≡ some (max_of e.0 (first_price xs))
unfolding insert_sorted max_of
first_price-insert_sorted e [] = refl
first_price-insert_sorted e (x ∷ xs) = ground (arith, eq_of_parts e.0 x.0)

first_price-sorted_desc : (d : Levels) → first_price (sorted_desc d) ≡ max_price d
unfolding sorted_desc max_price max_of
first_price-sorted_desc [] = refl
first_price-sorted_desc (e ∷ d) =
    ground (arith, first_price-insert_sorted e (sorted_desc d), first_price-sorted_desc d)

first_price-map : (xs : List (ℤ × ℤ)) → first_price (map reciprocal xs) ≡ ask_of (first_price xs)
first_price-map [] = refl
first_price-map (x ∷ xs) = refl

-- `best` gives the prices of the top rungs of the two ladders, and nothing for an empty ladder; the
-- pairs of the depth walk begin with the same ask.
pub best-eq-first_price :
    (b : KalshiBook)
    → ((best b).0 ≡ first_price (yes_bid_ladder b))
      × ((best b).1 ≡ first_price (yes_offer_ladder b))
      × (offer_pairs b ≡ yes_offer_ladder b)
unfolding best yes_bid_ladder yes_offer_ladder offer_pairs
best-eq-first_price b = (
  sym (first_price-sorted_desc b.yes_book),
  sym (first_price-map (sorted_desc b.no_book) ∙ ap ask_of (first_price-sorted_desc b.no_book)),
  refl,
)
