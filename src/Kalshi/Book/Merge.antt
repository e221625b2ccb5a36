-- ===== src/Kalshi/Book/Merge.antt =====
-- What a stream of deltas does to the quantity that rests at each price.
use cross_arb.Prelude.{
  ◌≡◌, refl, ap, ◌∙◌, inl, inr, Bool-cases, Bool, true, false, ◌&&◌, List, [], ◌∷◌, arith, int_keys,
  lookup, insert, erase, lookup-insert, lookup-erase, IsDict, insert-IsDict, erase-IsDict,
  erase-insert, All, if◌then◌else◌, ◌=?◌,
}
use cross_arb.Prelude.Int.{ℤ, pos, ◌+ℤ◌, ◌<ℤ◌, leb_ℤ, max_ℤ, eqb_ℤ_iff}
use cross_arb.Kalshi.Book.{
  KalshiBook, Levels, Side, yes_side, no_side, Delta, Snapshot, quantity, apply_level, apply_delta,
  apply_snapshot, from_rows, or_empty,
}

-- No price is listed twice, and every level holds something.
pub record IsValidSide (d : Levels) : Type 0 where
  pub distinct : IsDict d
  pub filled : All (λ e. pos 0 <ℤ e.1) d

pub record IsValid (b : KalshiBook) : Type 0 where
  pub yes_valid : IsValidSide b.yes_book
  pub no_valid : IsValidSide b.no_book

insert-filled :
    (p q : ℤ) (d : Levels)
    → pos 0 <ℤ q
    → All (λ e. pos 0 <ℤ e.1) d
    → All (λ e. pos 0 <ℤ e.1) (insert p q d)
unfolding insert
insert-filled p q [] h a = (h, tt)
insert-filled p q (x ∷ d) h a = ground (arith, insert-filled p q d h a.1)

erase-filled :
    (p : ℤ) (d : Levels) → All (λ e. pos 0 <ℤ e.1) d → All (λ e. pos 0 <ℤ e.1) (erase p d)
unfolding erase
erase-filled p [] a = tt
erase-filled p (x ∷ d) a = ground (arith, erase-filled p d a.1)

apply_level-IsValidSide : (p x : ℤ) (d : Levels) → IsValidSide d → IsValidSide (apply_level p x d)
unfolding apply_level
apply_level-IsValidSide p x d v = elim (Bool-cases (leb_ℤ q (pos 0))) [
  | inl empty ↦
      rw (empty, erase-insert)
        (record { distinct = erase-IsDict p d v.distinct; filled = erase-filled p d v.filled })
  | inr held ↦ rw held (record {
    distinct = insert-IsDict p q d v.distinct;
    filled = insert-filled p q d (ground arith) v.filled;
  })
]
  where
    q : ℤ
    q = quantity (lookup p d) +ℤ x

-- The quantity at each price after a delta: the old one plus the delta, but none below zero, at the
-- delta's own price, and the old one at every other.
lookup-apply_level :
    (p x j : ℤ) (d : Levels)
    → quantity (lookup j (apply_level p x d))
      ≡ (if p =? j then max_ℤ (pos 0) (quantity (lookup p d) +ℤ x) else quantity (lookup j d))
unfolding apply_level
lookup-apply_level p x j d = ground (
  arith,
  eqb_ℤ_iff p j,
  lookup-erase p j (insert p (quantity (lookup p d) +ℤ x) d),
  lookup-insert p j (quantity (lookup p d) +ℤ x) d,
)

abbrev pub levels_of : Side → KalshiBook → Levels
levels_of yes_side b = b.yes_book
levels_of no_side b = b.no_book

-- The quantity that rests at a price on a side.
pub resting : KalshiBook → Side → ℤ → ℤ
resting b s p = quantity (lookup p (levels_of s b))

abbrev same_side : Side → Side → Bool
same_side yes_side yes_side = true
same_side no_side no_side = true
same_side _ _ = false

-- The specification of one level: a running sum of the deltas that name it, never below zero.
abbrev pub running : Side → ℤ → ℤ → List Delta → ℤ
running s p q [] = q
running s p q (msg ∷ msgs) =
    running s p
      (if same_side msg.side s && (msg.price =? p) then max_ℤ (pos 0) (q +ℤ msg.delta) else q) msgs

-- The stream of deltas, in the order of arrival.
unfoldable pub apply_deltas : KalshiBook → List Delta → KalshiBook
apply_deltas b [] = b
apply_deltas b (msg ∷ msgs) = apply_deltas (apply_delta b msg) msgs

resting-apply_delta :
    (b : KalshiBook) (msg : Delta) (s : Side) (p : ℤ)
    → resting (apply_delta b msg) s p ≡ (
        if same_side msg.side s && (msg.price =? p)
        then max_ℤ (pos 0) (resting b s p +ℤ msg.delta)
        else resting b s p)
unfolding resting apply_delta
resting-apply_delta b msg s p = ground (
  arith,
  eqb_ℤ_iff msg.price p,
  lookup-apply_level msg.price msg.delta p b.yes_book,
  lookup-apply_level msg.price msg.delta p b.no_book,
)

-- After any stream of deltas each level holds the running sum of its own deltas, never below zero,
-- whatever happened at the other prices and on the other side.
pub resting-apply_deltas :
    (b : KalshiBook) (msgs : List Delta) (s : Side) (p : ℤ)
    → resting (apply_deltas b msgs) s p ≡ running s p (resting b s p) msgs
unfolding apply_deltas
resting-apply_deltas b [] s p = refl
resting-apply_deltas b (msg ∷ msgs) s p =
    resting-apply_deltas (apply_delta b msg) msgs s p
    ∙ ap (λ q. running s p q msgs) (resting-apply_delta b msg s p)

apply_delta-IsValid : (b : KalshiBook) (msg : Delta) → IsValid b → IsValid (apply_delta b msg)
unfolding apply_delta
apply_delta-IsValid b msg v = ground (
  arith,
  apply_level-IsValidSide msg.price msg.delta b.yes_book v.yes_valid,
  apply_level-IsValidSide msg.price msg.delta b.no_book v.no_valid,
)

apply_deltas-IsValid :
    (b : KalshiBook) (msgs : List Delta) → IsValid b → IsValid (apply_deltas b msgs)
unfolding apply_deltas
apply_deltas-IsValid b [] v = v
apply_deltas-IsValid b (msg ∷ msgs) v =
    apply_deltas-IsValid (apply_delta b msg) msgs (apply_delta-IsValid b msg v)

from_rows-IsValidSide :
    (rows : List (ℤ × ℤ)) (d : Levels)
    → All (λ e. pos 0 <ℤ e.1) rows
    → IsValidSide d
    → IsValidSide (from_rows rows d)
unfolding from_rows
from_rows-IsValidSide [] d a v = v
from_rows-IsValidSide ((p, q) ∷ rows) d a v =
    from_rows-IsValidSide rows (insert p q d) a.1 (record {
      distinct = insert-IsDict p q d v.distinct;
      filled = insert-filled p q d a.0 v.filled;
    })

-- A snapshot whose rows all hold something, and then any stream of deltas, leave a book in which no
-- price is listed twice and no level is empty or negative.
pub snapshot_deltas-IsValid :
    (b : KalshiBook) (msg : Snapshot) (msgs : List Delta)
    → All (λ e. pos 0 <ℤ e.1) (or_empty msg.yes_dollars)
    → All (λ e. pos 0 <ℤ e.1) (or_empty msg.no_dollars)
    → IsValid (apply_deltas (apply_snapshot b msg) msgs)
unfolding apply_snapshot
snapshot_deltas-IsValid b msg msgs y n = apply_deltas-IsValid (apply_snapshot b msg) msgs (record {
  yes_valid =
      from_rows-IsValidSide (or_empty msg.yes_dollars) [] y (record { distinct = tt; filled = tt });
  no_valid =
      from_rows-IsValidSide (or_empty msg.no_dollars) [] n (record { distinct = tt; filled = tt });
})
