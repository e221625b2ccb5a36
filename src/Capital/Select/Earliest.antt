-- ===== src/Capital/Select/Earliest.antt =====
-- `one_per_market` keeps the first open of each market.
use mathlib.Core.List.{Memᴰ}
use cross_arb.Prelude.{
  ◌≡◌, refl, sym, ap, subst, ◌∙◌, true, false, none, some, some_eq, List, [], ◌∷◌, map, String,
  ◌=?◌, =?→≡, string_keys, Dict, IsDict, lookup, insert, lookup-insert, lookup-insert_self,
  insert-IsDict, All, All-insert, Bool-cases, Option-cases, inl, inr, if◌then◌else◌, arith,
}
use cross_arb.Prelude.Int.{ℤ, ◌≤ℤ◌, ltb_ℤ}
use cross_arb.Persistence.Episodes.{Episode}
use cross_arb.Capital.Select.{sooner, represent, one_per_market}

abbrev updated : Episode → Dict String Episode → Dict String Episode
updated e rep = if sooner (lookup e.market rep) e then insert e.market e rep else rep

-- The market's representative, that opened at `t` or before.
abbrev HasBy : Dict String Episode → String → ℤ → Type 0
HasBy rep m t = (r : Episode) × (lookup m rep ≡ some r) × (r.open_t ≤ℤ t)

updated-HasBy_self :
    (e : Episode) (rep : Dict String Episode) → HasBy (updated e rep) e.market e.open_t
updated-HasBy_self e rep = elim (Option-cases (lookup e.market rep)) [
  | inl absent ↦ rw absent (e, lookup-insert_self e.market e rep, omega arith)
  | inr (r, there) ↦ elim (Bool-cases (ltb_ℤ e.open_t r.open_t)) [
    | inl earlier ↦ rw (there, earlier) (e, lookup-insert_self e.market e rep, omega arith)
    | inr later ↦ rw (there, later) (r, there, ground arith)
  ]
]

not_later : (e r : Episode) (t : ℤ) → sooner (some r) e ≡ true → r.open_t ≤ℤ t → e.open_t ≤ℤ t
not_later e r t s h = ground arith

updated-HasBy :
    (e : Episode) (rep : Dict String Episode) (m : String) (t : ℤ)
    → HasBy rep m t
    → HasBy (updated e rep) m t
updated-HasBy e rep m t (r, there, h) = elim (Bool-cases (sooner (lookup e.market rep) e)) [
  | inr kept ↦ rw kept (r, there, h)
  | inl first ↦ rw first (elim (Bool-cases (e.market =? m)) [
    | inl same ↦ (
      e,
      lookup-insert e.market m e rep ∙ ap (λ b. if b then some e else lookup m rep) same,
      not_later e r t
          (ap (λ o. sooner o e) (sym there ∙ ap (λ k. lookup k rep) (sym (=?→≡ same))) ∙ first) h,
    )
    | inr other ↦ (
      r,
      lookup-insert e.market m e rep ∙ ap (λ b. if b then some e else lookup m rep) other ∙ there,
      h,
    )
  ])
]

represent-HasBy :
    (cap : List Episode) (rep : Dict String Episode) (m : String) (t : ℤ)
    → HasBy rep m t
    → HasBy (represent cap rep) m t
unfolding represent
represent-HasBy [] rep m t h = h
represent-HasBy (e ∷ cap) rep m t h =
    represent-HasBy cap (updated e rep) m t (updated-HasBy e rep m t h)

represent-HasBy_each :
    (cap : List Episode) (rep : Dict String Episode)
    → All (λ e. HasBy (represent cap rep) e.market e.open_t) cap
unfolding represent
represent-HasBy_each [] rep = tt
represent-HasBy_each (e ∷ cap) rep = (
  represent-HasBy cap (updated e rep) e.market e.open_t (updated-HasBy_self e rep),
  represent-HasBy_each cap (updated e rep),
)

-- A row of the dict: an episode of the input, under its own market.
abbrev IsRow : List Episode → String × Episode → Type 0
IsRow all row = (row.1.market ≡ row.0) × Memᴰ row.1 all

represent-IsRow :
    (all cap : List Episode) (rep : Dict String Episode)
    → All (λ e. Memᴰ e all) cap
    → All (IsRow all) rep
    → IsDict rep
    → All (IsRow all) (represent cap rep) × IsDict (represent cap rep)
unfolding represent
represent-IsRow all [] rep c a d = (a, d)
represent-IsRow all (e ∷ cap) rep (m, c) a d = elim (Bool-cases (sooner (lookup e.market rep) e)) [
  | inr kept ↦ rw kept (represent-IsRow all cap rep c a d)
  | inl first ↦ rw first (
      represent-IsRow all cap (insert e.market e rep) c
        (All-insert (IsRow all) e.market e rep (refl, m) a) (insert-IsDict e.market e rep d))
]

abbrev values : Dict String Episode → List Episode
values d = map (λ row. row.1) d

values-members :
    (all : List Episode) (d : Dict String Episode)
    → All (IsRow all) d
    → All (λ r. Memᴰ r all) (values d)
values-members all [] a = tt
values-members all (row ∷ d) a = (a.0.1, values-members all d a.1)

lookup-values :
    (all : List Episode) (d : Dict String Episode) (m : String) (r : Episode)
    → All (IsRow all) d
    → lookup m d ≡ some r
    → Memᴰ r (values d) × (r.market ≡ m)
unfolding lookup
lookup-values all [] m r a h = cc
lookup-values all ((j, w) ∷ d) m r a h = elim (Bool-cases (j =? m)) [
  | inl same ↦
      let this = some_eq (sym (ap (λ b. if b then some w else lookup m d) same) ∙ h) in
      (Memᴰ.head (sym this), ap (λ x. x.market) (sym this) ∙ a.0.0 ∙ =?→≡ same)
  | inr other ↦
      let (there, e) =
        lookup-values all d m r a.1 (sym (ap (λ b. if b then some w else lookup m d) other) ∙ h) in
      (Memᴰ.tail there, e)
]

-- No two of the episodes are of one market.
abbrev pub AreDistinct : List Episode → Type 0
AreDistinct [] = Unit
AreDistinct (r ∷ rs) = All (λ r'. (r'.market =? r.market) ≡ false) rs × AreDistinct rs

values_absent :
    (all : List Episode) (d : Dict String Episode) (m : String)
    → All (IsRow all) d
    → lookup m d ≡ none
    → All (λ r. (r.market =? m) ≡ false) (values d)
unfolding lookup
values_absent all [] m a h = tt
values_absent all ((j, w) ∷ d) m a h = elim (Bool-cases (j =? m)) [
  | inl same ↦ cc
  | inr other ↦ (
    ap (λ k. k =? m) a.0.0 ∙ other,
    values_absent all d m a.1 (sym (ap (λ b. if b then some w else lookup m d) other) ∙ h),
  )
]

values-AreDistinct :
    (all : List Episode) (d : Dict String Episode)
    → All (IsRow all) d
    → IsDict d
    → AreDistinct (values d)
values-AreDistinct all [] a h = tt
values-AreDistinct all ((j, w) ∷ d) a h = (
  values_absent all d w.market a.1 (ap (λ k. lookup k d) a.0.0 ∙ h.0),
  values-AreDistinct all d a.1 h.1,
)

All-members :
    (xs ys : List Episode) → ((x : Episode) → Memᴰ x xs → Memᴰ x ys) → All (λ x. Memᴰ x ys) xs
All-members [] ys f = tt
All-members (x ∷ xs) ys f = (f x (Memᴰ.head refl), All-members xs ys (λ y m. f y (Memᴰ.tail m)))

-- An episode has a representative, of its market, that opened no later.
abbrev pub IsRepresented : List Episode → Episode → Type 0
IsRepresented reps e = (r : Episode) × Memᴰ r reps × (r.market ≡ e.market) × (r.open_t ≤ℤ e.open_t)

represented :
    (all : List Episode) (d : Dict String Episode) (es : List Episode)
    → All (IsRow all) d
    → All (λ e. HasBy d e.market e.open_t) es
    → All (IsRepresented (values d)) es
represented all d [] a h = tt
represented all d (e ∷ es) a ((r, there, by), h) =
    let (m, same) = lookup-values all d e.market r a there in
    ((r, m, same, by), represented all d es a h)

-- Each representative is one of the episodes, no two are of one market, and every episode has one of its own
-- market that opened no later: each market is held once, from its first open.
pub one_per_market_lem :
    (cap : List Episode)
    → All (λ r. Memᴰ r cap) (one_per_market cap)
      × AreDistinct (one_per_market cap)
      × All (IsRepresented (one_per_market cap)) cap
unfolding one_per_market
one_per_market_lem cap =
    let (rows, dict) = represent-IsRow cap cap [] (All-members cap cap (λ x m. m)) tt tt in
    (
      values-members cap (represent cap []) rows,
      values-AreDistinct cap (represent cap []) rows dict,
      represented cap (represent cap []) cap rows (represent-HasBy_each cap []),
    )

All-mem : (P : Episode → Type 0) (r : Episode) (es : List Episode) → Memᴰ r es → All P es → P r
All-mem P r [] m a = elim m [ ]
All-mem P r (e ∷ es) (Memᴰ.head same) a = subst P (sym same) a.0
All-mem P r (e ∷ es) (Memᴰ.tail m) a = All-mem P r es m a.1

All-of_mem :
    (P : Episode → Type 0) (rs es : List Episode) → All (λ r. Memᴰ r es) rs → All P es → All P rs
All-of_mem P [] es m a = tt
All-of_mem P (r ∷ rs) es m a = (All-mem P r es m.0 a, All-of_mem P rs es m.1 a)

-- What holds of all episodes holds of the representatives.
pub one_per_market-All :
    (P : Episode → Type 0) (cap : List Episode) → All P cap → All P (one_per_market cap)
one_per_market-All P cap = All-of_mem P (one_per_market cap) cap (one_per_market_lem cap).0
