-- ===== src/Prelude/Dicts.antt =====
-- A Python dict in insertion order, as an association list.
use mathlib.Core.Path.{◌≡◌, refl, sym, ap, ap₂, subst, ◌∙◌}
use mathlib.Core.Logic.{inl, inr}
use mathlib.Core.Bool.{Bool, true}
use mathlib.Core.Option.{Option, none, some}
use mathlib.Core.List.{List, [], ◌∷◌}
use native.Mathlib.Omega.{arith}
use cross_arb.Prelude.Tests.{if◌then◌else◌, is_some, some_eq, Bool-cases}
use cross_arb.Prelude.Lists.{All, select}
use cross_arb.Prelude.Keys.{Eq, ◌=?◌, =?_refl, =?→≡}

abbrev pub Dict {ℓ κ} : Type ℓ → Type κ → Type (ℓ ⊔ κ)
Dict K V = List (K × V)

module _ {ℓ κ} {K : Type ℓ} {V : Type κ} ⦃e : Eq K⦄ where
  -- `d.get(k)`
  unfoldable pub lookup : K → Dict K V → Option V
  lookup k [] = none
  lookup k ((j, v) ∷ d) = if j =? k then some v else lookup k d

  -- `d[k] = v`: in place, or at the end.
  unfoldable pub insert : K → V → Dict K V → Dict K V
  insert k v [] = (k, v) ∷ []
  insert k v ((j, w) ∷ d) = if j =? k then (j, v) ∷ d else (j, w) ∷ insert k v d

  -- `d.pop(k, None)`
  unfoldable pub erase : K → Dict K V → Dict K V
  erase k [] = []
  erase k ((j, w) ∷ d) = let rest = erase k d in if j =? k then rest else (j, w) ∷ rest

  -- `k in d`
  abbrev pub contains : K → Dict K V → Bool
  contains k d = is_some (lookup k d)

  -- A dict holds each key once.
  abbrev pub IsDict : Dict K V → Type κ
  IsDict [] = Unit
  IsDict ((k, v) ∷ d) = (lookup k d ≡ none) × IsDict d

  pub lookup-insert :
      (k j : K) (v : V) (d : Dict K V)
      → lookup j (insert k v d) ≡ (if k =? j then some v else lookup j d)
  unfolding lookup insert
  lookup-insert k j v [] = refl
  lookup-insert k j v ((i, w) ∷ d) =
      ground (arith, e.beq_iff k j, e.beq_iff i k, e.beq_iff i j, lookup-insert k j v d)

  pub lookup-erase :
      (k j : K) (d : Dict K V) → lookup j (erase k d) ≡ (if k =? j then none else lookup j d)
  unfolding lookup erase
  lookup-erase k j [] = ground arith
  lookup-erase k j ((i, w) ∷ d) =
      ground (arith, e.beq_iff k j, e.beq_iff i k, e.beq_iff i j, lookup-erase k j d)

  pub lookup-insert_self : (k : K) (v : V) (d : Dict K V) → lookup k (insert k v d) ≡ some v
  lookup-insert_self k v d = rw (lookup-insert k k v d, =?_refl k)

  pub lookup-erase_self : (k : K) (d : Dict K V) → lookup k (erase k d) ≡ none
  lookup-erase_self k d = rw (lookup-erase k k d, =?_refl k)

  pub insert-IsDict : (k : K) (v : V) (d : Dict K V) → IsDict d → IsDict (insert k v d)
  unfolding insert lookup
  insert-IsDict k v [] h = (refl, tt)
  insert-IsDict k v ((i, w) ∷ d) h =
      ground (arith, e.beq_iff i k, e.beq_iff k i, lookup-insert k i v d, insert-IsDict k v d h.1)

  pub erase-IsDict : (k : K) (d : Dict K V) → IsDict d → IsDict (erase k d)
  unfolding erase
  erase-IsDict k [] h = tt
  erase-IsDict k ((i, w) ∷ d) h = ground (arith, lookup-erase k i d, erase-IsDict k d h.1)

  -- What was written under a key does not outlast a pop of it.
  pub erase-insert : (k : K) (v : V) (d : Dict K V) → erase k (insert k v d) ≡ erase k d
  unfolding erase insert
  erase-insert k v [] = rw (=?_refl k)
  erase-insert k v ((i, w) ∷ d) = ground (arith, erase-insert k v d)

  -- Popping a key that is absent changes nothing.
  pub erase_absent : (k : K) (d : Dict K V) → lookup k d ≡ none → erase k d ≡ d
  unfolding erase lookup
  erase_absent k [] h = refl
  erase_absent k ((i, w) ∷ d) h = ground (arith, erase_absent k d)

  -- The rows of some keys.
  pub lookup-select_keys :
      (p : K → Bool) (k : K) (d : Dict K V)
      → lookup k (select (λ row. p row.0) d) ≡ (if p k then lookup k d else none)
  unfolding lookup
  lookup-select_keys p k [] = ground arith
  lookup-select_keys p k ((j, v) ∷ d) = elim (Bool-cases (j =? k)) [
    | inl same ↦ ground (arith, same, ap p (=?→≡ same), lookup-select_keys p k d)
    | inr other ↦ ground (arith, other, lookup-select_keys p k d)
  ]

  -- A key that is absent is not one of a dict's keys.
  pub other_key {μ} :
      {W : Type μ} (d : Dict K V) (k j : K) (new old : W)
      → lookup k d ≡ none
      → contains j d ≡ true
      → (if k =? j then new else old) ≡ old
  other_key d k j new old h t = elim (Bool-cases (k =? j)) [
    | inl same ↦
        let gone = ap (λ i. lookup i d) (sym (=?→≡ same)) ∙ h in cc (sym t ∙ ap is_some gone)
    | inr other ↦ rw other refl
  ]

  -- What holds of every row.
  pub All-insert {μ} :
      (P : K × V → Type μ) (k : K) (v : V) (d : Dict K V)
      → P (k, v)
      → All P d
      → All P (insert k v d)
  unfolding insert
  All-insert P k v [] p a = (p, tt)
  All-insert P k v ((j, w) ∷ d) p a = elim (Bool-cases (j =? k)) [
    | inl same ↦ rw same (subst (λ x. P (x, v)) (sym (=?→≡ same)) p, a.1)
    | inr other ↦ rw other (a.0, All-insert P k v d p a.1)
  ]

  pub All-erase {μ} : (P : K × V → Type μ) (k : K) (d : Dict K V) → All P d → All P (erase k d)
  unfolding erase
  All-erase P k [] a = tt
  All-erase P k ((j, w) ∷ d) a = elim (Bool-cases (j =? k)) [
    | inl same ↦ rw same (All-erase P k d a.1)
    | inr other ↦ rw other (a.0, All-erase P k d a.1)
  ]

  pub All-lookup {μ} :
      (P : K × V → Type μ) (k : K) (v : V) (d : Dict K V) → lookup k d ≡ some v → All P d → P (k, v)
  unfolding lookup
  All-lookup P k v [] h a = cc
  All-lookup P k v ((j, w) ∷ d) h a = elim (Bool-cases (j =? k)) [
    | inl same ↦
        let this = some_eq (sym (ap (λ b. if b then some w else lookup k d) same) ∙ h) in
        subst P (ap₂ (λ x y. (x, y)) (=?→≡ same) this) a.0
    | inr other ↦
        All-lookup P k v d (sym (ap (λ b. if b then some w else lookup k d) other) ∙ h) a.1
  ]

pub ruleset dict_laws = (lookup-insert, lookup-erase)
