-- ===== src/Monitor/Housekeeping/FeeWatch.antt =====
-- `fee_tick` of bot/monitor.py, over any kind of scheduled change. A failed poll is none.
use cross_arb.Prelude.{
  ℕ, ◌≡◌, refl, sym, ap, ◌∙◌, Bool, true, false, ◌&&◌, Option, none, some, List, [], ◌∷◌, Eq, ◌=?◌,
  =?_refl, =?→≡, length, if◌then◌else◌, arith, Bool-cases, inl, inr,
}

-- The dict `fee_state`; none where a key is not there yet.
pub record FeeState (C : Type 0) : Type 0 where
  pub n : Option ℕ
  pub last : Option (List C)

-- The record that is logged.
pub record FeeChange (C : Type 0) : Type 0 where
  pub n : ℕ
  pub changes : List C

abbrev is_empty : {C : Type 0} → List C → Bool
is_empty [] = true
is_empty (c ∷ cs) = false

unfoldable pub fresh : {C : Type 0} → FeeState C
fresh = record { n = none; last = none }

module _ {C : Type 0} ⦃e : Eq (List C)⦄ where
  -- `not first and changes == fee_state["last"]`
  abbrev unchanged : List C → Option (List C) → Bool
  unchanged changes none = false
  unchanged changes (some last) = changes =? last

  abbrev is_first : Option (List C) → Bool
  is_first none = true
  is_first (some last) = false

  unfoldable pub fee_tick : Option (List C) → FeeState C → FeeState C × Option (FeeChange C)
  fee_tick none st = (st, none)
  fee_tick (some changes) st =
      let st' = record st { n = some (length changes) } in
      if unchanged changes st.last then (st', none) else (
        record st' { last = some changes },
        if is_first st.last && is_empty changes
            then none
            else some (record { n = length changes; changes = changes }),
      )

  abbrev logged : Option (FeeChange C) → List (FeeChange C) → List (FeeChange C)
  logged none rest = rest
  logged (some r) rest = r ∷ rest

  -- What a run of polls logs, in order, and the state after it.
  pub watch : FeeState C → List (Option (List C)) → FeeState C × List (FeeChange C)
  watch st [] = (st, [])
  watch st (poll ∷ polls) =
      let (st', r) = fee_tick poll st in let (end, log) = watch st' polls in (end, logged r log)

  -- The array that counts as known: empty before the first poll.
  abbrev pub known : Option (List C) → List C
  known none = []
  known (some last) = last

  -- The arrays that differ from the one before, among the polls that did not fail.
  pub differences : List C → List (Option (List C)) → List (FeeChange C)
  differences old [] = []
  differences old (none ∷ polls) = differences old polls
  differences old (some changes ∷ polls) =
      let rest = differences changes polls in
      if changes =? old then rest else record { n = length changes; changes = changes } ∷ rest

  pub newest : List C → List (Option (List C)) → List C
  newest old [] = old
  newest old (none ∷ polls) = newest old polls
  newest old (some changes ∷ polls) = newest changes polls

  cons_ne_nil : (c : C) (cs : List C) → ((c ∷ cs) =? []) ≡ false
  cons_ne_nil c cs = ground (arith, e.beq_iff (c ∷ cs) [])

  known-fee_tick :
      (n : Option ℕ) (last : Option (List C)) (changes : List C)
      → known (fee_tick (some changes) (record { n = n; last = last })).0.last ≡ changes
  unfolding fee_tick
  known-fee_tick n none changes = refl
  known-fee_tick n (some last) changes = elim (Bool-cases (changes =? last)) [
    | inl same ↦ rw same (sym (=?→≡ same))
    | inr other ↦ rw other refl
  ]

  fee_tick-logs :
      (n : Option ℕ) (last : Option (List C)) (changes : List C) (rest : List (FeeChange C))
      → logged (fee_tick (some changes) (record { n = n; last = last })).1 rest ≡ (
          if changes =? known last
          then rest
          else record { n = length changes; changes = changes } ∷ rest)
  unfolding fee_tick
  fee_tick-logs n none [] rest = rw (=?_refl {A = List C} []) refl
  fee_tick-logs n none (c ∷ cs) rest = rw (cons_ne_nil c cs) refl
  fee_tick-logs n (some last) changes rest = elim (Bool-cases (changes =? last)) [
    | inl same ↦ rw same refl
    | inr other ↦ rw other refl
  ]

  -- From a fresh state, or any other, the log is the list of the changes of the fetched array, each once and
  -- with its length, and clearing counts as a change; an empty array at first is no change, and a failed
  -- poll neither logs nor forgets.
  pub watch_lem :
      (st : FeeState C) (polls : List (Option (List C)))
      → ((watch st polls).1 ≡ differences (known st.last) polls)
        × (known (watch st polls).0.last ≡ newest (known st.last) polls)
  unfolding watch fee_tick differences newest
  watch_lem st [] = (refl, refl)
  watch_lem st (none ∷ polls) = watch_lem st polls
  watch_lem st (some changes ∷ polls) =
      let st' = (fee_tick (some changes) st).0 in
      let now = known-fee_tick st.n st.last changes in
      let (log, last) = watch_lem st' polls in
      (
        ap (logged _) (log ∙ ap (λ l. differences l polls) now)
            ∙ fee_tick-logs st.n st.last changes (differences changes polls),
        last ∙ ap (λ l. newest l polls) now,
      )
