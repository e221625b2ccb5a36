-- ===== src/Monitor/Debounce/Dropped.antt =====
-- A held CLOSE that `feed` drops, over whatever the debouncer is called with later.
use cross_arb.Prelude.{
  ◌≡◌, ◌≢◌, refl, sym, ap, subst, ◌∙◌, Option, none, some, List, [], ◌∷◌, ◌++◌, String, Eq, ◌=?◌,
  =?→≡, string_keys, Dict, lookup, insert, erase, select, lookup-insert, lookup-erase,
  lookup-erase_self, insert-IsDict, erase-IsDict, IsDict, All, All-append, Bool-cases, some_eq, inl,
  inr,
}
use cross_arb.Prelude.Int.{ℤ, ◌-ℤ◌, ◌<ℤ◌, leb_ℤ, ltb_ℤ, <ℤ→not_leb_ℤ}
use cross_arb.Monitor.Edge.{Transition, opened, closed, flipped, widened, narrowed}
use cross_arb.Monitor.Debounce.{
  FlipDebouncer, Held, Event, reopen, on_open, feed, flush, flush_each, expired,
}
use cross_arb.Monitor.Debounce.Flush.{Overdue, in_time, flush-Overdue}

-- One call of the debouncer.
pub data Call (S : Type 0) : Type 0 where
  fed : Option (Transition × S) → String → ℤ → Call S
  flushed : ℤ → Call S

-- What is held for this key was not detected at this moment.
abbrev pub NotHeld : {S D : Type 0} → String → ℤ → FlipDebouncer S D → Type 0
NotHeld {S = S} {D = D} k t d =
    (u : ℤ) (from : Option D) (st : S) → lookup k d.pending ≡ some (u, from, st) → u ≢ t

-- The tuple is not a CLOSE of this key stamped with this moment.
abbrev pub IsOther : {S : Type 0} → String → ℤ → Event S → Type 0
IsOther k t x = ¬ ((x.label ≡ closed) × (x.key ≡ k) × (x.t ≡ t))

-- A call that feeds the key does so at another moment.
abbrev pub IsLater : {S : Type 0} → String → ℤ → Call S → Type 0
IsLater k t (fed o key now) = key ≡ k → now ≢ t
IsLater k t (flushed now) = Unit

-- What is kept from call to call, and what a call logs.
abbrev Keeps : {S D : Type 0} → String → ℤ → FlipDebouncer S D × List (Event S) → Type 0
Keeps k t (d, events) = IsDict d.pending × NotHeld k t d × All (IsOther k t) events

none_ne_some : {V : Type 0} (c : V) → none ≡ some c → ⊥
none_ne_some c h = cc

in_time-some :
    {S D : Type 0} (window now : ℤ) (o : Option (Held S D)) (h : Held S D)
    → in_time window now o ≡ some h
    → o ≡ some h
in_time-some window now none h e = cc
in_time-some window now (some g) h e = elim (Bool-cases (ltb_ℤ window (now -ℤ g.0))) [
  | inl late ↦ absurd (none_ne_some h (rw late at e))
  | inr early ↦ rw early at e
]

open_tuples :
    {S : Type 0} (k : String) (t : ℤ) (xs : List (Event S))
    → All (λ x. x.label ≢ closed) xs
    → All (IsOther k t) xs
open_tuples k t [] a = tt
open_tuples k t (x ∷ xs) (a, as_) = (λ (l, key, at). a l, open_tuples k t xs as_)

module _ {S D : Type 0} where
  flush_each-IsDict :
      (l : Dict String (Held S D)) (d : FlipDebouncer S D)
      → IsDict d.pending
      → IsDict (flush_each l d).0.pending
  unfolding flush_each
  flush_each-IsDict [] d u = u
  flush_each-IsDict ((j, h) ∷ l) d u =
      flush_each-IsDict l
        (record d { pending = erase j d.pending; last_arb_dir = erase j d.last_arb_dir })
        (erase-IsDict j d.pending u)

  others :
      (k : String) (t now : ℤ) (d : FlipDebouncer S D) (xs : List (Event S))
      → NotHeld k t d
      → All (Overdue d now) xs
      → All (IsOther k t) xs
  others k t now d [] n a = tt
  others k t now d (x ∷ xs) n ((label, from, held, late), as_) = (
    λ (l, key, at).
        n x.t from x.state (subst (λ j. lookup j d.pending ≡ some (x.t, from, x.state)) key held)
          at,
    others k t now d xs n as_,
  )

  flush-Keeps :
      (k : String) (t now : ℤ) (d : FlipDebouncer S D)
      → IsDict d.pending
      → NotHeld k t d
      → Keeps k t (flush d now)
  unfolding flush
  flush-Keeps k t now d u n =
      let (due, left) = flush-Overdue d now u in
      (
        flush_each-IsDict (select (expired d.window now) d.pending) d u,
        λ v from st e.
            n v from st
              (in_time-some d.window now (lookup k d.pending) (v, from, st) (sym (left k) ∙ e)),
        others k t now d _ n due,
      )

  NotHeld-insert :
      (k key : String) (t now : ℤ) (was : Option D) (held : S) (d : FlipDebouncer S D)
      → (key ≡ k → now ≢ t)
      → NotHeld k t d
      → NotHeld k t (record d { pending = insert key (now, was, held) d.pending })
  NotHeld-insert k key t now was held d later n v from st e = elim (Bool-cases (key =? k)) [
    | inl here ↦
        let same : some (now, was, held) ≡ some (v, from, st) =
          rw (lookup-insert key k (now, was, held) d.pending, here) at e in
        λ at. later (=?→≡ here) (ap (λ (x : Held S D). x.0) (some_eq same) ∙ at)
    | inr there ↦ n v from st (rw (lookup-insert key k (now, was, held) d.pending, there) at e)
  ]

  NotHeld-erase :
      (k key : String) (t : ℤ) (d : FlipDebouncer S D)
      → NotHeld k t d
      → NotHeld k t (record d { pending = erase key d.pending })
  NotHeld-erase k key t d n v from st e = elim (Bool-cases (key =? k)) [
    | inl here ↦ absurd (none_ne_some (v, from, st) (rw (lookup-erase key k d.pending, here) at e))
    | inr there ↦ n v from st (rw (lookup-erase key k d.pending, there) at e)
  ]

module _ {S D : Type 0} ⦃e : Eq D⦄ (dir : S → D) where
  -- The answer to an OPEN touches no held entry and logs no CLOSE.
  abbrev LogsNoClose : FlipDebouncer S D → FlipDebouncer S D × List (Event S) → Type 0
  LogsNoClose d (d', events) = (d'.pending ≡ d.pending) × All (λ x. x.label ≢ closed) events

  reopen-LogsNoClose :
      (d : FlipDebouncer S D) (from : Option D) (st : S) (key : String) (now : ℤ)
      → LogsNoClose d (reopen dir d from st key now)
  reopen-LogsNoClose d none st key now = (refl, tt)
  reopen-LogsNoClose d (some from) st key now = elim (Bool-cases (from =? dir st)) [
    | inl back ↦ rw back (refl, tt)
    | inr turned ↦ rw turned (refl, (λ l. cc, tt))
  ]

  on_open-LogsNoClose :
      (d : FlipDebouncer S D) (o : Option (Held S D)) (st : S) (key : String) (now : ℤ)
      → LogsNoClose d (on_open dir d o st key now)
  unfolding on_open
  on_open-LogsNoClose d none st key now = (refl, (λ l. cc, tt))
  on_open-LogsNoClose d (some (t, from, held)) st key now =
      elim (Bool-cases (leb_ℤ (now -ℤ t) d.window)) [
        | inl within ↦ rw within (reopen-LogsNoClose d from st key now)
        | inr late ↦ rw late (refl, (λ l. cc, tt))
      ]

  feed-Keeps :
      (k : String) (t : ℤ) (d : FlipDebouncer S D) (o : Option (Transition × S)) (key : String)
      (now : ℤ)
      → (key ≡ k → now ≢ t)
      → IsDict d.pending
      → NotHeld k t d
      → Keeps k t (feed dir d o key now)
  unfolding feed
  feed-Keeps k t d none key now later u n = (u, n, tt)
  feed-Keeps k t d (some (closed, st)) key now later u n = (
    insert-IsDict key _ d.pending u,
    NotHeld-insert k key t now (lookup key d.last_arb_dir) st d later n,
    tt,
  )
  feed-Keeps k t d (some (opened, st)) key now later u n =
      let d' : FlipDebouncer S D = record d { pending = erase key d.pending } in
      let (same, opens) = on_open-LogsNoClose d' (lookup key d.pending) st key now in
      (
        subst IsDict (sym same) (erase-IsDict key d.pending u),
        λ v from held f. NotHeld-erase k key t d n v from held (ap (lookup k) (sym same) ∙ f),
        open_tuples k t _ opens,
      )
  feed-Keeps k t d (some (flipped, st)) key now later u n = (u, n, (λ (l, r, q). cc, tt))
  feed-Keeps k t d (some (widened, st)) key now later u n = (u, n, (λ (l, r, q). cc, tt))
  feed-Keeps k t d (some (narrowed, st)) key now later u n = (u, n, (λ (l, r, q). cc, tt))

  -- One call, and the calls in their order: what is left, and all tuples.
  pub answer : FlipDebouncer S D → Call S → FlipDebouncer S D × List (Event S)
  unfolding feed flush
  answer d (fed o key now) = feed dir d o key now
  answer d (flushed now) = flush d now

  pub logged : FlipDebouncer S D → List (Call S) → List (Event S)
  unfolding answer
  logged d [] = []
  logged d (c ∷ cs) = let (d', events) = answer d c in events ++ logged d' cs

  answer-Keeps :
      (k : String) (t : ℤ) (d : FlipDebouncer S D) (c : Call S)
      → IsLater k t c
      → IsDict d.pending
      → NotHeld k t d
      → Keeps k t (answer d c)
  unfolding answer
  answer-Keeps k t d (fed o key now) later u n = feed-Keeps k t d o key now later u n
  answer-Keeps k t d (flushed now) later u n = flush-Keeps k t now d u n

  logged-IsOther :
      (k : String) (t : ℤ) (d : FlipDebouncer S D) (cs : List (Call S))
      → All (IsLater k t) cs
      → IsDict d.pending
      → NotHeld k t d
      → All (IsOther k t) (logged d cs)
  unfolding logged
  logged-IsOther k t d [] later u n = tt
  logged-IsOther k t d (c ∷ cs) (later, laters) u n =
      let (u', n', here) = answer-Keeps k t d c later u n in
      All-append (IsOther k t) (answer d c).1 _ here
        (logged-IsOther k t (answer d c).0 cs laters u' n')

  -- An OPEN that comes after the window of a held CLOSE, but before a flush, loses the CLOSE: when `pending` has
  -- each key once, the calls log that OPEN and then, whatever they are, no CLOSE of the key with the moment of
  -- the one that was held, as long as no later feed of the key is at that very moment.
  pub feed_drops_close :
      (d : FlipDebouncer S D) (st held : S) (k : String) (now t : ℤ) (from : Option D)
      (cs : List (Call S))
      → IsDict d.pending
      → lookup k d.pending ≡ some (t, from, held)
      → d.window <ℤ now -ℤ t
      → All (IsLater k t) cs
      → (rest : List (Event S)) × (logged d (fed (some (opened, st)) k now ∷ cs)
          ≡ record { label = opened; state = st; key = k; t = now } ∷ rest)
        × All (IsOther k t) rest
  unfolding logged answer feed
  feed_drops_close d st held k now t from cs u p late laters =
      let d' : FlipDebouncer S D = record d {
        last_arb_dir = insert k (dir st) d.last_arb_dir;
        pending = erase k d.pending;
      } in
      (
        logged d' cs,
        rw (p, <ℤ→not_leb_ℤ d.window (now -ℤ t) late) refl,
        logged-IsOther k t d' cs laters (erase-IsDict k d.pending u) (λ v was st' f.
            absurd (none_ne_some (v, was, st') (sym (lookup-erase_self k d.pending) ∙ f))),
      )
