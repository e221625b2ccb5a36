-- ===== src/Monitor/Debounce/Flush.antt =====
-- What `flush` logs and what it leaves.
use cross_arb.Prelude.{
  ◌≡◌, refl, sym, ap, subst, ◌∙◌, Bool, true, false, Option, none, some, [], ◌∷◌, String, Eq, ◌=?◌,
  =?_refl, =?→≡, string_keys, Dict, lookup, erase, lookup-erase, contains, IsDict, select, is_some,
  All, if◌then◌else◌, Bool-cases, some_eq, inl, inr,
}
use cross_arb.Prelude.Int.{ℤ, ◌-ℤ◌, ◌<ℤ◌, ltb_ℤ, ltb_ℤ→<ℤ}
use cross_arb.Monitor.Edge.{closed}
use cross_arb.Monitor.Debounce.{FlipDebouncer, Held, Event, flush, flush_each, expired}
use cross_arb.Monitor.Debounce.View.{read_events, AgreesAt, Agrees}

none_ne_some : {V : Type 0} (c : V) → none ≡ some c → ⊥
none_ne_some c h = cc

-- `select` on a dict keeps the entries that pass.
abbrev passing : {V : Type 0} → (String × V → Bool) → String → Option V → Option V
passing f k none = none
passing f k (some v) = if f (k, v) then some v else none

if_none : {A : Type 0} (b : Bool) → ◌≡◌ {A = Option A} (if b then none else none) none
if_none true = refl
if_none false = refl

lookup-select_head :
    {V : Type 0} (f : String × V → Bool) (j : String) (v : V) (d : Dict String V)
    → lookup j (select f d) ≡ none
    → lookup j (select f ((j, v) ∷ d)) ≡ passing f j (lookup j ((j, v) ∷ d))
unfolding lookup
lookup-select_head f j v d h = elim (Bool-cases (f (j, v))) [
  | inl kept ↦ rw (=?_refl j, kept, =?_refl j)
  | inr dropped ↦ rw (=?_refl j, dropped) h
]

lookup-select :
    {V : Type 0} (f : String × V → Bool) (k : String) (d : Dict String V)
    → IsDict d
    → lookup k (select f d) ≡ passing f k (lookup k d)
unfolding lookup
lookup-select f k [] h = refl
lookup-select f k ((j, v) ∷ d) h =
    let ih = lookup-select f k d h.1 in
    elim (Bool-cases (j =? k)) [
      | inl here ↦
          let same : j ≡ k = =?→≡ here in
          let at_j : lookup j (select f d) ≡ none =
            subst (λ x. lookup x (select f d) ≡ passing f x (lookup x d)) (sym same) ih
            ∙ ap (passing f j) h.0 in
          subst (λ x. lookup x (select f ((j, v) ∷ d)) ≡ passing f x (lookup x ((j, v) ∷ d))) same
            (lookup-select_head f j v d at_j)
      | inr there ↦ elim (Bool-cases (f (j, v))) [
        | inl kept ↦ rw (there, kept, there) ih
        | inr dropped ↦ rw (there, dropped) ih
      ]
    ]

gone :
    {V X : Type 0} (k j : String) (h : V) (l : Dict String V) (x : Option X)
    → (if contains k l then none else (if j =? k then none else x))
      ≡ (if contains k ((j, h) ∷ l) then none else x)
unfolding lookup
gone k j h l x = elim (Bool-cases (j =? k)) [
  | inl here ↦ rw here (if_none (contains k l))
  | inr there ↦ rw there
]

lookup-head : {V : Type 0} (j : String) (v : V) (l : Dict String V) → lookup j ((j, v) ∷ l) ≡ some v
unfolding lookup
lookup-head j v l = rw (=?_refl j)

lookup-tail :
    {V : Type 0} (k j : String) (v w : V) (l : Dict String V)
    → lookup j l ≡ none
    → lookup k l ≡ some w
    → lookup k ((j, v) ∷ l) ≡ some w
unfolding lookup
lookup-tail k j v w l h e = elim (Bool-cases (j =? k)) [
  | inl here ↦ absurd (none_ne_some w (sym (subst (λ x. lookup x l ≡ none) (=?→≡ here) h) ∙ e))
  | inr there ↦ rw there e
]

module _ {S D : Type 0} where
  flush_each-pending :
      (l : Dict String (Held S D)) (d : FlipDebouncer S D) (k : String)
      → let d' = (flush_each l d).0 in
        (lookup k d'.pending ≡ (if contains k l then none else lookup k d.pending))
        × (lookup k d'.last_arb_dir ≡ (if contains k l then none else lookup k d.last_arb_dir))
  unfolding flush_each
  flush_each-pending [] d k = unfold lookup in (refl, refl)
  flush_each-pending ((j, h) ∷ l) d k =
      let d' : FlipDebouncer S D = record d {
        pending = erase j d.pending;
        last_arb_dir = erase j d.last_arb_dir;
      } in
      let (p, q) = flush_each-pending l d' k in
      (
        p ∙ rw (lookup-erase j k d.pending) (gone k j h l _),
        q ∙ rw (lookup-erase j k d.last_arb_dir) (gone k j h l _),
      )

  abbrev pub Overdue : FlipDebouncer S D → ℤ → Event S → Type 0
  Overdue d now x =
      (x.label ≡ closed)
      × (from : Option D) × (lookup x.key d.pending ≡ some (x.t, from, x.state))
      × (d.window <ℤ now -ℤ x.t)

  flush_each-Overdue :
      (l : Dict String (Held S D)) (d d₀ : FlipDebouncer S D) (now : ℤ)
      → ((k : String) (h : Held S D)
          → lookup k l ≡ some h
          → (lookup k d₀.pending ≡ some h) × (d₀.window <ℤ now -ℤ h.0))
      → IsDict l
      → All (Overdue d₀ now) (flush_each l d).1
  unfolding flush_each
  flush_each-Overdue [] d d₀ now due u = tt
  flush_each-Overdue ((j, (t, from, st)) ∷ l) d d₀ now due u =
      let (found, late) = due j (t, from, st) (lookup-head j (t, from, st) l) in
      (
        (refl, from, found, late),
        flush_each-Overdue l
            (record d { pending = erase j d.pending; last_arb_dir = erase j d.last_arb_dir }) d₀ now
            (λ k h e. due k h (lookup-tail k j (t, from, st) h l u.0 e)) u.1,
      )

  -- What `flush` leaves of an entry.
  abbrev pub in_time : ℤ → ℤ → Option (Held S D) → Option (Held S D)
  in_time window now none = none
  in_time window now (some h) = if ltb_ℤ window (now -ℤ h.0) then none else some h

  select-IsDict :
      (f : String × Held S D → Bool) (l : Dict String (Held S D)) → IsDict l → IsDict (select f l)
  select-IsDict f [] u = tt
  select-IsDict f ((j, h) ∷ l) u = elim (Bool-cases (f (j, h))) [
    | inl kept ↦ rw kept (lookup-select f j l u.1 ∙ ap (passing f j) u.0, select-IsDict f l u.1)
    | inr dropped ↦ rw dropped (select-IsDict f l u.1)
  ]

  passing-expired :
      (w now : ℤ) (k : String) (o : Option (Held S D)) (h : Held S D)
      → passing (expired w now) k o ≡ some h
      → (o ≡ some h) × (w <ℤ now -ℤ h.0)
  passing-expired w now k none h e = cc
  passing-expired w now k (some (t, from, st)) h e = elim (Bool-cases (ltb_ℤ w (now -ℤ t))) [
    | inl late ↦
        let same : some (t, from, st) ≡ some h = rw late at e in
        (
          same,
          subst (λ (x : Held S D). w <ℤ now -ℤ x.0) (some_eq same) (ltb_ℤ→<ℤ w (now -ℤ t) late),
        )
    | inr early ↦ absurd (none_ne_some h (rw early at e))
  ]

  passing-in_time :
      (w now : ℤ) (k : String) (o : Option (Held S D))
      → (if is_some (passing (expired w now) k o) then none else o) ≡ in_time w now o
  passing-in_time w now k none = refl
  passing-in_time w now k (some (t, from, st)) = elim (Bool-cases (ltb_ℤ w (now -ℤ t))) [
    | inl late ↦ rw late
    | inr early ↦ rw early
  ]

  -- Every tuple of a flush is a CLOSE that was held for its key for longer than the window, with its own
  -- state and stamped with the moment of its detection; and of the held entries exactly those that are not
  -- older than the window stay.
  pub flush-Overdue :
      (d : FlipDebouncer S D) (now : ℤ)
      → IsDict d.pending
      → All (Overdue d now) (flush d now).1
        × ((k : String)
            → lookup k (flush d now).0.pending ≡ in_time d.window now (lookup k d.pending))
  unfolding flush
  flush-Overdue d now u =
      let f : String × Held S D → Bool = expired d.window now in
      (
        flush_each-Overdue (select f d.pending) d d now
            (λ k h e.
              passing-expired d.window now k (lookup k d.pending) h
                (sym (lookup-select f k d.pending u) ∙ e))
            (select-IsDict f d.pending u),
        λ k.
            (flush_each-pending (select f d.pending) d k).0
            ∙ ap (λ o. if is_some o then none else lookup k d.pending)
                (lookup-select f k d.pending u)
            ∙ passing-in_time d.window now k (lookup k d.pending),
      )

module _ {S D : Type 0} ⦃e : Eq D⦄ (dir : S → D) where
  read_events-closed :
      (k : String) (l : Dict String (Held S D)) (d : FlipDebouncer S D) (log : Option D)
      → read_events dir k log (flush_each l d).1 ≡ (if contains k l then none else log)
  unfolding flush_each
  read_events-closed k [] d log = unfold lookup in refl
  read_events-closed k ((j, (t, from, st)) ∷ l) d log =
      let d' : FlipDebouncer S D = record d {
        pending = erase j d.pending;
        last_arb_dir = erase j d.last_arb_dir;
      } in
      read_events-closed k l d' (if j =? k then none else log) ∙ gone k j (t, from, st) l log

  AgreesAt-flush :
      (w now : ℤ) (k : String) (o : Option (Held S D)) (last v log : Option D)
      → AgreesAt dir o last v log
      → let b = is_some (passing (expired w now) k o) in
        AgreesAt dir (if b then none else o) (if b then none else last) v (if b then none else log)
  AgreesAt-flush w now k none last v log a = a
  AgreesAt-flush w now k (some (t, from, st)) last v log a =
      elim (Bool-cases (ltb_ℤ w (now -ℤ t))) [
        | inl late ↦ rw late (sym a.0, sym a.0)
        | inr early ↦ rw early a
      ]

  -- A flush keeps the reader of the log in agreement with the tracker's view, when `pending` has each key
  -- once.
  pub flush-Agrees :
      (d : FlipDebouncer S D) (now : ℤ) (k : String) (v log : Option D)
      → IsDict d.pending
      → Agrees dir d k v log
      → Agrees dir (flush d now).0 k v (read_events dir k log (flush d now).1)
  unfolding flush
  flush-Agrees d now k v log u a =
      let l : Dict String (Held S D) = select (expired d.window now) d.pending in
      let (p, q) = flush_each-pending l d k in
      rw (p, q, read_events-closed k l d log, lookup-select (expired d.window now) k d.pending u)
        (AgreesAt-flush d.window now k (lookup k d.pending) (lookup k d.last_arb_dir) v log a)
