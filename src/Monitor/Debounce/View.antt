-- ===== src/Monitor/Debounce/View.antt =====
-- What a reader of the debounced log knows of a market, against what the tracker knows.
use cross_arb.Prelude.{
  ◌≡◌, refl, sym, ap, subst, ◌∙◌, Option, none, some, List, [], ◌∷◌, String, Eq, ◌=?◌, =?_refl,
  =?→≡, string_keys, lookup, erase, lookup-insert_self, lookup-erase_self, arith, if◌then◌else◌,
  Bool-cases, inl, inr,
}
use cross_arb.Prelude.Int.{ℤ, ◌-ℤ◌, leb_ℤ}
use cross_arb.Monitor.Edge.{
  EdgeState, Transition, opened, closed, flipped, widened, narrowed, classify,
}
use cross_arb.Monitor.Edge.Replay.{view, read}
use cross_arb.Monitor.Debounce.{FlipDebouncer, Held, Event, remember, feed, on_open}

none_ne_some : {D : Type 0} (c : D) → none ≡ some c → ⊥
none_ne_some c h = cc

module _ {D : Type 0} where
  -- A label that fits what is open: OPEN only if nothing is, every other label only if something is, and
  -- WIDEN and NARROW only in its direction.
  abbrev pub Fits : Option D → Transition → D → Type 0
  Fits v opened d = v ≡ none
  Fits v closed d = (c : D) × (v ≡ some c)
  Fits v flipped d = (c : D) × (v ≡ some c)
  Fits v widened d = v ≡ some d
  Fits v narrowed d = v ≡ some d

module _ {D : Type 0} ⦃e : Eq D⦄ where
  -- `classify` only gives labels that fit.
  pub classify-Fits :
      (prev : Option (EdgeState D)) (new : EdgeState D) (t : Transition)
      → classify prev (some new) ≡ some t
      → Fits (view prev) t new.dir
  unfolding classify
  classify-Fits none new t h = ground arith
  classify-Fits (some prev) new t h = ground (arith, e.beq_iff new.dir prev.dir)

module _ {S D : Type 0} ⦃e : Eq D⦄ (dir : S → D) where
  -- The reader of the log takes the events of one key.
  abbrev pub read_events : String → Option D → List (Event S) → Option D
  read_events k v [] = v
  read_events k v (x ∷ xs) =
      read_events k (if x.key =? k then read v (some x.label) (dir x.state) else v) xs

  abbrev pub AgreesAt : Option (Held S D) → Option D → Option D → Option D → Type 0
  AgreesAt none last v log = (log ≡ v) × (last ≡ v)
  AgreesAt (some (t, from, st)) last v log =
      (v ≡ none) × (log ≡ from) × (last ≡ from) × ((c : D) × (from ≡ some c))

  -- For the key `k` the log agrees with the tracker's view `v`, unless a CLOSE is held: then nothing is open
  -- and the log still shows the direction that closed.
  abbrev pub Agrees : FlipDebouncer S D → String → Option D → Option D → Type 0
  Agrees d k v log = AgreesAt (lookup k d.pending) (lookup k d.last_arb_dir) v log

  -- With something open nothing is held.
  not_held :
      (o : Option (Held S D)) (last v log : Option D) (c : D)
      → v ≡ some c
      → AgreesAt o last v log
      → (o ≡ none) × (log ≡ v) × (last ≡ v)
  not_held none last v log c h a = (refl, a.0, a.1)
  not_held (some (t, from, st)) last v log c h a = absurd (none_ne_some c (sym a.0 ∙ h))

  Agrees-remember :
      (d : FlipDebouncer S D) (st : S) (k : String) (v log : Option D)
      → lookup k d.pending ≡ none
      → log ≡ v
      → v ≡ some (dir st)
      → Agrees (remember dir d st k) k v log
  Agrees-remember d st k v log p l h =
      rw (p, lookup-insert_self k (dir st) d.last_arb_dir) (l, sym h)

  feed_open-Agrees :
      (d : FlipDebouncer S D) (o : Option (Held S D)) (st : S) (k : String) (now : ℤ)
      (last log : Option D)
      → lookup k d.pending ≡ none
      → AgreesAt o last none log
      → let (d', events) = on_open dir d o st k now in
        Agrees d' k (some (dir st)) (read_events k log events)
  unfolding on_open
  feed_open-Agrees d none st k now last log p a =
      rw (=?_refl k) (Agrees-remember d st k (some (dir st)) (some (dir st)) p refl refl)
  feed_open-Agrees d (some (t, none, held)) st k now last log p (_, _, _, (c, h)) =
      absurd (none_ne_some c h)
  feed_open-Agrees d (some (t, some c, held)) st k now last log p (_, shown, _, _) =
      elim (Bool-cases (leb_ℤ (now -ℤ t) d.window)) [
        | inl within ↦ elim (Bool-cases (c =? dir st)) [
          | inl same ↦
              rw (within, same)
                (Agrees-remember d st k (some (dir st)) log p (shown ∙ ap some (=?→≡ same)) refl)
          | inr other ↦
              rw (within, other, =?_refl k)
                (Agrees-remember d st k (some (dir st)) (some (dir st)) p refl refl)
        ]
        | inr late ↦
            rw (late, =?_refl k)
              (Agrees-remember d st k (some (dir st)) (some (dir st)) p refl refl)
      ]

  -- Feeding a label that fits the tracker's view keeps the reader of the log in agreement with it: the reader
  -- knows what is open and in which direction, except that a held CLOSE still shows as open.
  pub feed-Agrees :
      (d : FlipDebouncer S D) (label : Transition) (st : S) (k : String) (now : ℤ)
      (v log : Option D)
      → Fits v label (dir st)
      → Agrees d k v log
      → let (d', events) = feed dir d (some (label, st)) k now in
        Agrees d' k (read v (some label) (dir st)) (read_events k log events)
  unfolding feed
  feed-Agrees d opened st k now v log f a =
      feed_open-Agrees (record d { pending = erase k d.pending }) (lookup k d.pending) st k now
        (lookup k d.last_arb_dir) log (lookup-erase_self k d.pending)
        (subst (λ x. AgreesAt (lookup k d.pending) (lookup k d.last_arb_dir) x log) f a)
  feed-Agrees d closed st k now v log (c, h) a =
      let (p, l, last) = not_held (lookup k d.pending) (lookup k d.last_arb_dir) v log c h a in
      rw (lookup-insert_self k (now, lookup k d.last_arb_dir, st) d.pending)
        (refl, l ∙ sym last, refl, (c, last ∙ h))
  feed-Agrees d flipped st k now v log (c, h) a =
      let (p, l, last) = not_held (lookup k d.pending) (lookup k d.last_arb_dir) v log c h a in
      rw (=?_refl k) (Agrees-remember d st k (some (dir st)) (some (dir st)) p refl refl)
  feed-Agrees d widened st k now v log h a =
      let (p, l, last) =
        not_held (lookup k d.pending) (lookup k d.last_arb_dir) v log (dir st) h a in
      rw (=?_refl k) (Agrees-remember d st k v log p l h)
  feed-Agrees d narrowed st k now v log h a =
      let (p, l, last) =
        not_held (lookup k d.pending) (lookup k d.last_arb_dir) v log (dir st) h a in
      rw (=?_refl k) (Agrees-remember d st k v log p l h)
