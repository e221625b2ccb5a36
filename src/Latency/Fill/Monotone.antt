-- ===== src/Latency/Fill/Monotone.antt =====
-- What a longer latency does to the tally.
use cross_arb.Prelude.{
  suc, ◌+◌, ◌≤◌, ◌≡◌, refl, ap, Bool, true, false, ◌||◌, Option, none, some, List, [], ◌∷◌, length,
  All, if◌then◌else◌, arith, Bool-cases, inl, inr,
}
use cross_arb.Prelude.Int.{
  ℤ, pos, ◌+ℤ◌, ◌≤ℤ◌, ◌<ℤ◌, ltb_ℤ, leb_ℤ, int_laws, leb_ℤ→≤ℤ, ≤ℤ→leb_ℤ, <ℤ→ltb_ℤ, ltb_ℤ→<ℤ,
}
use cross_arb.Latency.Trajectory.{Traced, edge_at, last_net, first_net, net_from}
use cross_arb.Latency.Fill.{Tally, tally, fails, flipped_by, positive, survive}

leb_ℤ-mono : (a x y : ℤ) → x ≤ℤ y → leb_ℤ a x ≡ true → leb_ℤ a y ≡ true
leb_ℤ-mono a x y le h = ≤ℤ→leb_ℤ a y (omega (int_laws, leb_ℤ→≤ℤ a x h))

or_mono :
    (a b c d : Bool)
    → (a ≡ true → b ≡ true)
    → (c ≡ true → d ≡ true)
    → (a || c) ≡ true
    → (b || d) ≡ true
or_mono a b c d f g e = ground arith

flipped_by_mono :
    (x y : ℤ) (fts : List ℤ) → x ≤ℤ y → flipped_by x fts ≡ true → flipped_by y fts ≡ true
flipped_by_mono x y [] le h = h
flipped_by_mono x y (ft ∷ fts) le h =
    or_mono (leb_ℤ ft x) (leb_ℤ ft y) (flipped_by x fts) (flipped_by y fts) (leb_ℤ-mono ft x y le)
      (flipped_by_mono x y fts le) h

-- What fails after one latency fails after every longer one.
fails_mono : (l m : ℤ) (e : Traced) → l ≤ℤ m → fails l e ≡ true → fails m e ≡ true
fails_mono l m e le h =
    let later : (e.ep.open_t +ℤ l) ≤ℤ (e.ep.open_t +ℤ m) = omega int_laws in
    or_mono (leb_ℤ e.ep.close_t (e.ep.open_t +ℤ l)) (leb_ℤ e.ep.close_t (e.ep.open_t +ℤ m))
      (flipped_by (e.ep.open_t +ℤ l) e.flip_ts) (flipped_by (e.ep.open_t +ℤ m) e.flip_ts)
      (leb_ℤ-mono e.ep.close_t _ _ later) (flipped_by_mono _ _ e.flip_ts later) h

failed-survive : (o : Option ℤ) (t : Tally) → (survive o t).failed ≡ t.failed
failed-survive none t = refl
failed-survive (some net) t = refl

failed-tally : (l m : ℤ) (es : List Traced) → l ≤ℤ m → (tally l es).failed ≤ (tally m es).failed
unfolding tally
failed-tally l m [] le = omega arith
failed-tally l m (e ∷ es) le =
    let ih = failed-tally l m es le in
    let ol = positive (edge_at e (e.ep.open_t +ℤ l)) in
    let om = positive (edge_at e (e.ep.open_t +ℤ m)) in
    elim (Bool-cases (fails l e)) [
      | inl early ↦ rw (early, fails_mono l m e le early) (omega (arith, ih))
      | inr open_ ↦ elim (Bool-cases (fails m e)) [
        | inl late ↦ rw (open_, late) (omega (arith, ih, failed-survive ol (tally l es)))
        | inr still ↦
            rw (open_, still)
              (omega (arith, ih, failed-survive ol (tally l es), failed-survive om (tally m es)))
      ]
    ]

-- A trajectory is not empty, and all its nets are above zero.
abbrev pub Positive : List (ℤ × ℤ) → Type 0
Positive [] = ⊥
Positive ((t, v) ∷ ps) = (pos 0 <ℤ v) × All (λ p. pos 0 <ℤ p.1) ps

last_net_positive :
    (x net : ℤ) (ps : List (ℤ × ℤ))
    → pos 0 <ℤ net
    → All (λ p. pos 0 <ℤ p.1) ps
    → pos 0 <ℤ last_net x net ps
unfolding last_net
last_net_positive x net [] h a = h
last_net_positive x net ((t, v) ∷ ps) h (a, as_) = elim (Bool-cases (leb_ℤ t x)) [
  | inl reached ↦ rw reached (last_net_positive x v ps a as_)
  | inr later ↦ rw later h
]

not_before : (o l : ℤ) → pos 0 ≤ℤ l → ltb_ℤ (o +ℤ l) o ≡ false
not_before o l le = elim (Bool-cases (ltb_ℤ (o +ℤ l) o)) [
  | inl before ↦ let absurd : ⊥ = omega (int_laws, ltb_ℤ→<ℤ (o +ℤ l) o before) in elim absurd [ ]
  | inr after ↦ after
]

-- Some net above zero.
abbrev Some : Option ℤ → Type 0
Some o = (net : ℤ) × (positive o ≡ some net)

Some-net_from : (x : ℤ) (ps : List (ℤ × ℤ)) → Positive ps → Some (net_from x ps (first_net ps))
Some-net_from x [] h = elim h [ ]
Some-net_from x ((t, v) ∷ ps) h =
    let net = last_net x v ((t, v) ∷ ps) in
    (
      net,
      ap (λ b. if b then some net else none)
          (<ℤ→ltb_ℤ (pos 0) net (last_net_positive x v ((t, v) ∷ ps) h.0 h)),
    )

-- An order that does not fail meets an edge.
Some-edge_at :
    (l : ℤ) (e : Traced)
    → pos 0 ≤ℤ l
    → Positive e.traj
    → fails l e ≡ false
    → Some (edge_at e (e.ep.open_t +ℤ l))
unfolding edge_at
Some-edge_at l e le h lives =
    let x = e.ep.open_t +ℤ l in
    let open_ : leb_ℤ e.ep.close_t x ≡ false =
      not_either (leb_ℤ e.ep.close_t x) (flipped_by x e.flip_ts) lives in
    rw (not_before e.ep.open_t l le, open_) (Some-net_from x e.traj h)
  where
    not_either : (a b : Bool) → (a || b) ≡ false → a ≡ false
    not_either a b e = ground arith

survive-some :
    (o : Option ℤ) (t : Tally) (net : ℤ) → o ≡ some net → (survive o t).survived ≡ suc t.survived
survive-some none t net e = cc
survive-some (some v) t net e = refl

counts :
    (l : ℤ) (es : List Traced)
    → pos 0 ≤ℤ l
    → All (λ e. Positive e.traj) es
    → (tally l es).failed + (tally l es).survived ≡ length es
unfolding tally
counts l [] le h = omega arith
counts l (e ∷ es) le (p, ps) =
    let ih = counts l es le ps in
    let o = positive (edge_at e (e.ep.open_t +ℤ l)) in
    elim (Bool-cases (fails l e)) [
      | inl failed ↦ rw failed (omega (arith, ih))
      | inr lives ↦
          let (net, met) = Some-edge_at l e le p lives in
          rw lives
            (omega (arith, ih, failed-survive o (tally l es), survive-some o (tally l es) net met))
    ]

-- For any cohort whose trajectories have no net at or below zero, and two latencies of which the second is not the
-- shorter and the first is not below zero: of all episodes each fails or survives, after either latency, and after
-- the longer one at least as many fail and at most as many survive.
pub tally_mono :
    (l m : ℤ) (es : List Traced)
    → pos 0 ≤ℤ l
    → l ≤ℤ m
    → All (λ e. Positive e.traj) es
    → ((tally l es).failed + (tally l es).survived ≡ length es)
      × ((tally m es).failed + (tally m es).survived ≡ length es)
      × ((tally l es).failed ≤ (tally m es).failed)
      × ((tally m es).survived ≤ (tally l es).survived)
tally_mono l m es le more h =
    let a = counts l es le h in
    let b = counts m es (omega int_laws) h in
    let c = failed-tally l m es more in (a, b, c, omega (arith, a, b, c))
