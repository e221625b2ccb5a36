-- ===== src/Gates/Velocity/Picked.antt =====
-- The episodes that both gates of `run_config` let through.
use cross_arb.Prelude.{
  ℕ, ◌⊎◌, ◌↔◌, ◌∙◌, some_eq, ◌≡◌, refl, sym, subst, Bool, true, false, Option, none, some, List, [],
  ◌∷◌, String, codes, All, Bool-cases, inl, inr, if◌then◌else◌,
}
use cross_arb.Prelude.Int.{ℤ, pos, ◌*ℤ◌, ◌≤ℤ◌, leb_ℤ, leb_ℤ→≤ℤ, ≤ℤ→leb_ℤ, max_ℤ, ◌-ℤ◌}
use cross_arb.Persistence.Category.{Category, weather, sports, econ, other}
use cross_arb.Persistence.Episodes.{Episode}
use cross_arb.Capital.Economics.{Date, search_date, timegm, settle_t, settle_on, settle_at}
use cross_arb.Gates.Caps.Capped.{IsDated}
use cross_arb.Gates.Velocity.{
  in_ms, epoch_of, event_epoch, minus, time_to_event, sports_lock, lock_live, near,
  passes_proximity, passes_edge_rate, and_then, passes, keep_if, eligible,
}

none_ne_some : {V : Type 0} (c : V) → none ≡ some c → ⊥
none_ne_some c h = cc

pub HasEpoch : String → Type 0
HasEpoch m = (o : Option ℤ) × (event_epoch m ≡ some o)

epoch-settle_at :
    (open_t off : ℤ) (o : Option ℤ) (t : ℤ)
    → settle_at open_t off o ≡ some t
    → (x : Option ℤ) × (in_ms o ≡ some x)
epoch-settle_at open_t off none t e = cc
epoch-settle_at open_t off (some s) t e = (some (pos 1000 *ℤ s), refl)

epoch-settle_on :
    (open_t off : ℤ) (o : Option (Date × List ℕ)) (t : ℤ)
    → settle_on open_t off o ≡ some t
    → (x : Option ℤ) × (epoch_of o ≡ some x)
epoch-settle_on open_t off none t e = (none, refl)
epoch-settle_on open_t off (some (d, rest)) t e = epoch-settle_at open_t off (timegm d) t e

pub IsDated-HasEpoch : (e : Episode) → IsDated e → HasEpoch e.market
unfolding settle_t event_epoch HasEpoch
IsDated-HasEpoch e (t, h) = epoch-settle_on e.open_t (pos 100800) (search_date (codes e.market)) t h

-- The lock of a sports pair with this date, or without one, in milliseconds: to the event, and 0.4 days at least.
abbrev pub IsSportsLock : ℤ → Option ℤ → ℤ → Type 0
IsSportsLock open_t none lock = lock ≡ pos 34560000
IsSportsLock open_t (some ev) lock = lock ≡ max_ℤ (ev -ℤ open_t) (pos 34560000)

-- The time that the money of an episode is locked for: 1.2 days for weather, 21 days without a calendar.
abbrev pub IsLock : Category → String → ℤ → ℤ → Type 0
IsLock weather m open_t lock = lock ≡ pos 103680000
IsLock sports m open_t lock = (o : Option ℤ) × (event_epoch m ≡ some o) × IsSportsLock open_t o lock
IsLock econ m open_t lock = lock ≡ pos 1814400000
IsLock other m open_t lock = lock ≡ pos 1814400000

-- The first gate: it is off, or the slug has no date, or the event is not further away than that.
abbrev pub IsNear : ℤ → Episode → Type 0
IsNear max_days e =
    (max_days ≤ℤ pos 0)
    ⊎ (o : Option ℤ) × (event_epoch e.market ≡ some o)
      × ((ev : ℤ) → o ≡ some ev → ev -ℤ e.open_t ≤ℤ max_days *ℤ pos 86400)

-- The second one: it is off, or the net edge for the time that it is locked is not below the floor.
abbrev pub IsFast : ℤ → Episode → Type 0
IsFast min_cpd e =
    (min_cpd ≤ℤ pos 0)
    ⊎ (lock : ℤ) × IsLock e.cat e.market e.open_t lock
      × (min_cpd *ℤ lock ≤ℤ e.open_net *ℤ pos 864000000)

abbrev pub MeetsGates : ℤ → ℤ → Episode → Type 0
MeetsGates max_days min_cpd e = IsNear max_days e × IsFast min_cpd e

-- The second list has exactly those of the first one that are such, in their order.
abbrev pub Picks : (Episode → Type 0) → List Episode → List Episode → Type 0
Picks P [] elig = elig ≡ []
Picks P (e ∷ es) elig =
    (P e × (rest : List Episode) × (elig ≡ e ∷ rest) × Picks P es rest)
    ⊎ ((¬ P e) × Picks P es elig)

-- The gate answers, and with this.
abbrev Decides : Type 0 → Option Bool → Type 0
Decides P o = (b : Bool) × (o ≡ some b) × ((b ≡ true) ↔ P)

decided_leb : (P : Type 0) (a b : ℤ) → ((a ≤ℤ b) ↔ P) → Decides P (some (leb_ℤ a b))
decided_leb P a b k = (leb_ℤ a b, refl, (λ h. k.0 (leb_ℤ→≤ℤ a b h), λ q. ≤ℤ→leb_ℤ a b (k.1 q)))

not_off : (a : ℤ) → a ≤ℤ pos 0 → leb_ℤ a (pos 0) ≡ false → ⊥
not_off a h g = cc (sym (≤ℤ→leb_ℤ a (pos 0) h) ∙ g)

sports-IsLock :
    (open_t : ℤ) (o : Option ℤ)
    → (lock : ℤ) × (sports_lock (minus open_t (some o)) ≡ some lock) × IsSportsLock open_t o lock
sports-IsLock open_t none = (_, refl, refl)
sports-IsLock open_t (some ev) = (_, refl, refl)

pub lock_live-IsLock :
    (c : Category) (m : String) (open_t : ℤ)
    → HasEpoch m
    → (lock : ℤ) × (lock_live c m open_t ≡ some lock) × IsLock c m open_t lock
unfolding lock_live time_to_event HasEpoch
lock_live-IsLock weather m open_t h = (_, refl, refl)
lock_live-IsLock econ m open_t h = (_, refl, refl)
lock_live-IsLock other m open_t h = (_, refl, refl)
lock_live-IsLock sports m open_t (o, h) =
    let (lock, e, is) = sports-IsLock open_t o in
    (lock, subst (λ x. sports_lock (minus open_t x) ≡ some lock) (sym h) e, (o, h, is))

IsLock-unique :
    (c : Category) (m : String) (open_t a b : ℤ) → IsLock c m open_t a → IsLock c m open_t b → a ≡ b
IsLock-unique weather m open_t a b p q = p ∙ sym q
IsLock-unique econ m open_t a b p q = p ∙ sym q
IsLock-unique other m open_t a b p q = p ∙ sym q
IsLock-unique sports m open_t a b (o, h, p) (o', h', q) =
    same o p (subst (λ x. IsSportsLock open_t x b) (sym (some_eq (sym h ∙ h'))) q)
  where
    same : (o : Option ℤ) → IsSportsLock open_t o a → IsSportsLock open_t o b → a ≡ b
    same none p q = p ∙ sym q
    same (some ev) p q = p ∙ sym q

near-Decides :
    (e : Episode) (max_days : ℤ) (o : Option ℤ)
    → event_epoch e.market ≡ some o
    → leb_ℤ max_days (pos 0) ≡ false
    → Decides (IsNear max_days e) (near max_days (minus e.open_t (some o)))
near-Decides e max_days none h gated =
    (true, refl, (λ t. inr (none, h, λ ev k. absurd (none_ne_some ev k)), λ n. refl))
near-Decides e max_days (some ev) h gated =
    decided_leb (IsNear max_days e) (ev -ℤ e.open_t) (max_days *ℤ pos 86400) (
      λ k. inr (
        some ev,
        h,
        λ ev' same. subst (λ x. x -ℤ e.open_t ≤ℤ max_days *ℤ pos 86400) (some_eq same) k,
      ),
      λ n. elim n [
        | inl off ↦ absurd (not_off max_days off gated)
        | inr (o', h', k) ↦ k ev (some_eq (sym h' ∙ h))
      ],
    )

proximity-Decides :
    (e : Episode) (max_days : ℤ)
    → HasEpoch e.market
    → Decides (IsNear max_days e) (passes_proximity e max_days)
unfolding passes_proximity time_to_event HasEpoch
proximity-Decides e max_days (o, h) = elim (Bool-cases (leb_ℤ max_days (pos 0))) [
  | inl off ↦ rw off (true, refl, (λ t. inl (leb_ℤ→≤ℤ max_days (pos 0) off), λ n. refl))
  | inr gated ↦
      subst
        (λ (b : Bool).
          Decides (IsNear max_days e)
            (if b then some true else near max_days (minus e.open_t (event_epoch e.market))))
        (sym gated)
        (subst (λ x. Decides (IsNear max_days e) (near max_days (minus e.open_t x))) (sym h)
          (near-Decides e max_days o h gated))
]

rate-Decides :
    (e : Episode) (min_cpd : ℤ)
    → HasEpoch e.market
    → Decides (IsFast min_cpd e) (passes_edge_rate e min_cpd)
unfolding passes_edge_rate
rate-Decides e min_cpd h = elim (Bool-cases (leb_ℤ min_cpd (pos 0))) [
  | inl off ↦ rw off (true, refl, (λ t. inl (leb_ℤ→≤ℤ min_cpd (pos 0) off), λ n. refl))
  | inr gated ↦
      let (lock, e', is) = lock_live-IsLock e.cat e.market e.open_t h in
      rw (gated, e')
        (decided_leb (IsFast min_cpd e) (min_cpd *ℤ lock) (e.open_net *ℤ pos 864000000) (
          λ k. inr (lock, is, k),
          λ n. elim n [
            | inl off ↦ absurd (not_off min_cpd off gated)
            | inr (lock', is', k) ↦
                subst (λ l. min_cpd *ℤ l ≤ℤ e.open_net *ℤ pos 864000000)
                  (IsLock-unique e.cat e.market e.open_t lock' lock is' is) k
          ],
        ))
]

passes-Decides :
    (e : Episode) (max_days min_cpd : ℤ)
    → HasEpoch e.market
    → Decides (MeetsGates max_days min_cpd e) (passes max_days min_cpd e)
unfolding passes
passes-Decides e max_days min_cpd h =
    both (passes_proximity e max_days) (passes_edge_rate e min_cpd) (proximity-Decides e max_days h)
      (rate-Decides e min_cpd h)
  where
    both :
        {P Q : Type 0} (p q : Option Bool)
        → Decides P p
        → Decides Q q
        → Decides (P × Q) (and_then p q)
    both p q (true, ep, kp) (b, eq, kq) =
        rw (ep, eq) (b, refl, (λ t. (kp.0 refl, kq.0 t), λ m. kq.1 m.1))
    both p q (false, ep, kp) (b, eq, kq) = rw ep (false, refl, (λ t. cc, λ m. cc (kp.1 m.0)))

pub eligible-Picks :
    (max_days min_cpd : ℤ) (base : List Episode)
    → All IsDated base
    → (elig : List Episode) × (eligible max_days min_cpd base ≡ some elig)
      × Picks (MeetsGates max_days min_cpd) base elig
      × All IsDated elig
unfolding eligible
eligible-Picks max_days min_cpd [] a = ([], refl, refl, tt)
eligible-Picks max_days min_cpd (e ∷ es) (d, ds) =
    let (elig, h, picks, all) = eligible-Picks max_days min_cpd es ds in
    let (b, p, k) = passes-Decides e max_days min_cpd (IsDated-HasEpoch e d) in
    subst
      (λ o.
        (out : List Episode) × (keep_if e o (eligible max_days min_cpd es) ≡ some out)
        × Picks (MeetsGates max_days min_cpd) (e ∷ es) out
        × All IsDated out)
      (sym p) (rw h (kept b k elig picks all))
  where
    kept :
        (b : Bool)
        → ((b ≡ true) ↔ MeetsGates max_days min_cpd e)
        → (elig : List Episode) → Picks (MeetsGates max_days min_cpd) es elig
        → All IsDated elig
        → (out : List Episode) × (keep_if e (some b) (some elig) ≡ some out)
          × Picks (MeetsGates max_days min_cpd) (e ∷ es) out
          × All IsDated out
    kept true k elig picks all = (e ∷ elig, refl, inl (k.0 refl, elig, refl, picks), (d, all))
    kept false k elig picks all = (elig, refl, inr (λ m. cc (k.1 m), picks), all)
