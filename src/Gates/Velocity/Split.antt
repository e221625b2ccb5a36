-- ===== src/Gates/Velocity/Split.antt =====
-- What `run_config` returns.
use cross_arb.Prelude.{
  ◌≤◌, ◌⊎◌, ◌≡◌, refl, sym, ap, subst, true, false, some, List, [], ◌∷◌, length, select, All, arith,
  Bool-cases, inl, inr,
}
use cross_arb.Prelude.Int.{ℤ, pos, ◌+ℤ◌, ◌*ℤ◌, pos_part, neg_part, ◌≤ℤ◌, ltb_ℤ, leb_ℤ, int_laws}
use cross_arb.Prelude.Int.Sums.{sum_of}
use cross_arb.Persistence.Episodes.{Episode}
use cross_arb.Gates.{BotConfig}
use cross_arb.Gates.Caps.{Entry, cap_constrained_entries}
use cross_arb.Gates.Caps.Steps.{IsEntry}
use cross_arb.Gates.Caps.Capped.{IsDated, IsSound, cap_walk-IsCapped}
use cross_arb.Gates.Velocity.{settled_by, open_at, cap_wt_lock, ConfigRun, profit_of, run_config}
use cross_arb.Gates.Velocity.Picked.{
  HasEpoch, IsDated-HasEpoch, MeetsGates, Picks, lock_live-IsLock, eligible-Picks,
}

due_not_open : (s t : ℤ) → leb_ℤ s t ≡ true → ltb_ℤ t s ≡ false
due_not_open s t h = ground arith

open_not_due : (s t : ℤ) → leb_ℤ s t ≡ false → ltb_ℤ t s ≡ true
open_not_due s t h = ground arith

-- The partition of a sum by a test and its opposite.
sum_split :
    (f : Entry → ℤ) (t : ℤ) (xs : List Entry)
    → sum_of f (select (settled_by t) xs) +ℤ sum_of f (select (open_at t) xs) ≡ sum_of f xs
unfolding sum_of
sum_split f t [] = omega int_laws
sum_split f t (x ∷ xs) =
    let ih = sum_split f t xs in
    elim (Bool-cases (leb_ℤ x.settle_t t)) [
      | inl due ↦
          rw (due, due_not_open x.settle_t t due) (omega (int_laws, ap pos_part ih, ap neg_part ih))
      | inr later ↦
          rw (later, open_not_due x.settle_t t later)
            (omega (int_laws, ap pos_part ih, ap neg_part ih))
    ]

cap_wt_lock-IsEntry :
    (cfg : BotConfig) (P : Episode → Type 0) (xs : List Entry)
    → ((e : Episode) → P e → HasEpoch e.market)
    → All (IsEntry cfg P) xs
    → (n : ℤ) × (cap_wt_lock xs ≡ some n)
unfolding cap_wt_lock
cap_wt_lock-IsEntry cfg P [] dated a = (pos 0, refl)
cap_wt_lock-IsEntry cfg P (x ∷ xs) dated (a, as_) =
    let (e, p, market, cat, open_t, net) = a.from in
    let (lock, h, is) =
      lock_live-IsLock x.cat x.market x.open_t (subst HasEpoch (sym market) (dated e p)) in
    let (n, rest) = cap_wt_lock-IsEntry cfg P xs dated as_ in
    (x.capital *ℤ lock +ℤ n, rw (h, rest) refl)

-- An episode is in the list.
abbrev pub IsAmong : List Episode → Episode → Type 0
IsAmong [] e = ⊥
IsAmong (x ∷ xs) e = (x ≡ e) ⊎ IsAmong xs e

All-IsAmong : (xs : List Episode) → All IsDated xs → All (λ e. IsDated e × IsAmong xs e) xs
All-IsAmong [] d = tt
All-IsAmong (x ∷ xs) (d, ds) = ((d, inl refl), behind xs (All-IsAmong xs ds))
  where
    behind :
        (ys : List Episode)
        → All (λ e. IsDated e × IsAmong xs e) ys
        → All (λ e. IsDated e × IsAmong (x ∷ xs) e) ys
    behind [] a = tt
    behind (y ∷ ys) ((d', m), as_) = ((d', inr m), behind ys as_)

entries-IsAmong :
    (cfg : BotConfig) (elig : List Episode) (xs : List Entry)
    → All (IsEntry cfg (λ e. IsDated e × IsAmong elig e)) xs
    → All (IsEntry cfg (IsAmong elig)) xs
entries-IsAmong cfg elig [] a = tt
entries-IsAmong cfg elig (x ∷ xs) (a, as_) =
    let (e, p, market, cat, open_t, net) = a.from in
    (
      record {
        least = a.least;
        most = a.most;
        gain = a.gain;
        clustered = a.clustered;
        from = (e, p.1, market, cat, open_t, net);
      },
      entries-IsAmong cfg elig xs as_,
    )

-- For a base cohort of episodes with a date that is one, ceilings and a bankroll that are not negative, `run_config`
-- returns. The eligible episodes are exactly those of the base that meet both gates, in their order, and it gives
-- their number; each entry is of one of them and within the ceiling for its pair, and there are no more entries
-- than eligible episodes; and the entries' profit is what is realized by the end of the window and what is not,
-- together.
pub run_config_lem :
    (base : List Episode) (cfg : BotConfig) (max_days min_cpd capital0 window_end : ℤ)
    → IsSound cfg
    → pos 0 ≤ℤ capital0
    → All IsDated base
    → (r : ConfigRun) × (elig : List Episode) × (run_config base cfg max_days min_cpd capital0
          window_end
        ≡ some r)
      × Picks (MeetsGates max_days min_cpd) base elig
      × (r.eligible ≡ length elig)
      × All (IsEntry cfg (IsAmong elig)) r.entered
      × (length r.entered ≤ r.eligible)
      × (r.realized +ℤ r.unreal ≡ sum_of profit_of r.entered)
unfolding run_config cap_constrained_entries
run_config_lem base cfg max_days min_cpd capital0 window_end s h d =
    let (elig, he, picks, dated) = eligible-Picks max_days min_cpd base d in
    let P : Episode → Type 0 = λ e. IsDated e × IsAmong elig e in
    let (b, walked, capped, fewer) =
      cap_walk-IsCapped cfg (pos 0) (pos 100) capital0 P elig s h dated (All-IsAmong elig dated) in
    let (n, locked) =
      cap_wt_lock-IsEntry cfg P b.entered (λ e p. IsDated-HasEpoch e p.0) capped.entries in
    rw (he, walked, locked)
      (
        _,
        elig,
        refl,
        picks,
        refl,
        entries-IsAmong cfg elig b.entered capped.entries,
        fewer,
        sum_split profit_of window_end b.entered,
      )
