-- ===== src/Gates/Caps/Capped.antt =====
-- The exposure of the walk stays below the bot's ceilings.
use cross_arb.Prelude.{
  ℕ, ◌+◌, ◌≤◌, ◌≡◌, refl, sym, subst, Option, some, List, [], ◌∷◌, string_keys, length,
  length-append, All, Bool-cases, inl, inr, arith,
}
use cross_arb.Prelude.Int.{ℤ, pos, ◌*ℤ◌, ◌≤ℤ◌, ltb_ℤ, leb_ℤ, int_laws, not_leb_ℤ, not_ltb_ℤ}
use cross_arb.Prelude.Int.Sums.{sum_of}
use cross_arb.Persistence.Episodes.{Episode}
use cross_arb.Capital.Economics.{settle_t, profit_per}
use cross_arb.Capital.Afford.{profit_per_nonneg}
use cross_arb.Gates.{BotConfig}
use cross_arb.Gates.Caps.{Book, opening, settle_due, size_of, enter, consider, cap_walk, cash_of}
use cross_arb.Gates.Caps.Settled.{settle_each-Moves}
use cross_arb.Gates.Caps.Sized.{size_of-Fits}
use cross_arb.Gates.Caps.Steps.{IsCapped, settle_due-IsCapped, enter-IsCapped}

-- The slug of an episode has no date, or one that is a date.
abbrev pub IsDated : Episode → Type 0
IsDated e = (t : ℤ) × (settle_t e.market e.open_t (pos 100800) ≡ some t)

-- The walk ends with this, and with at most `n` entries.
abbrev Ends : BotConfig → ℤ → (Episode → Type 0) → ℕ → Option Book → Type 0
Ends cfg cash P n o = (b : Book) × (o ≡ some b) × IsCapped cfg cash P b × (length b.entered ≤ n)

consider-Ends :
    (cfg : BotConfig) (haircut void_mult cash : ℤ) (P : Episode → Type 0) (n : ℕ) (b : Book)
    (e : Episode)
    → IsCapped cfg cash P b
    → length b.entered ≤ n
    → IsDated e
    → P e
    → Ends cfg cash P (n + 1) (consider cfg haircut void_mult b e)
unfolding consider enter
consider-Ends cfg haircut void_mult cash P n b e c few (t, dated) q =
    let size = size_of cfg b e in
    let per = profit_per e haircut void_mult in
    elim (Bool-cases (leb_ℤ cfg.max_concurrent_positions b.open_positions)) [
      | inl full ↦ (b, rw full refl, c, omega (arith, few))
      | inr free ↦ elim (Bool-cases (ltb_ℤ size (pos 1))) [
        | inl little ↦ (b, rw (free, little) refl, c, omega (arith, few))
        | inr enough ↦ (
          enter b e size (size *ℤ per) t,
          rw (free, enough, dated) refl,
          enter-IsCapped cfg cash P b e size per t c q (not_ltb_ℤ size (pos 1) enough)
              (profit_per_nonneg e haircut void_mult)
              (size_of-Fits cfg b e (not_ltb_ℤ size (pos 1) enough))
              (not_leb_ℤ cfg.max_concurrent_positions b.open_positions free),
          rw (length-append b.entered) (omega (arith, few)),
        )
      ]
    ]

settle_due_entered : (now : ℤ) (b : Book) → (settle_due now b).entered ≡ b.entered
unfolding settle_due
settle_due_entered now b = (settle_each-Moves now b b.held).entered

cap_walk-Ends :
    (cfg : BotConfig) (haircut void_mult cash : ℤ) (P : Episode → Type 0) (n : ℕ) (b : Book)
    (es : List Episode)
    → IsCapped cfg cash P b
    → length b.entered ≤ n
    → All IsDated es
    → All P es
    → Ends cfg cash P (n + length es) (cap_walk cfg haircut void_mult b es)
unfolding cap_walk
cap_walk-Ends cfg haircut void_mult cash P n b [] c few d q = (b, refl, c, omega (arith, few))
cap_walk-Ends cfg haircut void_mult cash P n b (e ∷ es) c few d q =
    let (b', there, c', few') =
      consider-Ends cfg haircut void_mult cash P n (settle_due e.open_t b) e
        (settle_due-IsCapped cfg cash P e.open_t b c)
        (subst (λ xs. length xs ≤ n) (sym (settle_due_entered e.open_t b)) few) d.0 q.0 in
    let (b'', ends, c'', few'') =
      cap_walk-Ends cfg haircut void_mult cash P (n + 1) b' es c' few' d.1 q.1 in
    (b'', rw (there, cap_walk) ends, c'', omega (arith, few''))

-- No ceiling is negative.
pub record IsSound (cfg : BotConfig) : Type 0 where
  pub total : pos 0 ≤ℤ cfg.max_total_notional
  pub pair : pos 0 ≤ℤ cfg.max_notional_per_pair
  pub cluster : pos 0 ≤ℤ cfg.max_notional_per_cluster
  pub positions : pos 0 ≤ℤ cfg.max_concurrent_positions

opening-IsCapped :
    (cfg : BotConfig) (cash : ℤ) (P : Episode → Type 0)
    → IsSound cfg
    → pos 0 ≤ℤ cash
    → IsCapped cfg cash P (opening cash)
unfolding sum_of
opening-IsCapped cfg cash P s h = record {
  solvent = h;
  equity = omega int_laws;
  total = refl;
  pair = λ m. refl;
  cluster = λ k. refl;
  positions = refl;
  total_cap = s.total;
  pair_cap = λ m. s.pair;
  cluster_cap = λ k. s.cluster;
  positions_cap = s.positions;
  paid = tt;
  entries = tt;
}

-- If no ceiling and no bankroll is negative, and no slug has a date that is none, then the walk ends, whatever
-- the episodes are. It is solvent, cash and exposed capital are the lesser of bankroll and ceiling, and the
-- counters are the sums over the positions that are held. No pair, no cluster, no total and no number of
-- positions is above its ceiling. Each entry is of 1 to `max_contracts_per_pair` contracts for one of the
-- episodes, and there are no more entries than episodes.
pub cap_walk-IsCapped :
    (cfg : BotConfig) (haircut void_mult capital0 : ℤ) (P : Episode → Type 0) (es : List Episode)
    → IsSound cfg
    → pos 0 ≤ℤ capital0
    → All IsDated es
    → All P es
    → (b : Book) × (cap_walk cfg haircut void_mult (opening (cash_of cfg capital0)) es ≡ some b)
      × IsCapped cfg (cash_of cfg capital0) P b
      × (length b.entered ≤ length es)
cap_walk-IsCapped cfg haircut void_mult capital0 P es s h d q =
    let (b, ends, c, few) =
      cap_walk-Ends cfg haircut void_mult (cash_of cfg capital0) P 0
        (opening (cash_of cfg capital0)) es
        (opening-IsCapped cfg (cash_of cfg capital0) P s (ground (arith, s.total, h))) (omega arith)
        d q in
    (b, ends, c, omega (arith, few))
