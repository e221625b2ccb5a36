-- ===== src/Gates/Caps/Steps.antt =====
-- What one settlement and one entry do to the ceilings of the walk.
use cross_arb.Prelude.{
  ◌≡◌, refl, sym, ap, subst, Bool, true, false, String, ◌=?◌, string_keys, =?→≡, length,
  length-append, All, All-append, Bool-cases, inl, inr, if◌then◌else◌, arith,
}
use cross_arb.Prelude.Int.{
  ℤ, pos, pos_part, neg_part, ◌+ℤ◌, ◌-ℤ◌, ◌*ℤ◌, ◌≤ℤ◌, ◌<ℤ◌, int_laws, *ℤ_nonneg,
}
use cross_arb.Prelude.Int.Sums.{sum_of, sum_of-append}
use cross_arb.Persistence.Episodes.{Episode}
use cross_arb.Capital.Economics.{cost_per}
use cross_arb.Capital.Afford.{cost_per_pos}
use cross_arb.Gates.{BotConfig}
use cross_arb.Gates.Clusters.{cluster_of}
use cross_arb.Gates.Caps.{Entry, Exposure, Book, bump, settle_due, enter}
use cross_arb.Gates.Caps.Settled.{
  capital_of, at_market, in_cluster, IsPaid, settle_each-Moves, settle_each-Falls,
}
use cross_arb.Gates.Caps.Sized.{Fits}

-- An entry of at least one contract and at most the ceiling, in the cluster of its market, for an episode of a
-- given kind.
pub record IsEntry (cfg : BotConfig) (P : Episode → Type 0) (x : Entry) : Type 0 where
  pub least : pos 1 ≤ℤ x.size
  pub most : x.size ≤ℤ cfg.max_contracts_per_pair
  pub gain : pos 0 ≤ℤ x.profit
  pub clustered : x.cluster ≡ cluster_of x.market
  pub from :
      (e : Episode) × P e
      × (x.market ≡ e.market)
      × (x.cat ≡ e.cat)
      × (x.open_t ≡ e.open_t)
      × (x.open_net ≡ e.open_net)

-- The state of the walk with this cash at its start, and entries of one kind of episode.
pub record IsCapped (cfg : BotConfig) (cash : ℤ) (P : Episode → Type 0) (b : Book) : Type 0 where
  pub solvent : pos 0 ≤ℤ b.cash
  pub equity : b.cash +ℤ sum_of capital_of b.held ≡ cash
  pub total : b.total ≡ sum_of capital_of b.held
  pub pair : (m : String) → b.per_pair m ≡ sum_of (at_market m) b.held
  pub cluster : (c : String) → b.per_cluster c ≡ sum_of (in_cluster c) b.held
  pub positions : b.open_positions ≡ pos (length b.held)
  pub total_cap : b.total ≤ℤ cfg.max_total_notional
  pub pair_cap : (m : String) → b.per_pair m ≤ℤ cfg.max_notional_per_pair
  pub cluster_cap : (c : String) → b.per_cluster c ≤ℤ cfg.max_notional_per_cluster
  pub positions_cap : b.open_positions ≤ℤ cfg.max_concurrent_positions
  pub paid : All IsPaid b.held
  pub entries : All (IsEntry cfg P) b.entered

pub settle_due-IsCapped :
    (cfg : BotConfig) (cash : ℤ) (P : Episode → Type 0) (now : ℤ) (b : Book)
    → IsCapped cfg cash P b
    → IsCapped cfg cash P (settle_due now b)
unfolding settle_due
settle_due-IsCapped cfg cash P now b c =
    let r = settle_each-Moves now b b.held in
    let (falls, paid) = settle_each-Falls now b b.held c.paid in
    record {
      solvent = omega (arith, c.solvent, falls.cash);
      equity = omega (
        int_laws,
        ap pos_part r.cash,
        ap neg_part r.cash,
        ap pos_part c.equity,
        ap neg_part c.equity,
      );
      total = omega (
        int_laws,
        ap pos_part r.total,
        ap neg_part r.total,
        ap pos_part c.total,
        ap neg_part c.total,
      );
      pair = λ m. omega (
        int_laws,
        ap pos_part (r.pair m),
        ap neg_part (r.pair m),
        ap pos_part (c.pair m),
        ap neg_part (c.pair m),
      );
      cluster = λ k. omega (
        int_laws,
        ap pos_part (r.cluster k),
        ap neg_part (r.cluster k),
        ap pos_part (c.cluster k),
        ap neg_part (c.cluster k),
      );
      positions = omega (
        int_laws,
        ap pos_part r.positions,
        ap neg_part r.positions,
        ap pos_part c.positions,
        ap neg_part c.positions,
      );
      total_cap = omega (arith, falls.total, c.total_cap);
      pair_cap = λ m. omega (arith, falls.pair m, c.pair_cap m);
      cluster_cap = λ k. omega (arith, falls.cluster k, c.cluster_cap k);
      positions_cap = omega (arith, falls.positions, c.positions_cap);
      paid = paid;
      entries = subst (All (IsEntry cfg P)) (sym r.entered) c.entries;
    }

-- A counter that an entry raises equals its sum, if it did before.
raised :
    (same : Bool) (v s c : ℤ)
    → v ≡ s
    → (if same then v +ℤ c else v) ≡ s +ℤ ((if same then c else pos 0) +ℤ pos 0)
raised true v s c h = omega (int_laws, ap pos_part h, ap neg_part h)
raised false v s c h = omega (int_laws, ap pos_part h, ap neg_part h)

-- A counter that is raised by no more than what is left below a ceiling.
raised_cap :
    (name : String) (d ceiling : ℤ) (f : Exposure) (j : String)
    → ((i : String) → f i ≤ℤ ceiling)
    → d ≤ℤ ceiling -ℤ f name
    → bump name d f j ≤ℤ ceiling
raised_cap name d ceiling f j h k = elim (Bool-cases (j =? name)) [
  | inl same ↦
      rw same (
        subst (λ i. f i +ℤ d ≤ℤ ceiling) {x = name} {y = j} (sym (=?→≡ same)) (omega (int_laws, k)))
  | inr else_ ↦ rw else_ (h j)
]

pub enter-IsCapped :
    (cfg : BotConfig) (cash : ℤ) (P : Episode → Type 0) (b : Book) (e : Episode)
    (size per settle : ℤ)
    → IsCapped cfg cash P b
    → P e
    → pos 1 ≤ℤ size
    → pos 0 ≤ℤ per
    → Fits cfg b e size
    → b.open_positions <ℤ cfg.max_concurrent_positions
    → IsCapped cfg cash P (enter b e size (size *ℤ per) settle)
unfolding enter sum_of
enter-IsCapped cfg cash P b e size per settle c p h g f room =
    let capital = *ℤ_nonneg size (cost_per e) (omega (arith, h)) (omega (arith, cost_per_pos e)) in
    let profit = *ℤ_nonneg size per (omega (arith, h)) g in
    record {
      solvent = omega (int_laws, f.cash);
      equity =
          rw (sum_of-append capital_of b.held _)
            (omega (int_laws, ap pos_part c.equity, ap neg_part c.equity));
      total =
          rw (sum_of-append capital_of b.held _)
            (omega (int_laws, ap pos_part c.total, ap neg_part c.total));
      pair =
          λ m. rw (sum_of-append (at_market m) b.held _) (raised (m =? e.market) _ _ _ (c.pair m));
      cluster = λ k.
          rw (sum_of-append (in_cluster k) b.held _)
            (raised (k =? cluster_of e.market) _ _ _ (c.cluster k));
      positions =
          rw (length-append b.held)
            (omega (int_laws, ap pos_part c.positions, ap neg_part c.positions));
      total_cap = omega (int_laws, f.total);
      pair_cap = λ m. raised_cap e.market _ _ b.per_pair m c.pair_cap f.pair;
      cluster_cap =
          λ k. raised_cap (cluster_of e.market) _ _ b.per_cluster k c.cluster_cap f.cluster;
      positions_cap = omega (int_laws, room);
      paid = All-append _ b.held _ c.paid (capital, tt);
      entries = All-append _ b.entered _ c.entries (
        record {
          least = h;
          most = f.contracts;
          gain = profit;
          clustered = refl;
          from = (e, p, refl, refl, refl, refl);
        },
        tt,
      );
    }
