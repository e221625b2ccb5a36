-- ===== src/Gates/Caps.antt =====
-- `cap_constrained_entries` of scripts/backtest_current_strategy.py. Money is in 1/2000000 dollar.
pub mod Settled
pub mod Steps
pub mod Sized
pub mod Capped
use cross_arb.Prelude.{
  ℕ, ◌+◌, ◌≡◌, Bool, true, false, ◌&&◌, Option, none, some, List, [], ◌∷◌, ◌++◌, String, ◌=?◌,
  string_keys, if◌then◌else◌,
}
use cross_arb.Prelude.Int.{ℤ, pos, pos_part, ◌+ℤ◌, ◌-ℤ◌, ◌*ℤ◌, ltb_ℤ, leb_ℤ, min_ℤ, max_ℤ}
use cross_arb.Prelude.Int.Rounding.{floor_div, trunc_div}
use cross_arb.Persistence.Category.{Category}
use cross_arb.Persistence.Episodes.{Episode}
use cross_arb.Capital.Economics.{settle_t, cost_per, profit_per}
use cross_arb.Gates.{BotConfig}
use cross_arb.Gates.Clusters.{cluster_of}

-- The dict `pos`.
pub record Entry : Type 0 where
  pub settle_t : ℤ
  pub capital : ℤ
  pub profit : ℤ
  pub market : String
  pub cat : Category
  pub size : ℤ
  pub cluster : String
  pub open_t : ℤ
  pub open_net : ℤ

-- A `defaultdict(float)`: what is exposed under each name.
abbrev pub Exposure : Type 0
Exposure = String → ℤ

abbrev bump : String → ℤ → Exposure → Exposure
bump name d f j = if j =? name then f j +ℤ d else f j

-- The variables of the walk.
pub record Book : Type 0 where
  pub cash : ℤ
  pub held : List Entry
  pub entered : List Entry
  pub per_pair : Exposure
  pub per_cluster : Exposure
  pub total : ℤ
  pub open_positions : ℤ

abbrev pub opening : ℤ → Book
opening cash = record {
  cash = cash;
  held = [];
  entered = [];
  per_pair = λ m. pos 0;
  per_cluster = λ c. pos 0;
  total = pos 0;
  open_positions = pos 0;
}

-- A position settles: its cash is free again, and no longer exposed.
unfoldable pub release : Book → Entry → Book
release b x = record b {
  cash = b.cash +ℤ x.capital;
  per_pair = bump x.market (pos 0 -ℤ x.capital) b.per_pair;
  per_cluster = bump x.cluster (pos 0 -ℤ x.capital) b.per_cluster;
  total = b.total -ℤ x.capital;
  open_positions = b.open_positions -ℤ pos 1;
}

-- The loop of `settle_due`, and the positions that stay.
unfoldable pub settle_each : ℤ → Book → List Entry → Book × List Entry
unfolding release
settle_each now b [] = (b, [])
settle_each now b (x ∷ xs) =
    let due = leb_ℤ x.settle_t now in
    let (b', still) = settle_each now (if due then release b x else b) xs in
    (b', if due then still else x ∷ still)

unfoldable pub settle_due : ℤ → Book → Book
unfolding settle_each
settle_due now b = let (b', still) = settle_each now b b.held in record b' { held = still }

-- The contracts that fit into the room below a ceiling.
abbrev pub fits : ℤ → Episode → ℤ
fits room e = floor_div room (pos_part (cost_per e))

unfoldable pub caps_contracts : BotConfig → Book → Episode → ℤ
caps_contracts cfg b e =
    min_ℤ (fits (max_ℤ (pos 0) (cfg.max_notional_per_pair -ℤ b.per_pair e.market)) e) (
      min_ℤ
        (fits (max_ℤ (pos 0) (cfg.max_notional_per_cluster -ℤ b.per_cluster (cluster_of e.market)))
          e)
        (min_ℤ (fits (max_ℤ (pos 0) (cfg.max_total_notional -ℤ b.total)) e) (fits b.cash e)))

-- The haircut of a fat edge.
unfoldable pub fat_sized : BotConfig → Episode → ℤ → ℤ
fat_sized cfg e size =
    if leb_ℤ cfg.fat_edge_knee e.open_net
      && ltb_ℤ cfg.fat_edge_size_factor (pos 100)
      && leb_ℤ (pos 1) size
    then max_ℤ (pos 1) (trunc_div (size *ℤ cfg.fat_edge_size_factor) 100)
    else size

unfoldable pub size_of : BotConfig → Book → Episode → ℤ
unfolding caps_contracts fat_sized
size_of cfg b e =
    fat_sized cfg e (min_ℤ e.open_c2 (min_ℤ cfg.max_contracts_per_pair (caps_contracts cfg b e)))

unfoldable pub enter : Book → Episode → ℤ → ℤ → ℤ → Book
enter b e size profit settle =
    let capital = size *ℤ cost_per e in
    let x : Entry = record {
      settle_t = settle;
      capital = capital;
      profit = profit;
      market = e.market;
      cat = e.cat;
      size = size;
      cluster = cluster_of e.market;
      open_t = e.open_t;
      open_net = e.open_net;
    } in
    record b {
      cash = b.cash -ℤ capital;
      held = b.held ++ x ∷ [];
      entered = b.entered ++ x ∷ [];
      per_pair = bump e.market capital b.per_pair;
      per_cluster = bump (cluster_of e.market) capital b.per_cluster;
      total = b.total +ℤ capital;
      open_positions = b.open_positions +ℤ pos 1;
    }

abbrev entered_at : Book → Episode → ℤ → ℤ → Option ℤ → Option Book
entered_at b e size profit none = none
entered_at b e size profit (some settle) = some (enter b e size profit settle)

-- What is left of the loop's body behind `settle_due`; none where `settle_t` raises. An episode settles 28
-- hours into its date.
unfoldable pub consider : BotConfig → ℤ → ℤ → Book → Episode → Option Book
unfolding size_of enter
consider cfg haircut void_mult b e =
    let size = size_of cfg b e in
    if leb_ℤ cfg.max_concurrent_positions b.open_positions
    then some b
    else if ltb_ℤ size (pos 1)
    then some b
    else entered_at b e size (size *ℤ profit_per e haircut void_mult)
        (settle_t e.market e.open_t (pos 100800))

unfoldable pub cap_walk : BotConfig → ℤ → ℤ → Book → List Episode → Option Book
cap_walk cfg haircut void_mult b [] = some b
cap_walk cfg haircut void_mult b (e ∷ es) =
    elim (consider cfg haircut void_mult (settle_due e.open_t b) e) [
      | none ↦ none
      | some b' ↦ cap_walk cfg haircut void_mult b' es
    ]

-- `min(float(capital0), cash_cap)`
abbrev pub cash_of : BotConfig → ℤ → ℤ
cash_of cfg capital0 = min_ℤ capital0 cfg.max_total_notional

abbrev pub entered_of : Option Book → Option (List Entry)
entered_of none = none
entered_of (some b) = some b.entered

-- `max_clip` is not used.
unfoldable pub cap_constrained_entries : List Episode → BotConfig → ℤ → ℤ → ℤ → Option (List Entry)
unfolding cap_walk
cap_constrained_entries cohort cfg haircut void_mult capital0 =
    entered_of (cap_walk cfg haircut void_mult (opening (cash_of cfg capital0)) cohort)
