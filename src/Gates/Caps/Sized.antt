-- ===== src/Gates/Caps/Sized.antt =====
-- The size of an entry fits every ceiling.
use cross_arb.Prelude.{ap, ◌&&◌, Bool-cases, inl, inr, arith}
use cross_arb.Prelude.Int.{
  ℤ, pos, pos_part, neg_part, ◌-ℤ◌, ◌*ℤ◌, ◌≤ℤ◌, ◌<ℤ◌, ltb_ℤ, leb_ℤ, min_ℤ, max_ℤ, *ℤ_mono, *ℤ_comm,
  *ℤ_parts, *ℤ_pos,
}
use cross_arb.Prelude.Int.Rounding.{trunc_div, trunc_div_percent, scale_laws}
use cross_arb.Persistence.Episodes.{Episode}
use cross_arb.Capital.Economics.{cost_per}
use cross_arb.Capital.Afford.{cost_per_pos, affordable}
use cross_arb.Gates.{BotConfig}
use cross_arb.Gates.Clusters.{cluster_of}
use cross_arb.Gates.Caps.{Book, fits, caps_contracts, fat_sized, size_of}

-- A share below one of at least one contract.
share_bound :
    (size factor : ℤ)
    → pos 1 ≤ℤ size
    → factor <ℤ pos 100
    → max_ℤ (pos 1) (trunc_div (size *ℤ factor) 100) ≤ℤ size
share_bound size factor h f =
    let below = *ℤ_mono factor (pos 100) size (omega (arith, f)) (omega (arith, h)) in
    let turned = *ℤ_comm size factor in
    let whole = *ℤ_parts (pos 100) size in
    let small =
      trunc_div_percent (size *ℤ factor) size (omega (arith, h))
        (omega (scale_laws, below, whole, ap pos_part turned, ap neg_part turned)) in
    ground (arith, small, h)

fat_sized_bound : (cfg : BotConfig) (e : Episode) (size : ℤ) → fat_sized cfg e size ≤ℤ size
unfolding fat_sized
fat_sized_bound cfg e size =
    elim (Bool-cases (
      leb_ℤ cfg.fat_edge_knee e.open_net
      && ltb_ℤ cfg.fat_edge_size_factor (pos 100)
      && leb_ℤ (pos 1) size)) [
        | inl fat ↦ rw fat (share_bound size cfg.fat_edge_size_factor (ground arith) (ground arith))
        | inr thin ↦ rw thin (omega arith)
      ]

-- What costs no more than the room that is left, if it costs anything.
fits_room :
    (room size : ℤ) (e : Episode)
    → pos 1 ≤ℤ size
    → size ≤ℤ fits (max_ℤ (pos 0) room) e
    → size *ℤ cost_per e ≤ℤ room
fits_room room size e h f =
    let fit = affordable (max_ℤ (pos 0) room) size (cost_per e) (cost_per_pos e) f in
    let paid = *ℤ_pos size (cost_per e) (omega (arith, h)) (cost_per_pos e) in
    ground (arith, fit, paid)

-- A size of at least one contract keeps all the ceilings, and is paid from the cash.
pub record Fits (cfg : BotConfig) (b : Book) (e : Episode) (size : ℤ) : Type 0 where
  pub contracts : size ≤ℤ cfg.max_contracts_per_pair
  pub pair : size *ℤ cost_per e ≤ℤ cfg.max_notional_per_pair -ℤ b.per_pair e.market
  pub cluster :
      size *ℤ cost_per e ≤ℤ cfg.max_notional_per_cluster -ℤ b.per_cluster (cluster_of e.market)
  pub total : size *ℤ cost_per e ≤ℤ cfg.max_total_notional -ℤ b.total
  pub cash : size *ℤ cost_per e ≤ℤ b.cash

-- The least of three, and of four, numbers.
three : (s x y z : ℤ) → s ≤ℤ min_ℤ x (min_ℤ y z) → (s ≤ℤ y) × (s ≤ℤ z)
three s x y z h = ground (arith, h)

four :
    (s w x y z : ℤ) → s ≤ℤ min_ℤ w (min_ℤ x (min_ℤ y z)) → (s ≤ℤ w) × (s ≤ℤ x) × (s ≤ℤ y) × (s ≤ℤ z)
four s w x y z h = ground (arith, h)

pub size_of-Fits :
    (cfg : BotConfig) (b : Book) (e : Episode)
    → pos 1 ≤ℤ size_of cfg b e
    → Fits cfg b e (size_of cfg b e)
unfolding size_of caps_contracts
size_of-Fits cfg b e h =
    let (contracts, caps) = three (size_of cfg b e) _ _ _ (fat_sized_bound cfg e _) in
    let (pair, cluster, total, cash) = four (size_of cfg b e) _ _ _ _ caps in
    record {
      contracts = contracts;
      pair = fits_room _ (size_of cfg b e) e h pair;
      cluster = fits_room _ (size_of cfg b e) e h cluster;
      total = fits_room _ (size_of cfg b e) e h total;
      cash = affordable b.cash (size_of cfg b e) (cost_per e) (cost_per_pos e) cash;
    }
