-- ===== src/Gates.antt =====
-- The gates of scripts/backtest_current_strategy.py: the bot's configuration, the direction of an OPEN, and the
-- divergence of the venues' mids. A net edge is in 1/10000 dollar, a mid in 1/20000 dollar, and a notional in
-- 1/2000000 dollar.
pub mod Clusters
pub mod Caps
pub mod Funnel
pub mod Velocity
mod Tests
use mathlib.Core.Path.{ap₂}
use cross_arb.Prelude.{
  ◌≡◌, refl, subst, =?_refl, is_some, Bool, true, false, not, ◌&&◌, ◌||◌, Option, none, some, List,
  [], ◌∷◌, String, Eq, ◌=?◌, string_keys, int_keys, =?→≡, Dict, lookup, insert, elem, if◌then◌else◌,
}
use cross_arb.Prelude.Int.{ℤ, pos, ◌+ℤ◌, ◌-ℤ◌, max_ℤ}
use cross_arb.Monitor.Edge.{Transition, opened}
use cross_arb.Persistence.Category.{Category, weather, sports, econ, other}
use cross_arb.Persistence.Episodes.{Episode}
use cross_arb.Attribution.{
  Touches, PxRecord, OpenTag, cheap_made, dear_made, mixed_open, OpenRow, Skips, opposite,
  open_classes,
}

-- `fat_edge_size_factor` is in hundredths.
pub record BotConfig : Type 0 where
  pub edge_floor : ℤ
  pub max_contracts_per_pair : ℤ
  pub max_notional_per_pair : ℤ
  pub max_notional_per_cluster : ℤ
  pub max_total_notional : ℤ
  pub max_concurrent_positions : ℤ
  pub mid_divergence_reject : ℤ
  pub econ_twin_max_divergence : ℤ
  pub fat_edge_knee : ℤ
  pub fat_edge_size_factor : ℤ
  pub skip_dear_led_weather : Bool
  pub require_settle_clean : Bool

abbrev pub bot_config : BotConfig
bot_config = record {
  edge_floor = pos 200;
  max_contracts_per_pair = pos 1;
  max_notional_per_pair = pos 2000000;
  max_notional_per_cluster = pos 10000000;
  max_total_notional = pos 40000000;
  max_concurrent_positions = pos 5;
  mid_divergence_reject = pos 8000;
  econ_twin_max_divergence = pos 3000;
  fat_edge_knee = pos 600;
  fat_edge_size_factor = pos 50;
  skip_dear_led_weather = true;
  require_settle_clean = true;
}

-- A market and a time.
abbrev pub Place : Type 0
Place = String × ℤ

unfoldable pub place_eq : Place → Place → Bool
place_eq (m, t) (n, s) = m =? n && t =? s

both : (x y : Bool) → (x && y) ≡ true → (x ≡ true) × (y ≡ true)
both true y h = (refl, h)
both false y h = cc

pub place_eq→≡ : (a b : Place) → place_eq a b ≡ true → a ≡ b
unfolding place_eq
place_eq→≡ (m, t) (n, s) h =
    let (same, at) = both (m =? n) (t =? s) h in ap₂ (λ x y. (x, y)) (=?→≡ same) (=?→≡ at)

pub place_eq_refl : (a : Place) → place_eq a a ≡ true
unfolding place_eq
place_eq_refl (m, t) = rw (=?_refl m, =?_refl t) refl

instance abbrev pub place_keys : Eq Place
place_keys = record {
  beq = place_eq;
  beq_iff =
      λ a b. (place_eq→≡ a b, λ same. subst (λ c. place_eq a c ≡ true) same (place_eq_refl a));
}

-- `open_direction_index`: of several rows of a market and a time the last one stays.
abbrev index_row : OpenRow → Dict Place OpenTag → Dict Place OpenTag
index_row r d = insert (r.market, r.open_t) r.cls d

unfoldable pub index_rows : List OpenRow → Dict Place OpenTag → Dict Place OpenTag
index_rows [] d = d
index_rows (r ∷ rows) d = index_rows rows (index_row r d)

unfoldable pub open_direction_index : List PxRecord → List ℤ → Dict Place OpenTag × Skips
unfolding index_rows
open_direction_index recs sessions =
    let (rows, skips) = open_classes recs sessions in (index_rows rows [], skips)

abbrev is_weather : Category → Bool
is_weather weather = true
is_weather _ = false

abbrev is_dear_made : Option OpenTag → Bool
is_dear_made (some dear_made) = true
is_dear_made _ = false

unfoldable pub is_dear_led_weather : Episode → Dict Place OpenTag → Bool
is_dear_led_weather e dir_idx =
    is_weather e.cat && is_dear_made (lookup (e.market, e.open_t) dir_idx)

-- `_mid`, as twice the price.
abbrev mid : Option ℤ → Option ℤ → Option ℤ
mid (some bid) (some ask) = some (bid +ℤ ask)
mid (some bid) none = some (bid +ℤ bid)
mid none (some ask) = some (ask +ℤ ask)
mid none none = none

-- `venue_mids`: Kalshi's and the other venue's. The dict of a game has keys of a game only.
unfoldable pub venue_mids : Touches → Option ℤ × Option ℤ
venue_mids px =
    if is_some px.pm_a || is_some px.pm_b || is_some px.ka || is_some px.kb
    then (mid (opposite px.kb) px.ka, mid px.pm_b px.pm_a)
    else (mid px.k_yb px.k_ya, mid px.p_yb px.p_ya)

-- `abs` of the difference of two mids.
abbrev divergence : Option ℤ × Option ℤ → Option ℤ
divergence (some km, some pm) = some (max_ℤ (km -ℤ pm) (pm -ℤ km))
divergence _ = none

abbrev divergence_of : Option Touches → Option ℤ
divergence_of none = none
divergence_of (some px) = divergence (venue_mids px)

unfoldable pub mid_divergence : Episode → Dict Place Touches → Option ℤ
unfolding venue_mids
mid_divergence e open_px_idx = divergence_of (lookup (e.market, e.open_t) open_px_idx)

abbrev index_px : PxRecord → Transition → Option Touches → Dict Place Touches → Dict Place Touches
index_px r opened (some px) d = insert (r.market, r.t) px d
index_px r _ _ d = d

unfoldable pub px_rows : List PxRecord → Dict Place Touches → Dict Place Touches
px_rows [] d = d
px_rows (r ∷ recs) d = px_rows recs (index_px r r.transition r.px d)

unfoldable pub open_px_index : List PxRecord → Dict Place Touches
unfolding px_rows
open_px_index recs = px_rows recs []
