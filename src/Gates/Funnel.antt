-- ===== src/Gates/Funnel.antt =====
-- `run_funnel` of scripts/backtest_current_strategy.py: the gates in order, and the survivors of each.
pub mod Cleared
use cross_arb.Prelude.{
  ℕ, ◌+◌, ◌≡◌, refl, sym, ap, ◌∙◌, subst, Bool, true, false, not, ◌&&◌, ◌||◌, Option, none, some,
  List, [], ◌∷◌, String, Dict, lookup, insert, elem, select, map, length, sort_by, if◌then◌else◌,
}
use cross_arb.Prelude.Int.{ℤ, pos, ◌-ℤ◌, leb_ℤ}
use cross_arb.Persistence.Category.{Category, econ, category_keys}
use cross_arb.Persistence.Episodes.{Episode}
use cross_arb.Attribution.{Touches, OpenTag}
use cross_arb.Capital.Select.{Filter, capturable, one_per_market}
use cross_arb.Bankroll.Account.{by_open_t}
use cross_arb.Gates.{BotConfig, Place, place_keys, is_weather, is_dear_led_weather, mid_divergence}
use cross_arb.Gates.Caps.{Entry, cap_constrained_entries}

-- `Counter`
abbrev more : Option ℕ → ℕ
more none = 1
more (some n) = n + 1

unfoldable pub count_each : List Category → Dict Category ℕ → Dict Category ℕ
count_each [] d = d
count_each (c ∷ cs) d = count_each cs (insert c (more (lookup c d)) d)

unfoldable pub catmix : List Category → Dict Category ℕ
unfolding count_each
catmix cs = count_each cs []

-- What the gates are given besides the configuration: the verified categories, and the indexes of the opens.
pub record Evidence : Type 0 where
  pub settle_verified : List Category
  pub dir_idx : Dict Place OpenTag
  pub open_px_idx : Dict Place Touches

unfoldable pub is_settled : BotConfig → Evidence → Episode → Bool
is_settled cfg v e =
    not cfg.require_settle_clean || is_weather e.cat || elem e.cat v.settle_verified

abbrev is_econ : Category → Bool
is_econ econ = true
is_econ _ = false

abbrev pub ceiling_of : BotConfig → Category → ℤ
ceiling_of cfg cat = if is_econ cat then cfg.econ_twin_max_divergence else cfg.mid_divergence_reject

abbrev within : ℤ → Option ℤ → Bool
within ceil none = true
within ceil (some d) = leb_ℤ d ceil

unfoldable pub passes_mid : BotConfig → Evidence → Episode → Bool
passes_mid cfg v e = within (ceiling_of cfg e.cat) (mid_divergence e v.open_px_idx)

unfoldable pub is_directed : BotConfig → Evidence → Episode → Bool
is_directed cfg v e = not (cfg.skip_dear_led_weather && is_dear_led_weather e v.dir_idx)

pub record Stages : Type 0 where
  pub candidates : List Episode
  pub settlement : List Episode
  pub mid_divergence : List Episode
  pub edge_floor : List Episode
  pub directional : List Episode
  pub fat_edge_sizing : List Episode
  pub caps : List Entry

-- A row of the funnel.
pub record FunnelRow : Type 0 where
  pub gate : String
  pub n : ℕ
  pub by_cat : Dict Category ℕ
  pub dropped : ℤ

abbrev pub dropped_from : Option ℕ → ℕ → ℤ
dropped_from none n = pos 0
dropped_from (some prev) n = pos prev -ℤ pos n

unfoldable pub rows_from : Option ℕ → List (String × List Category) → List FunnelRow
unfolding catmix
rows_from prev [] = []
rows_from prev ((gate, cats) ∷ stages) =
    record {
      gate = gate;
      n = length cats;
      by_cat = catmix cats;
      dropped = dropped_from prev (length cats);
    }
    ∷ rows_from (some (length cats)) stages

abbrev pub cats_of : List Episode → List Category
cats_of es = map (λ e. e.cat) es

unfoldable pub rows_of : Stages → List FunnelRow
unfolding rows_from
rows_of s = rows_from none (
    ("candidates", cats_of s.candidates)
    ∷ ("settlement", cats_of s.settlement)
    ∷ ("mid_divergence", cats_of s.mid_divergence)
    ∷ ("edge_floor", cats_of s.edge_floor)
    ∷ ("directional", cats_of s.directional)
    ∷ ("fat_edge_sizing", cats_of s.fat_edge_sizing)
    ∷ ("caps", map (λ x. x.cat) s.caps)
    ∷ [])

abbrev pub positive_edge : Filter
positive_edge = record {
  edge_min = pos 0;
  window_min = pos 0;
  liq_floor = pos 1;
  max_age = some (pos 0);
  drop_restart = true;
  drop_flat = false;
}

-- The candidates: one per market, in the order of opening.
unfoldable pub cohort : List Episode → List Episode
cohort eps = sort_by by_open_t (one_per_market (capturable eps positive_edge))

abbrev pub with_caps :
    List Episode
    → List Episode
    → List Episode
    → List Episode
    → List Episode
    → Option (List Entry)
    → Option (Stages × List FunnelRow)
with_caps cands s1 s3 s4 s4b none = none
with_caps cands s1 s3 s4 s4b (some entered) =
    let stages : Stages = record {
      candidates = cands;
      settlement = s1;
      mid_divergence = s3;
      edge_floor = s4;
      directional = s4b;
      fat_edge_sizing = s4b;
      caps = entered;
    } in
    some (stages, rows_of stages)

-- None where the walk is none.
unfoldable pub run_funnel :
    List Episode → BotConfig → Evidence → ℤ → ℤ → ℤ → Option (Stages × List FunnelRow)
unfolding cohort is_settled passes_mid is_directed
run_funnel eps cfg v haircut void_mult capital0 =
    let cands = cohort eps in
    let s1 = select (is_settled cfg v) cands in
    let s3 = select (passes_mid cfg v) s1 in
    let s4 = select (λ e. leb_ℤ cfg.edge_floor e.open_net) s3 in
    let s4b = select (is_directed cfg v) s4 in
    with_caps cands s1 s3 s4 s4b (cap_constrained_entries s4b cfg haircut void_mult capital0)
