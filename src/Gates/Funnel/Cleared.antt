-- ===== src/Gates/Funnel/Cleared.antt =====
-- What passes the funnel has passed every gate, and nothing is lost without being counted.
use cross_arb.Prelude.{
  ℕ, ◌≤◌, ◌≡◌, ◌⊎◌, inl, inr, refl, some_eq, ap, subst, Bool, true, false, not, ◌&&◌, ◌||◌, Option,
  none, some, List, elem, select, length, length-map, length-select_le, All, All-select,
  All-select_if, select_tests, All-sort_by, arith,
}
use cross_arb.Prelude.Int.{ℤ, pos, ◌+ℤ◌, ◌≤ℤ◌, leb_ℤ, int_laws}
use cross_arb.Prelude.Int.Sums.{sum_of}
use cross_arb.Persistence.Category.{Category, weather, sports, econ, other, category_keys}
use cross_arb.Persistence.Episodes.{Episode}
use cross_arb.Capital.Select.{keeps, capturable}
use cross_arb.Capital.Select.Earliest.{one_per_market-All}
use cross_arb.Bankroll.Account.{by_open_t}
use cross_arb.Gates.{BotConfig, is_weather, is_dear_led_weather, mid_divergence}
use cross_arb.Gates.Caps.{entered_of, cap_constrained_entries}
use cross_arb.Gates.Caps.Steps.{IsEntry}
use cross_arb.Gates.Caps.Capped.{IsDated, IsSound, cap_walk-IsCapped}
use cross_arb.Gates.Funnel.{
  positive_edge, Evidence, is_settled, ceiling_of, within, passes_mid, is_directed, Stages,
  FunnelRow, rows_from, rows_of, cohort, with_caps, run_funnel,
}

-- The gates, one by one.
pub record IsCleared (cfg : BotConfig) (v : Evidence) (e : Episode) : Type 0 where
  pub settled :
      cfg.require_settle_clean ≡ true → (e.cat ≡ weather) ⊎ (elem e.cat v.settle_verified ≡ true)
  pub near : (d : ℤ) → mid_divergence e v.open_px_idx ≡ some d → d ≤ℤ ceiling_of cfg e.cat
  pub floor : cfg.edge_floor ≤ℤ e.open_net
  pub led : cfg.skip_dear_led_weather ≡ true → is_dear_led_weather e v.dir_idx ≡ false

settled_by :
    (require verified : Bool) (cat : Category)
    → (not require || is_weather cat || verified) ≡ true
    → require ≡ true
    → (cat ≡ weather) ⊎ (verified ≡ true)
settled_by true verified weather h r = inl refl
settled_by true verified sports h r = inr h
settled_by true verified econ h r = inr h
settled_by true verified other h r = inr h
settled_by false verified cat h r = cc

within_bound : (ceil d : ℤ) (o : Option ℤ) → within ceil o ≡ true → o ≡ some d → d ≤ℤ ceil
within_bound ceil d none h e = cc
within_bound ceil d (some x) h e = subst (λ y. y ≤ℤ ceil) (some_eq e) (ground arith)

directed_by : (skip led : Bool) → not (skip && led) ≡ true → skip ≡ true → led ≡ false
directed_by true true h s = cc
directed_by true false h s = refl
directed_by false led h s = cc

cleared :
    (cfg : BotConfig) (v : Evidence) (e : Episode)
    → is_settled cfg v e ≡ true
    → passes_mid cfg v e ≡ true
    → leb_ℤ cfg.edge_floor e.open_net ≡ true
    → is_directed cfg v e ≡ true
    → IsCleared cfg v e
unfolding is_settled passes_mid is_directed
cleared cfg v e s m f d = record {
  settled = settled_by cfg.require_settle_clean (elem e.cat v.settle_verified) e.cat s;
  near = λ x h. within_bound (ceiling_of cfg e.cat) x (mid_divergence e v.open_px_idx) m h;
  floor = ground (arith, f);
  led = directed_by cfg.skip_dear_led_weather (is_dear_led_weather e v.dir_idx) d;
}

-- The candidates that each gate leaves.
abbrev settled_of : BotConfig → Evidence → List Episode → List Episode
settled_of cfg v cands = select (is_settled cfg v) cands

abbrev near_of : BotConfig → Evidence → List Episode → List Episode
near_of cfg v cands = select (passes_mid cfg v) (settled_of cfg v cands)

abbrev floored_of : BotConfig → Evidence → List Episode → List Episode
floored_of cfg v cands = select (λ e. leb_ℤ cfg.edge_floor e.open_net) (near_of cfg v cands)

abbrev cleared_of : BotConfig → Evidence → List Episode → List Episode
cleared_of cfg v cands = select (is_directed cfg v) (floored_of cfg v cands)

cleared_of-IsCleared :
    (cfg : BotConfig) (v : Evidence) (cands : List Episode)
    → All (IsCleared cfg v) (cleared_of cfg v cands)
cleared_of-IsCleared cfg v cands =
    let settled = select_tests (is_settled cfg v) cands in
    let near =
      All-select_if (λ e. is_settled cfg v e ≡ true)
        (λ e. (is_settled cfg v e ≡ true) × (passes_mid cfg v e ≡ true)) (passes_mid cfg v)
        (settled_of cfg v cands) (λ e h t. (h, t)) settled in
    let floored =
      All-select_if (λ e. (is_settled cfg v e ≡ true) × (passes_mid cfg v e ≡ true))
        (λ e.
          (is_settled cfg v e ≡ true)
          × (passes_mid cfg v e ≡ true)
          × (leb_ℤ cfg.edge_floor e.open_net ≡ true))
        (λ e. leb_ℤ cfg.edge_floor e.open_net) (near_of cfg v cands) (λ e h t. (h.0, h.1, t))
        near in
    All-select_if
      (λ e.
        (is_settled cfg v e ≡ true)
        × (passes_mid cfg v e ≡ true)
        × (leb_ℤ cfg.edge_floor e.open_net ≡ true))
      (IsCleared cfg v) (is_directed cfg v) (floored_of cfg v cands)
      (λ e (s, m, f) t. cleared cfg v e s m f t) floored

cleared_of-All :
    (P : Episode → Type 0) (cfg : BotConfig) (v : Evidence) (cands : List Episode)
    → All P cands
    → All P (cleared_of cfg v cands)
cleared_of-All P cfg v cands h = All-select P (is_directed cfg v) _ (
    All-select P (λ e. leb_ℤ cfg.edge_floor e.open_net) _
      (All-select P (passes_mid cfg v) _ (All-select P (is_settled cfg v) cands h)))

cohort-All : (P : Episode → Type 0) (eps : List Episode) → All P eps → All P (cohort eps)
unfolding cohort capturable
cohort-All P eps h =
    All-sort_by by_open_t P _ (one_per_market-All P _ (All-select P (keeps positive_edge) eps h))

-- What the rows say: no gate gains, and what all of them drop is what is gone at the end.
abbrev pub Accounts : ℕ → ℕ → List FunnelRow → Type 0
Accounts first last rows =
    All (λ r. pos 0 ≤ℤ r.dropped) rows × (sum_of (λ r. r.dropped) rows +ℤ pos last ≡ pos first)

rows_of-Accounts :
    (s : Stages)
    → length s.settlement ≤ length s.candidates
    → length s.mid_divergence ≤ length s.settlement
    → length s.edge_floor ≤ length s.mid_divergence
    → length s.directional ≤ length s.edge_floor
    → length s.fat_edge_sizing ≤ length s.directional
    → length s.caps ≤ length s.fat_edge_sizing
    → Accounts (length s.candidates) (length s.caps) (rows_of s)
unfolding rows_of rows_from sum_of
rows_of-Accounts s a b c d e f =
    rw
      (
        length-map (λ e. e.cat) s.candidates,
        length-map (λ e. e.cat) s.settlement,
        length-map (λ e. e.cat) s.mid_divergence,
        length-map (λ e. e.cat) s.edge_floor,
        length-map (λ e. e.cat) s.directional,
        length-map (λ e. e.cat) s.fat_edge_sizing,
        length-map (λ x. x.cat) s.caps,
      )
      (
        (
          omega int_laws,
          (
            omega (int_laws, a),
            (
              omega (int_laws, b),
              (
                omega (int_laws, c),
                (omega (int_laws, d), (omega (int_laws, e), (omega (int_laws, f), tt))),
              ),
            ),
          ),
        ),
        omega int_laws,
      )

-- If no ceiling and no bankroll is negative, and no slug has a date that is none, then the funnel ends. Each
-- entry is for an episode that passes every gate: its category is weather or verified, its mids are not further
-- apart than the ceiling of the category, its edge is at least the floor, and it is no weather market led by the
-- dear venue; the first and the last of these where the configuration asks for it. Every gate leaves at most what it is
-- given, and the drops of all rows with the entries make up the candidates.
pub run_funnel_lem :
    (eps : List Episode) (cfg : BotConfig) (v : Evidence) (haircut void_mult capital0 : ℤ)
    → IsSound cfg
    → pos 0 ≤ℤ capital0
    → All IsDated eps
    → (s : Stages) × (rows : List FunnelRow) × (run_funnel eps cfg v haircut void_mult capital0
        ≡ some (s, rows))
      × (s.candidates ≡ cohort eps)
      × All (IsEntry cfg (IsCleared cfg v)) s.caps
      × Accounts (length (cohort eps)) (length s.caps) rows
unfolding run_funnel cap_constrained_entries
run_funnel_lem eps cfg v haircut void_mult capital0 sound h d =
    let cands = cohort eps in
    let s1 = settled_of cfg v cands in
    let s3 = near_of cfg v cands in
    let s4 = floored_of cfg v cands in
    let s4b = cleared_of cfg v cands in
    let (b, ends, c, few) =
      cap_walk-IsCapped cfg haircut void_mult capital0 (IsCleared cfg v) s4b sound h
        (cleared_of-All IsDated cfg v cands (cohort-All IsDated eps d))
        (cleared_of-IsCleared cfg v cands) in
    let s : Stages = record {
      candidates = cands;
      settlement = s1;
      mid_divergence = s3;
      edge_floor = s4;
      directional = s4b;
      fat_edge_sizing = s4b;
      caps = b.entered;
    } in
    (
      s,
      rows_of s,
      ap (λ o. with_caps cands s1 s3 s4 s4b (entered_of o)) ends,
      refl,
      c.entries,
      rows_of-Accounts s (length-select_le (is_settled cfg v) cands)
          (length-select_le (passes_mid cfg v) s1)
          (length-select_le (λ e. leb_ℤ cfg.edge_floor e.open_net) s3)
          (length-select_le (is_directed cfg v) s4) (omega arith) few,
    )
