-- ===== src/Capital/Select.antt =====
-- `capturable` and `one_per_market` of scripts/capital_sim.py. A net edge is in 1/10000 dollar, an age in
-- tenths of a second, and a depth in whole contracts, as the log has them.
pub mod Earliest
use cross_arb.Prelude.{
  ◌≡◌, Bool, true, false, not, ◌&&◌, ◌||◌, Option, none, some, List, [], ◌∷◌, map, String, Eq, ◌=?◌,
  string_keys, Dict, lookup, insert, select, if◌then◌else◌,
}
use cross_arb.Persistence.Episodes.{Episode, Censor, uncensored, restart, eod}
use cross_arb.Prelude.Int.{ℤ, pos, ltb_ℤ, leb_ℤ, eqb_ℤ, max_ℤ}

-- The arguments of `capturable`.
pub record Filter : Type 0 where
  pub edge_min : ℤ
  pub window_min : ℤ
  pub liq_floor : ℤ
  pub max_age : Option ℤ
  pub drop_restart : Bool
  pub drop_flat : Bool

-- `max_age and age is not None and age > max_age`: an age limit of 0 is none.
abbrev pub too_old : Option ℤ → Option ℤ → Bool
too_old (some limit) (some age) = not (eqb_ℤ limit (pos 0)) && ltb_ℤ limit age
too_old _ _ = false

abbrev pub is_restart : Censor → Bool
is_restart restart = true
is_restart _ = false

unfoldable pub keeps : Filter → Episode → Bool
keeps f e =
    leb_ℤ f.edge_min e.open_net
    && leb_ℤ f.window_min e.duration
    && leb_ℤ (max_ℤ (pos 1) f.liq_floor) e.open_c2
    && not (too_old f.max_age e.open_age)
    && not (f.drop_restart && is_restart e.censored)
    && not (f.drop_flat && e.open_flat)

unfoldable pub capturable : List Episode → Filter → List Episode
unfolding keeps
capturable episodes f = select (keeps f) episodes

-- `if m not in rep or e["open_t"] < rep[m]["open_t"]`
abbrev pub sooner : Option Episode → Episode → Bool
sooner none e = true
sooner (some r) e = ltb_ℤ e.open_t r.open_t

unfoldable pub represent : List Episode → Dict String Episode → Dict String Episode
represent [] rep = rep
represent (e ∷ cap) rep =
    represent cap (if sooner (lookup e.market rep) e then insert e.market e rep else rep)

-- The representatives, in the order in which their markets came first.
unfoldable pub one_per_market : List Episode → List Episode
unfolding represent
one_per_market cap = map (λ row. row.1) (represent cap [])
