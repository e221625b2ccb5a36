-- ===== src/Bankroll/Recycle/Timeline.antt =====
-- The events of `run_arm` of scripts/recycle_arm_experiment.py: settlements, with what they fund again, and
-- arrivals.
use cross_arb.Prelude.{
  ℕ, zero, suc, ◌+◌, ◌*◌, Bool, true, ◌&&◌, ◌||◌, Option, none, some, List, [], ◌∷◌, ◌++◌, map,
  text_le, select, length, sort_by, if◌then◌else◌,
}
use cross_arb.Prelude.Int.{ℤ, pos, ◌+ℤ◌, ◌-ℤ◌, ltb_ℤ, leb_ℤ, eqb_ℤ}
use cross_arb.Prelude.Int.Sums.{sum_of}
use cross_arb.Persistence.Episodes.{Episode}
use cross_arb.Capital.Select.{Filter, capturable, one_per_market}
use cross_arb.Bankroll.Account.{window_end, last_seen}
use cross_arb.Bankroll.Recycle.{
  Arm, Rules, Funded, RecycleEvent, arrival, recycled, Status, funded, below_tau, cap0, cluster0,
  no_capital, bump_cluster, edge_of, try_fund,
}

-- A position settles: its capital and its profit come back.
unfoldable pub pay : Arm → ℤ → Funded → Arm
pay a s p =
    bump_cluster
      (record a { cash = a.cash +ℤ (p.capital +ℤ p.profit); realized = a.realized ++ p ∷ [] })
      p.cluster s (pos 0 -ℤ p.capital) (pos 0 -ℤ pos 1)

-- All that settle by `s`, from the front of the heap; what stays, and the settled ones.
unfoldable pub pop_due : ℤ → Arm → List Funded → Arm × List Funded × List Funded
unfolding pay
pop_due s a [] = (a, [], [])
pop_due s a (p ∷ ps) =
    let (a', rest, popped) = pop_due s (pay a s p) ps in
    if leb_ℤ p.settle_t s then (a', rest, p ∷ popped) else (a, p ∷ ps, [])

-- By `(-profit, market)`.
abbrev pub by_edge : Rules → Episode → Episode → Bool
by_edge w d e =
    ltb_ℤ (edge_of w e) (edge_of w d)
    || eqb_ℤ (edge_of w d) (edge_of w e) && text_le d.market e.market

-- What one candidate does to the event, and whether it stays pending.
abbrev pub noted : Episode → Status → RecycleEvent → RecycleEvent
noted e (funded p) ev = record ev {
  n_funded = ev.n_funded + 1;
  funded_capital = ev.funded_capital +ℤ p.capital;
  funded_profit = ev.funded_profit +ℤ p.profit;
  funded = ev.funded ++ e.market ∷ [];
}
noted e _ ev = ev

abbrev pub kept_for : Episode → Status → List Episode
kept_for e no_capital = e ∷ []
kept_for e cluster0 = e ∷ []
kept_for e _ = []

-- The loop over `live`; what stays pending is in its order.
unfoldable pub refund :
    Rules → ℤ → Arm → List Episode → RecycleEvent → Option (Arm × List Episode × RecycleEvent)
refund w s a [] ev = some (a, [], ev)
refund w s a (e ∷ live) ev = elim (try_fund w a e s recycled) [
  | none ↦ none
  | some (st, a') ↦ elim (refund w s a' live (noted e st ev)) [
    | none ↦ none
    | some (a'', still, ev') ↦ some (a'', kept_for e st ++ still, ev')
  ]
]

abbrev pub event_of : Rules → ℤ → List Funded → List Episode → RecycleEvent
event_of w s popped live = record {
  t = s;
  n_settled = length popped;
  freed_capital = sum_of (λ p. p.capital) popped;
  freed_pnl = sum_of (λ p. p.profit) popped;
  n_pending_live = length live;
  pending_edges = map (edge_of w) live;
  pending_markets = map (λ e. e.market) live;
  n_funded = 0;
  funded_capital = pos 0;
  funded_profit = pos 0;
  funded = [];
}

abbrev pub is_live : ℤ → Episode → Bool
is_live s e = ltb_ℤ s e.close_t

abbrev pub logged : Option (Arm × List Episode × RecycleEvent) → Option Arm
logged none = none
logged (some (a, still, ev)) =
    some (record a { pending = still; recycle_events = a.recycle_events ++ ev ∷ [] })

-- What follows the pops: pending candidates whose episode is still open are funded, the best edge first. With
-- none that is live, or without recycling, no candidate is asked for.
unfoldable pub recycle_at : Rules → ℤ → Arm → List Funded → Option Arm
unfolding refund
recycle_at w s a popped =
    let pending = select (is_live s) a.pending in
    let live = sort_by (by_edge w) pending in
    let ev = event_of w s popped live in
    if w.recycle then logged (refund w s a live ev) else logged (some (a, pending, ev))

-- A settlement event.
unfoldable pub settlement : Rules → ℤ → Arm → Option Arm
unfolding pop_due recycle_at
settlement w s a =
    let (a', rest, popped) = pop_due s a a.held in recycle_at w s (record a' { held = rest }) popped

-- An arrival event: what the status adds to the skips and to the pending candidates.
abbrev pub counted : Episode → Status → Arm → Arm
counted e (funded p) a = a
counted e below_tau a = record a { skipped_tau = a.skipped_tau + 1 }
counted e no_capital a = record a {
  skipped_capital = a.skipped_capital + 1;
  pending = a.pending ++ e ∷ [];
}
counted e cluster0 a = record a {
  skipped_cluster = a.skipped_cluster + 1;
  pending = a.pending ++ e ∷ [];
}
counted e cap0 a = record a { skipped_capital = a.skipped_capital + 1 }

abbrev pub arrived : Episode → Option (Status × Arm) → Option Arm
arrived e none = none
arrived e (some (st, a)) = some (counted e st a)

unfoldable pub arrive : Rules → Arm → Episode → Option Arm
arrive w a e = arrived e (try_fund w a e e.open_t arrival)

-- The next settlement, if it is due in the window and not behind the next arrival.
abbrev pub due : ℤ → List Episode → List Funded → Option ℤ
due window cands [] = none
due window [] (p ∷ ps) = if leb_ℤ p.settle_t window then some p.settle_t else none
due window (e ∷ es) (p ∷ ps) =
    if leb_ℤ p.settle_t window && leb_ℤ p.settle_t e.open_t then some p.settle_t else none

-- The loop, with fuel for its passes.
unfoldable pub run_loop : Rules → ℤ → ℕ → List Episode → Arm → Option Arm
unfolding settlement arrive
run_loop w window zero cands a = none
run_loop w window (suc n) [] a = elim (due window [] a.held) [
  | none ↦ some a
  | some s ↦ elim (settlement w s a) [ none ↦ none | some a' ↦ run_loop w window n [] a' ]
]
run_loop w window (suc n) (e ∷ es) a = elim (due window (e ∷ es) a.held) [
  | none ↦ elim (arrive w a e) [ none ↦ none | some a' ↦ run_loop w window n es a' ]
  | some s ↦ elim (settlement w s a) [ none ↦ none | some a' ↦ run_loop w window n (e ∷ es) a' ]
]

abbrev pub start : ℤ → Arm
start capital0 = record {
  cash = capital0;
  held = [];
  realized = [];
  entered = [];
  skipped_tau = 0;
  skipped_capital = 0;
  skipped_cluster = 0;
  skipped_partial = 0;
  cluster_trims = 0;
  cluster_locked = [];
  cluster_npos = [];
  cluster_peak = [];
  pending = [];
  recycle_events = [];
}

abbrev pub by_arrival : Episode → Episode → Bool
by_arrival d e = ltb_ℤ d.open_t e.open_t || eqb_ℤ d.open_t e.open_t && text_le d.market e.market

-- `CAPTURABLE_GATES`
abbrev pub gates : Bool → Filter
gates drop_flat = record {
  edge_min = pos 0;
  window_min = pos 0;
  liq_floor = pos 1;
  max_age = some (pos 0);
  drop_restart = true;
  drop_flat = drop_flat;
}

unfoldable pub arm_candidates : List Episode → Bool → List Episode
arm_candidates episodes drop_flat =
    sort_by by_arrival (one_per_market (capturable episodes (gates drop_flat)))

-- Each candidate is one arrival, may wait once, and is settled once.
abbrev pub enough : List Episode → ℕ
enough cands = 3 * length cands + 1

abbrev pub run_over : Rules → List Episode → List Episode → Option Arm
run_over w [] cands = none
run_over w (e ∷ es) [] = none
run_over w (e ∷ es) (c ∷ cs) =
    run_loop w (window_end (last_seen e) es) (enough (c ∷ cs)) (c ∷ cs) (start w.capital0)

-- None without an episode or a candidate, and where `settle_t` raises.
unfoldable pub run_arm : List Episode → Bool → Rules → Option Arm
unfolding run_loop arm_candidates
run_arm episodes drop_flat w = run_over w episodes (arm_candidates episodes drop_flat)
