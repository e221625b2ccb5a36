-- ===== src/Bankroll/Account.antt =====
-- `run_account` of scripts/account_sim.py. Money is in 1/2000000 dollar.
pub mod Balanced
pub mod Identity
use cross_arb.Prelude.{
  ℕ, ◌+◌, ◌≡◌, Bool, true, false, not, ◌&&◌, ◌||◌, Option, none, some, List, [], ◌∷◌, ◌++◌, String,
  length, sort_by, if◌then◌else◌,
}
use cross_arb.Prelude.Int.{ℤ, pos, pos_part, ◌+ℤ◌, ◌-ℤ◌, ◌*ℤ◌, ltb_ℤ, leb_ℤ, eqb_ℤ, min_ℤ, max_ℤ}
use cross_arb.Prelude.Int.Rounding.{floor_div}
use cross_arb.Prelude.Int.Sums.{sum_of}
use cross_arb.Persistence.Category.{Category}
use cross_arb.Persistence.Episodes.{Episode}
use cross_arb.Capital.Select.{Filter, capturable, one_per_market}
use cross_arb.Capital.Economics.{settle_t, cost_per, profit_per}

-- The dict `pos`.
pub record Position : Type 0 where
  pub settle_t : ℤ
  pub capital : ℤ
  pub profit : ℤ
  pub market : String
  pub cat : Category
  pub size : ℤ

-- The variables of the walk. The lists are in the order of their appends.
pub record Account : Type 0 where
  pub cash : ℤ
  pub held : List Position
  pub realized : List Position
  pub entered : List Position
  pub skipped_capital : ℕ
  pub skipped_partial : ℕ
  pub skipped_tau : ℕ

-- The arguments of the walk that do not change in it; `tau` is none without a threshold.
pub record Walk : Type 0 where
  pub max_clip : ℤ
  pub offset_s : ℤ
  pub haircut : ℤ
  pub void_mult : ℤ
  pub tau : Option ℤ

abbrev pub opening : ℤ → Account
opening capital0 = record {
  cash = capital0;
  held = [];
  realized = [];
  entered = [];
  skipped_capital = 0;
  skipped_partial = 0;
  skipped_tau = 0;
}

-- The loop of `settle_due`: what it adds to the cash, the positions that it realizes, and those that stay.
unfoldable pub settle_each : ℤ → List Position → ℤ × List Position × List Position
settle_each now [] = (pos 0, [], [])
settle_each now (p ∷ ps) =
    let (freed, done, still) = settle_each now ps in
    if leb_ℤ p.settle_t now
    then (p.capital +ℤ p.profit +ℤ freed, p ∷ done, still)
    else (freed, done, p ∷ still)

unfoldable pub settle_due : Account → ℤ → Account
unfolding settle_each
settle_due a now =
    let (freed, done, still) = settle_each now a.held in
    record a { cash = a.cash +ℤ freed; realized = a.realized ++ done; held = still }

-- Buy `size` contracts.
unfoldable pub enter : Account → Episode → ℤ → ℤ → ℤ → Bool → Account
enter a e size per settle partial =
    let capital = size *ℤ cost_per e in
    let p : Position = record {
      settle_t = settle;
      capital = capital;
      profit = size *ℤ per;
      market = e.market;
      cat = e.cat;
      size = size;
    } in
    record a {
      cash = a.cash -ℤ capital;
      held = a.held ++ p ∷ [];
      entered = a.entered ++ p ∷ [];
      skipped_partial = if partial then a.skipped_partial + 1 else a.skipped_partial;
    }

abbrev entered_at : Account → Episode → ℤ → ℤ → Bool → Option ℤ → Option Account
entered_at a e size per partial none = none
entered_at a e size per partial (some settle) = some (enter a e size per settle partial)

abbrev below : Option ℤ → ℤ → Bool
below none per = false
below (some tau) per = ltb_ℤ per tau

-- What is left of the loop's body behind `settle_due`; none where `settle_t` raises.
unfoldable pub consider : Walk → Account → Episode → Option Account
unfolding enter
consider w a e =
    let per = profit_per e w.haircut w.void_mult in
    let want = min_ℤ e.open_c2 w.max_clip in
    let size = min_ℤ want (floor_div a.cash (pos_part (cost_per e))) in
    if below w.tau per
    then some (record a { skipped_tau = a.skipped_tau + 1 })
    else if ltb_ℤ size (pos 1)
    then some (record a { skipped_capital = a.skipped_capital + 1 })
    else entered_at a e size per (ltb_ℤ size want) (settle_t e.market e.open_t w.offset_s)

unfoldable pub walk : Walk → Account → List Episode → Option Account
walk w a [] = some a
walk w a (e ∷ es) = elim (consider w (settle_due a e.open_t) e) [
  | none ↦ none
  | some a' ↦ walk w a' es
]

-- `e["close_t"] if e.get("close_t") else e["open_t"]`
abbrev pub last_seen : Episode → ℤ
last_seen e = if eqb_ℤ e.close_t (pos 0) then e.open_t else e.close_t

-- `max` of the episodes behind a first one.
unfoldable pub window_end : ℤ → List Episode → ℤ
window_end t [] = t
window_end t (e ∷ es) = window_end (max_ℤ t (last_seen e)) es

abbrev pub by_open_t : Episode → Episode → Bool
by_open_t d e = leb_ℤ d.open_t e.open_t

abbrev marked : ℤ → Option Account → Option Account
marked now none = none
marked now (some a) = some (settle_due a now)

-- The walk, and the final mark at the end of the window.
unfoldable pub run_walk : Walk → ℤ → List Episode → List Episode → Option Account
unfolding walk window_end
run_walk w capital0 [] cands = none
run_walk w capital0 (e ∷ es) cands =
    marked (window_end (last_seen e) es) (walk w (opening capital0) cands)

-- None where there is no episode, or where a slug has a date that is none. `tau` of the walk is not used.
unfoldable pub run_account : List Episode → ℤ → Filter → Walk → Option Account
unfolding run_walk
run_account episodes capital0 f w =
    run_walk (record w { tau = none }) capital0 episodes
      (sort_by by_open_t (one_per_market (capturable episodes f)))

-- The statement of the account.
abbrev pub profit_of : Position → ℤ
profit_of p = p.profit

abbrev pub capital_of : Position → ℤ
capital_of p = p.capital

abbrev pub realized_pnl : Account → ℤ
realized_pnl a = sum_of profit_of a.realized

abbrev pub unrealized_pnl : Account → ℤ
unrealized_pnl a = sum_of profit_of a.held

abbrev pub locked_capital : Account → ℤ
locked_capital a = sum_of capital_of a.held

abbrev pub total_pnl : Account → ℤ
total_pnl a = realized_pnl a +ℤ unrealized_pnl a
