-- ===== src/Bankroll/Recycle.antt =====
-- `cluster_key` and `run_arm` of scripts/recycle_arm_experiment.py, with `recycle_edge` at its default `open`.
-- Money is in 1/2000000 dollar, and a share of the bankroll in hundredths.
pub mod Timeline
pub mod Funding
pub mod Steps
pub mod Ends
mod Tests
use Prim.Native.Char.{code}
use cross_arb.Prelude.{
  ℕ, zero, suc, ◌+◌, ◌*◌, ◌≡◌, Bool, true, false, ◌&&◌, ◌||◌, Option, none, some, List, [], ◌∷◌,
  ◌++◌, map, String, ◌=?◌, string_keys, codes, text_le, Dict, lookup, insert, select, length,
  sort_by, insert_by, is_some, if◌then◌else◌,
}
use cross_arb.Prelude.Int.{ℤ, pos, pos_part, ◌+ℤ◌, ◌-ℤ◌, ◌*ℤ◌, ltb_ℤ, leb_ℤ, eqb_ℤ, min_ℤ}
use cross_arb.Prelude.Int.Rounding.{floor_div}
use cross_arb.Prelude.Int.Sums.{sum_of}
use cross_arb.Persistence.Category.{Category, category_keys}
use cross_arb.Persistence.Episodes.{Episode}
use cross_arb.Capital.Select.{Filter, capturable, one_per_market}
use cross_arb.Capital.Economics.{match_date, settle_t, cost_per, profit_per}
use cross_arb.Bankroll.Account.{window_end, last_seen}

-- The first characters of a slug, up to the end of its date.
unfoldable pub cluster_key_at : ℕ → String → String
cluster_key_at zero s = String.[]
cluster_key_at (suc n) String.[] = String.[]
cluster_key_at (suc n) (String.◌∷◌ c s) = String.◌∷◌ c (cluster_key_at n s)

unfoldable pub cluster_key : String → String
unfolding match_date cluster_key_at
cluster_key String.[] = String.[]
cluster_key (String.◌∷◌ c s) =
    let rest = cluster_key s in
    if is_some (match_date (codes (String.◌∷◌ c s)))
    then cluster_key_at 10 (String.◌∷◌ c s)
    else String.◌∷◌ c rest

-- How a position was entered.
pub data Via : Type 0 where
  arrival recycled : Via

-- The dict `pos`; `basis` is always `open`.
pub record Funded : Type 0 where
  pub market : String
  pub cat : Category
  pub cluster : String
  pub size : ℤ
  pub capital : ℤ
  pub profit : ℤ
  pub entry_t : ℤ
  pub via : Via
  pub settle_t : ℤ

pub record Peak : Type 0 where
  pub peak : ℤ
  pub t : ℤ
  pub npos : ℤ

-- What happened at a settlement.
pub record RecycleEvent : Type 0 where
  pub t : ℤ
  pub n_settled : ℕ
  pub freed_capital : ℤ
  pub freed_pnl : ℤ
  pub n_pending_live : ℕ
  pub pending_edges : List ℤ
  pub pending_markets : List String
  pub n_funded : ℕ
  pub funded_capital : ℤ
  pub funded_profit : ℤ
  pub funded : List String

-- The variables of the run. `held` is the heap, as a list in the order of its pops.
pub record Arm : Type 0 where
  pub cash : ℤ
  pub held : List Funded
  pub realized : List Funded
  pub entered : List Funded
  pub skipped_tau : ℕ
  pub skipped_capital : ℕ
  pub skipped_cluster : ℕ
  pub skipped_partial : ℕ
  pub cluster_trims : ℕ
  pub cluster_locked : Dict String ℤ
  pub cluster_npos : Dict String ℤ
  pub cluster_peak : Dict String Peak
  pub pending : List Episode
  pub recycle_events : List RecycleEvent

-- The arguments that do not change in the run.
pub record Rules : Type 0 where
  pub capital0 : ℤ
  pub tau : ℤ
  pub cat_caps : Option (Dict Category ℤ)
  pub cluster_cap : Option ℤ
  pub recycle : Bool
  pub max_clip : ℤ
  pub offset_s : ℤ
  pub haircut : ℤ
  pub void_mult : ℤ

abbrev pub or_zero : Option ℤ → ℤ
or_zero none = pos 0
or_zero (some x) = x

abbrev higher : Option Peak → ℤ → Bool
higher none cur = true
higher (some pk) cur = ltb_ℤ pk.peak cur

-- `_bump_cluster`
abbrev pub bump_cluster : Arm → String → ℤ → ℤ → ℤ → Arm
bump_cluster a ck t delta dn =
    let cur = or_zero (lookup ck a.cluster_locked) +ℤ delta in
    let n = or_zero (lookup ck a.cluster_npos) +ℤ dn in
    record a {
      cluster_locked = insert ck cur a.cluster_locked;
      cluster_npos = insert ck n a.cluster_npos;
      cluster_peak =
          if ltb_ℤ (pos 0) delta && higher (lookup ck a.cluster_peak) cur
          then insert ck (record { peak = cur; t = t; npos = n }) a.cluster_peak
          else a.cluster_peak;
    }

-- What `try_fund` says.
pub data Status : Type 0 where
  funded : Funded → Status
  below_tau cap0 cluster0 no_capital : Status

abbrev pub edge_of : Rules → Episode → ℤ
edge_of w e = profit_per e w.haircut w.void_mult

abbrev pub clip_of : Rules → Episode → ℤ
clip_of w e = min_ℤ e.open_c2 w.max_clip

-- `CAT_CAP_OTHER` is 5 hundredths.
abbrev share_of : Option ℤ → ℤ
share_of none = pos 5
share_of (some share) = share

-- Contracts for a hundredfold amount.
abbrev contracts : ℤ → Episode → ℤ
contracts hundredfold e = floor_div hundredfold (100 * pos_part (cost_per e))

abbrev cat_capped : Rules → Episode → Option (Dict Category ℤ) → ℤ → ℤ
cat_capped w e none want = want
cat_capped w e (some caps) want =
    min_ℤ want (contracts (share_of (lookup e.cat caps) *ℤ w.capital0) e)

-- The contracts that the cluster's ceiling leaves.
abbrev cluster_want : Rules → Arm → Episode → ℤ → ℤ
cluster_want w a e cap =
    let room =
      cap *ℤ w.capital0 -ℤ pos 100 *ℤ or_zero (lookup (cluster_key e.market) a.cluster_locked) in
    if ltb_ℤ (pos 0) room then contracts room e else pos 0

abbrev cluster_capped : Rules → Arm → Episode → Option ℤ → ℤ → ℤ
cluster_capped w a e none want = want
cluster_capped w a e (some cap) want = min_ℤ want (cluster_want w a e cap)

-- By `(settle_t, seq)`: the one that was entered last comes last of its moment.
abbrev pub settles_first : Funded → Funded → Bool
settles_first p q = ltb_ℤ p.settle_t q.settle_t

unfoldable pub fund : Rules → Arm → Episode → ℤ → Via → ℤ → Bool → ℤ → Status × Arm
fund w a e now via size trimmed settle =
    let p : Funded = record {
      market = e.market;
      cat = e.cat;
      cluster = cluster_key e.market;
      size = size;
      capital = size *ℤ cost_per e;
      profit = size *ℤ edge_of w e;
      entry_t = now;
      via = via;
      settle_t = settle;
    } in
    (
      funded p,
      bump_cluster
          (record a {
            cash = a.cash -ℤ p.capital;
            held = insert_by settles_first p a.held;
            entered = a.entered ++ p ∷ [];
            skipped_partial =
                if ltb_ℤ size (clip_of w e) then a.skipped_partial + 1 else a.skipped_partial;
            cluster_trims = if trimmed then a.cluster_trims + 1 else a.cluster_trims;
          })
          p.cluster now p.capital (pos 1),
    )

abbrev funded_at : Rules → Arm → Episode → ℤ → Via → ℤ → Bool → Option ℤ → Option (Status × Arm)
funded_at w a e now via size trimmed none = none
funded_at w a e now via size trimmed (some settle) = some (fund w a e now via size trimmed settle)

-- None where `settle_t` raises.
unfoldable pub try_fund : Rules → Arm → Episode → ℤ → Via → Option (Status × Arm)
unfolding cluster_key fund
try_fund w a e now via =
    let want = cat_capped w e w.cat_caps (clip_of w e) in
    let left = cluster_capped w a e w.cluster_cap want in
    let size = min_ℤ left (floor_div a.cash (pos_part (cost_per e))) in
    if ltb_ℤ (edge_of w e) w.tau
    then some (below_tau, a)
    else if ltb_ℤ want (pos 1)
    then some (cap0, a)
    else if ltb_ℤ left (pos 1)
    then some (cluster0, a)
    else if ltb_ℤ size (pos 1)
    then some (no_capital, a)
    else funded_at w a e now via size (ltb_ℤ left want) (settle_t e.market now w.offset_s)
