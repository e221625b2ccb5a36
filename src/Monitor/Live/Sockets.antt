-- ===== src/Monitor/Live/Sockets.antt =====
-- What the tasks of `run_live` in bot/monitor.py send to the two venues: the shards of a polymarket
-- subscription, and `update_sub_cmd` for the Kalshi one.
pub mod Shards
use cross_arb.Prelude.{
  ℕ, suc, zero, Bool, true, false, ◌||◌, Option, none, some, List, [], ◌∷◌, String, ◌=?◌,
  string_keys, Dict, take, length, if◌then◌else◌,
}
use cross_arb.Prelude.Int.{ℤ}
use cross_arb.Monitor.Edge.{Attempt, ok, raised}

-- `xs[n:]`
abbrev pub drop {ℓ} : {A : Type ℓ} → ℕ → List A → List A
drop zero xs = xs
drop (suc n) [] = []
drop (suc n) (x ∷ xs) = drop n xs

-- `shard_size`
abbrev pub shard_size : ℕ
shard_size = 100

-- `for i in range(0, len(xs), n)` over `xs[i:i + n]`, with one unit of fuel for each item.
pub shards_from {ℓ} : {A : Type ℓ} → ℕ → ℕ → List A → List (List A)
shards_from n zero xs = []
shards_from n (suc fuel) [] = []
shards_from n (suc fuel) (x ∷ xs) = take n (x ∷ xs) ∷ shards_from n fuel (drop n (x ∷ xs))

pub shards {ℓ} : {A : Type ℓ} → ℕ → List A → List (List A)
unfolding shards_from
shards n xs = shards_from n (length xs) xs

-- An `update_subscription` command.
pub record SubCmd : Type 0 where
  pub id : ℕ
  pub sids : List ℤ
  pub market_tickers : List String
  pub action : String

unfoldable pub update_sub_cmd : ℕ → ℤ → List String → String → Attempt SubCmd
update_sub_cmd cmd_id sid tickers action =
    if action =? "add_markets" || action =? "delete_markets"
    then ok (record { id = cmd_id; sids = sid ∷ []; market_tickers = tickers; action = action })
    else raised

-- A venue's entry in `conns`: none, a live socket, or one that is closing, on which a send raises.
pub data Link : Type 0 where
  down up closing : Link

-- What a task sends, in order. A subscription is of some slugs or some tickers.
pub data Sent : Type 0 where
  subscribe_pm : List String → Sent
  subscribe_k : List String → Sent
  update_k : SubCmd → Sent
  close_k : Sent

-- `conns`, `ksub` and `kcmd`. A deadline is a time in milliseconds.
pub record Links : Type 0 where
  pub pm : Link
  pub k : Link
  pub sid : Option ℤ
  pub pending : Dict String ℤ
  pub kcmd : ℕ

abbrev pub subscribe_shards : List (List String) → List Sent
subscribe_shards [] = []
subscribe_shards (xs ∷ xss) = subscribe_pm xs ∷ subscribe_shards xss
