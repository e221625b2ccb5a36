-- ===== src/Monitor/Live/Heartbeat.antt =====
-- One pass of `rest_heartbeat` of `run_live` in bot/monitor.py, from the discovery that it was given to the
-- beacon. What is printed, the beacon and the wait are left out; a set is walked in the order of its dict.
pub mod Venue
pub mod Kept
pub mod Steps
pub mod Covers
pub mod Wired
pub mod Extends
pub mod Slugs
pub mod Asked
use cross_arb.Prelude.{
  ℕ, suc, Bool, true, false, not, ◌&&◌, Option, none, some, List, [], ◌∷◌, ◌++◌, String,
  string_keys, Dict, lookup, insert, erase, select, map, if◌then◌else◌,
}
use cross_arb.Prelude.Int.{ℤ, pos, ◌+ℤ◌, ltb_ℤ}
use cross_arb.Kalshi.Book.{KalshiBook}
use cross_arb.Monitor.Edge.{Attempt, ok, raised}
use cross_arb.Monitor.Housekeeping.Prune.{prune_decision}
use cross_arb.Monitor.Housekeeping.Teardown.{Live, teardown, tickers}
use cross_arb.Monitor.Live.Registry.{Pair, GamePair, Colisted, World, Closure, or_empty, register}
use cross_arb.Monitor.Live.Sockets.{
  Link, down, up, closing, Links, Sent, subscribe_pm, update_k, close_k, SubCmd, update_sub_cmd,
  shards, shard_size, subscribe_shards,
}

-- A pass: what discovery returned, whether it had fetch errors, the two readings of the clock, and what the
-- Kalshi entry of `conns` is once that socket has been closed.
pub record Pass : Type 0 where
  pub fresh : Colisted
  pub degraded : Bool
  pub now : ℤ
  pub now' : ℤ
  pub after_close : Link

-- What the tasks share, with what the pass has sent, and whether it has raised, which ends it.
pub record Beat (S D : Type 0) : Type 0 where
  pub world : World S D
  pub links : Links
  pub sent : List Sent
  pub raised : Bool

-- `PRUNE_THRESHOLD` and `ADD_CONFIRM_SECS`
abbrev pub prune_threshold : ℕ
prune_threshold = 2

abbrev pub add_confirm : ℤ
add_confirm = pos 60000

abbrev pub keys : {V : Type 0} → Dict String V → List String
keys [] = []
keys ((k, v) ∷ d) = k ∷ keys d

-- `[t for t, dl in pending.items() if now > dl]`
abbrev is_overdue : ℤ → String × ℤ → Bool
is_overdue now (tk, dl) = ltb_ℤ dl now

abbrev pub overdue : ℤ → Dict String ℤ → List String
overdue now pending = keys (select (is_overdue now) pending)

-- `for t in new_k: ksub["pending"][t] = dl`
abbrev await_all : ℤ → List String → Dict String ℤ → Dict String ℤ
await_all dl [] d = d
await_all dl (tk ∷ tks) d = await_all dl tks (insert tk dl d)

abbrev pop_all : List String → Dict String ℤ → Dict String ℤ
pop_all [] d = d
pop_all (tk ∷ tks) d = pop_all tks (erase tk d)

abbrev pub pair_slugs : List Pair → List String
pair_slugs [] = []
pair_slugs (e ∷ es) = e.slug ∷ pair_slugs es

abbrev pub game_slugs : List GamePair → List String
game_slugs [] = []
game_slugs (e ∷ es) = e.slug ∷ game_slugs es

-- `current`
pub current_slugs : Colisted → List String
current_slugs c =
    pair_slugs c.weather
    ++ (game_slugs c.sports ++ (pair_slugs (or_empty c.econ) ++ pair_slugs (or_empty c.soccer3)))

-- `[tk for slug in stale for tk in slug_k.get(slug, [])]`
abbrev pub tickers_of : Dict String (List String) → List String → List String
tickers_of slug_k [] = []
tickers_of slug_k (slug ∷ slugs) = tickers (lookup slug slug_k) ++ tickers_of slug_k slugs

module _ {S D : Type 0} where
  abbrev fail : Beat S D → Beat S D
  fail b = record b { raised = true }

  abbrev send : Beat S D → List Sent → Beat S D
  send b out = record b { sent = b.sent ++ out }

  -- A send on a Kalshi socket; a bad command raises first, and the id has been taken then.
  pub send_k : Beat S D → Link → Attempt SubCmd → Beat S D
  send_k b up (ok cmd) = send b (update_k cmd ∷ [])
  send_k b _ _ = fail b

  -- `_kcmd()`
  abbrev next_cmd : Beat S D → Beat S D
  next_cmd b = record b { links = record b.links { kcmd = suc b.links.kcmd } }

  pub update : Beat S D → ℤ → List String → String → Beat S D
  unfolding send_k
  update b sid tks action =
      let b' = next_cmd b in send_k b' b'.links.k (update_sub_cmd b'.links.kcmd sid tks action)

  pub add_pm_on : Beat S D → Link → List String → Beat S D
  add_pm_on b up (s ∷ ss) = send b (subscribe_shards (shards shard_size (s ∷ ss)))
  add_pm_on b closing (s ∷ ss) = fail b
  add_pm_on b _ _ = b

  -- The new slugs go out as more subscriptions on the polymarket socket.
  pub add_pm : Beat S D → List String → Beat S D
  unfolding add_pm_on
  add_pm b slugs = add_pm_on b b.links.pm slugs

  abbrev close : Beat S D → Link → Beat S D
  close b after = send (record b { links = record b.links { k = after } }) (close_k ∷ [])

  pub add_tickers : Beat S D → Pass → Option ℤ → List String → Beat S D
  unfolding update
  add_tickers b pass sid [] = b
  add_tickers b pass none (tk ∷ tks) = close b pass.after_close
  add_tickers b pass (some sid) (tk ∷ tks) =
      let dl = pass.now' +ℤ add_confirm in
      update
        (record b { links = record b.links { pending = await_all dl (tk ∷ tks) b.links.pending } })
        sid (tk ∷ tks) "add_markets"

  -- Added tickers that never had a snapshot cycle the connection; else the new tickers are added to it.
  pub on_link : Beat S D → Pass → List String → List String → Beat S D
  unfolding add_tickers
  on_link b pass [] new_k = add_tickers b pass b.links.sid new_k
  on_link b pass (tk ∷ tks) new_k =
      close (record b { links = record b.links { pending = [] } }) pass.after_close

  pub add_k_on : Beat S D → Link → Pass → List String → Beat S D
  unfolding on_link
  add_k_on b down pass new_k = b
  add_k_on b _ pass new_k = on_link b pass (overdue pass.now b.links.pending) new_k

  pub add_k : Beat S D → Pass → List String → Beat S D
  unfolding add_k_on
  add_k b pass new_k = add_k_on b b.links.k pass new_k

  unfoldable pub teardown_all :
      List String → Live Closure Closure KalshiBook ℕ S D → Live Closure Closure KalshiBook ℕ S D
  teardown_all [] l = l
  teardown_all (slug ∷ slugs) l = teardown_all slugs (teardown l slug)

  pub unsubscribe_on : Beat S D → Link → Option ℤ → List String → Beat S D
  unfolding update
  unsubscribe_on b down sid tks = b
  unsubscribe_on b _ none tks = b
  unsubscribe_on b _ (some sid) [] = b
  unsubscribe_on b _ (some sid) (tk ∷ tks) =
      update (record b { links = record b.links { pending = pop_all (tk ∷ tks) b.links.pending } })
        sid (tk ∷ tks) "delete_markets"

  pub unsubscribe : Beat S D → List String → Beat S D
  unfolding unsubscribe_on
  unsubscribe b dead = unsubscribe_on b b.links.k b.links.sid dead

  -- The settled markets are freed; what is left, and the tickers that they had.
  pub free_settled : Beat S D → Pass → Beat S D × List String
  unfolding teardown_all current_slugs
  free_settled b pass =
      let l = b.world.live in
      let (absent, stale) =
        prune_decision (keys l.pm_targets) (current_slugs pass.fresh) l.absent prune_threshold in
      let l' = teardown_all stale (record l { absent = absent }) in
      (record b { world = record b.world { live = l' } }, tickers_of l.slug_k stale)

  pub prune : Beat S D → Pass → Beat S D
  unfolding free_settled unsubscribe
  prune b pass = let (b', dead) = free_settled b pass in unsubscribe b' dead

  -- A pass with fetch errors frees nothing.
  pub prune_step : Pass → Beat S D → Beat S D
  unfolding prune
  prune_step pass b = let b' = prune b pass in if pass.degraded then b else b'

  -- A step that comes after one that raised is not reached.
  abbrev pub unless_raised : (Beat S D → Beat S D) → Beat S D → Beat S D
  unless_raised f b = let b' = f b in if b.raised then b else b'

  pub heartbeat : World S D → Links → Pass → Beat S D
  unfolding add_pm add_k prune_step
  heartbeat w links pass =
      let r = register w pass.fresh in
      let b : Beat S D = record { world = r.world; links = links; sent = []; raised = false } in
      unless_raised (prune_step pass)
        (unless_raised (λ x. add_k x pass r.new_k) (add_pm b r.new_pm))
