-- ===== src/Monitor/Live/Registry.antt =====
-- `register` of `run_live` in bot/monitor.py: the trackers that it makes for the markets that discovery
-- found, and the dicts that lead a venue's frames to them. A closure holds a tracker by reference, so
-- trackers stand in a heap, and a closure has the tracker's place there and its key.
pub mod Wired
pub mod Report
pub mod Again
use cross_arb.Prelude.{
  ℕ, suc, Bool, false, ◌||◌, Option, none, some, List, [], ◌∷◌, ◌++◌, String, string_keys, nat_keys,
  Dict, insert, contains, length, ltb, if◌then◌else◌,
}
use cross_arb.Kalshi.Book.{KalshiBook}
use cross_arb.Monitor.Market as Market
use cross_arb.Monitor.Market.{MarketTracker}
use cross_arb.Monitor.Game as Game
use cross_arb.Monitor.Game.{GameTracker, Team, team_a, team_b}
use cross_arb.Monitor.Housekeeping.Teardown.{Live}

-- An entry of `colisted["weather"]`, `["econ"]` or `["soccer3"]`, and one of `["sports"]`.
pub record Pair : Type 0 where
  pub slug : String
  pub kalshi : String

pub record GamePair : Type 0 where
  pub slug : String
  pub kalshi_a : String
  pub kalshi_b : String

pub record Colisted : Type 0 where
  pub weather : List Pair
  pub sports : List GamePair
  pub econ : Option (List Pair)
  pub soccer3 : Option (List Pair)

pub data Tracker : Type 0 where
  market_tracker : MarketTracker → Tracker
  game_tracker : GameTracker → Tracker

-- The bodies of the closures: `pm_fn` of either loop, `k_fn`, and `ka_fn` and `kb_fn`.
pub data Handler : Type 0 where
  market_pm market_k game_pm : Handler
  game_k : Team → Handler

pub record Closure : Type 0 where
  pub handler : Handler
  pub trk : ℕ
  pub key : String

-- The dicts of `run_live`, and the heap.
pub record World (S D : Type 0) : Type 0 where
  pub live : Live Closure Closure KalshiBook ℕ S D
  pub heap : Dict ℕ Tracker
  pub next : ℕ

-- `register` as it goes: the world so far, `new_pm` and `new_k`.
pub record Found (S D : Type 0) : Type 0 where
  pub world : World S D
  pub new_pm : List String
  pub new_k : List String

-- `.get(kind, [])`
abbrev pub or_empty : Option (List Pair) → List Pair
or_empty none = []
or_empty (some es) = es

-- `colisted["weather"] + colisted.get("econ", []) + colisted.get("soccer3", [])`
abbrev pub one_to_one : Colisted → List Pair
one_to_one colisted = colisted.weather ++ (or_empty colisted.econ ++ or_empty colisted.soccer3)

-- The writes of a new market's Kalshi closures, in order.
unfoldable pub route :
    ℕ → String → List (String × Handler) → Dict String Closure → Dict String Closure
route i slug [] d = d
route i slug ((tk, h) ∷ ks) d =
    route i slug ks (insert tk (record { handler = h; trk = i; key = slug }) d)

abbrev pub names : List (String × Handler) → List String
names [] = []
names ((tk, h) ∷ ks) = tk ∷ names ks

-- A weather market enters the registry of ladder and trade logging.
abbrev pub note_row : Bool → String → ℕ → Option (Dict String ℕ) → Option (Dict String ℕ)
note_row wx slug i none = none
note_row wx slug i (some rows) = some (if wx then insert slug i rows else rows)

module _ {S D : Type 0} where
  -- `_collide`: a ticker that has a closure already.
  unfoldable pub collide : World S D → List String → Bool
  collide w [] = false
  collide w (tk ∷ tks) = contains tk w.live.k_targets || collide w tks

  -- What a loop's body does with an entry that passes its guard.
  unfoldable pub bind :
      Found S D → String → Tracker → Handler → List (String × Handler) → Bool → Found S D
  unfolding route
  bind f slug t h ks wx =
      let i = f.world.next in
      record {
        world = record {
          live = record f.world.live {
            pm_targets =
                insert slug (record { handler = h; trk = i; key = slug }) f.world.live.pm_targets;
            k_targets = route i slug ks f.world.live.k_targets;
            slug_k = insert slug (names ks) f.world.live.slug_k;
            wx = note_row wx slug i f.world.live.wx;
          };
          heap = insert i t f.world.heap;
          next = suc i;
        };
        new_pm = f.new_pm ++ slug ∷ [];
        new_k = f.new_k ++ names ks;
      }

  -- The guard of both loops, and the rest of their bodies.
  unfoldable pub visit :
      Found S D → String → Tracker → Handler → List (String × Handler) → Bool → Found S D
  unfolding collide bind
  visit f slug t h ks wx =
      if contains slug f.world.live.pm_targets || collide f.world (names ks)
      then f
      else bind f slug t h ks wx

  -- The bodies of the two loops, which make the tracker and its closures.
  abbrev pub visit_pair : ℕ → ℕ → Pair → Found S D → Found S D
  visit_pair wx_n i e f =
      visit f e.slug (market_tracker (Market.init e.slug)) market_pm ((e.kalshi, market_k) ∷ [])
        (ltb i wx_n)

  abbrev pub visit_game : GamePair → Found S D → Found S D
  visit_game e f =
      visit f e.slug (game_tracker (Game.init e.slug e.kalshi_a e.kalshi_b)) game_pm
        ((e.kalshi_a, game_k team_a) ∷ (e.kalshi_b, game_k team_b) ∷ []) false

  -- The loop over `enumerate(weather + econ + soccer3)`, from index i on.
  unfoldable pub register_pairs : ℕ → ℕ → List Pair → Found S D → Found S D
  unfolding visit
  register_pairs wx_n i [] f = f
  register_pairs wx_n i (e ∷ es) f = register_pairs wx_n (suc i) es (visit_pair wx_n i e f)

  -- The loop over the games.
  unfoldable pub register_games : List GamePair → Found S D → Found S D
  unfolding visit
  register_games [] f = f
  register_games (e ∷ es) f = register_games es (visit_game e f)

  unfoldable pub register : World S D → Colisted → Found S D
  unfolding register_pairs register_games
  register w colisted = register_games colisted.sports (
      register_pairs (length colisted.weather) 0 (one_to_one colisted)
        (record { world = w; new_pm = []; new_k = [] }))

  -- What every entry keeps, `register` keeps.
  module _ {ℓ} (P : Found S D → Type ℓ)
      (step : (f : Found S D) (slug : String) (t : Tracker) (h : Handler)
          (ks : List (String × Handler)) (wx : Bool)
        → P f
        → P (visit f slug t h ks wx)) where
    pub pairs_keep :
        (wx_n i : ℕ) (es : List Pair) (f : Found S D) → P f → P (register_pairs wx_n i es f)
    unfolding register_pairs
    pairs_keep wx_n i [] f h = h
    pairs_keep wx_n i (e ∷ es) f h = pairs_keep wx_n (suc i) es (visit_pair wx_n i e f) (
        step f e.slug (market_tracker (Market.init e.slug)) market_pm ((e.kalshi, market_k) ∷ [])
          (ltb i wx_n) h)

    pub games_keep : (es : List GamePair) (f : Found S D) → P f → P (register_games es f)
    unfolding register_games
    games_keep [] f h = h
    games_keep (e ∷ es) f h = games_keep es (visit_game e f) (
        step f e.slug (game_tracker (Game.init e.slug e.kalshi_a e.kalshi_b)) game_pm
          ((e.kalshi_a, game_k team_a) ∷ (e.kalshi_b, game_k team_b) ∷ []) false h)

    pub register_keeps :
        (w : World S D) (colisted : Colisted)
        → P (record { world = w; new_pm = []; new_k = [] })
        → P (register w colisted)
    unfolding register
    register_keeps w colisted h =
        games_keep colisted.sports _
          (pairs_keep (length colisted.weather) 0 (one_to_one colisted) _ h)
