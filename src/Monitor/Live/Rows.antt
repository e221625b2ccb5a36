-- ===== src/Monitor/Live/Rows.antt =====
-- The lines that `TransitionLogger` of bot/monitor.py appends, and the states that they are made of.
use cross_arb.Prelude.{
  ◌≡◌, ◌↔◌, Bool, true, false, Option, none, some, List, [], ◌∷◌, ◌++◌, String, Eq, ◌=?◌,
  string_keys, nat_keys, arith, if◌then◌else◌,
}
use cross_arb.Prelude.Int.{ℤ}
use cross_arb.Ledger.Signal.{Dir, Quotes}
use cross_arb.Gates.Clusters.{date_text}
use cross_arb.Monitor.Edge.{Transition}
use cross_arb.Monitor.Depth.{DepthDict}
use cross_arb.Monitor.Debounce.{Event}
use cross_arb.Monitor.Market.{MarketState, Age, same_dir, dir_keys}
use cross_arb.Monitor.Game.{GameState, Hedge, same_hedge, hedge_keys}
use cross_arb.Monitor.Housekeeping.Ladders.{Ladders}

-- A direction of either kind of tracker; the texts are all different.
pub data AnyDir : Type 0 where
  of_market : Dir → AnyDir
  of_game : Hedge → AnyDir

abbrev pub same_any : AnyDir → AnyDir → Bool
same_any (of_market a) (of_market b) = same_dir a b
same_any (of_game a) (of_game b) = same_hedge a b
same_any _ _ = false

pub same_any_iff : (a b : AnyDir) → (same_any a b ≡ true) ↔ (a ≡ b)
same_any_iff (of_market a) (of_market b) = ground (arith, dir_keys.beq_iff a b)
same_any_iff (of_game a) (of_game b) = ground (arith, hedge_keys.beq_iff a b)
same_any_iff (of_market a) (of_game b) = ground arith
same_any_iff (of_game a) (of_market b) = ground arith

instance abbrev pub any_dir_keys : Eq AnyDir
any_dir_keys = record { beq = same_any; beq_iff = same_any_iff }

pub data AnyState : Type 0 where
  of_market : MarketState → AnyState
  of_game : GameState → AnyState

-- A state, with the ladders that `emit` stashed in it.
pub record Noted : Type 0 where
  pub state : AnyState
  pub lad : Option Ladders

abbrev pub any_dir : AnyState → AnyDir
any_dir (of_market s) = AnyDir.of_market s.edge.dir
any_dir (of_game s) = AnyDir.of_game s.edge.dir

abbrev pub dir_of : Noted → AnyDir
dir_of n = any_dir n.state

abbrev pub net_of : AnyState → ℤ
net_of (of_market s) = s.edge.net
net_of (of_game s) = s.edge.net

abbrev pub depth_of : AnyState → Option DepthDict
depth_of (of_market s) = s.depth
depth_of (of_game s) = s.depth

abbrev pub age_of : AnyState → Option Age
age_of (of_market s) = s.age
age_of (of_game s) = s.age

-- The touches of a state, `px`: of both venues' YES sides, or of a game's four prices.
pub data VenuePx : Type 0 where
  market_px : Quotes → VenuePx
  game_px : (pm_b pm_a ka kb : Option ℤ) → VenuePx

abbrev pub px_of : AnyState → VenuePx
px_of (of_market s) = market_px s.px
px_of (of_game s) = game_px s.pm_b s.pm_a s.ka s.kb

-- `event_partition`: the first date, or "misc".
unfoldable pub event_partition : String → String
unfolding date_text
event_partition market = let d = date_text market in if d =? "" then "misc" else d

-- A line of transitions-<partition>.jsonl, or of ladders-<partition>.jsonl.
pub data Row : Type 0 where
  transition_row :
      String → ℤ → String → Transition → AnyDir → ℤ → Option DepthDict → Option Age → VenuePx → Row
  ladder_row : String → ℤ → String → Ladders → Row

-- `TransitionLogger.write`; an edge is on the grid of `round(net, 4)`.
abbrev pub write_row : String → Transition → AnyState → ℤ → Row
write_row market label s t =
    transition_row (event_partition market) t market label (any_dir s) (net_of s) (depth_of s)
      (age_of s) (px_of s)

abbrev pub ladder_rows : String → ℤ → Option Ladders → List Row
ladder_rows market t none = []
ladder_rows market t (some lad) = ladder_row (event_partition market) t market lad ∷ []

-- `_write`, of one event of the debouncer.
abbrev pub write_event : Event Noted → List Row
write_event e = write_row e.key e.label e.state.state e.t ∷ ladder_rows e.key e.t e.state.lad

unfoldable pub write_all : List (Event Noted) → List Row
write_all [] = []
write_all (e ∷ es) = write_event e ++ write_all es
