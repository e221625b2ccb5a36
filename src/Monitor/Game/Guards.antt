-- ===== src/Monitor/Game/Guards.antt =====
-- What `game_edge` promises, and the log of one game.
use cross_arb.Prelude.{◌≡◌, refl, ap, subst, Option, none, some, some_eq}
use cross_arb.Prelude.Int.{ℤ, pos, ◌+ℤ◌, ◌≤ℤ◌, ◌<ℤ◌}
use cross_arb.Ledger.Units.{round4}
use cross_arb.Monitor.Edge.{EdgeState, classify}
use cross_arb.Monitor.Edge.Replay.{view, read, read-classify}
use cross_arb.Monitor.Game.{
  Hedge, pk, kp, hedge_keys, edge_pk, edge_kp, game_edge, GameTracker, GameState, edge_part,
  observe, conclude, evaluate,
}

-- The two touches that a hedge needs.
abbrev pub Quoted : Hedge → Option ℤ → Option ℤ → Option ℤ → Option ℤ → ℤ → ℤ → Type 0
Quoted pk pm_bid pm_ask ka kb x y = (pm_ask ≡ some x) × (kb ≡ some y)
Quoted kp pm_bid pm_ask ka kb x y = (ka ≡ some x) × (pm_bid ≡ some y)

abbrev pub edge_of : Hedge → ℤ → ℤ → ℤ
edge_of pk = edge_pk
edge_of kp = edge_kp

-- Two prices of the same team are at most 40 cents apart.
abbrev Near : ℤ → ℤ → Type 0
Near x y = (x ≤ℤ y +ℤ pos 4000) × (y ≤ℤ x +ℤ pos 4000)

-- The polymarket price that the guard takes, the ask or else the bid, is near Kalshi's ask of team A.
abbrev pub IsOriented : Option ℤ → Option ℤ → Option ℤ → Type 0
IsOriented pm_bid (some pm_ask) (some ka_ask) = Near pm_ask ka_ask
IsOriented (some pm_bid) none (some ka_ask) = Near pm_bid ka_ask
IsOriented pm_bid pm_ask ka = Unit

module _ (pm_bid pm_ask ka kb : Option ℤ) where
  -- What a state of `game_edge` stands for.
  pub record IsHedge (d : Hedge) (net : ℤ) : Type 0 where
    pub x : ℤ
    pub y : ℤ
    pub quoted : Quoted d pm_bid pm_ask ka kb x y
    pub rounded : net ≡ round4 (edge_of d x y)
    pub gain : pos 0 <ℤ net → pos 0 <ℤ edge_of d x y

  abbrev IsOption : Option (Hedge × ℤ) → Type 0
  IsOption none = Unit
  IsOption (some (d, net)) = IsHedge d net

read-conclude :
    (g : GameTracker) (now : ℤ) (o : Option (EdgeState Hedge))
    → let (g', label, new) = conclude g now o in
      (new ≡ none → (g' ≡ g) × (label ≡ none))
      × ((s : GameState)
          → new ≡ some s
          → (g'.state ≡ some s)
            × (read (view (edge_part g.state)) label s.edge.dir ≡ view (edge_part g'.state)))
unfolding conclude observe
read-conclude g now none = (λ _. (refl, refl), λ s h. cc)
read-conclude g now (some e) = (
  λ h. cc,
  λ s h. (
    h,
    subst
        (λ d.
          read (view (edge_part g.state)) (classify (edge_part g.state) (some e)) d ≡ view (some e))
        (ap (λ (t : GameState). t.edge.dir) (some_eq h)) (read-classify (edge_part g.state) e).0,
  ),
)

-- The label of an evaluation takes a reader of the log from the direction that was open, if one was, to
-- the one that is open now; where no direction can be priced nothing is logged and nothing changes.
pub evaluate-read :
    (g : GameTracker) (now : ℤ)
    → let (g', label, new) = evaluate g now in
      (new ≡ none → (g' ≡ g) × (label ≡ none))
      × ((s : GameState)
          → new ≡ some s
          → (g'.state ≡ some s)
            × (read (view (edge_part g.state)) label s.edge.dir ≡ view (edge_part g'.state)))
unfolding evaluate
evaluate-read g now = read-conclude g now (game_edge g.pm_bid g.pm_ask g.ka g.kb)
