-- ===== src/Monitor/Live/Registry/Again.antt =====
-- `register` on what discovery has found before.
use cross_arb.Prelude.{
  ℕ, suc, ◌≡◌, refl, ap, ◌∙◌, Bool, true, false, ◌||◌, List, [], ◌∷◌, String, =?_refl, string_keys,
  contains, length, All, arith, Bool-cases, inl, inr, ltb,
}
use cross_arb.Monitor.Market as Market
use cross_arb.Monitor.Game as Game
use cross_arb.Monitor.Game.{team_a, team_b}
use cross_arb.Monitor.Live.Registry.{
  Closure, Handler, World, Found, Tracker, Pair, GamePair, Colisted, names, collide, bind, visit,
  register, register_pairs, register_games, visit_pair, visit_game, pairs_keep, games_keep,
  one_to_one, market_tracker, game_tracker, market_pm, market_k, game_pm, game_k,
}
use cross_arb.Monitor.Live.Registry.Report.{contains-insert, contains-route}

module _ {S D : Type 0} where
  -- The loops' guard: the slug has a closure, or one of the tickers has.
  abbrev pub Guarded : World S D → String → List String → Type 0
  Guarded w slug tks = (contains slug w.live.pm_targets || collide w tks) ≡ true

  collide_mono :
      (w w' : World S D) (tks : List String)
      → ((tk : String) → contains tk w.live.k_targets ≡ true → contains tk w'.live.k_targets ≡ true)
      → collide w tks ≡ true
      → collide w' tks ≡ true
  unfolding collide
  collide_mono w w' [] more h = h
  collide_mono w w' (tk ∷ tks) more h = ground (arith, more tk, collide_mono w w' tks more)

  -- What was guarded before an entry is guarded after it, and so is the entry.
  bind-Guarded :
      (f : Found S D) (slug : String) (t : Tracker) (h : Handler) (ks : List (String × Handler))
      (wx : Bool) (s : String) (tks : List String)
      → Guarded f.world s tks
      → Guarded (bind f slug t h ks wx).world s tks
  unfolding bind
  bind-Guarded f slug t h ks wx s tks g =
      let c : Closure = record { handler = h; trk = f.world.next; key = slug } in
      ground (
        arith,
        contains-insert slug s c f.world.live.pm_targets,
        collide_mono f.world (bind f slug t h ks wx).world tks (λ tk e.
            contains-route f.world.next slug ks f.world.live.k_targets tk ∙ ground (arith, e)),
      )

  visit-Guarded :
      (f : Found S D) (slug : String) (t : Tracker) (h : Handler) (ks : List (String × Handler))
      (wx : Bool) (s : String) (tks : List String)
      → Guarded f.world s tks
      → Guarded (visit f slug t h ks wx).world s tks
  unfolding visit
  visit-Guarded f slug t h ks wx s tks g =
      elim (Bool-cases (contains slug f.world.live.pm_targets || collide f.world (names ks))) [
        | inl guarded ↦ rw guarded g
        | inr passes ↦ rw passes (bind-Guarded f slug t h ks wx s tks g)
      ]

  visit_self :
      (f : Found S D) (slug : String) (t : Tracker) (h : Handler) (ks : List (String × Handler))
      (wx : Bool)
      → Guarded (visit f slug t h ks wx).world slug (names ks)
  unfolding visit bind
  visit_self f slug t h ks wx =
      elim (Bool-cases (contains slug f.world.live.pm_targets || collide f.world (names ks))) [
        | inl guarded ↦ rw guarded guarded
        | inr passes ↦ rw passes (
            ap (λ b. b || collide (bind f slug t h ks wx).world (names ks))
              (contains-insert slug slug _ f.world.live.pm_targets
                ∙ ap (λ b. b || contains slug f.world.live.pm_targets) (=?_refl slug)))
      ]

  abbrev pub PairGuarded : World S D → Pair → Type 0
  PairGuarded w e = Guarded w e.slug (e.kalshi ∷ [])

  abbrev pub GameGuarded : World S D → GamePair → Type 0
  GameGuarded w e = Guarded w e.slug (e.kalshi_a ∷ e.kalshi_b ∷ [])

  pairs-Guarded :
      (wx_n i : ℕ) (es : List Pair) (f : Found S D)
      → All (PairGuarded (register_pairs wx_n i es f).world) es
  unfolding register_pairs
  pairs-Guarded wx_n i [] f = tt
  pairs-Guarded wx_n i (e ∷ es) f =
      let f' = visit_pair wx_n i e f in
      (
        pairs_keep (λ x. Guarded x.world e.slug (e.kalshi ∷ []))
            (λ x s t h ks wx. visit-Guarded x s t h ks wx e.slug (e.kalshi ∷ [])) wx_n (suc i) es f'
            (visit_self f e.slug (market_tracker (Market.init e.slug)) market_pm
              ((e.kalshi, market_k) ∷ []) (ltb i wx_n)),
        pairs-Guarded wx_n (suc i) es f',
      )

  games-Guarded :
      (es : List GamePair) (f : Found S D) → All (GameGuarded (register_games es f).world) es
  unfolding register_games
  games-Guarded [] f = tt
  games-Guarded (e ∷ es) f =
      let f' = visit_game e f in
      let tks = e.kalshi_a ∷ e.kalshi_b ∷ [] in
      (
        games_keep (λ x. Guarded x.world e.slug tks)
            (λ x s t h ks wx. visit-Guarded x s t h ks wx e.slug tks) es f'
            (visit_self f e.slug (game_tracker (Game.init e.slug e.kalshi_a e.kalshi_b)) game_pm
              ((e.kalshi_a, game_k team_a) ∷ (e.kalshi_b, game_k team_b) ∷ []) false),
        games-Guarded es f',
      )

  -- The games' loop keeps what the pairs' loop has reached.
  All-PairGuarded :
      (gs : List GamePair) (es : List Pair) (f : Found S D)
      → All (PairGuarded f.world) es
      → All (PairGuarded (register_games gs f).world) es
  All-PairGuarded gs [] f a = tt
  All-PairGuarded gs (e ∷ es) f (a, as_) = (
    games_keep (λ x. Guarded x.world e.slug (e.kalshi ∷ []))
        (λ x s t h ks wx. visit-Guarded x s t h ks wx e.slug (e.kalshi ∷ [])) gs f a,
    All-PairGuarded gs es f as_,
  )

  -- A guarded entry is passed over.
  pairs_again :
      (wx_n i : ℕ) (es : List Pair) (f : Found S D)
      → All (PairGuarded f.world) es
      → register_pairs wx_n i es f ≡ f
  unfolding register_pairs visit
  pairs_again wx_n i [] f g = refl
  pairs_again wx_n i (e ∷ es) f (g, gs) = rw g (pairs_again wx_n (suc i) es f gs)

  games_again :
      (es : List GamePair) (f : Found S D) → All (GameGuarded f.world) es → register_games es f ≡ f
  unfolding register_games visit
  games_again [] f g = refl
  games_again (e ∷ es) f (g, gs) = rw g (games_again es f gs)

  -- After `register` every market that discovery found has a closure, or shares a Kalshi ticker with one that
  -- has; and a second `register` with the same discovery changes nothing and tells of nothing new.
  pub register_again :
      (w : World S D) (colisted : Colisted)
      → let w' = (register w colisted).world in
        All (PairGuarded w') (one_to_one colisted)
        × All (GameGuarded w') colisted.sports
        × (register w' colisted ≡ record { world = w'; new_pm = []; new_k = [] })
  unfolding register
  register_again w colisted =
      let n = length colisted.weather in
      let first =
        register_pairs n 0 (one_to_one colisted) (record { world = w; new_pm = []; new_k = [] }) in
      let w' = (register_games colisted.sports first).world in
      let f' : Found S D = record { world = w'; new_pm = []; new_k = [] } in
      let pairs =
        All-PairGuarded colisted.sports (one_to_one colisted) first
          (pairs-Guarded n 0 (one_to_one colisted) _) in
      let games = games-Guarded colisted.sports first in
      (
        pairs,
        games,
        ap (register_games colisted.sports) (pairs_again n 0 (one_to_one colisted) f' pairs)
            ∙ games_again colisted.sports f' games,
      )
