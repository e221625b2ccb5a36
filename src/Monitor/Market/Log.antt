-- ===== src/Monitor/Market/Log.antt =====
-- What the log of one market says after any sequence of frames.
use cross_arb.Prelude.{◌≡◌, refl, sym, ap, subst, ◌∙◌, Option, none, some, List, [], ◌∷◌}
use cross_arb.Prelude.Int.{ℤ}
use cross_arb.Ledger.Fees.{Venue, poly, kalshi}
use cross_arb.Ledger.Signal.{Quotes, Dir}
use cross_arb.Monitor.Edge.{Attempt, ok, raised, ◌>>=◌, Ladder, make_px, Transition}
use cross_arb.Monitor.Edge.Replay.{view, read, read-classify}
use cross_arb.Monitor.Market.{
  MarketTracker, MarketState, dir_keys, edge_part, observe, conclude, kept, evaluate, set_book,
  update,
}

-- A frame: the venue, its ladders, and the two readings of the clock.
pub record Frame : Type 0 where
  pub venue : Venue
  pub bids : Ladder
  pub offers : Ladder
  pub now : ℤ
  pub now' : ℤ

abbrev pub apply_frame :
    MarketTracker → Frame → MarketTracker × Attempt (Option Transition × Option MarketState)
apply_frame trk f = update trk f.venue f.bids f.offers f.now f.now'

-- The reader's step at the answer of `update`; a frame that raised or was not priced logs nothing.
abbrev pub read_answer : Option Dir → Attempt (Option Transition × Option MarketState) → Option Dir
read_answer v raised = v
read_answer v (ok (label, none)) = v
read_answer v (ok (label, some s)) = read v label s.edge.dir

-- The tracker after the frames, and what a reader of the log knows.
pub watch : MarketTracker → Option Dir → List Frame → MarketTracker × Option Dir
watch trk v [] = (trk, v)
watch trk v (f ∷ fs) =
    let (trk', answer) = apply_frame trk f in watch trk' (read_answer v answer) fs

state-set_book :
    (trk : MarketTracker) (v : Venue) (b o : Ladder) (now : ℤ)
    → (set_book trk v b o now).state ≡ trk.state
unfolding set_book
state-set_book trk poly b o now = refl
state-set_book trk kalshi b o now = refl

read-conclude :
    (trk : MarketTracker) (now : ℤ) (px : Option Quotes)
    → let (trk', label, new) = conclude trk now px in
      read_answer (view (edge_part trk.state)) (ok (label, new)) ≡ view (edge_part trk'.state)
unfolding conclude
read-conclude trk now none = refl
read-conclude trk now (some px) = (read-classify (edge_part trk.state) (observe trk now px).edge).0

read-kept :
    (trk : MarketTracker) (now : ℤ) (r : Attempt (Option Quotes))
    → let out = kept trk (r >>= λ px. ok (conclude trk now px)) in
      read_answer (view (edge_part trk.state)) out.1 ≡ view (edge_part out.0.state)
read-kept trk now (ok px) = read-conclude trk now px
read-kept trk now raised = refl

read-update :
    (trk : MarketTracker) (f : Frame)
    → read_answer (view (edge_part trk.state)) (apply_frame trk f).1
      ≡ view (edge_part (apply_frame trk f).0.state)
unfolding update evaluate
read-update trk f =
    let trk' = set_book trk f.venue f.bids f.offers f.now in
    ap (λ s. read_answer (view (edge_part s)) (apply_frame trk f).1)
      (sym (state-set_book trk f.venue f.bids f.offers f.now))
    ∙ read-kept trk' f.now'
        (make_px trk'.p_books.bids trk'.p_books.offers trk'.k_books.bids trk'.k_books.offers)

-- After any frames, whether they could be priced, raised or were neither, a reader of the logged labels
-- knows exactly whether the last priced state of the market was an arbitrage, and in which direction.
pub watch-view :
    (fs : List Frame) (trk : MarketTracker)
    → (watch trk (view (edge_part trk.state)) fs).1
      ≡ view (edge_part (watch trk (view (edge_part trk.state)) fs).0.state)
unfolding watch
watch-view [] trk = refl
watch-view (f ∷ fs) trk =
    let trk' = (apply_frame trk f).0 in
    subst (λ v. (watch trk' v fs).1 ≡ view (edge_part (watch trk' v fs).0.state))
      (sym (read-update trk f)) (watch-view fs trk')
