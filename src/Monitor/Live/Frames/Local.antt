-- ===== src/Monitor/Live/Frames/Local.antt =====
-- What a frame can reach.
use cross_arb.Prelude.{
  ℕ, ◌≡◌, refl, ap, ◌∙◌, Bool, true, false, Option, none, some, List, [], ◌∷◌, String, ◌=?◌,
  string_keys, nat_keys, lookup, lookup-insert, contains, is_some, All, All-append, if◌then◌else◌,
  arith,
}
use cross_arb.Prelude.Int.{ℤ}
use cross_arb.Kalshi.Book.{KalshiBook}
use cross_arb.Monitor.Edge.{Attempt, ok, raised, Ladder, Transition}
use cross_arb.Monitor.Debounce.{FlipDebouncer, Event, feed}
use cross_arb.Monitor.Debounce.Keys.{feed-IsKeyed}
use cross_arb.Monitor.Market.{MarketTracker, MarketState}
use cross_arb.Monitor.Game as Game
use cross_arb.Monitor.Game.{GameTracker}
use cross_arb.Monitor.Housekeeping.Teardown.{Live}
use cross_arb.Monitor.Housekeeping.Ladders.{Ladders}
use cross_arb.Monitor.Live.Registry.{
  Closure, Handler, Tracker, market_tracker, game_tracker, market_pm, market_k, game_pm, game_k,
}
use cross_arb.Monitor.Live.Frames.{
  put, market_states, game_states, stash, LiveWorld, Outcome, Clock, with_label, emit, run_market,
  run_game, run_game_pm, call_pm, call_k, routed_k,
}
use cross_arb.Monitor.Live.Rows.{
  ladder_rows, AnyDir, AnyState, any_dir_keys, Noted, dir_of, Row, transition_row, ladder_row,
  write_all,
}

abbrev pub row_key : Row → String
row_key (transition_row file t market label dir net depth age px) = market
row_key (ladder_row file t market lad) = market

-- Of the dicts only the debouncer's change, and there only at the key; of the heap only one place; and what
-- is logged is of that key.
pub record IsLocal (i : ℕ) (key : String) (w : LiveWorld) (out : Outcome) : Type 0 where
  pub same_live : out.world.live ≡ record w.live { deb = out.world.live.deb }
  pub same_next : out.world.next ≡ w.next
  pub other_places : (j : ℕ) → (i =? j) ≡ false → lookup j out.world.heap ≡ lookup j w.heap
  pub places : (j : ℕ) → contains j w.heap ≡ true → contains j out.world.heap ≡ true
  pub other_pending :
      (k : String)
      → (key =? k) ≡ false
      → lookup k out.world.live.deb.pending ≡ lookup k w.live.deb.pending
  pub other_dirs :
      (k : String)
      → (key =? k) ≡ false
      → lookup k out.world.live.deb.last_arb_dir ≡ lookup k w.live.deb.last_arb_dir
  pub own_rows : All (λ r. row_key r ≡ key) out.rows

All-ladder_rows :
    (key market : String) (t : ℤ) (lad : Option Ladders)
    → market ≡ key
    → All (λ r. row_key r ≡ key) (ladder_rows market t lad)
All-ladder_rows key market t none h = tt
All-ladder_rows key market t (some lad) h = (h, tt)

All-write_all :
    (key : String) (events : List (Event Noted))
    → All (λ x. x.key ≡ key) events
    → All (λ r. row_key r ≡ key) (write_all events)
unfolding write_all
All-write_all key [] a = tt
All-write_all key (x ∷ xs) (a, b) = (
  a,
  All-append (λ r. row_key r ≡ key) (ladder_rows x.key x.t x.state.lad) (write_all xs)
      (All-ladder_rows key x.key x.t x.state.lad a) (All-write_all key xs b),
)

abbrev pub with_deb :
    FlipDebouncer Noted AnyDir
    → Live Closure Closure KalshiBook ℕ Noted AnyDir
    → Live Closure Closure KalshiBook ℕ Noted AnyDir
with_deb deb l = record l { deb = deb }

emit-IsLocal :
    (w w' : LiveWorld) (i : ℕ) (label : Option Transition) (s : Option AnyState) (key : String)
    (now : ℤ)
    → IsLocal i key w (record { world = w'; rows = []; raised = false })
    → IsLocal i key w (emit w' label s key now)
unfolding emit
emit-IsLocal w w' i label none key now h = h
emit-IsLocal w w' i label (some s) key now h =
    let d = w'.live.deb in
    let o = with_label label (some (record { state = s; lad = stash w' key })) in
    let keyed = feed-IsKeyed dir_of d o key now in
    record {
      same_live = ap (with_deb (feed dir_of d o key now).0) h.same_live;
      same_next = h.same_next;
      other_places = h.other_places;
      places = h.places;
      other_pending = λ k n. keyed.other_pending k n ∙ h.other_pending k n;
      other_dirs = λ k n. keyed.other_dirs k n ∙ h.other_dirs k n;
      own_rows = All-write_all key (feed dir_of d o key now).1 keyed.own_events;
    }

put-IsLocal :
    (w : LiveWorld) (i : ℕ) (t : Tracker) (key : String) (r : Bool)
    → IsLocal i key w (record { world = put w i t; rows = []; raised = r })
put-IsLocal w i t key r = record {
  same_live = refl;
  same_next = refl;
  other_places =
      λ j n. lookup-insert i j t w.heap ∙ ap (λ b. if b then some t else lookup j w.heap) n;
  places = λ j c. ap is_some (lookup-insert i j t w.heap) ∙ ground arith;
  other_pending = λ k n. refl;
  other_dirs = λ k n. refl;
  own_rows = tt;
}

same-IsLocal :
    (w : LiveWorld) (i : ℕ) (key : String) (r : Bool)
    → IsLocal i key w (record { world = w; rows = []; raised = r })
same-IsLocal w i key r = record {
  same_live = refl;
  same_next = refl;
  other_places = λ j n. refl;
  places = λ j c. c;
  other_pending = λ k n. refl;
  other_dirs = λ k n. refl;
  own_rows = tt;
}

run_market-IsLocal :
    (w : LiveWorld) (i : ℕ) (key : String) (trk : MarketTracker)
    (r : Attempt (MarketTracker × Option Transition × Option MarketState)) (c : Clock)
    → IsLocal i key w (run_market w i key trk r c)
unfolding run_market
run_market-IsLocal w i key trk raised c = put-IsLocal w i (market_tracker trk) key true
run_market-IsLocal w i key trk (ok (trk', label, new)) c =
    emit-IsLocal w (put w i (market_tracker trk')) i label (market_states new) key c.at_emit
      (put-IsLocal w i (market_tracker trk') key false)

run_game-IsLocal :
    (w : LiveWorld) (i : ℕ) (key : String) (g : GameTracker) (c : Clock)
    → IsLocal i key w (run_game w i key g c)
unfolding run_game
run_game-IsLocal w i key g c =
    let (g', label, new) = Game.evaluate g c.at_evaluate in
    emit-IsLocal w (put w i (game_tracker g')) i label (game_states new) key c.at_emit
      (put-IsLocal w i (game_tracker g') key false)

run_game_pm-IsLocal :
    (w : LiveWorld) (i : ℕ) (key : String) (g : GameTracker) (r : Attempt (Option ℤ × Option ℤ))
    (b o : Ladder) (c : Clock)
    → IsLocal i key w (run_game_pm w i key g r b o c)
unfolding run_game_pm
run_game_pm-IsLocal w i key g raised b o c = same-IsLocal w i key true
run_game_pm-IsLocal w i key g (ok (bid, ask)) b o c = run_game-IsLocal w i key _ c

pub call_pm-IsLocal :
    (w : LiveWorld) (f : Closure) (t : Option Tracker) (b o : Ladder) (c : Clock)
    → IsLocal f.trk f.key w (call_pm w f t b o c)
unfolding call_pm
call_pm-IsLocal w f none b o c = same-IsLocal w f.trk f.key true
call_pm-IsLocal w f (some (market_tracker trk)) b o c = run_market-IsLocal w f.trk f.key _ _ c
call_pm-IsLocal w f (some (game_tracker g)) b o c = run_game_pm-IsLocal w f.trk f.key g _ b o c

pub call_k-IsLocal :
    (w : LiveWorld) (f : Closure) (h : Handler) (t : Option Tracker) (book : KalshiBook) (c : Clock)
    → IsLocal f.trk f.key w (call_k w f h t book c)
unfolding call_k
call_k-IsLocal w f h (some (market_tracker trk)) book c = run_market-IsLocal w f.trk f.key _ _ c
call_k-IsLocal w f (game_k team) (some (game_tracker g)) book c = run_game-IsLocal w f.trk f.key _ c
call_k-IsLocal w f market_pm (some (game_tracker g)) book c = same-IsLocal w f.trk f.key true
call_k-IsLocal w f market_k (some (game_tracker g)) book c = same-IsLocal w f.trk f.key true
call_k-IsLocal w f game_pm (some (game_tracker g)) book c = same-IsLocal w f.trk f.key true
call_k-IsLocal w f market_pm none book c = same-IsLocal w f.trk f.key true
call_k-IsLocal w f market_k none book c = same-IsLocal w f.trk f.key true
call_k-IsLocal w f game_pm none book c = same-IsLocal w f.trk f.key true
call_k-IsLocal w f (game_k team) none book c = same-IsLocal w f.trk f.key true

-- Where there is no closure nothing happens, so the rest of the dicts is the same either way.
pub live-routed_k :
    (w : LiveWorld) (f : Option Closure) (book : KalshiBook) (c : Clock)
    → let out = routed_k w f book c in out.world.live ≡ with_deb out.world.live.deb w.live
unfolding routed_k
live-routed_k w none book c = refl
live-routed_k w (some f) book c =
    (call_k-IsLocal w f f.handler (lookup f.trk w.heap) book c).same_live
