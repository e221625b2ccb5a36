-- ===== src/Monitor/Live/Frames/Wired.antt =====
-- A frame keeps the dicts in agreement.
use cross_arb.Prelude.{
  ℕ, ◌≡◌, sym, subst, true, Option, none, some, String, string_keys, nat_keys, Dict, lookup,
  contains,
}
use cross_arb.Prelude.Int.{ℤ}
use cross_arb.Kalshi.Book.{KalshiBook}
use cross_arb.Monitor.Edge.{Ladder}
use cross_arb.Monitor.Debounce.{FlipDebouncer}
use cross_arb.Monitor.Live.Registry.{Closure, Tracker}
use cross_arb.Monitor.Live.Registry.Wired.{IsWired}
use cross_arb.Monitor.Live.Frames.{
  LiveWorld, Outcome, Clock, routed_pm, pm_frame, routed_k, flush_tick,
}
use cross_arb.Monitor.Live.Rows.{Noted, AnyDir}
use cross_arb.Monitor.Live.Frames.Local.{IsLocal, call_pm-IsLocal, call_k-IsLocal}

-- The debouncer, the books, the miss counts and the objects of the heap do not count.
pub update-IsWired :
    (w : LiveWorld) (deb : FlipDebouncer Noted AnyDir) (books : Dict String KalshiBook)
    (heap : Dict ℕ Tracker)
    → ((j : ℕ) → contains j w.heap ≡ true → contains j heap ≡ true)
    → IsWired w
    → IsWired (record w { live = record w.live { deb = deb; books = books }; heap = heap })
update-IsWired w deb books heap grown h = record {
  tickers_owned = h.tickers_owned;
  owned_ticker = h.owned_ticker;
  keyed = λ s s' i e. let (a, b, c) = h.keyed s s' i e in (a, b, grown i c);
  apart = h.apart;
  rows_traced = h.rows_traced;
}

IsLocal-IsWired :
    (i : ℕ) (key : String) (w : LiveWorld) (out : Outcome)
    → IsLocal i key w out
    → IsWired w
    → IsWired out.world
IsLocal-IsWired i key w out a h =
    let deb = out.world.live.deb in
    let heap = out.world.heap in
    subst (λ n. IsWired (record { live = out.world.live; heap = heap; next = n })) (sym a.same_next)
      (subst (λ l. IsWired (record { live = l; heap = heap; next = w.next })) (sym a.same_live)
        (update-IsWired w deb w.live.books heap a.places h))

routed_pm-IsWired :
    (w : LiveWorld) (f : Option Closure) (b o : Ladder) (c : Clock)
    → IsWired w
    → IsWired (routed_pm w f b o c).world
unfolding routed_pm
routed_pm-IsWired w none b o c h = h
routed_pm-IsWired w (some f) b o c h =
    IsLocal-IsWired f.trk f.key w _ (call_pm-IsLocal w f (lookup f.trk w.heap) b o c) h

pub pm_frame-IsWired :
    (w : LiveWorld) (slug : String) (b o : Ladder) (c : Clock)
    → IsWired w
    → IsWired (pm_frame w slug b o c).world
unfolding pm_frame
pm_frame-IsWired w slug b o c h = routed_pm-IsWired w (lookup slug w.live.pm_targets) b o c h

pub routed_k-IsWired :
    (w : LiveWorld) (f : Option Closure) (book : KalshiBook) (c : Clock)
    → IsWired w
    → IsWired (routed_k w f book c).world
unfolding routed_k
routed_k-IsWired w none book c h = h
routed_k-IsWired w (some f) book c h =
    IsLocal-IsWired f.trk f.key w _ (call_k-IsLocal w f f.handler (lookup f.trk w.heap) book c) h

pub flush_tick-IsWired : (w : LiveWorld) (now : ℤ) → IsWired w → IsWired (flush_tick w now).world
unfolding flush_tick
flush_tick-IsWired w now h = update-IsWired w _ w.live.books w.heap (λ j e. e) h
