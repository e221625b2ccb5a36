-- ===== src/Persistence/Episodes.antt =====
-- `build_episodes` of scripts/analyze_persistence.py. A net edge is in 1/10000 dollar, a time in
-- milliseconds, an age in tenths of a second, and a depth in whole contracts, as the log has them.
pub mod Steps
pub mod Sound
use cross_arb.Prelude.{
  ℕ, ◌+◌, ◌≡◌, refl, Bool, true, false, not, ◌&&◌, ◌||◌, Option, none, some, List, [], ◌∷◌, ◌++◌,
  map, String, ◌=?◌, string_keys, Dict, lookup, insert, erase, sort_by, if◌then◌else◌,
}
use cross_arb.Prelude.Int.{ℤ, pos, ◌+ℤ◌, ◌-ℤ◌, ◌*ℤ◌, ltb_ℤ, leb_ℤ, eqb_ℤ, max_ℤ}
use cross_arb.Monitor.Edge.{Transition, opened, closed, flipped, widened, narrowed}
use cross_arb.Monitor.Depth.{DepthDict}
use cross_arb.Monitor.Market.{Age}
use cross_arb.Persistence.Category.{Category, category}

-- The direction of a record: 'P' and 'K' of a market, 'PK' and 'KP' of a game.
pub data Heading : Type 0 where
  p k pk kp : Heading

-- A line of the log.
pub record LogRecord : Type 0 where
  pub t : ℤ
  pub market : String
  pub transition : Transition
  pub net_edge : ℤ
  pub dir : Heading
  pub depth : Option DepthDict
  pub age : Option Age

-- Why an episode ended: by a CLOSE, by a loss of state, or with the data.
pub data Censor : Type 0 where
  uncensored restart eod : Censor

-- The time-weighted average is the quotient of `area` by `duration`, or `open_net` where there is none.
pub record Episode : Type 0 where
  pub market : String
  pub cat : Category
  pub dir : Heading
  pub open_t : ℤ
  pub close_t : ℤ
  pub duration : ℤ
  pub censored : Censor
  pub lag_adj : Bool
  pub open_net : ℤ
  pub peak_net : ℤ
  pub area : ℤ
  pub open_c2 : ℤ
  pub peak_c2 : ℤ
  pub open_age : Option ℤ
  pub open_age_p : Option ℤ
  pub open_age_k : Option ℤ
  pub open_flat : Bool
  pub n_widen : ℕ
  pub n_narrow : ℕ
  pub n_flip : ℕ

-- An episode in `open_ep`, with the scratch fields `_acc`, `_seg_t`, `_last_net`.
pub record Running : Type 0 where
  pub ep : Episode
  pub acc : ℤ
  pub seg_t : ℤ
  pub last_net : ℤ

-- A point of the timeline: a session marker, or a record.
pub data Event : Type 0 where
  session : ℤ → Event
  record_at : LogRecord → Event

abbrev pub time_of : Event → ℤ
time_of (session t) = t
time_of (record_at r) = r.t

-- By `(e[0], e[1])`: at a tie a session comes first.
abbrev pub not_after : Event → Event → Bool
not_after (session t) e = leb_ℤ t (time_of e)
not_after (record_at r) (session u) = ltb_ℤ r.t u
not_after (record_at r) (record_at s) = leb_ℤ r.t s.t

unfoldable pub timeline : List LogRecord → List ℤ → List Event
timeline records sessions = sort_by not_after (map session sessions ++ map record_at records)

-- `CLOSE_FLUSH_LAG` and `DEBOUNCE_STAMP_FIXED_TS`.
abbrev close_flush_lag : ℤ
close_flush_lag = pos 1250

abbrev debounce_stamp_fixed_ts : ℤ
debounce_stamp_fixed_ts = pos 1781082189000

-- `_lag`
unfoldable pub lag_at : Option ℤ → ℤ → ℤ
lag_at (some lag) t = lag
lag_at none t = if ltb_ℤ t debounce_stamp_fixed_ts then close_flush_lag else pos 0

-- `_close`
unfoldable pub close_episode : Running → ℤ → Censor → Bool → Episode
close_episode run tc why adjusted = record run.ep {
  area = run.acc +ℤ run.last_net *ℤ (tc -ℤ run.seg_t);
  duration = tc -ℤ run.ep.open_t;
  close_t = tc;
  censored = why;
  lag_adj = adjusted;
}

-- `d.get("c2", 0)`
abbrev c2_of : Option DepthDict → ℤ
c2_of none = pos 0
c2_of (some d) = d.c2

abbrev is_flat : Option DepthDict → Bool
is_flat none = false
is_flat (some d) = eqb_ℤ d.c2 d.c1 && eqb_ℤ d.c1 d.c0 && ltb_ℤ (pos 0) d.c2

abbrev age_p : Option Age → Option ℤ
age_p none = none
age_p (some a) = some a.p

abbrev age_k : Option Age → Option ℤ
age_k none = none
age_k (some a) = some a.k

abbrev age_max : Option Age → Option ℤ
age_max none = none
age_max (some a) = some (max_ℤ a.p a.k)

-- An OPEN. The fields that a close sets are not there yet.
unfoldable pub open_episode : LogRecord → Running
open_episode r = record {
  ep = record {
    market = r.market;
    cat = category r.market;
    dir = r.dir;
    open_t = r.t;
    close_t = r.t;
    duration = pos 0;
    censored = eod;
    lag_adj = false;
    open_net = r.net_edge;
    peak_net = r.net_edge;
    area = pos 0;
    open_c2 = c2_of r.depth;
    peak_c2 = c2_of r.depth;
    open_age = age_max r.age;
    open_age_p = age_p r.age;
    open_age_k = age_k r.age;
    open_flat = is_flat r.depth;
    n_widen = 0;
    n_narrow = 0;
    n_flip = 0;
  };
  acc = pos 0;
  seg_t = r.t;
  last_net = r.net_edge;
}

abbrev count_label : Transition → Heading → Episode → Episode
count_label widened d ep = record ep { n_widen = ep.n_widen + 1 }
count_label narrowed d ep = record ep { n_narrow = ep.n_narrow + 1 }
count_label flipped d ep = record ep { n_flip = ep.n_flip + 1; dir = d }
count_label _ d ep = ep

-- A WIDEN, NARROW or FLIP.
unfoldable pub continue_episode : Running → LogRecord → Running
continue_episode run r =
    let ep = record run.ep {
      peak_net = max_ℤ run.ep.peak_net r.net_edge;
      peak_c2 = max_ℤ run.ep.peak_c2 (c2_of r.depth);
    } in
    record {
      ep = count_label r.transition r.dir ep;
      acc = run.acc +ℤ run.last_net *ℤ (r.t -ℤ run.seg_t);
      seg_t = r.t;
      last_net = r.net_edge;
    }

-- The moment of a CLOSE, behind its lag and never before the last continuation.
unfoldable pub close_time : ℤ → Running → ℤ → ℤ
close_time lag run t =
    if eqb_ℤ lag (pos 0) then t else max_ℤ (max_ℤ (t -ℤ lag) run.seg_t) run.ep.open_t

abbrev pub OpenEpisodes : Type 0
OpenEpisodes = Dict String Running

-- A record of a market with an open episode.
unfoldable pub on_running :
    Option ℤ → OpenEpisodes → Running → LogRecord → Transition → OpenEpisodes × List Episode
on_running close_lag d run r opened = (d, [])
on_running close_lag d run r closed =
    let lag = lag_at close_lag r.t in
    let tc = close_time lag run r.t in
    (erase r.market d, close_episode run tc uncensored (not (eqb_ℤ lag (pos 0))) ∷ [])
on_running close_lag d run r _ = (insert r.market (continue_episode run r) d, [])

unfoldable pub on_idle : OpenEpisodes → LogRecord → Transition → OpenEpisodes × List Episode
on_idle d r opened = (insert r.market (open_episode r) d, [])
on_idle d r _ = (d, [])

abbrev dispatch : Option ℤ → OpenEpisodes → LogRecord → Option Running → OpenEpisodes × List Episode
dispatch close_lag d r none = on_idle d r r.transition
dispatch close_lag d r (some run) = on_running close_lag d run r r.transition

-- `for m in list(open_ep): _close(m, t, why)`
unfoldable pub close_all : OpenEpisodes → ℤ → Censor → List Episode
close_all [] t why = []
close_all ((m, run) ∷ d) t why = close_episode run t why false ∷ close_all d t why

-- One pass of the loop: the open episodes after it, and those that it ends.
unfoldable pub step : Option ℤ → OpenEpisodes → Event → OpenEpisodes × List Episode
unfolding on_running on_idle
step close_lag d (session t) = ([], close_all d t restart)
step close_lag d (record_at r) = dispatch close_lag d r (lookup r.market d)

unfoldable pub replay : Option ℤ → OpenEpisodes → List Event → OpenEpisodes × List Episode
replay close_lag d [] = (d, [])
replay close_lag d (e ∷ es) =
    let (d', out) = step close_lag d e in
    let (d'', rest) = replay close_lag d' es in (d'', out ++ rest)

-- The close of what is still open at the time of the last record, if there is one.
unfoldable pub close_rest : OpenEpisodes → List LogRecord → List Episode
close_rest d [] = []
close_rest d (r ∷ []) = close_all d r.t eod
close_rest d (r ∷ s ∷ rs) = close_rest d (s ∷ rs)

unfoldable pub build_episodes : List LogRecord → List ℤ → Option ℤ → List Episode
unfolding timeline replay close_rest
build_episodes records sessions close_lag =
    let (d, done) = replay close_lag [] (timeline records sessions) in done ++ close_rest d records
