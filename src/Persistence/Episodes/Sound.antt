-- ===== src/Persistence/Episodes/Sound.antt =====
-- What `build_episodes` makes of any log that is in the order of time.
use cross_arb.Prelude.{
  ◌≡◌, refl, sym, subst, true, false, Option, List, [], ◌∷◌, ◌++◌, map, string_keys, All,
  All-append, arith, IsSortedBy, All-sort_by, sort_by-IsSortedBy,
}
use cross_arb.Prelude.Int.{ℤ, pos, ◌≤ℤ◌, leb_ℤ}
use cross_arb.Persistence.Episodes.{
  LogRecord, eod, Event, session, record_at, time_of, not_after, timeline, OpenEpisodes, close_all,
  step, replay, close_rest, build_episodes,
}
use cross_arb.Persistence.Episodes.Steps.{
  IsEpisode, AreRunning, close_all-IsEpisode, logged_by, InLog, step-IsStep,
}

-- The events are in order from `now` on.
abbrev From : ℤ → List Event → Type 0
From now es = All (λ e. now ≤ℤ time_of e) es

not_after_time : (x y : Event) → not_after x y ≡ true → time_of x ≤ℤ time_of y
not_after_time (session t) y h = ground arith
not_after_time (record_at r) (session u) h = ground arith
not_after_time (record_at r) (record_at s) h = ground arith

From-head : (x : Event) (es : List Event) → All (λ y. not_after x y ≡ true) es → From (time_of x) es
From-head x [] h = tt
From-head x (y ∷ es) h = (not_after_time x y h.0, From-head x es h.1)

replay-IsEpisode :
    (close_lag : Option ℤ) (now end : ℤ) (d : OpenEpisodes) (es : List Event)
    → AreRunning now end d
    → From now es
    → IsSortedBy not_after es
    → All (InLog end) es
    → All IsEpisode (replay close_lag d es).1
      × All (λ row. row.1.seg_t ≤ℤ end) (replay close_lag d es).0
      × ((t : ℤ) × AreRunning t end (replay close_lag d es).0)
unfolding replay
replay-IsEpisode close_lag now end d [] a f s l = (tt, logged_by now end d a, (now, a))
replay-IsEpisode close_lag now end d (e ∷ es) a f s l =
    let (d', out) = step close_lag d e in
    let (a', o) = step-IsStep close_lag now end d e a f.0 l.0 in
    let (r, logged, t) =
      replay-IsEpisode close_lag (time_of e) end (step close_lag d e).0 es a' (From-head e es s.0)
        s.1 l.1 in
    (
      All-append IsEpisode (step close_lag d e).1 (replay close_lag (step close_lag d e).0 es).1 o
          r,
      logged,
      t,
    )

not_after_total : (x y : Event) → not_after x y ≡ false → not_after y x ≡ true
not_after_total (session t) (session u) h = ground arith
not_after_total (session t) (record_at s) h = ground arith
not_after_total (record_at r) (session u) h = ground arith
not_after_total (record_at r) (record_at s) h = ground arith

not_after_trans :
    (x y z : Event) → not_after x y ≡ true → not_after y z ≡ true → not_after x z ≡ true
not_after_trans (session t) (session u) z h k = ground arith
not_after_trans (session t) (record_at s) (session v) h k = ground arith
not_after_trans (session t) (record_at s) (record_at v) h k = ground arith
not_after_trans (record_at r) (session u) (session v) h k = ground arith
not_after_trans (record_at r) (session u) (record_at v) h k = ground arith
not_after_trans (record_at r) (record_at s) (session v) h k = ground arith
not_after_trans (record_at r) (record_at s) (record_at v) h k = ground arith

-- The records are in the order of time, as `load` leaves them.
abbrev pub InOrder : List LogRecord → Type 0
InOrder = IsSortedBy (λ r s. leb_ℤ r.t s.t)

after_first :
    (r : LogRecord) (rs : List LogRecord)
    → All (λ s. leb_ℤ r.t s.t ≡ true) rs
    → All (λ s. r.t ≤ℤ s.t) rs
after_first r [] h = tt
after_first r (s ∷ rs) h = (ground (arith, h.0), after_first r rs h.1)

-- The time of the last record, or the given one.
last_time : ℤ → List LogRecord → ℤ
last_time t [] = t
last_time t (r ∷ rs) = last_time r.t rs

last_time_bound :
    (t : ℤ) (rs : List LogRecord)
    → All (λ r. t ≤ℤ r.t) rs
    → InOrder rs
    → (t ≤ℤ last_time t rs) × All (λ r. r.t ≤ℤ last_time t rs) rs
unfolding last_time
last_time_bound t [] h o = (omega arith, tt)
last_time_bound t (r ∷ rs) h o =
    let (first, rest) = last_time_bound r.t rs (after_first r rs o.0) o.1 in
    (omega (arith, h.0, first), (first, rest))

close_rest_last :
    (d : OpenEpisodes) (r : LogRecord) (rs : List LogRecord)
    → close_rest d (r ∷ rs) ≡ close_all d (last_time r.t rs) eod
unfolding close_rest last_time
close_rest_last d r [] = refl
close_rest_last d r (s ∷ rs) = close_rest_last d s rs

timeline-InLog :
    (end : ℤ) (records : List LogRecord) (sessions : List ℤ)
    → All (λ r. r.t ≤ℤ end) records
    → All (InLog end) (timeline records sessions)
unfolding timeline
timeline-InLog end records sessions h =
    All-sort_by not_after (InLog end) (map session sessions ++ map record_at records) (
      All-append (InLog end) (map session sessions) (map record_at records) (of_sessions sessions)
        (of_records records h))
  where
    of_sessions : (ts : List ℤ) → All (InLog end) (map session ts)
    of_sessions [] = tt
    of_sessions (t ∷ ts) = (tt, of_sessions ts)

    of_records :
        (rs : List LogRecord) → All (λ r. r.t ≤ℤ end) rs → All (InLog end) (map record_at rs)
    of_records [] h = tt
    of_records (r ∷ rs) h = (h.0, of_records rs h.1)

replay_start :
    (close_lag : Option ℤ) (end : ℤ) (es : List Event)
    → IsSortedBy not_after es
    → All (InLog end) es
    → All IsEpisode (replay close_lag [] es).1
      × All (λ row. row.1.seg_t ≤ℤ end) (replay close_lag [] es).0
      × ((t : ℤ) × AreRunning t end (replay close_lag [] es).0)
replay_start close_lag end [] s l = replay-IsEpisode close_lag end end [] [] tt tt s l
replay_start close_lag end (e ∷ es) s l =
    replay-IsEpisode close_lag (time_of e) end [] (e ∷ es) tt (omega arith, From-head e es s.0) s l

-- Whatever the sessions and the lag: if the records are in the order of time then each episode ends no
-- earlier than it opened, its duration is the time between, its peaks are at least its opening edge and
-- depth, and its time-weighted area is at most its peak edge for all its time.
pub build_episodes-IsEpisode :
    (records : List LogRecord) (sessions : List ℤ) (close_lag : Option ℤ)
    → InOrder records
    → All IsEpisode (build_episodes records sessions close_lag)
unfolding build_episodes
build_episodes-IsEpisode [] sessions close_lag o =
    let sorted =
      sort_by-IsSortedBy not_after not_after_total not_after_trans (map session sessions ++ []) in
    let (done, _, _) =
      replay_start close_lag (pos 0) (timeline [] sessions) sorted
        (timeline-InLog (pos 0) [] sessions tt) in
    All-append IsEpisode _ [] done tt
build_episodes-IsEpisode (r ∷ rs) sessions close_lag o =
    let end = last_time r.t rs in
    let (first, rest) = last_time_bound r.t rs (after_first r rs o.0) o.1 in
    let sorted =
      sort_by-IsSortedBy not_after not_after_total not_after_trans
        (map session sessions ++ map record_at (r ∷ rs)) in
    let (done, logged, (now, running)) =
      replay_start close_lag end (timeline (r ∷ rs) sessions) sorted
        (timeline-InLog end (r ∷ rs) sessions (first, rest)) in
    All-append IsEpisode _ _ done (
      subst (All IsEpisode) (sym (close_rest_last _ r rs))
        (close_all-IsEpisode now end end eod _ running logged))
