-- ===== src/Persistence/Episodes/Steps.antt =====
-- What holds of an open episode of `build_episodes`, and what one event of the timeline makes of it.
use cross_arb.Prelude.{
  ◌≡◌, refl, ap, Bool, false, Option, List, [], ◌∷◌, lookup, insert, string_keys, All, All-insert,
  All-erase, All-lookup, Option-cases, inl, inr, arith,
}
use cross_arb.Prelude.Int.{
  ℤ, pos, pos_part, neg_part, ◌+ℤ◌, ◌-ℤ◌, ◌*ℤ◌, ◌≤ℤ◌, max_ℤ, int_laws, *ℤ_sub, *ℤ_mono,
}
use cross_arb.Monitor.Edge.{Transition, opened, closed, flipped, widened, narrowed}
use cross_arb.Persistence.Episodes.{
  LogRecord, Heading, Censor, uncensored, restart, Episode, Running, Event, session, record_at,
  time_of, lag_at, close_episode, c2_of, open_episode, count_label, continue_episode, close_time,
  OpenEpisodes, on_running, on_idle, close_all, step,
}

-- An episode: it ends no earlier than it starts, its peaks are not below its opening values, and the area
-- under its net edge is at most its peak for all its time.
pub record IsEpisode (e : Episode) : Type 0 where
  pub ordered : e.open_t ≤ℤ e.close_t
  pub lasts : e.duration ≡ e.close_t -ℤ e.open_t
  pub peak : e.open_net ≤ℤ e.peak_net
  pub peak_depth : e.open_c2 ≤ℤ e.peak_c2
  pub average : e.area ≤ℤ e.peak_net *ℤ e.duration

-- The same of an open episode, up to its last record, which is not after `now`, nor after `end`.
abbrev IsRunning : ℤ → ℤ → Running → Type 0
IsRunning now end run =
    (run.ep.open_t ≤ℤ run.seg_t)
    × (run.seg_t ≤ℤ now)
    × (run.seg_t ≤ℤ end)
    × (run.ep.open_net ≤ℤ run.ep.peak_net)
    × (run.last_net ≤ℤ run.ep.peak_net)
    × (run.ep.open_c2 ≤ℤ run.ep.peak_c2)
    × (run.acc ≤ℤ run.ep.peak_net *ℤ (run.seg_t -ℤ run.ep.open_t))

-- The area up to a later moment, below a peak that has not fallen.
area_bound :
    (acc last peak peak' start seg t : ℤ)
    → acc ≤ℤ peak *ℤ (seg -ℤ start)
    → last ≤ℤ peak
    → peak ≤ℤ peak'
    → start ≤ℤ seg
    → seg ≤ℤ t
    → acc +ℤ last *ℤ (t -ℤ seg) ≤ℤ peak' *ℤ (t -ℤ start)
area_bound acc last peak peak' start seg t h l p o s =
    let m = *ℤ_mono last peak' (t -ℤ seg) (omega (arith, l, p)) (omega int_laws) in
    let n = *ℤ_mono peak peak' (seg -ℤ start) p (omega int_laws) in
    omega (
      int_laws,
      h,
      m,
      n,
      ap pos_part (*ℤ_sub peak' t seg),
      ap neg_part (*ℤ_sub peak' t seg),
      ap pos_part (*ℤ_sub peak' seg start),
      ap neg_part (*ℤ_sub peak' seg start),
      ap pos_part (*ℤ_sub peak' t start),
      ap neg_part (*ℤ_sub peak' t start),
    )

close_episode-IsEpisode :
    (now end tc : ℤ) (why : Censor) (adjusted : Bool) (run : Running)
    → IsRunning now end run
    → run.seg_t ≤ℤ tc
    → IsEpisode (close_episode run tc why adjusted)
unfolding close_episode
close_episode-IsEpisode now end tc why adjusted run (ordered, _, _, peak, last, depth, average) h =
    record {
      ordered = omega (arith, ordered, h);
      lasts = refl;
      peak = peak;
      peak_depth = depth;
      average =
          area_bound run.acc run.last_net run.ep.peak_net run.ep.peak_net run.ep.open_t run.seg_t tc
            average last (omega arith) ordered h;
    }

close_time_later :
    (lag : ℤ) (run : Running) (t : ℤ) → run.seg_t ≤ℤ t → run.seg_t ≤ℤ close_time lag run t
unfolding close_time
close_time_later lag run t h = ground arith

zero_area : (net t : ℤ) → pos 0 ≤ℤ net *ℤ (t -ℤ t)
zero_area net t = omega (int_laws, ap pos_part (*ℤ_sub net t t), ap neg_part (*ℤ_sub net t t))

open_episode-IsRunning : (end : ℤ) (r : LogRecord) → r.t ≤ℤ end → IsRunning r.t end (open_episode r)
unfolding open_episode
open_episode-IsRunning end r h =
    (omega arith, omega arith, h, omega arith, omega arith, omega arith, zero_area r.net_edge r.t)

count_label-IsRunning :
    (l : Transition) (d : Heading) (now end : ℤ) (ep : Episode) (acc seg last : ℤ)
    → IsRunning now end (record { ep = ep; acc = acc; seg_t = seg; last_net = last })
    → IsRunning now end
        (record { ep = count_label l d ep; acc = acc; seg_t = seg; last_net = last })
count_label-IsRunning opened d now end ep acc seg last i = i
count_label-IsRunning closed d now end ep acc seg last i = i
count_label-IsRunning flipped d now end ep acc seg last i = i
count_label-IsRunning widened d now end ep acc seg last i = i
count_label-IsRunning narrowed d now end ep acc seg last i = i

max_left : (a b c : ℤ) → c ≤ℤ a → c ≤ℤ max_ℤ a b
max_left a b c h = ground arith

max_right : (a b : ℤ) → b ≤ℤ max_ℤ a b
max_right a b = ground arith

continue_episode-IsRunning :
    (now end : ℤ) (run : Running) (r : LogRecord)
    → IsRunning now end run
    → now ≤ℤ r.t
    → r.t ≤ℤ end
    → IsRunning r.t end (continue_episode run r)
unfolding continue_episode
continue_episode-IsRunning now end run r (ordered, seen, in_log, peak, last, depth, average) h e =
    count_label-IsRunning r.transition r.dir r.t end _ _ _ _ (
      omega (arith, ordered, seen, h),
      omega arith,
      e,
      max_left run.ep.peak_net r.net_edge run.ep.open_net peak,
      max_right run.ep.peak_net r.net_edge,
      max_left run.ep.peak_c2 (c2_of r.depth) run.ep.open_c2 depth,
      area_bound run.acc run.last_net run.ep.peak_net (max_ℤ run.ep.peak_net r.net_edge)
          run.ep.open_t run.seg_t r.t average last
          (max_left run.ep.peak_net r.net_edge run.ep.peak_net (omega arith)) ordered
          (omega (arith, seen, h)),
    )

-- Every open episode.
abbrev pub AreRunning : ℤ → ℤ → OpenEpisodes → Type 0
AreRunning now end d = All (λ row. IsRunning now end row.1) d

AreRunning-later :
    (now now' end : ℤ) (d : OpenEpisodes)
    → now ≤ℤ now'
    → AreRunning now end d
    → AreRunning now' end d
AreRunning-later now now' end [] h a = tt
AreRunning-later now now' end (row ∷ d) h ((o, seen, i, p, l, c, v), a) =
    ((o, omega (arith, seen, h), i, p, l, c, v), AreRunning-later now now' end d h a)

pub close_all-IsEpisode :
    (now end t : ℤ) (why : Censor) (d : OpenEpisodes)
    → AreRunning now end d
    → All (λ row. row.1.seg_t ≤ℤ t) d
    → All IsEpisode (close_all d t why)
unfolding close_all
close_all-IsEpisode now end t why [] a h = tt
close_all-IsEpisode now end t why ((m, run) ∷ d) a h = (
  close_episode-IsEpisode now end t why false run a.0 h.0,
  close_all-IsEpisode now end t why d a.1 h.1,
)

seen_by :
    (now end t : ℤ) (d : OpenEpisodes)
    → now ≤ℤ t
    → AreRunning now end d
    → All (λ row. row.1.seg_t ≤ℤ t) d
seen_by now end t [] h a = tt
seen_by now end t (row ∷ d) h a = (omega (arith, a.0.1, h), seen_by now end t d h a.1)

pub logged_by :
    (now end : ℤ) (d : OpenEpisodes) → AreRunning now end d → All (λ row. row.1.seg_t ≤ℤ end) d
logged_by now end [] a = tt
logged_by now end (row ∷ d) a = (a.0.2, logged_by now end d a.1)

-- A step keeps the open episodes in order and ends only episodes.
abbrev pub IsStep : ℤ → ℤ → OpenEpisodes × List Episode → Type 0
IsStep t end (d, out) = AreRunning t end d × All IsEpisode out

continued :
    (now end : ℤ) (d : OpenEpisodes) (run : Running) (r : LogRecord)
    → IsRunning now end run
    → AreRunning now end d
    → now ≤ℤ r.t
    → r.t ≤ℤ end
    → AreRunning r.t end (insert r.market (continue_episode run r) d)
continued now end d run r i a h e =
    All-insert (λ row. IsRunning r.t end row.1) r.market (continue_episode run r) d
      (continue_episode-IsRunning now end run r i h e) (AreRunning-later now r.t end d h a)

on_running-IsStep :
    (close_lag : Option ℤ) (now end : ℤ) (d : OpenEpisodes) (run : Running) (r : LogRecord)
    (l : Transition)
    → IsRunning now end run
    → AreRunning now end d
    → now ≤ℤ r.t
    → r.t ≤ℤ end
    → IsStep r.t end (on_running close_lag d run r l)
unfolding on_running
on_running-IsStep close_lag now end d run r opened i a h e =
    (AreRunning-later now r.t end d h a, tt)
on_running-IsStep close_lag now end d run r closed i a h e = (
  All-erase (λ row. IsRunning r.t end row.1) r.market d (AreRunning-later now r.t end d h a),
  (
    close_episode-IsEpisode now end _ uncensored _ run i
        (close_time_later (lag_at close_lag r.t) run r.t (omega (arith, i.1, h))),
    tt,
  ),
)
on_running-IsStep close_lag now end d run r flipped i a h e =
    (continued now end d run r i a h e, tt)
on_running-IsStep close_lag now end d run r widened i a h e =
    (continued now end d run r i a h e, tt)
on_running-IsStep close_lag now end d run r narrowed i a h e =
    (continued now end d run r i a h e, tt)

on_idle-IsStep :
    (now end : ℤ) (d : OpenEpisodes) (r : LogRecord) (l : Transition)
    → AreRunning now end d
    → now ≤ℤ r.t
    → r.t ≤ℤ end
    → IsStep r.t end (on_idle d r l)
unfolding on_idle
on_idle-IsStep now end d r opened a h e = (
  All-insert (λ row. IsRunning r.t end row.1) r.market (open_episode r) d
      (open_episode-IsRunning end r e) (AreRunning-later now r.t end d h a),
  tt,
)
on_idle-IsStep now end d r closed a h e = (AreRunning-later now r.t end d h a, tt)
on_idle-IsStep now end d r flipped a h e = (AreRunning-later now r.t end d h a, tt)
on_idle-IsStep now end d r widened a h e = (AreRunning-later now r.t end d h a, tt)
on_idle-IsStep now end d r narrowed a h e = (AreRunning-later now r.t end d h a, tt)

-- A record is not after the end of the log.
abbrev pub InLog : ℤ → Event → Type 0
InLog end (session t) = Unit
InLog end (record_at r) = r.t ≤ℤ end

pub step-IsStep :
    (close_lag : Option ℤ) (now end : ℤ) (d : OpenEpisodes) (e : Event)
    → AreRunning now end d
    → now ≤ℤ time_of e
    → InLog end e
    → IsStep (time_of e) end (step close_lag d e)
unfolding step
step-IsStep close_lag now end d (session t) a h e =
    (tt, close_all-IsEpisode now end t restart d a (seen_by now end t d h a))
step-IsStep close_lag now end d (record_at r) a h e = elim (Option-cases (lookup r.market d)) [
  | inl idle ↦ rw idle (on_idle-IsStep now end d r r.transition a h e)
  | inr (run, there) ↦ rw there (
      on_running-IsStep close_lag now end d run r r.transition
        (All-lookup (λ row. IsRunning now end row.1) r.market run d there a) a h e)
]
