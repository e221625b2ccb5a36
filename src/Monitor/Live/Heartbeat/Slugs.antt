-- ===== src/Monitor/Live/Heartbeat/Slugs.antt =====
-- The slugs that a heartbeat leaves tracked.
use cross_arb.Prelude.{
  ℕ, ◌≡◌, sym, ap, ◌∙◌, Bool, true, false, List, [], ◌∷◌, String, string_keys, lookup-erase,
  contains, if◌then◌else◌, arith,
}
use cross_arb.Kalshi.Book.{KalshiBook}
use cross_arb.Monitor.Housekeeping.Prune.{prune_decision}
use cross_arb.Monitor.Housekeeping.Teardown.{Live, teardown}
use cross_arb.Monitor.Live.Registry.{Closure}
use cross_arb.Monitor.Live.Heartbeat.{
  Beat, Pass, teardown_all, unsubscribe, free_settled, prune, prune_step, unless_raised, keys,
  current_slugs, prune_threshold,
}
use cross_arb.Monitor.Live.Heartbeat.Kept.{Kept-unsubscribe_on}

module _ {S D : Type 0} where
  slugs-teardown_all :
      (slugs : List String) (l : Live Closure Closure KalshiBook ℕ S D) (s : String)
      → contains s (teardown_all slugs l).pm_targets ≡ true
      → contains s l.pm_targets ≡ true
  unfolding teardown_all teardown
  slugs-teardown_all [] l s h = h
  slugs-teardown_all (slug ∷ slugs) l s h =
      ground
        (arith, slugs-teardown_all slugs (teardown l slug) s h, lookup-erase slug s l.pm_targets)

  -- No slug is tracked behind it that was not tracked before it.
  abbrev pub Frees : Beat S D → Beat S D → Type 0
  Frees b b' =
      (s : String)
      → contains s b'.world.live.pm_targets ≡ true
      → contains s b.world.live.pm_targets ≡ true

  either-Frees :
      (r : Bool) (b b' b'' : Beat S D) → Frees b b' → Frees b b'' → Frees b (if r then b' else b'')
  either-Frees true b b' b'' h h' = h
  either-Frees false b b' b'' h h' = h'

  prune-Frees : (b : Beat S D) (pass : Pass) → Frees b (prune b pass)
  unfolding prune unsubscribe free_settled
  prune-Frees b pass s h =
      let (b', dead) = free_settled b pass in
      let l = b.world.live in
      let out =
        prune_decision (keys l.pm_targets) (current_slugs pass.fresh) l.absent prune_threshold in
      slugs-teardown_all out.1 (record l { absent = out.0 }) s
        (ap (λ w. contains s w.live.pm_targets)
            (sym (Kept-unsubscribe_on b' b'.links.k b'.links.sid dead).0)
          ∙ h)

  pub last-Frees : (pass : Pass) (b : Beat S D) → Frees b (unless_raised (prune_step pass) b)
  unfolding prune_step
  last-Frees pass b =
      either-Frees b.raised b b (prune_step pass b) (λ s h. h)
        (either-Frees pass.degraded b b (prune b pass) (λ s h. h) (prune-Frees b pass))
