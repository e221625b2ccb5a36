-- ===== src/Monitor/Live/Heartbeat/Wired.antt =====
-- A heartbeat over the dicts that agree, and over a polymarket socket that is closing.
use cross_arb.Prelude.{
  ℕ, ◌≡◌, refl, sym, ap, subst, ◌∙◌, Bool, true, false, List, [], ◌∷◌, String, if◌then◌else◌,
}
use cross_arb.Monitor.Housekeeping.Teardown.{Live, teardown}
use cross_arb.Monitor.Housekeeping.Prune.{prune_decision}
use cross_arb.Kalshi.Book.{KalshiBook}
use cross_arb.Monitor.Live.Registry.{Closure, World, register}
use cross_arb.Monitor.Live.Registry.Wired.{IsWired, register-IsWired, teardown-IsWired}
use cross_arb.Monitor.Live.Registry.Again.{register_again}
use cross_arb.Monitor.Live.Sockets.{closing, Links}
use cross_arb.Monitor.Live.Heartbeat.{
  Beat, Pass, add_pm, add_pm_on, add_k, prune, free_settled, teardown_all, unsubscribe, prune_step,
  keys, current_slugs, prune_threshold, heartbeat,
}
use cross_arb.Monitor.Live.Heartbeat.Kept.{Kept-unsubscribe_on, world-add_pm_on, world-add_k_on}

module _ {S D : Type 0} where
  teardown_all-IsWired :
      (slugs : List String) (w : World S D) (l : Live Closure Closure KalshiBook ℕ S D)
      → IsWired (record w { live = l })
      → IsWired (record w { live = teardown_all slugs l })
  unfolding teardown_all
  teardown_all-IsWired [] w l h = h
  teardown_all-IsWired (slug ∷ slugs) w l h =
      teardown_all-IsWired slugs w (teardown l slug)
        (teardown-IsWired (record w { live = l }) slug h)

  free_settled-IsWired :
      (b : Beat S D) (pass : Pass) → IsWired b.world → IsWired (free_settled b pass).0.world
  unfolding free_settled
  free_settled-IsWired b pass h =
      let l = b.world.live in
      let out =
        prune_decision (keys l.pm_targets) (current_slugs pass.fresh) l.absent prune_threshold in
      teardown_all-IsWired out.1 b.world (record l { absent = out.0 })
        (record {
          tickers_owned = h.tickers_owned;
          owned_ticker = h.owned_ticker;
          keyed = h.keyed;
          apart = h.apart;
          rows_traced = h.rows_traced;
        })

  prune-IsWired : (b : Beat S D) (pass : Pass) → IsWired b.world → IsWired (prune b pass).world
  unfolding prune unsubscribe
  prune-IsWired b pass h =
      let (b', dead) = free_settled b pass in
      subst IsWired (sym (Kept-unsubscribe_on b' b'.links.k b'.links.sid dead).0)
        (free_settled-IsWired b pass h)

  either-IsWired :
      (r : Bool) (b b' : Beat S D)
      → IsWired b.world
      → IsWired b'.world
      → IsWired (if r then b else b').world
  either-IsWired true b b' h h' = h
  either-IsWired false b b' h h' = h'

  pub heartbeat-IsWired :
      (w : World S D) (links : Links) (pass : Pass)
      → IsWired w
      → IsWired (heartbeat w links pass).world
  unfolding heartbeat add_pm add_k prune_step
  heartbeat-IsWired w links pass h =
      let r = register w pass.fresh in
      let b : Beat S D = record { world = r.world; links = links; sent = []; raised = false } in
      let b1 = add_pm_on b links.pm r.new_pm in
      let h1 : IsWired b1.world =
        subst IsWired (sym (world-add_pm_on b links.pm r.new_pm))
          (register-IsWired w pass.fresh h) in
      let b2 = add_k b1 pass r.new_k in
      let h2 =
        either-IsWired b1.raised b1 b2 h1
          (subst IsWired (sym (world-add_k_on b1 b1.links.k pass r.new_k)) h1) in
      let b3 : Beat S D = if b1.raised then b1 else b2 in
      either-IsWired b3.raised b3 (prune_step pass b3) h2
        (either-IsWired pass.degraded b3 (prune b3 pass) h2 (prune-IsWired b3 pass h2))

  -- If discovery finds a new market while the polymarket socket is one that is closing, the pass raises: it
  -- has sent nothing, not even the command for the new Kalshi tickers, and awaits no snapshot of them; but the
  -- market's closures are there, so that `register` with the same discovery has no new ticker to tell of.
  pub heartbeat_lost_add :
      (w : World S D) (links : Links) (pass : Pass) (slug : String) (slugs : List String)
      → links.pm ≡ closing
      → (register w pass.fresh).new_pm ≡ slug ∷ slugs
      → let b = heartbeat w links pass in
        (b.raised ≡ true)
        × (b.sent ≡ [])
        × (b.links ≡ links)
        × (b.world ≡ (register w pass.fresh).world)
        × ((register b.world pass.fresh).new_k ≡ [])
  unfolding heartbeat add_pm add_pm_on
  heartbeat_lost_add w links pass slug slugs c e =
      let r = register w pass.fresh in
      let b : Beat S D = record { world = r.world; links = links; sent = []; raised = false } in
      let stops : add_pm_on b links.pm r.new_pm ≡ record b { raised = true } =
        ap (λ link. add_pm_on b link r.new_pm) c ∙ ap (add_pm_on b closing) e in
      rw stops (refl, refl, refl, refl, ap (λ f. f.new_k) (register_again w pass.fresh).2)
