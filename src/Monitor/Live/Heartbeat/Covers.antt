-- ===== src/Monitor/Live/Heartbeat/Covers.antt =====
-- What the Kalshi subscription holds after a heartbeat, against the tickers that are routed.
use cross_arb.Prelude.{
  ◌≡◌, ◌≢◌, ◌⊎◌, refl, sym, ap, subst, ◌∙◌, Bool, true, false, ◌||◌, some, List, [], String,
  string_keys, elem, contains, if◌then◌else◌, Bool-cases, inl, inr,
}
use cross_arb.Prelude.Int.{ℤ}
use cross_arb.Monitor.Live.Registry.{World, register}
use cross_arb.Monitor.Live.Registry.Report.{register-IsReport}
use cross_arb.Monitor.Live.Sockets.{up, closing, Links}
use cross_arb.Monitor.Live.Heartbeat.{
  Beat, Pass, prune_step, add_pm, add_k, unsubscribe, free_settled, prune, heartbeat, unless_raised,
}
use cross_arb.Monitor.Live.Heartbeat.Venue.{closed}
use cross_arb.Monitor.Live.Heartbeat.Kept.{Kept-unsubscribe_on, world-add_pm_on, world-add_k_on}
use cross_arb.Monitor.Live.Heartbeat.Steps.{Holds, add_pm_on-Holds, add_k-Holds, prune-Holds}

module _ {S D : Type 0} where
  closed-free_settled : (b : Beat S D) (pass : Pass) → (free_settled b pass).0.sent ≡ b.sent
  unfolding free_settled
  closed-free_settled b pass = refl

  closed-prune :
      (b : Beat S D) (pass : Pass) → closed b.sent ≡ true → closed (prune b pass).sent ≡ true
  unfolding prune unsubscribe
  closed-prune b pass c =
      let (b', dead) = free_settled b pass in
      (Kept-unsubscribe_on b' b'.links.k b'.links.sid dead).1
        (ap closed (closed-free_settled b pass) ∙ c)

  closed_either :
      (r : Bool) (b b' : Beat S D)
      → closed b.sent ≡ true
      → closed b'.sent ≡ true
      → closed (if r then b else b').sent ≡ true
  closed_either true b b' h h' = h
  closed_either false b b' h h' = h'

  module _ (sid : ℤ) (subs : String → Bool) where
    -- Cycled, or in step with the closures that there are.
    InStep : Beat S D → Type 0
    InStep b = (closed b.sent ≡ true) ⊎ Holds sid subs b (λ tk. contains tk b.world.live.k_targets)

    InStep-prune_step : (pass : Pass) (b : Beat S D) → InStep b → InStep (prune_step pass b)
    unfolding prune_step InStep
    InStep-prune_step pass b (inl c) =
        inl (closed_either pass.degraded b (prune b pass) c (closed-prune b pass c))
    InStep-prune_step pass b (inr h) = elim (Bool-cases pass.degraded) [
      | inl skipped ↦ subst (λ d. InStep (if d then b else prune b pass)) (sym skipped) (inr h)
      | inr pruned ↦
          subst (λ d. InStep (if d then b else prune b pass)) (sym pruned)
            (inr (prune-Holds sid subs b pass h))
    ]

    InStep-last :
        (pass : Pass) (b : Beat S D) → InStep b → InStep (unless_raised (prune_step pass) b)
    unfolding InStep
    InStep-last pass b (inl c) = elim (Bool-cases b.raised) [
      | inl r ↦ subst (λ x. InStep (if x then b else prune_step pass b)) (sym r) (inl c)
      | inr r ↦
          subst (λ x. InStep (if x then b else prune_step pass b)) (sym r)
            (InStep-prune_step pass b (inl c))
    ]
    InStep-last pass b (inr h) =
        subst (λ x. InStep (if x then b else prune_step pass b)) (sym h.calm)
          (InStep-prune_step pass b (inr h))

    InStep-add_k :
        (b : Beat S D) (pass : Pass) (tks : List String) (f : String → Bool)
        → ((tk : String) → (elem tk tks || f tk) ≡ contains tk b.world.live.k_targets)
        → Holds sid subs b f
        → InStep (unless_raised (λ x. add_k x pass tks) b)
    unfolding InStep add_k
    InStep-add_k b pass tks f step h =
        subst (λ x. InStep (if x then b else add_k b pass tks)) (sym h.calm)
          (subst
            (λ w.
              (closed (add_k b pass tks).sent ≡ true)
              ⊎ Holds sid subs (add_k b pass tks) (λ tk. contains tk w.live.k_targets))
            (sym (world-add_k_on b b.links.k pass tks))
            (add_k-Holds sid subs b pass tks f _ step h))

  -- If the Kalshi connection is up, its subscription is known by its id and holds exactly the tickers that
  -- have a closure, and the polymarket socket is not one that is closing, then after a heartbeat either the
  -- Kalshi connection has been cycled, or nothing was raised, it is up under the same id, and it holds
  -- exactly the tickers that have a closure then: every new one, and none that was freed.
  pub heartbeat_covers :
      (w : World S D) (links : Links) (pass : Pass) (sid : ℤ) (subs : String → Bool)
      → links.k ≡ up
      → links.sid ≡ some sid
      → links.pm ≢ closing
      → ((tk : String) → subs tk ≡ contains tk w.live.k_targets)
      → (closed (heartbeat w links pass).sent ≡ true)
        ⊎ Holds sid subs
            (heartbeat w links pass)
            (λ tk. contains tk (heartbeat w links pass).world.live.k_targets)
  unfolding heartbeat add_pm InStep
  heartbeat_covers w links pass sid subs on known live all =
      let r = register w pass.fresh in
      let b : Beat S D = record { world = r.world; links = links; sent = []; raised = false } in
      let start : Holds sid subs b (λ tk. contains tk w.live.k_targets) = record {
        calm = refl;
        on = on;
        known = known;
        held = all;
      } in
      let report = register-IsReport w pass.fresh in
      InStep-last sid subs pass _ (
        InStep-add_k sid subs (add_pm b r.new_pm) pass r.new_k (λ tk. contains tk w.live.k_targets)
          (λ tk.
            sym (report.tickers tk)
            ∙ ap (λ u. contains tk u.live.k_targets) (sym (world-add_pm_on b links.pm r.new_pm)))
          (add_pm_on-Holds sid subs b links.pm r.new_pm _ live start))
