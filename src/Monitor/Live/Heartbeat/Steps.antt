-- ===== src/Monitor/Live/Heartbeat/Steps.antt =====
-- The steps of a heartbeat, each with the tickers that the Kalshi connection holds before and after it.
use cross_arb.Prelude.{
  suc, ◌≡◌, ◌≢◌, ◌⊎◌, refl, sym, ap, subst, ◌∙◌, Bool, true, false, not, ◌&&◌, ◌||◌, Option, none,
  some, List, [], ◌∷◌, String, string_keys, elem, contains, arith, inl, inr, some_eq,
}
use cross_arb.Prelude.Int.{ℤ, ◌+ℤ◌}
use cross_arb.Monitor.Edge.{ok}
use cross_arb.Monitor.Housekeeping.Prune.{prune_decision}
use cross_arb.Monitor.Live.Sockets.{
  Link, down, up, closing, Sent, update_k, close_k, SubCmd, update_sub_cmd, shards, shard_size,
}
use cross_arb.Monitor.Live.Heartbeat.{
  Beat, Pass, send, keys, current_slugs, prune_threshold, pop_all, await_all, add_confirm,
  add_pm_on, add_k, add_k_on, on_link, add_tickers, update, send_k, unsubscribe, unsubscribe_on,
  free_settled, prune, overdue,
}
use cross_arb.Monitor.Live.Heartbeat.Venue.{
  merged, venue, closed, venue-append, closed-append, venue-subscribe_shards, contains-teardown_all,
}
use cross_arb.Monitor.Live.Heartbeat.Kept.{Kept-unsubscribe_on}

module _ {S D : Type 0} where
  module _ (sid : ℤ) (subs : String → Bool) where
    -- The connection is up and holds the tickers that `f` says.
    pub record Holds (b : Beat S D) (f : String → Bool) : Type 0 where
      pub calm : b.raised ≡ false
      pub on : b.links.k ≡ up
      pub known : b.links.sid ≡ some sid
      pub held : (tk : String) → venue tk (subs tk) b.sent ≡ f tk

    abbrev pub Cycled : Beat S D → Type 0
    Cycled b = closed b.sent ≡ true

    pub send-Holds :
        (b : Beat S D) (out : List Sent) (f g : String → Bool)
        → ((tk : String) → venue tk (f tk) out ≡ g tk)
        → Holds b f
        → Holds (send b out) g
    send-Holds b out f g step h = record {
      calm = h.calm;
      on = h.on;
      known = h.known;
      held = λ tk.
          venue-append tk (subs tk) b.sent out ∙ ap (λ c. venue tk c out) (h.held tk) ∙ step tk;
    }

    pub add_pm_on-Holds :
        (b : Beat S D) (link : Link) (slugs : List String) (f : String → Bool)
        → link ≢ closing
        → Holds b f
        → Holds (add_pm_on b link slugs) f
    unfolding add_pm_on
    add_pm_on-Holds b up (s ∷ ss) f live h =
        send-Holds b _ f f (λ tk. venue-subscribe_shards tk (f tk) (shards shard_size (s ∷ ss))) h
    add_pm_on-Holds b closing (s ∷ ss) f live h = elim (live refl) [ ]
    add_pm_on-Holds b down (s ∷ ss) f live h = h
    add_pm_on-Holds b up [] f live h = h
    add_pm_on-Holds b down [] f live h = h
    add_pm_on-Holds b closing [] f live h = h

    pub update-Holds :
        (b : Beat S D) (tks : List String) (action : String) (cmd : SubCmd) (f g : String → Bool)
        → update_sub_cmd (suc b.links.kcmd) sid tks action ≡ ok cmd
        → ((tk : String) → merged tk cmd (f tk) ≡ g tk)
        → Holds b f
        → Holds (update b sid tks action) g
    unfolding update send_k
    update-Holds b tks action cmd f g fits step h =
        let b' : Beat S D = record b { links = record b.links { kcmd = suc b.links.kcmd } } in
        let h' : Holds b' f = record { calm = h.calm; on = h.on; known = h.known; held = h.held } in
        subst (λ link. Holds (send_k b' link (update_sub_cmd (suc b.links.kcmd) sid tks action)) g)
          (sym h.on)
          (subst (λ r. Holds (send_k b' up r) g) (sym fits)
            (send-Holds b' (update_k cmd ∷ []) f g step h'))

    pub add_tickers-Holds :
        (b : Beat S D) (pass : Pass) (o : Option ℤ) (tks : List String) (f g : String → Bool)
        → o ≡ some sid
        → ((tk : String) → (elem tk tks || f tk) ≡ g tk)
        → Holds b f
        → Holds (add_tickers b pass o tks) g
    unfolding add_tickers update_sub_cmd
    add_tickers-Holds b pass none tks f g e step h = cc e
    add_tickers-Holds b pass (some sid') [] f g e step h = record {
      calm = h.calm;
      on = h.on;
      known = h.known;
      held = λ tk. h.held tk ∙ step tk;
    }
    add_tickers-Holds b pass (some sid') (tk ∷ tks) f g e step h =
        let b' : Beat S D = record b {
          links = record b.links {
            pending = await_all (pass.now' +ℤ add_confirm) (tk ∷ tks) b.links.pending;
          };
        } in
        let h' : Holds b' f = record { calm = h.calm; on = h.on; known = h.known; held = h.held } in
        subst (λ x. Holds (update b' x (tk ∷ tks) "add_markets") g) (sym (some_eq e))
          (update-Holds b' (tk ∷ tks) "add_markets" _ f g refl step h')

    pub on_link-Holds :
        (b : Beat S D) (pass : Pass) (late tks : List String) (f g : String → Bool)
        → ((tk : String) → (elem tk tks || f tk) ≡ g tk)
        → Holds b f
        → Cycled (on_link b pass late tks) ⊎ Holds (on_link b pass late tks) g
    unfolding on_link
    on_link-Holds b pass [] tks f g step h =
        inr (add_tickers-Holds b pass b.links.sid tks f g h.known step h)
    on_link-Holds b pass (t ∷ late) tks f g step h =
        inl (closed-append b.sent (close_k ∷ []) ∙ ground arith)

    pub add_k-Holds :
        (b : Beat S D) (pass : Pass) (tks : List String) (f g : String → Bool)
        → ((tk : String) → (elem tk tks || f tk) ≡ g tk)
        → Holds b f
        → Cycled (add_k b pass tks) ⊎ Holds (add_k b pass tks) g
    unfolding add_k add_k_on
    add_k-Holds b pass tks f g step h =
        subst (λ link. Cycled (add_k_on b link pass tks) ⊎ Holds (add_k_on b link pass tks) g)
          (sym h.on) (on_link-Holds b pass (overdue pass.now b.links.pending) tks f g step h)

    pub unsubscribe_on-Holds :
        (b : Beat S D) (link : Link) (o : Option ℤ) (tks : List String) (f g : String → Bool)
        → link ≡ up
        → o ≡ some sid
        → ((tk : String) → (not (elem tk tks) && f tk) ≡ g tk)
        → Holds b f
        → Holds (unsubscribe_on b link o tks) g
    unfolding unsubscribe_on update_sub_cmd
    unsubscribe_on-Holds b down o tks f g u e step h = cc u
    unsubscribe_on-Holds b closing o tks f g u e step h = cc u
    unsubscribe_on-Holds b up none tks f g u e step h = cc e
    unsubscribe_on-Holds b up (some sid') [] f g u e step h = record {
      calm = h.calm;
      on = h.on;
      known = h.known;
      held = λ tk. h.held tk ∙ step tk;
    }
    unsubscribe_on-Holds b up (some sid') (tk ∷ tks) f g u e step h =
        let b' : Beat S D = record b {
          links = record b.links { pending = pop_all (tk ∷ tks) b.links.pending };
        } in
        let h' : Holds b' f = record { calm = h.calm; on = h.on; known = h.known; held = h.held } in
        subst (λ x. Holds (update b' x (tk ∷ tks) "delete_markets") g) (sym (some_eq e))
          (update-Holds b' (tk ∷ tks) "delete_markets" _ f g refl step h')

    pub free_settled-Holds :
        (b : Beat S D) (pass : Pass)
        → Holds b (λ tk. contains tk b.world.live.k_targets)
        → let (b', dead) = free_settled b pass in
          Holds b' (λ tk. contains tk b.world.live.k_targets)
          × ((tk : String)
              → (not (elem tk dead) && contains tk b.world.live.k_targets)
                ≡ contains tk b'.world.live.k_targets)
    unfolding free_settled
    free_settled-Holds b pass h =
        let l = b.world.live in
        let out =
          prune_decision (keys l.pm_targets) (current_slugs pass.fresh) l.absent prune_threshold in
        (
          record { calm = h.calm; on = h.on; known = h.known; held = h.held },
          λ tk. sym (contains-teardown_all out.1 (record l { absent = out.0 }) tk),
        )

    pub prune-Holds :
        (b : Beat S D) (pass : Pass)
        → Holds b (λ tk. contains tk b.world.live.k_targets)
        → Holds (prune b pass) (λ tk. contains tk (prune b pass).world.live.k_targets)
    unfolding prune unsubscribe
    prune-Holds b pass h =
        let (b', dead) = free_settled b pass in
        let (h', step) = free_settled-Holds b pass h in
        subst
          (λ w.
            Holds (unsubscribe_on b' b'.links.k b'.links.sid dead)
              (λ tk. contains tk w.live.k_targets))
          (sym (Kept-unsubscribe_on b' b'.links.k b'.links.sid dead).0)
          (unsubscribe_on-Holds b' b'.links.k b'.links.sid dead _ _ h'.on h'.known step h')
