-- ===== src/Monitor/Live/Heartbeat/Extends.antt =====
-- What a heartbeat has sent stands, and the polymarket socket is the one that it found.
use cross_arb.Prelude.{
  ◌≡◌, refl, sym, ap, ◌∙◌, Bool, true, false, Option, none, some, List, [], ◌∷◌, ◌++◌, String, Dict,
  string_keys, if◌then◌else◌,
}
use mathlib.Core.List.{append_assoc, append-nil}
use cross_arb.Prelude.Int.{ℤ, ◌+ℤ◌}
use cross_arb.Monitor.Edge.{Attempt, ok, raised}
use cross_arb.Monitor.Live.Sockets.{
  Link, down, up, closing, Sent, update_k, close_k, SubCmd, update_sub_cmd,
}
use cross_arb.Monitor.Live.Heartbeat.{
  Beat, Pass, next_cmd, await_all, pop_all, close, add_confirm, add_k_on, on_link, add_tickers,
  update, send_k, unsubscribe, unsubscribe_on, overdue, free_settled, prune, prune_step,
  unless_raised,
}

module _ {S D : Type 0} where
  pub record Extends (b b' : Beat S D) : Type 0 where
    pub more : List Sent
    pub sent_more : b'.sent ≡ b.sent ++ more
    pub same_pm : b'.links.pm ≡ b.links.pm

  same_Extends : (b : Beat S D) → Extends b b
  same_Extends b = record { more = []; sent_more = sym (append-nil b.sent); same_pm = refl }

  pub trans_Extends : (a b c : Beat S D) → Extends a b → Extends b c → Extends a c
  trans_Extends a b c h k = record {
    more = h.more ++ k.more;
    sent_more = k.sent_more ∙ ap (λ l. l ++ k.more) h.sent_more ∙ append_assoc a.sent h.more k.more;
    same_pm = k.same_pm ∙ h.same_pm;
  }

  send_k-Extends :
      (b : Beat S D) (link : Link) (cmd : Attempt SubCmd) → Extends b (send_k b link cmd)
  unfolding send_k
  send_k-Extends b down cmd = record {
    more = [];
    sent_more = sym (append-nil b.sent);
    same_pm = refl;
  }
  send_k-Extends b closing cmd = record {
    more = [];
    sent_more = sym (append-nil b.sent);
    same_pm = refl;
  }
  send_k-Extends b up raised = record {
    more = [];
    sent_more = sym (append-nil b.sent);
    same_pm = refl;
  }
  send_k-Extends b up (ok cmd) = record {
    more = update_k cmd ∷ [];
    sent_more = refl;
    same_pm = refl;
  }

  abbrev set_pending : Beat S D → Dict String ℤ → Beat S D
  set_pending b d = record b { links = record b.links { pending = d } }

  update-Extends :
      (b : Beat S D) (d : Dict String ℤ) (sid : ℤ) (tks : List String) (action : String)
      → Extends b (update (set_pending b d) sid tks action)
  unfolding update
  update-Extends b d sid tks action =
      let b' = next_cmd (set_pending b d) in
      let h = send_k-Extends b' b'.links.k (update_sub_cmd b'.links.kcmd sid tks action) in
      record { more = h.more; sent_more = h.sent_more; same_pm = h.same_pm }

  close-Extends : (b : Beat S D) (after : Link) → Extends b (close b after)
  close-Extends b after = record { more = close_k ∷ []; sent_more = refl; same_pm = refl }

  add_tickers-Extends :
      (b : Beat S D) (pass : Pass) (o : Option ℤ) (tks : List String)
      → Extends b (add_tickers b pass o tks)
  unfolding add_tickers
  add_tickers-Extends b pass none [] = same_Extends b
  add_tickers-Extends b pass (some sid) [] = same_Extends b
  add_tickers-Extends b pass none (tk ∷ tks) = close-Extends b pass.after_close
  add_tickers-Extends b pass (some sid) (tk ∷ tks) =
      update-Extends b (await_all (pass.now' +ℤ add_confirm) (tk ∷ tks) b.links.pending) sid
        (tk ∷ tks) "add_markets"

  on_link-Extends :
      (b : Beat S D) (pass : Pass) (late tks : List String) → Extends b (on_link b pass late tks)
  unfolding on_link
  on_link-Extends b pass [] tks = add_tickers-Extends b pass b.links.sid tks
  on_link-Extends b pass (t ∷ late) tks =
      let h = close-Extends (set_pending b []) pass.after_close in
      record { more = h.more; sent_more = h.sent_more; same_pm = h.same_pm }

  pub add_k_on-Extends :
      (b : Beat S D) (link : Link) (pass : Pass) (tks : List String)
      → Extends b (add_k_on b link pass tks)
  unfolding add_k_on
  add_k_on-Extends b down pass tks = same_Extends b
  add_k_on-Extends b up pass tks = on_link-Extends b pass (overdue pass.now b.links.pending) tks
  add_k_on-Extends b closing pass tks =
      on_link-Extends b pass (overdue pass.now b.links.pending) tks

  unsubscribe_on-Extends :
      (b : Beat S D) (link : Link) (o : Option ℤ) (tks : List String)
      → Extends b (unsubscribe_on b link o tks)
  unfolding unsubscribe_on
  unsubscribe_on-Extends b down o tks = same_Extends b
  unsubscribe_on-Extends b up none tks = same_Extends b
  unsubscribe_on-Extends b closing none tks = same_Extends b
  unsubscribe_on-Extends b up (some sid) [] = same_Extends b
  unsubscribe_on-Extends b closing (some sid) [] = same_Extends b
  unsubscribe_on-Extends b up (some sid) (tk ∷ tks) =
      update-Extends b (pop_all (tk ∷ tks) b.links.pending) sid (tk ∷ tks) "delete_markets"
  unsubscribe_on-Extends b closing (some sid) (tk ∷ tks) =
      update-Extends b (pop_all (tk ∷ tks) b.links.pending) sid (tk ∷ tks) "delete_markets"

  prune-Extends : (b : Beat S D) (pass : Pass) → Extends b (prune b pass)
  unfolding prune free_settled unsubscribe
  prune-Extends b pass =
      let (b', dead) = free_settled b pass in
      let h = unsubscribe_on-Extends b' b'.links.k b'.links.sid dead in
      record { more = h.more; sent_more = h.sent_more; same_pm = h.same_pm }

  either-Extends :
      (r : Bool) (b b' b'' : Beat S D)
      → Extends b b'
      → Extends b b''
      → Extends b (if r then b' else b'')
  either-Extends true b b' b'' h h' = h
  either-Extends false b b' b'' h h' = h'

  pub unless_raised-Extends :
      (f : Beat S D → Beat S D) (b : Beat S D) → Extends b (f b) → Extends b (unless_raised f b)
  unless_raised-Extends f b h = either-Extends b.raised b b (f b) (same_Extends b) h

  pub prune_step-Extends : (pass : Pass) (b : Beat S D) → Extends b (prune_step pass b)
  unfolding prune_step
  prune_step-Extends pass b =
      either-Extends pass.degraded b b (prune b pass) (same_Extends b) (prune-Extends b pass)
