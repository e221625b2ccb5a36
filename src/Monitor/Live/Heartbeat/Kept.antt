-- ===== src/Monitor/Live/Heartbeat/Kept.antt =====
-- What the sends of a heartbeat leave alone.
use cross_arb.Prelude.{
  suc, ◌≡◌, refl, ap, ◌∙◌, true, false, ◌||◌, Option, none, some, List, [], ◌∷◌, String,
  string_keys,
}
use cross_arb.Prelude.Int.{ℤ, ◌+ℤ◌}
use cross_arb.Monitor.Edge.{Attempt, ok, raised}
use cross_arb.Monitor.Live.Sockets.{Link, down, up, closing, update_k, SubCmd, update_sub_cmd}
use cross_arb.Monitor.Live.Heartbeat.{
  Beat, Pass, next_cmd, await_all, add_confirm, add_pm_on, add_k_on, on_link, add_tickers, update,
  send_k, unsubscribe_on, overdue,
}
use cross_arb.Monitor.Live.Heartbeat.Venue.{closed, closed-append}

module _ {S D : Type 0} where
  -- A send leaves the dicts alone and takes nothing back.
  abbrev pub Kept : Beat S D → Beat S D → Type 0
  Kept b b' = (b'.world ≡ b.world) × (closed b.sent ≡ true → closed b'.sent ≡ true)

  pub Kept-send_k : (b : Beat S D) (link : Link) (cmd : Attempt SubCmd) → Kept b (send_k b link cmd)
  unfolding send_k
  Kept-send_k b down cmd = (refl, λ c. c)
  Kept-send_k b closing cmd = (refl, λ c. c)
  Kept-send_k b up raised = (refl, λ c. c)
  Kept-send_k b up (ok cmd) =
      (refl, λ c. closed-append b.sent (update_k cmd ∷ []) ∙ ap (λ x. x || false) c)

  pub Kept-unsubscribe_on :
      (b : Beat S D) (link : Link) (o : Option ℤ) (tks : List String)
      → Kept b (unsubscribe_on b link o tks)
  unfolding unsubscribe_on update
  Kept-unsubscribe_on b down o tks = (refl, λ c. c)
  Kept-unsubscribe_on b up none tks = (refl, λ c. c)
  Kept-unsubscribe_on b closing none tks = (refl, λ c. c)
  Kept-unsubscribe_on b up (some sid) [] = (refl, λ c. c)
  Kept-unsubscribe_on b closing (some sid) [] = (refl, λ c. c)
  Kept-unsubscribe_on b up (some sid) (tk ∷ tks) = Kept-send_k _ _ _
  Kept-unsubscribe_on b closing (some sid) (tk ∷ tks) = Kept-send_k _ _ _

  pub world-add_pm_on :
      (b : Beat S D) (link : Link) (slugs : List String) → (add_pm_on b link slugs).world ≡ b.world
  unfolding add_pm_on
  world-add_pm_on b up (s ∷ ss) = refl
  world-add_pm_on b closing (s ∷ ss) = refl
  world-add_pm_on b down (s ∷ ss) = refl
  world-add_pm_on b up [] = refl
  world-add_pm_on b closing [] = refl
  world-add_pm_on b down [] = refl

  pub world-add_tickers :
      (b : Beat S D) (pass : Pass) (o : Option ℤ) (tks : List String)
      → (add_tickers b pass o tks).world ≡ b.world
  unfolding add_tickers update
  world-add_tickers b pass none [] = refl
  world-add_tickers b pass (some sid) [] = refl
  world-add_tickers b pass none (tk ∷ tks) = refl
  world-add_tickers b pass (some sid) (tk ∷ tks) =
      (Kept-send_k
        (next_cmd (record b {
          links = record b.links {
            pending = await_all (pass.now' +ℤ add_confirm) (tk ∷ tks) b.links.pending;
          };
        }))
        b.links.k (update_sub_cmd (suc b.links.kcmd) sid (tk ∷ tks) "add_markets")).0

  pub world-on_link :
      (b : Beat S D) (pass : Pass) (late tks : List String)
      → (on_link b pass late tks).world ≡ b.world
  unfolding on_link
  world-on_link b pass [] tks = world-add_tickers b pass b.links.sid tks
  world-on_link b pass (t ∷ late) tks = refl

  pub world-add_k_on :
      (b : Beat S D) (link : Link) (pass : Pass) (tks : List String)
      → (add_k_on b link pass tks).world ≡ b.world
  unfolding add_k_on
  world-add_k_on b down pass tks = refl
  world-add_k_on b up pass tks = world-on_link b pass (overdue pass.now b.links.pending) tks
  world-add_k_on b closing pass tks = world-on_link b pass (overdue pass.now b.links.pending) tks
