-- ===== src/Monitor/Live/Pmus/Covers.antt =====
-- The slugs that a polymarket connection has been asked for.
use cross_arb.Prelude.{
  ◌≡◌, refl, ◌∙◌, true, List, [], ◌∷◌, ◌++◌, String, string_keys, elem, Dict, lookup, contains,
  arith,
}
use cross_arb.Monitor.Live.Registry.{World}
use cross_arb.Monitor.Live.Sockets.{up, Links, Sent}
use cross_arb.Monitor.Live.Heartbeat.{Pass, keys, heartbeat}
use cross_arb.Monitor.Live.Heartbeat.Asked.{asked, asked-append, asked-shards, heartbeat_asks}
use cross_arb.Monitor.Live.Pmus.{connect_pm}

elem-keys : {V : Type 0} (s : String) (d : Dict String V) → elem s (keys d) ≡ contains s d
unfolding lookup
elem-keys s [] = refl
elem-keys s ((k, v) ∷ d) =
    ground (arith, elem-keys s d, string_keys.beq_iff s k, string_keys.beq_iff k s)

module _ {S D : Type 0} where
  -- Every slug that has a closure was asked for.
  abbrev pub Covers : World S D → List Sent → Type 0
  Covers w out = (s : String) → contains s w.live.pm_targets ≡ true → asked s out ≡ true

  connect_pm-Covers : (w : World S D) (links : Links) → Covers w (connect_pm w links).1
  unfolding connect_pm
  connect_pm-Covers w links s h =
      asked-shards s (keys w.live.pm_targets) ∙ elem-keys s w.live.pm_targets ∙ h

  -- Heartbeats, one after the other, and what was sent in all.
  unfoldable pub beats : World S D → Links → List Sent → List Pass → World S D × Links × List Sent
  beats w links out [] = (w, links, out)
  beats w links out (pass ∷ passes) =
      let b = heartbeat w links pass in beats b.world b.links (out ++ b.sent) passes

  beats-Covers :
      (w : World S D) (links : Links) (out : List Sent) (passes : List Pass)
      → links.pm ≡ up
      → Covers w out
      → let (w', links', out') = beats w links out passes in Covers w' out'
  unfolding beats
  beats-Covers w links out [] on h = h
  beats-Covers w links out (pass ∷ passes) on h =
      let b = heartbeat w links pass in
      let (on', step) = heartbeat_asks w links pass on in
      beats-Covers b.world b.links (out ++ b.sent) passes on'
        (λ s c. ground (arith, asked-append s out b.sent, step s c, h s))

  -- From a new polymarket connection on, over any heartbeats while it is up, whether they raise, prune or were
  -- degraded: every slug that has a closure has been asked for on this connection.
  pub beats-connect_pm :
      (w : World S D) (links : Links) (passes : List Pass)
      → let (links', out) = connect_pm w links in
        let (w', links'', out') = beats w links' out passes in Covers w' out'
  unfolding connect_pm
  beats-connect_pm w links passes =
      let (links', out) = connect_pm w links in
      beats-Covers w links' out passes refl (connect_pm-Covers w links)
