-- ===== src/Monitor/Live/Heartbeat/Asked.antt =====
-- What a heartbeat asks the polymarket connection for.
use cross_arb.Prelude.{
  ◌≡◌, refl, sym, ap, ◌∙◌, Bool, true, false, ◌||◌, List, [], ◌∷◌, ◌++◌, String, string_keys, elem,
  contains, if◌then◌else◌, arith,
}
use cross_arb.Monitor.Live.Registry.{World, register}
use cross_arb.Monitor.Live.Registry.Report.{elem-append, register-IsReport}
use cross_arb.Monitor.Live.Sockets.{
  Link, down, up, closing, Links, Sent, subscribe_pm, subscribe_k, update_k, close_k, shards,
  shard_size, subscribe_shards,
}
use cross_arb.Monitor.Live.Sockets.Shards.{join, join-shards}
use cross_arb.Monitor.Live.Heartbeat.{
  Beat, Pass, add_pm, add_pm_on, add_k, prune_step, heartbeat, unless_raised,
}
use cross_arb.Monitor.Live.Heartbeat.Kept.{world-add_pm_on, world-add_k_on}
use cross_arb.Monitor.Live.Heartbeat.Extends.{
  Extends, trans_Extends, add_k_on-Extends, unless_raised-Extends, prune_step-Extends,
}
use cross_arb.Monitor.Live.Heartbeat.Slugs.{last-Frees}

-- Whether a slug is in a subscription that was sent.
abbrev pub asked : String → List Sent → Bool
asked s [] = false
asked s (subscribe_pm ss ∷ out) = elem s ss || asked s out
asked s (subscribe_k tks ∷ out) = asked s out
asked s (update_k cmd ∷ out) = asked s out
asked s (close_k ∷ out) = asked s out

pub asked-append :
    (s : String) (xs ys : List Sent) → asked s (xs ++ ys) ≡ (asked s xs || asked s ys)
asked-append s [] ys = refl
asked-append s (subscribe_pm ss ∷ xs) ys = ground (arith, asked-append s xs ys)
asked-append s (subscribe_k tks ∷ xs) ys = asked-append s xs ys
asked-append s (update_k cmd ∷ xs) ys = asked-append s xs ys
asked-append s (close_k ∷ xs) ys = asked-append s xs ys

asked-subscribe_shards :
    (s : String) (xss : List (List String)) → asked s (subscribe_shards xss) ≡ elem s (join xss)
asked-subscribe_shards s [] = refl
asked-subscribe_shards s (xs ∷ xss) =
    ground (arith, asked-subscribe_shards s xss, elem-append s xs (join xss))

pub asked-shards :
    (s : String) (slugs : List String)
    → asked s (subscribe_shards (shards shard_size slugs)) ≡ elem s slugs
asked-shards s slugs =
    asked-subscribe_shards s (shards shard_size slugs) ∙ ap (elem s) (join-shards 99 slugs).0

module _ {S D : Type 0} where
  asked-Extends :
      (s : String) (b b' : Beat S D) → Extends b b' → asked s b.sent ≡ true → asked s b'.sent ≡ true
  asked-Extends s b b' h a =
      ap (asked s) h.sent_more ∙ asked-append s b.sent h.more ∙ ap (λ x. x || asked s h.more) a

  asked-add_pm_on :
      (b : Beat S D) (link : Link) (slugs : List String) (s : String)
      → link ≡ up
      → elem s slugs ≡ true
      → asked s (add_pm_on b link slugs).sent ≡ true
  unfolding add_pm_on
  asked-add_pm_on b link [] s u h = cc
  asked-add_pm_on b down (x ∷ xs) s u h = cc u
  asked-add_pm_on b closing (x ∷ xs) s u h = cc u
  asked-add_pm_on b up (x ∷ xs) s u h = ground (
    arith,
    asked-append s b.sent (subscribe_shards (shards shard_size (x ∷ xs))),
    asked-shards s (x ∷ xs),
    h,
  )

  links-add_pm_on :
      (b : Beat S D) (link : Link) (slugs : List String) → (add_pm_on b link slugs).links ≡ b.links
  unfolding add_pm_on
  links-add_pm_on b up (s ∷ ss) = refl
  links-add_pm_on b closing (s ∷ ss) = refl
  links-add_pm_on b down (s ∷ ss) = refl
  links-add_pm_on b up [] = refl
  links-add_pm_on b closing [] = refl
  links-add_pm_on b down [] = refl

  world-add_k_unless :
      (b : Beat S D) (pass : Pass) (tks : List String) (r : Bool)
      → (if r then b else add_k b pass tks).world ≡ b.world
  unfolding add_k
  world-add_k_unless b pass tks true = refl
  world-add_k_unless b pass tks false = world-add_k_on b b.links.k pass tks

  -- While the polymarket connection is up, a heartbeat leaves it up, and asks it for every slug that is tracked then
  -- and was not before.
  pub heartbeat_asks :
      (w : World S D) (links : Links) (pass : Pass)
      → links.pm ≡ up
      → let b = heartbeat w links pass in
        (b.links.pm ≡ up)
        × ((s : String)
            → contains s b.world.live.pm_targets ≡ true
            → (asked s b.sent || contains s w.live.pm_targets) ≡ true)
  unfolding heartbeat add_pm add_k
  heartbeat_asks w links pass on =
      let r = register w pass.fresh in
      let b0 : Beat S D = record { world = r.world; links = links; sent = []; raised = false } in
      let b1 = add_pm_on b0 links.pm r.new_pm in
      let b2 = unless_raised (λ x. add_k x pass r.new_k) b1 in
      let b3 = unless_raised (prune_step pass) b2 in
      let out : Extends b1 b3 =
        trans_Extends b1 b2 b3
          (unless_raised-Extends (λ x. add_k x pass r.new_k) b1
            (add_k_on-Extends b1 b1.links.k pass r.new_k))
          (unless_raised-Extends (prune_step pass) b2 (prune_step-Extends pass b2)) in
      let same : b2.world ≡ r.world =
        world-add_k_unless b1 pass r.new_k b1.raised ∙ world-add_pm_on b0 links.pm r.new_pm in
      let report = register-IsReport w pass.fresh in
      (
        out.same_pm ∙ ap (λ l. l.pm) (links-add_pm_on b0 links.pm r.new_pm) ∙ on,
        λ s h.
            let before : contains s r.world.live.pm_targets ≡ true =
              ap (λ u. contains s u.live.pm_targets) (sym same) ∙ last-Frees pass b2 s h in
            ground (
              arith,
              report.slugs s,
              before,
              asked-add_pm_on b0 links.pm r.new_pm s on,
              asked-Extends s b1 b3 out,
            ),
      )
