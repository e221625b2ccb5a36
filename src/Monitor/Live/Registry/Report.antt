-- ===== src/Monitor/Live/Registry/Report.antt =====
-- What `register` tells its caller, and what it leaves as it was.
use cross_arb.Prelude.{
  ℕ, ◌≡◌, refl, ap, ◌∙◌, Bool, true, false, ◌||◌, List, [], ◌∷◌, ◌++◌, String, ◌=?◌, string_keys,
  nat_keys, elem, Dict, lookup, insert, lookup-insert, contains, is_some, arith, Bool-cases, inl,
  inr,
}
use cross_arb.Monitor.Live.Registry.{
  Closure, Handler, World, Found, Tracker, Colisted, route, names, collide, bind, visit, register,
  register_keeps,
}

pub elem-append : (s : String) (xs ys : List String) → elem s (xs ++ ys) ≡ (elem s xs || elem s ys)
elem-append s [] ys = refl
elem-append s (x ∷ xs) ys = ground (arith, elem-append s xs ys)

pub contains-insert :
    {V : Type 0} (k j : String) (v : V) (d : Dict String V)
    → contains j (insert k v d) ≡ (k =? j || contains j d)
contains-insert k j v d = ap is_some (lookup-insert k j v d) ∙ ground arith

lookup-route :
    (i : ℕ) (slug : String) (ks : List (String × Handler)) (d : Dict String Closure) (j : String)
    → elem j (names ks) ≡ false
    → lookup j (route i slug ks d) ≡ lookup j d
unfolding route
lookup-route i slug [] d j h = refl
lookup-route i slug ((tk, hd) ∷ ks) d j h =
    let c : Closure = record { handler = hd; trk = i; key = slug } in
    ground (
      arith,
      lookup-route i slug ks (insert tk c d) j,
      lookup-insert tk j c d,
      string_keys.beq_iff tk j,
      string_keys.beq_iff j tk,
    )

pub contains-route :
    (i : ℕ) (slug : String) (ks : List (String × Handler)) (d : Dict String Closure) (j : String)
    → contains j (route i slug ks d) ≡ (elem j (names ks) || contains j d)
unfolding route
contains-route i slug [] d j = refl
contains-route i slug ((tk, hd) ∷ ks) d j =
    let c : Closure = record { handler = hd; trk = i; key = slug } in
    ground (
      arith,
      contains-route i slug ks (insert tk c d) j,
      contains-insert tk j c d,
      string_keys.beq_iff tk j,
      string_keys.beq_iff j tk,
    )

-- Between two worlds: the slugs and the tickers that have a closure are those that had one and those
-- that are told as new, which had none; a closure that was there is there unchanged; and the books, the
-- debouncer and the counts of misses are the same.
pub record IsReport {S D : Type 0} (w : World S D) (f : Found S D) : Type 0 where
  pub slugs :
      (s : String)
      → contains s f.world.live.pm_targets ≡ (elem s f.new_pm || contains s w.live.pm_targets)
  pub tickers :
      (tk : String)
      → contains tk f.world.live.k_targets ≡ (elem tk f.new_k || contains tk w.live.k_targets)
  pub new_slug : (s : String) → elem s f.new_pm ≡ true → contains s w.live.pm_targets ≡ false
  pub new_ticker : (tk : String) → elem tk f.new_k ≡ true → contains tk w.live.k_targets ≡ false
  pub kept_slug :
      (s : String)
      → contains s w.live.pm_targets ≡ true
      → lookup s f.world.live.pm_targets ≡ lookup s w.live.pm_targets
  pub kept_ticker :
      (tk : String)
      → contains tk w.live.k_targets ≡ true
      → lookup tk f.world.live.k_targets ≡ lookup tk w.live.k_targets
  pub same_books : f.world.live.books ≡ w.live.books
  pub same_deb : f.world.live.deb ≡ w.live.deb
  pub same_absent : f.world.live.absent ≡ w.live.absent

module _ {S D : Type 0} (w : World S D) where
  collide_free :
      (u : World S D) (tks : List String) (tk : String)
      → collide u tks ≡ false
      → elem tk tks ≡ true
      → contains tk u.live.k_targets ≡ false
  unfolding collide
  collide_free u [] tk h e = cc
  collide_free u (t ∷ tks) tk h e = ground (arith, collide_free u tks tk, string_keys.beq_iff tk t)

  bind-IsReport :
      (f : Found S D) (slug : String) (t : Tracker) (h : Handler) (ks : List (String × Handler))
      (wx : Bool)
      → contains slug f.world.live.pm_targets ≡ false
      → collide f.world (names ks) ≡ false
      → IsReport w f
      → IsReport w (bind f slug t h ks wx)
  unfolding bind
  bind-IsReport f slug t hd ks wx new free r =
      let l = f.world.live in
      let i = f.world.next in
      let c : Closure = record { handler = hd; trk = i; key = slug } in
      record {
        slugs = λ s. ground (
          arith,
          contains-insert slug s c l.pm_targets,
          elem-append s f.new_pm (slug ∷ []),
          r.slugs s,
          string_keys.beq_iff slug s,
          string_keys.beq_iff s slug,
        );
        tickers = λ tk. ground (
          arith,
          contains-route i slug ks l.k_targets tk,
          elem-append tk f.new_k (names ks),
          r.tickers tk,
        );
        new_slug = λ s e. ground (
          arith,
          elem-append s f.new_pm (slug ∷ []),
          r.slugs s,
          r.new_slug s,
          string_keys.beq_iff s slug,
        );
        new_ticker = λ tk e. ground (
          arith,
          elem-append tk f.new_k (names ks),
          r.tickers tk,
          r.new_ticker tk,
          collide_free f.world (names ks) tk free,
        );
        kept_slug = λ s e. ground (
          arith,
          lookup-insert slug s c l.pm_targets,
          r.slugs s,
          r.kept_slug s,
          string_keys.beq_iff slug s,
        );
        kept_ticker = λ tk e. elim (Bool-cases (elem tk (names ks))) [
          | inl added ↦ ground (arith, r.tickers tk, collide_free f.world (names ks) tk free added)
          | inr other ↦ lookup-route i slug ks l.k_targets tk other ∙ r.kept_ticker tk e
        ];
        same_books = r.same_books;
        same_deb = r.same_deb;
        same_absent = r.same_absent;
      }

  visit-IsReport :
      (f : Found S D) (slug : String) (t : Tracker) (h : Handler) (ks : List (String × Handler))
      (wx : Bool)
      → IsReport w f
      → IsReport w (visit f slug t h ks wx)
  unfolding visit
  visit-IsReport f slug t hd ks wx h =
      elim (Bool-cases (contains slug f.world.live.pm_targets || collide f.world (names ks))) [
        | inl guarded ↦ rw guarded h
        | inr passes ↦ rw passes (bind-IsReport f slug t hd ks wx (ground arith) (ground arith) h)
      ]

  start-IsReport : IsReport w (record { world = w; new_pm = []; new_k = [] })
  start-IsReport = record {
    slugs = λ s. refl;
    tickers = λ tk. refl;
    new_slug = λ s e. cc;
    new_ticker = λ tk e. cc;
    kept_slug = λ s e. refl;
    kept_ticker = λ tk e. refl;
    same_books = refl;
    same_deb = refl;
    same_absent = refl;
  }

  -- Whatever discovery finds, `register` tells exactly what it adds: the slugs with a closure are then those
  -- that had one and the new ones it returns, which had none, and the same goes for the tickers; no closure
  -- that was there is replaced, and books, debouncer and miss counts stay as they were.
  pub register-IsReport : (colisted : Colisted) → IsReport w (register w colisted)
  register-IsReport colisted = register_keeps (IsReport w) visit-IsReport w colisted start-IsReport
