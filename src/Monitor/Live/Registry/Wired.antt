-- ===== src/Monitor/Live/Registry/Wired.antt =====
-- That the dicts of `run_live` agree: which tracker a frame of a slug or of a ticker reaches.
use cross_arb.Prelude.{
  ℕ, ◌<◌, ◌≡◌, refl, sym, ap, ◌∙◌, Bool, true, false, ◌||◌, Option, none, some, List, [], ◌∷◌,
  String, ◌=?◌, string_keys, nat_keys, elem, Dict, lookup, insert, erase, lookup-insert,
  lookup-erase, contains, is_some, if◌then◌else◌, arith, Bool-cases, ◌⊎◌, inl, inr,
}
use cross_arb.Monitor.Housekeeping.Teardown.{
  teardown, erase_all, tickers, row, lookup-erase_all, row-erase_row,
}
use cross_arb.Monitor.Live.Registry.{
  Closure, Handler, World, Found, Tracker, Colisted, route, names, note_row, collide, bind, visit,
  register, register_keeps,
}

-- The place and the key that a dict's closure holds.
abbrev pub held : Option Closure → Option (ℕ × String)
held none = none
held (some c) = some (c.trk, c.key)

abbrev pub owner : Dict String Closure → String → Option (ℕ × String)
owner d k = held (lookup k d)

abbrev pub key_of : Option (ℕ × String) → Option String
key_of none = none
key_of (some (i, s)) = some s

-- The tickers of a slug have closures with its key; a ticker's closure has the key of a slug that lists
-- the ticker, and the place of that slug's own closure; a slug's closure has the slug as its key, and a
-- place in the heap, which no other slug's closure has; and the weather registry has that place too.
pub record IsWired {S D : Type 0} (w : World S D) : Type 0 where
  pub tickers_owned :
      (s tk : String)
      → elem tk (tickers (lookup s w.live.slug_k)) ≡ true
      → key_of (owner w.live.k_targets tk) ≡ some s
  pub owned_ticker :
      (tk s : String) (i : ℕ)
      → owner w.live.k_targets tk ≡ some (i, s)
      → (elem tk (tickers (lookup s w.live.slug_k)) ≡ true)
        × (owner w.live.pm_targets s ≡ some (i, s))
  pub keyed :
      (s s' : String) (i : ℕ)
      → owner w.live.pm_targets s ≡ some (i, s')
      → (s' ≡ s) × (i < w.next) × (contains i w.heap ≡ true)
  pub apart :
      (s s' : String) (i : ℕ)
      → owner w.live.pm_targets s ≡ some (i, s)
      → owner w.live.pm_targets s' ≡ some (i, s')
      → s ≡ s'
  pub rows_traced :
      (s : String) (i : ℕ) → row s w.live.wx ≡ some i → owner w.live.pm_targets s ≡ some (i, s)

owner-insert :
    (k j : String) (c : Closure) (d : Dict String Closure)
    → owner (insert k c d) j ≡ (if k =? j then some (c.trk, c.key) else owner d j)
owner-insert k j c d = ap held (lookup-insert k j c d) ∙ ground arith

owner-erase :
    (k j : String) (d : Dict String Closure)
    → owner (erase k d) j ≡ (if k =? j then none else owner d j)
owner-erase k j d = ap held (lookup-erase k j d) ∙ ground arith

owner-route :
    (i : ℕ) (slug : String) (ks : List (String × Handler)) (d : Dict String Closure) (j : String)
    → owner (route i slug ks d) j ≡ (if elem j (names ks) then some (i, slug) else owner d j)
unfolding route
owner-route i slug [] d j = refl
owner-route i slug ((tk, h) ∷ ks) d j =
    let c : Closure = record { handler = h; trk = i; key = slug } in
    owner-route i slug ks (insert tk c d) j
    ∙ ground (arith, owner-insert tk j c d, string_keys.beq_iff tk j, string_keys.beq_iff j tk)

owner-erase_all :
    (tks : List String) (d : Dict String Closure) (j : String)
    → owner (erase_all tks d) j ≡ (if elem j tks then none else owner d j)
owner-erase_all tks d j = ap held (lookup-erase_all tks j d) ∙ ground arith

is_some-held : (o : Option Closure) → is_some o ≡ is_some (held o)
is_some-held none = refl
is_some-held (some c) = refl

row-note_row :
    (wx : Bool) (slug : String) (i : ℕ) (rows : Option (Dict String ℕ)) (s : String) (j : ℕ)
    → row s (note_row wx slug i rows) ≡ some j
    → ((slug ≡ s) × (i ≡ j)) ⊎ (row s rows ≡ some j)
row-note_row wx slug i none s j h = cc
row-note_row true slug i (some rows) s j h =
    ground (arith, lookup-insert slug s i rows, string_keys.beq_iff slug s)
row-note_row false slug i (some rows) s j h = inr h

module _ {S D : Type 0} where
  -- A ticker that collides with none has no owner.
  collide-elem :
      (w : World S D) (tks : List String) (tk : String)
      → collide w tks ≡ false
      → elem tk tks ≡ true
      → owner w.live.k_targets tk ≡ none
  unfolding collide
  collide-elem w [] tk h e = cc
  collide-elem w (t ∷ tks) tk h e = ground (arith, collide-elem w tks tk, string_keys.beq_iff tk t)

  pub teardown-IsWired :
      (w : World S D) (slug : String)
      → IsWired w
      → IsWired (record w { live = teardown w.live slug })
  unfolding teardown
  teardown-IsWired w slug h =
      let l = w.live in
      let tks = tickers (lookup slug l.slug_k) in
      record {
        tickers_owned = λ s tk e. ground (
          arith,
          lookup-erase slug s l.slug_k,
          owner-erase_all tks l.k_targets tk,
          h.tickers_owned s tk,
          h.tickers_owned slug tk,
          string_keys.beq_iff slug s,
        );
        owned_ticker = λ tk s i e. ground (
          arith,
          lookup-erase slug s l.slug_k,
          owner-erase_all tks l.k_targets tk,
          owner-erase slug s l.pm_targets,
          h.owned_ticker tk s i,
          string_keys.beq_iff slug s,
        );
        keyed = λ s s' i e. ground (arith, owner-erase slug s l.pm_targets, h.keyed s s' i);
        apart = λ s s' i e e'. ground (
          arith,
          owner-erase slug s l.pm_targets,
          owner-erase slug s' l.pm_targets,
          h.apart s s' i,
        );
        rows_traced = λ s i e.
            ground (
              arith,
              row-erase_row slug s l.wx,
              owner-erase slug s l.pm_targets,
              h.rows_traced s i,
            );
      }

  bind-IsWired :
      (f : Found S D) (slug : String) (t : Tracker) (h : Handler) (ks : List (String × Handler))
      (wx : Bool)
      → contains slug f.world.live.pm_targets ≡ false
      → collide f.world (names ks) ≡ false
      → IsWired f.world
      → IsWired (bind f slug t h ks wx).world
  unfolding bind
  bind-IsWired f slug t hd ks wx new free h =
      let w = f.world in
      let l = w.live in
      let i = w.next in
      let c : Closure = record { handler = hd; trk = i; key = slug } in
      let absent : is_some (owner l.pm_targets slug) ≡ false =
        sym (is_some-held (lookup slug l.pm_targets)) ∙ new in
      record {
        tickers_owned = λ s tk e. ground (
          arith,
          lookup-insert slug s (names ks) l.slug_k,
          owner-route i slug ks l.k_targets tk,
          h.tickers_owned s tk,
          collide-elem w (names ks) tk free,
          string_keys.beq_iff slug s,
        );
        owned_ticker = λ tk s j e. ground (
          arith,
          lookup-insert slug s (names ks) l.slug_k,
          owner-route i slug ks l.k_targets tk,
          owner-insert slug s c l.pm_targets,
          h.owned_ticker tk s j,
          absent,
          string_keys.beq_iff slug s,
        );
        keyed = λ s s' j e. ground (
          arith,
          owner-insert slug s c l.pm_targets,
          lookup-insert i j t w.heap,
          nat_keys.beq_iff i j,
          h.keyed s s' j,
          string_keys.beq_iff slug s,
        );
        apart = λ s s' j e e'. ground (
          arith,
          owner-insert slug s c l.pm_targets,
          owner-insert slug s' c l.pm_targets,
          h.apart s s' j,
          h.keyed s s j,
          h.keyed s' s' j,
          string_keys.beq_iff slug s,
          string_keys.beq_iff slug s',
        );
        rows_traced = λ s j e. ground (
          arith,
          row-note_row wx slug i l.wx s j e,
          owner-insert slug s c l.pm_targets,
          h.rows_traced s j,
          absent,
          string_keys.beq_iff slug s,
        );
      }

  visit-IsWired :
      (f : Found S D) (slug : String) (t : Tracker) (h : Handler) (ks : List (String × Handler))
      (wx : Bool)
      → IsWired f.world
      → IsWired (visit f slug t h ks wx).world
  unfolding visit
  visit-IsWired f slug t hd ks wx h =
      elim (Bool-cases (contains slug f.world.live.pm_targets || collide f.world (names ks))) [
        | inl guarded ↦ rw guarded h
        | inr passes ↦ rw passes (bind-IsWired f slug t hd ks wx (ground arith) (ground arith) h)
      ]

  pub register-IsWired :
      (w : World S D) (colisted : Colisted) → IsWired w → IsWired (register w colisted).world
  register-IsWired w colisted h = register_keeps (λ f. IsWired f.world) visit-IsWired w colisted h
