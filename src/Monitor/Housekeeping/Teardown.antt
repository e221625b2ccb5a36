-- ===== src/Monitor/Housekeeping/Teardown.antt =====
-- `teardown` of bot/monitor.py, over the dicts that the live loop shares. What they hold is a parameter.
use cross_arb.Prelude.{
  ℕ, ◌≡◌, refl, Option, none, some, List, [], ◌∷◌, String, ◌=?◌, string_keys, elem, Dict, lookup,
  erase, lookup-erase, if◌then◌else◌, arith,
}
use cross_arb.Monitor.Debounce.{FlipDebouncer, Held, forget}

-- P, K, B, W are the market's closure and the ticker's, a Kalshi book, and a row of the weather registry;
-- `wx` is none where the caller has no such registry.
pub record Live (P K B W S D : Type 0) : Type 0 where
  pub pm_targets : Dict String P
  pub k_targets : Dict String K
  pub books : Dict String B
  pub slug_k : Dict String (List String)
  pub deb : FlipDebouncer S D
  pub absent : Dict String ℕ
  pub wx : Option (Dict String W)

-- The pops of one dict in the loop over the tickers.
unfoldable pub erase_all : {V : Type 0} → List String → Dict String V → Dict String V
erase_all [] d = d
erase_all (tk ∷ tks) d = erase_all tks (erase tk d)

-- `slug_k.get(slug, [])`
abbrev pub tickers : Option (List String) → List String
tickers none = []
tickers (some tks) = tks

abbrev pub erase_row : {W : Type 0} → String → Option (Dict String W) → Option (Dict String W)
erase_row slug none = none
erase_row slug (some rows) = some (erase slug rows)

abbrev pub row : {W : Type 0} → String → Option (Dict String W) → Option W
row slug none = none
row slug (some rows) = lookup slug rows

pub lookup-erase_all :
    {V : Type 0} (tks : List String) (j : String) (d : Dict String V)
    → lookup j (erase_all tks d) ≡ (if elem j tks then none else lookup j d)
unfolding erase_all
lookup-erase_all [] j d = refl
lookup-erase_all (tk ∷ tks) j d = ground (
  arith,
  string_keys.beq_iff tk j,
  string_keys.beq_iff j tk,
  lookup-erase tk j d,
  lookup-erase_all tks j (erase tk d),
)

pub row-erase_row :
    {W : Type 0} (slug j : String) (wx : Option (Dict String W))
    → row j (erase_row slug wx) ≡ (if slug =? j then none else row j wx)
row-erase_row slug j none = ground arith
row-erase_row slug j (some rows) = lookup-erase slug j rows

module _ {P K B W S D : Type 0} where
  unfoldable pub teardown : Live P K B W S D → String → Live P K B W S D
  unfolding erase_all
  teardown l slug =
      let tks = tickers (lookup slug l.slug_k) in
      record {
        pm_targets = erase slug l.pm_targets;
        k_targets = erase_all tks l.k_targets;
        books = erase_all tks l.books;
        slug_k = erase slug l.slug_k;
        deb = forget l.deb slug;
        absent = erase slug l.absent;
        wx = erase_row slug l.wx;
      }

  -- What is there of a market, and what is there of a ticker.
  abbrev pub market :
      Live P K B W S D
      → String
      → Option P × Option (List String) × Option ℕ × Option W × Option D × Option (Held S D)
  market l slug = (
    lookup slug l.pm_targets,
    lookup slug l.slug_k,
    lookup slug l.absent,
    row slug l.wx,
    lookup slug l.deb.last_arb_dir,
    lookup slug l.deb.pending,
  )

  abbrev pub ticker : Live P K B W S D → String → Option K × Option B
  ticker l tk = (lookup tk l.k_targets, lookup tk l.books)

  -- Of the slug every dict forgets its entry, and of each of its tickers the closure and the book; every
  -- other market and every other ticker keeps all it had.
  pub teardown_lem :
      (l : Live P K B W S D) (slug : String)
      → ((j : String)
          → market (teardown l slug) j
            ≡ (if slug =? j then (none, none, none, none, none, none) else market l j))
        × ((tk : String)
            → ticker (teardown l slug) tk
              ≡ (if elem tk (tickers (lookup slug l.slug_k)) then (none, none) else ticker l tk))
  unfolding teardown forget
  teardown_lem l slug = (
    λ j.
        rw
          (
            lookup-erase slug j l.pm_targets,
            lookup-erase slug j l.slug_k,
            lookup-erase slug j l.absent,
            row-erase_row slug j l.wx,
            lookup-erase slug j l.deb.last_arb_dir,
            lookup-erase slug j l.deb.pending,
          )
          (ground arith),
    λ tk.
        rw
          (
            lookup-erase_all (tickers (lookup slug l.slug_k)) tk l.k_targets,
            lookup-erase_all (tickers (lookup slug l.slug_k)) tk l.books,
          )
          (ground arith),
  )
