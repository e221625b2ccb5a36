-- ===== src/Ledger/Account/Guards.antt =====
-- When `enter` raises, and that the ledger it returns stands for a locked pair.
use cross_arb.Prelude.{◌≡◌, refl, ap, ◌∙◌, true, false, Option, none, some, String, arith}
use cross_arb.Prelude.Int.{ℤ, pos, ◌<ℤ◌}
use cross_arb.Ledger.Signal.{Quotes, Dir, signal}
use cross_arb.Ledger.Account.{
  Ledger, Entry, Error, type_error, ok, raise, legs, net_of, book_pair, book_legs, chosen, enter,
}

-- What an entry that `enter` returns stands for.
pub record IsBooked (px : Quotes) (size : ℤ) (direction : Option Dir) (e : Entry) : Type 0 where
  pub ay : ℤ
  pub an : ℤ
  pub direct : e.dir ≡ chosen direction (signal px).dir
  pub sized : e.size ≡ size
  pub quoted : legs e.dir px ≡ some (ay, an)
  pub gain : pos 0 <ℤ net_of e.dir ay an size

module _ (l : Ledger) (px : Quotes) (size : ℤ) (direction : Option Dir) (t : Option String) where
  book_pair-gain :
      (d : Dir) (ay an : ℤ) {l' : Ledger} {e : Entry}
      → book_pair l size t false d (ay, an) ≡ ok (l', e)
      → (e.dir ≡ d) × (e.size ≡ size) × (pos 0 <ℤ net_of d ay an size)
  unfolding book_pair
  book_pair-gain d ay an h = ground arith

  book_legs-IsBooked :
      (d : Dir) (o : Option (ℤ × ℤ)) (l' : Ledger) (e : Entry)
      → legs d px ≡ o
      → d ≡ chosen direction (signal px).dir
      → book_legs l size t false d o ≡ ok (l', e)
      → IsBooked px size direction e
  unfolding book_legs
  book_legs-IsBooked d none l' e q c h = cc
  book_legs-IsBooked d (some (ay, an)) l' e q c h =
      let (same, sized, gain) = book_pair-gain d ay an h in
      record {
        ay = ay;
        an = an;
        direct = same ∙ c;
        sized = sized;
        quoted = ap (λ x. legs x px) same ∙ q;
        gain = rw same gain;
      }

  book_pair-raise :
      (d : Dir) (prices : ℤ × ℤ) (err : Error) → book_pair l size t true d prices ≡ raise err → ⊥
  unfolding book_pair
  book_pair-raise d (ay, an) err h = ground arith

  book_legs-raise :
      (d : Dir) (o : Option (ℤ × ℤ)) (err : Error)
      → book_legs l size t true d o ≡ raise err
      → (err ≡ type_error) × (o ≡ none)
  unfolding book_legs
  book_legs-raise d none err h = (ground arith, refl)
  book_legs-raise d (some prices) err h = absurd (book_pair-raise d prices err h)

  -- Unless it is forced, `enter` only returns where `signal` sees an arbitrage on books that are not
  -- crossed, both legs of the chosen direction are quoted, and the net edge of the whole order, behind the
  -- fees at its size, is positive. A forced call raises only the `TypeError`, for a leg without a quote.
  pub enter-IsBooked :
      ((l' : Ledger) (e : Entry)
        → enter l px size direction t false ≡ ok (l', e)
        → ((signal px).no_arb ≡ false)
          × ((signal px).crossed ≡ false)
          × IsBooked px size direction e)
      × ((err : Error)
          → enter l px size direction t true ≡ raise err
          → (err ≡ type_error) × (legs (chosen direction (signal px).dir) px ≡ none))
  unfolding enter
  enter-IsBooked = (
    λ l' e h. (
      ground arith,
      ground arith,
      book_legs-IsBooked (chosen direction (signal px).dir)
          (legs (chosen direction (signal px).dir) px) l' e refl refl (ground arith),
    ),
    λ err h.
        book_legs-raise (chosen direction (signal px).dir)
          (legs (chosen direction (signal px).dir) px) err (ground arith),
  )
