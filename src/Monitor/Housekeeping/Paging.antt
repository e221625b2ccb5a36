-- ===== src/Monitor/Housekeeping/Paging.antt =====
-- `fetch_k_trades` of bot/monitor.py: the venue's list of prints, page by page. A request is an argument, of the
-- cursor that it carries; it may raise.
use mathlib.Core.Path.{ap₂}
use cross_arb.Prelude.{
  sym, ℕ, zero, suc, ◌≤◌, ◌≡◌, refl, ap, ◌∙◌, Bool, true, false, Option, none, some, List, [], ◌∷◌,
  ◌++◌, String, ◌=?◌, string_keys, length, take, ltb, if◌then◌else◌, arith,
}
use cross_arb.Monitor.Edge.{Attempt, ok, raised}

-- `{"trades": …, "cursor": …}`
pub record Page {ℓ} (A : Type ℓ) : Type ℓ where
  pub trades : Option (List A)
  pub cursor : Option String

-- An empty text is no cursor.
abbrev real_cursor : Option String → Option String
real_cursor none = none
real_cursor (some c) = if c =? "" then none else some c

-- The prints, and whether the last page that may be asked for was not the end.
abbrev pub Fetched {ℓ} : Type ℓ → Type ℓ
Fetched A = Attempt (List A × Bool)

module _ {ℓ} {A : Type ℓ} where
  abbrev pub or_empty : Option (List A) → List A
  or_empty none = []
  or_empty (some xs) = xs

  abbrev stop_or : Option String → Bool → List A → Fetched A → Fetched A
  stop_or none short out more = ok (out, false)
  stop_or (some c) short out more = if short then ok (out, false) else more

  -- After a page: the prints so far, and what one more turn gives for its cursor.
  abbrev after_page :
      ℕ → List A → Attempt (Page A) → (List A → Option String → Fetched A) → Fetched A
  after_page limit out raised more = raised
  after_page limit out (ok p) more =
      let out' = out ++ or_empty p.trades in
      let cursor = real_cursor p.cursor in
      stop_or cursor (ltb (length (or_empty p.trades)) limit) out' (more out' cursor)

  -- The loop, with the pages that may still be asked for.
  unfoldable pub fetch_from :
      (Option String → Attempt (Page A)) → ℕ → ℕ → List A → Option String → Fetched A
  fetch_from get limit zero out cursor = ok (out, true)
  fetch_from get limit (suc left) out cursor =
      after_page limit out (get cursor) (λ out' next. fetch_from get limit left out' next)

  unfoldable pub fetch_k_trades : (Option String → Attempt (Page A)) → ℕ → ℕ → Fetched A
  unfolding fetch_from
  fetch_k_trades get limit max_pages = fetch_from get limit max_pages [] none

  -- From a cursor on, the venue serves these pages: each but the last is full and names the cursor of the next
  -- one, and the last names none.
  abbrev pub Serves :
      (Option String → Attempt (Page A)) → ℕ → Option String → List A → List (List A) → Type ℓ
  Serves get limit cursor p [] =
      (c : Option String) × (get cursor ≡ ok (record { trades = some p; cursor = c }))
      × (real_cursor c ≡ none)
  Serves get limit cursor p (q ∷ qs) =
      (c : String) × (get cursor ≡ ok (record { trades = some p; cursor = some c }))
      × ((c =? "") ≡ false)
      × (limit ≤ length p)
      × Serves get limit (some c) q qs

  abbrev pub join : List (List A) → List A
  join [] = []
  join (xs ∷ xss) = xs ++ join xss

  append_assoc : (xs ys zs : List A) → (xs ++ ys) ++ zs ≡ xs ++ (ys ++ zs)
  append_assoc [] ys zs = refl
  append_assoc (x ∷ xs) ys zs = ap (λ l. x ∷ l) (append_assoc xs ys zs)

  append_nil : (xs : List A) → xs ++ [] ≡ xs
  append_nil [] = refl
  append_nil (x ∷ xs) = ap (λ l. x ∷ l) (append_nil xs)

  join-take_nil : (n : ℕ) → join (take n []) ≡ []
  join-take_nil zero = refl
  join-take_nil (suc n) = refl

  -- The pages that a bound on their number lets through, and whether it cuts any off.
  abbrev pub cut : ℕ → List (List A) → List A × Bool
  cut n ps = (join (take n ps), ltb n (length ps))

  fetch_from-Serves :
      (get : Option String → Attempt (Page A)) (limit left : ℕ) (out : List A)
      (cursor : Option String) (p : List A) (ps : List (List A))
      → Serves get limit cursor p ps
      → fetch_from get limit left out cursor
        ≡ ok (out ++ (cut left (p ∷ ps)).0, (cut left (p ∷ ps)).1)
  unfolding fetch_from
  fetch_from-Serves get limit zero out cursor p ps s =
      ap₂ (λ xs b. ok (xs, b)) (sym (append_nil out)) (ground arith)
  fetch_from-Serves get limit (suc left) out cursor p [] (c, e, last) =
      rw (e, last)
        (ap₂ (λ xs b. ok (out ++ xs, b))
          (sym (ap (λ xs. p ++ xs) (join-take_nil left) ∙ append_nil p)) (ground arith))
  fetch_from-Serves get limit (suc left) out cursor p (q ∷ qs) (c, e, real, full, s) =
      let not_short : ltb (length p) limit ≡ false = ground arith in
      rw (e, real, not_short)
        (fetch_from-Serves get limit left (out ++ p) (some c) q qs s
          ∙ ap₂ (λ xs b. ok (xs, b)) (append_assoc out p (join (take left (q ∷ qs))))
              (ground arith))

  -- From a venue that serves its prints in full pages but the last, what is fetched are the prints of the first
  -- pages, in order, as many pages as may be asked for; and it is marked as cut exactly if there are more.
  pub fetch_k_trades_lem :
      (get : Option String → Attempt (Page A)) (limit max_pages : ℕ) (p : List A)
      (ps : List (List A))
      → Serves get limit none p ps
      → fetch_k_trades get limit max_pages ≡ ok (cut max_pages (p ∷ ps))
  unfolding fetch_k_trades
  fetch_k_trades_lem get limit max_pages p ps s =
      fetch_from-Serves get limit max_pages [] none p ps s
