-- ===== src/Monitor/Debounce/Keys.antt =====
-- `feed` works on one key.
use cross_arb.Prelude.{
  ◌≡◌, refl, ap, ◌∙◌, false, Option, none, some, List, [], String, Eq, ◌=?◌, string_keys, Dict,
  lookup, insert, erase, lookup-insert, lookup-erase, All, if◌then◌else◌, Bool-cases, inl, inr,
}
use cross_arb.Prelude.Int.{ℤ, ◌-ℤ◌, leb_ℤ}
use cross_arb.Monitor.Edge.{Transition, opened, closed, flipped, widened, narrowed}
use cross_arb.Monitor.Debounce.{FlipDebouncer, Held, Event, remember, reopen, feed, on_open}

insert_other :
    {V : Type 0} (key k : String) (v : V) (d : Dict String V)
    → (key =? k) ≡ false
    → lookup k (insert key v d) ≡ lookup k d
insert_other key k v d h = lookup-insert key k v d ∙ ap (λ b. if b then some v else lookup k d) h

erase_other :
    {V : Type 0} (key k : String) (d : Dict String V)
    → (key =? k) ≡ false
    → lookup k (erase key d) ≡ lookup k d
erase_other key k d h = lookup-erase key k d ∙ ap (λ b. if b then none else lookup k d) h

-- What is known of other keys stays, and the events are of this one.
pub record IsKeyed {S D : Type 0} (key : String) (d : FlipDebouncer S D)
    (out : FlipDebouncer S D × List (Event S)) : Type 0 where
  pub other_pending :
      (k : String) → (key =? k) ≡ false → lookup k out.0.pending ≡ lookup k d.pending
  pub other_dirs :
      (k : String) → (key =? k) ≡ false → lookup k out.0.last_arb_dir ≡ lookup k d.last_arb_dir
  pub own_events : All (λ x. x.key ≡ key) out.1

module _ {S D : Type 0} ⦃e : Eq D⦄ (dir : S → D) where
  remember-IsKeyed :
      (d d' : FlipDebouncer S D) (st : S) (key : String) (events : List (Event S))
      → ((k : String) → (key =? k) ≡ false → lookup k d'.pending ≡ lookup k d.pending)
      → d'.last_arb_dir ≡ d.last_arb_dir
      → All (λ x. x.key ≡ key) events
      → IsKeyed key d (remember dir d' st key, events)
  remember-IsKeyed d d' st key events p same own = record {
    other_pending = p;
    other_dirs = λ k h. insert_other key k (dir st) d'.last_arb_dir h ∙ ap (lookup k) same;
    own_events = own;
  }

  reopen-IsKeyed :
      (d d' : FlipDebouncer S D) (from : Option D) (st : S) (key : String) (now : ℤ)
      → ((k : String) → (key =? k) ≡ false → lookup k d'.pending ≡ lookup k d.pending)
      → d'.last_arb_dir ≡ d.last_arb_dir
      → IsKeyed key d (reopen dir d' from st key now)
  reopen-IsKeyed d d' none st key now p same = remember-IsKeyed d d' st key [] p same tt
  reopen-IsKeyed d d' (some from) st key now p same = elim (Bool-cases (from =? dir st)) [
    | inl back ↦ rw back (remember-IsKeyed d d' st key [] p same tt)
    | inr turned ↦ rw turned (remember-IsKeyed d d' st key _ p same (refl, tt))
  ]

  on_open-IsKeyed :
      (d d' : FlipDebouncer S D) (o : Option (Held S D)) (st : S) (key : String) (now : ℤ)
      → ((k : String) → (key =? k) ≡ false → lookup k d'.pending ≡ lookup k d.pending)
      → d'.last_arb_dir ≡ d.last_arb_dir
      → IsKeyed key d (on_open dir d' o st key now)
  unfolding on_open
  on_open-IsKeyed d d' none st key now p same = remember-IsKeyed d d' st key _ p same (refl, tt)
  on_open-IsKeyed d d' (some (t, from, held)) st key now p same =
      elim (Bool-cases (leb_ℤ (now -ℤ t) d'.window)) [
        | inl within ↦ rw within (reopen-IsKeyed d d' from st key now p same)
        | inr late ↦ rw late (remember-IsKeyed d d' st key _ p same (refl, tt))
      ]

  -- Whatever it is fed for one key, the debouncer keeps what it holds for every other key, and gives events of
  -- this key alone.
  pub feed-IsKeyed :
      (d : FlipDebouncer S D) (o : Option (Transition × S)) (key : String) (now : ℤ)
      → IsKeyed key d (feed dir d o key now)
  unfolding feed
  feed-IsKeyed d none key now = record {
    other_pending = λ k h. refl;
    other_dirs = λ k h. refl;
    own_events = tt;
  }
  feed-IsKeyed d (some (closed, st)) key now = record {
    other_pending = λ k h. insert_other key k _ d.pending h;
    other_dirs = λ k h. refl;
    own_events = tt;
  }
  feed-IsKeyed d (some (opened, st)) key now =
      on_open-IsKeyed d (record d { pending = erase key d.pending }) (lookup key d.pending) st key
        now (λ k h. erase_other key k d.pending h) refl
  feed-IsKeyed d (some (flipped, st)) key now =
      remember-IsKeyed d d st key _ (λ k h. refl) refl (refl, tt)
  feed-IsKeyed d (some (widened, st)) key now =
      remember-IsKeyed d d st key _ (λ k h. refl) refl (refl, tt)
  feed-IsKeyed d (some (narrowed, st)) key now =
      remember-IsKeyed d d st key _ (λ k h. refl) refl (refl, tt)
