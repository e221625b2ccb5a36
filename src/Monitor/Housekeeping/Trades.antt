-- ===== src/Monitor/Housekeeping/Trades.antt =====
-- `class TradePollState` of bot/monitor.py. A time is in microseconds, the finest step of the venue's
-- stamps, from 1970 on; a trade without an id has none.
use cross_arb.Prelude.{
  ℕ, ◌-◌, ◌*◌, ◌/◌, ◌≤◌, ◌≡◌, refl, sym, ap, subst, ◌∙◌, Bool, true, false, Option, none, some,
  List, [], ◌∷◌, String, ◌=?◌, string_keys, Dict, lookup, insert, lookup-insert, contains, ltb, leb,
  select, if◌then◌else◌, arith, Bool-cases, inl, inr,
}

pub record TradePollState : Type 0 where
  pub max_ts : ℕ
  pub ids : Dict String ℕ

unfoldable pub init : ℕ → TradePollState
init start_ts = record { max_ts = start_ts; ids = [] }

-- In whole seconds, `max(0, int(max_ts) - 1)`.
unfoldable pub min_ts : TradePollState → ℕ
min_ts st = st.max_ts / 1000000 - 1

-- `bool(tid)`: the empty id is not one.
abbrev pub real_id : Option String → Option String
real_id none = none
real_id (some tid) = if tid =? "" then none else some tid

abbrev seen_id : Dict String ℕ → Option String → Bool
seen_id ids none = false
seen_id ids (some tid) = contains tid ids

unfoldable pub seen : TradePollState → Option String → Bool
seen st tid = seen_id st.ids (real_id tid)

-- An id is kept if its time is not below `lo`, in seconds.
abbrev recent : ℕ → String × ℕ → Bool
recent lo (i, t) = leb (lo * 1000000) t

-- A later time moves the window on, and drops the ids that fall out of it.
abbrev advance_to : TradePollState → ℕ → TradePollState
advance_to st ts =
    if ltb st.max_ts ts
    then record { max_ts = ts; ids = select (recent (ts / 1000000 - 1)) st.ids }
    else st

abbrev record_id : TradePollState → Option String → ℕ → TradePollState
record_id st none ts = st
record_id st (some tid) ts = record st { ids = insert tid ts st.ids }

unfoldable pub add : TradePollState → Option String → ℕ → TradePollState
add st tid ts = record_id (advance_to st ts) (real_id tid) ts

-- A print: its id, if it has one, and its time.
abbrev pub Print : Type 0
Print = Option String × ℕ

unfoldable pub add_all : TradePollState → List Print → TradePollState
unfolding add
add_all st [] = st
add_all st ((tid, ts) ∷ prints) = add_all (add st tid ts) prints

abbrev noted : Option String → ℕ → String → Option ℕ → Option ℕ
noted none ts k old = old
noted (some tid) ts k old = if tid =? k then some ts else old

-- The time that an id was added with last.
unfoldable pub last_time : String → Option ℕ → List Print → Option ℕ
last_time k old [] = old
last_time k old ((tid, ts) ∷ prints) = last_time k (noted (real_id tid) ts k old) prints

-- The largest time.
pub newest : ℕ → List Print → ℕ
newest m [] = m
newest m ((tid, ts) ∷ prints) = newest (if ltb m ts then ts else m) prints

-- Every time in the window is remembered, and nothing is that was not added.
abbrev Covers : TradePollState → String → Option ℕ → Type 0
Covers st k none = lookup k st.ids ≡ none
Covers st k (some ts) = min_ts st * 1000000 ≤ ts → lookup k st.ids ≡ some ts

lookup-select-recent :
    (lo : ℕ) (k : String) (t : ℕ) (d : Dict String ℕ)
    → lookup k d ≡ some t
    → lo * 1000000 ≤ t
    → lookup k (select (recent lo) d) ≡ some t
unfolding lookup
lookup-select-recent lo k t [] h w = cc
lookup-select-recent lo k t ((j, u) ∷ d) h w = ground (arith, lookup-select-recent lo k t d)

select_absent :
    (lo : ℕ) (k : String) (d : Dict String ℕ)
    → lookup k d ≡ none
    → lookup k (select (recent lo) d) ≡ none
unfolding lookup
select_absent lo k [] h = refl
select_absent lo k ((j, u) ∷ d) h = ground (arith, select_absent lo k d)

window_mono : (m n : ℕ) → m ≤ n → (m / 1000000 - 1) * 1000000 ≤ (n / 1000000 - 1) * 1000000
window_mono m n h = omega arith

Covers-advance_to :
    (st : TradePollState) (ts : ℕ) (k : String) (old : Option ℕ)
    → Covers st k old
    → Covers (advance_to st ts) k old
unfolding min_ts
Covers-advance_to st ts k none c = elim (Bool-cases (ltb st.max_ts ts)) [
  | inl later ↦ rw later (select_absent (ts / 1000000 - 1) k st.ids c)
  | inr same ↦ rw same c
]
Covers-advance_to st ts k (some t) c = elim (Bool-cases (ltb st.max_ts ts)) [
  | inl later ↦ rw later (λ w.
      lookup-select-recent (ts / 1000000 - 1) k t st.ids
        (c (omega (arith, window_mono st.max_ts ts (ground arith), w))) w)
  | inr same ↦ rw same c
]

-- A write under another key.
Covers-same_lookup :
    (st st' : TradePollState) (k : String) (old : Option ℕ)
    → st'.max_ts ≡ st.max_ts
    → lookup k st'.ids ≡ lookup k st.ids
    → Covers st k old
    → Covers st' k old
unfolding min_ts
Covers-same_lookup st st' k none m e c = e ∙ c
Covers-same_lookup st st' k (some t) m e c =
    λ w. e ∙ c (subst (λ n. (n / 1000000 - 1) * 1000000 ≤ t) m w)

Covers-record_id :
    (st : TradePollState) (id : Option String) (ts : ℕ) (k : String) (old : Option ℕ)
    → Covers st k old
    → Covers (record_id st id ts) k (noted id ts k old)
Covers-record_id st none ts k old c = c
Covers-record_id st (some tid) ts k old c = elim (Bool-cases (tid =? k)) [
  | inl same ↦
      rw same
        (λ w. lookup-insert tid k ts st.ids ∙ ap (λ b. if b then some ts else lookup k st.ids) same)
  | inr other ↦ rw other (
      Covers-same_lookup st _ k old refl
        (lookup-insert tid k ts st.ids ∙ ap (λ b. if b then some ts else lookup k st.ids) other) c)
]

Covers-add_all :
    (prints : List Print) (st : TradePollState) (k : String) (old : Option ℕ)
    → Covers st k old
    → Covers (add_all st prints) k (last_time k old prints)
unfolding add_all add last_time
Covers-add_all [] st k old c = c
Covers-add_all ((tid, ts) ∷ prints) st k old c =
    Covers-add_all prints (add st tid ts) k (noted (real_id tid) ts k old)
      (Covers-record_id (advance_to st ts) (real_id tid) ts k old (Covers-advance_to st ts k old c))

max_ts-record_id :
    (st : TradePollState) (id : Option String) (ts : ℕ) → (record_id st id ts).max_ts ≡ st.max_ts
max_ts-record_id st none ts = refl
max_ts-record_id st (some tid) ts = refl

max_ts-add_all :
    (prints : List Print) (st : TradePollState)
    → (add_all st prints).max_ts ≡ newest st.max_ts prints
unfolding add_all add newest
max_ts-add_all [] st = refl
max_ts-add_all ((tid, ts) ∷ prints) st =
    max_ts-add_all prints (add st tid ts)
    ∙ ap (λ m. newest m prints)
        (max_ts-record_id (advance_to st ts) (real_id tid) ts ∙ ground arith)

-- After any prints in any order, an id that is not empty, and whose last time is not before the cursor for
-- the next poll, is known as seen; and that cursor is one second before the newest time, in whole seconds
-- and not below zero.
pub seen-add_all :
    (start : ℕ) (prints : List Print) (tid : String) (ts : ℕ)
    → (tid =? "") ≡ false
    → last_time tid none prints ≡ some ts
    → min_ts (add_all (init start) prints) * 1000000 ≤ ts
    → (seen (add_all (init start) prints) (some tid) ≡ true)
      × (min_ts (add_all (init start) prints) ≡ newest start prints / 1000000 - 1)
unfolding seen min_ts init lookup
seen-add_all start prints tid ts real h w =
    let covered =
      subst (Covers (add_all (init start) prints) tid) h
        (Covers-add_all prints (init start) tid none refl) in
    (rw (real, covered w) refl, ap (λ m. m / 1000000 - 1) (max_ts-add_all prints (init start)))

-- An id that was never added is not seen.
pub unseen-add_all :
    (start : ℕ) (prints : List Print) (tid : String)
    → (tid =? "") ≡ false
    → last_time tid none prints ≡ none
    → seen (add_all (init start) prints) (some tid) ≡ false
unfolding seen init lookup
unseen-add_all start prints tid real h =
    rw
      (
        real,
        subst (Covers (add_all (init start) prints) tid) h
            (Covers-add_all prints (init start) tid none refl),
      )
      refl

unseen_id-init : (o : Option String) → seen_id [] o ≡ false
unfolding lookup
unseen_id-init none = refl
unseen_id-init (some tid) = refl

pub unseen-init : (start : ℕ) (id : Option String) → seen (init start) id ≡ false
unfolding seen init
unseen-init start id = unseen_id-init (real_id id)

advance_to-init :
    (start ts : ℕ) → start ≤ ts → advance_to (init start) ts ≡ record { max_ts = ts; ids = [] }
unfolding init
advance_to-init start ts h = elim (Bool-cases (ltb start ts)) [
  | inl later ↦ rw later refl
  | inr same ↦ rw same (ap init (ground arith))
]

-- A first print that is not before the start leaves nothing of it.
pub add-init :
    (start : ℕ) (id : Option String) (ts : ℕ)
    → start ≤ ts
    → add (init start) id ts ≡ add (init 0) id ts
unfolding add
add-init start id ts h =
    ap (λ st. record_id st (real_id id) ts)
      (advance_to-init start ts h ∙ sym (advance_to-init 0 ts (omega arith)))
