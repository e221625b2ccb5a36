-- ===== src/Monitor/Debounce.antt =====
-- `class FlipDebouncer` of bot/monitor.py, over any state with a direction. Times are in milliseconds.
pub mod View
pub mod Flush
pub mod Keys
pub mod Dropped
mod Tests
use cross_arb.Prelude.{
  ℕ, ◌≡◌, refl, Bool, true, false, not, ◌&&◌, Option, none, some, List, [], ◌∷◌, ◌++◌, String, Eq,
  ◌=?◌, string_keys, Dict, lookup, insert, erase, select, if◌then◌else◌,
}
use cross_arb.Prelude.Int.{ℤ, pos, ◌-ℤ◌, ltb_ℤ, leb_ℤ}
use cross_arb.Monitor.Edge.{Transition, opened, closed, flipped, widened, narrowed}

-- A held CLOSE: when it was detected, the direction that closed, and its state.
abbrev pub Held : Type 0 → Type 0 → Type 0
Held S D = ℤ × Option D × S

pub record FlipDebouncer (S D : Type 0) : Type 0 where
  pub window : ℤ
  pub last_arb_dir : Dict String D
  pub pending : Dict String (Held S D)

-- A tuple (label, state, key, t) to be logged.
pub record Event (S : Type 0) : Type 0 where
  pub label : Transition
  pub state : S
  pub key : String
  pub t : ℤ

pub init : {S D : Type 0} → ℤ → FlipDebouncer S D
init window = record { window = window; last_arb_dir = []; pending = [] }

unfoldable pub forget : {S D : Type 0} → FlipDebouncer S D → String → FlipDebouncer S D
forget d key = record d { pending = erase key d.pending; last_arb_dir = erase key d.last_arb_dir }

-- The loop of `flush` over the entries that have outlasted the window.
pub flush_each :
    {S D : Type 0} → Dict String (Held S D) → FlipDebouncer S D → FlipDebouncer S D × List (Event S)
flush_each [] d = (d, [])
flush_each ((key, (t, from, st)) ∷ rest) d =
    let d' = record d { pending = erase key d.pending; last_arb_dir = erase key d.last_arb_dir } in
    let (d'', out) = flush_each rest d' in
    (d'', record { label = closed; state = st; key = key; t = t } ∷ out)

abbrev pub expired : {S D : Type 0} → ℤ → ℤ → String × Held S D → Bool
expired window now (key, (t, from, st)) = ltb_ℤ window (now -ℤ t)

pub flush : {S D : Type 0} → FlipDebouncer S D → ℤ → FlipDebouncer S D × List (Event S)
unfolding flush_each
flush d now = flush_each (select (expired d.window now) d.pending) d

module _ {S D : Type 0} ⦃e : Eq D⦄ (dir : S → D) where
  -- `self.last_arb_dir[key] = state["dir"]`, with or without a tuple to log.
  abbrev remember : FlipDebouncer S D → S → String → FlipDebouncer S D
  remember d st key = record d { last_arb_dir = insert key (dir st) d.last_arb_dir }

  abbrev emit : FlipDebouncer S D → Transition → S → String → ℤ → FlipDebouncer S D × List (Event S)
  emit d label st key now =
      (remember d st key, record { label = label; state = st; key = key; t = now } ∷ [])

  -- An OPEN within the window of a held CLOSE.
  abbrev reopen : FlipDebouncer S D → Option D → S → String → ℤ → FlipDebouncer S D × List (Event S)
  reopen d none st key now = (remember d st key, [])
  reopen d (some from) st key now =
      if not (from =? dir st) then emit d flipped st key now else (remember d st key, [])

  -- An OPEN, with the entry of its key that was popped from `pending`.
  on_open :
      FlipDebouncer S D → Option (Held S D) → S → String → ℤ → FlipDebouncer S D × List (Event S)
  on_open d none st key now = emit d opened st key now
  on_open d (some (t, from, held)) st key now =
      if leb_ℤ (now -ℤ t) d.window then reopen d from st key now else emit d opened st key now

  -- `label` is none where nothing is to be logged; the state counts only with a label.
  pub feed :
      FlipDebouncer S D → Option (Transition × S) → String → ℤ → FlipDebouncer S D × List (Event S)
  unfolding on_open
  feed d none key now = (d, [])
  feed d (some (closed, st)) key now =
      (record d { pending = insert key (now, lookup key d.last_arb_dir, st) d.pending }, [])
  feed d (some (opened, st)) key now =
      on_open (record d { pending = erase key d.pending }) (lookup key d.pending) st key now
  feed d (some (flipped, st)) key now = emit d flipped st key now
  feed d (some (widened, st)) key now = emit d widened st key now
  feed d (some (narrowed, st)) key now = emit d narrowed st key now
