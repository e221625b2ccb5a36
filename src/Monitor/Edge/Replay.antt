-- ===== src/Monitor/Edge/Replay.antt =====
-- The logged transitions determine whether an arbitrage is open, and in which direction.
use cross_arb.Prelude.{◌≡◌, ◌≢◌, refl, Option, none, some, arith, Eq, if◌then◌else◌}
use cross_arb.Monitor.Edge.{
  EdgeState, Transition, opened, closed, flipped, widened, narrowed, classify,
}

module _ {ℓ} {D : Type ℓ} ⦃e : Eq D⦄ where
  -- What a reader of the log knows: the direction of the open arbitrage, or none.
  abbrev pub view : Option (EdgeState D) → Option D
  view none = none
  view (some s) = if s.arb then some s.dir else none

  -- The reader's step at a logged label, whose record carries the direction.
  abbrev pub read : Option D → Option Transition → D → Option D
  read v none d = v
  read v (some opened) d = some d
  read v (some closed) d = none
  read v (some flipped) d = some d
  read v (some widened) d = v
  read v (some narrowed) d = v

  -- One label takes the reader from the view of the last state to the view of the new one; and an OPEN
  -- is only logged when nothing is open, every other label only when something is.
  pub read-classify :
      (prev : Option (EdgeState D)) (new : EdgeState D)
      → (read (view prev) (classify prev (some new)) new.dir ≡ view (some new))
        × (classify prev (some new) ≡ some opened → view prev ≡ none)
        × ((t : Transition) → t ≢ opened → classify prev (some new) ≡ some t → view prev ≢ none)
  unfolding classify
  read-classify none new = (ground arith, λ _. refl, λ t ne h. ground arith)
  read-classify (some prev) new =
      (ground (arith, e.beq_iff new.dir prev.dir), λ h. ground arith, λ t ne h. ground arith)
