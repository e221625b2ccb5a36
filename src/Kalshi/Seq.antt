-- ===== src/Kalshi/Seq.antt =====
-- `class SeqTracker` of bot/kalshi_book.py.
use cross_arb.Prelude.{
  ℕ, ◌+◌, ◌≡◌, refl, Bool, true, ◌&&◌, Option, none, some, List, [], ◌∷◌, arith, ◌==◌, ◌↔◌,
}

pub record SeqTracker : Type 0 where
  pub expected : Option ℕ

unfoldable pub init : SeqTracker
init = record { expected = none }

pub reset : SeqTracker → SeqTracker
reset st = record st { expected = none }

-- `self.expected is None or seq == self.expected`
abbrev fits : Option ℕ → ℕ → Bool
fits none seq = true
fits (some n) seq = seq == n

unfoldable pub check : SeqTracker → ℕ → Bool × SeqTracker
check st seq = (fits st.expected seq, record st { expected = some (seq + 1) })

-- The answers to a whole stream of sequence numbers: true if no check flagged a gap.
unfoldable pub check_all : SeqTracker → List ℕ → Bool
check_all st [] = true
check_all st (seq ∷ seqs) =
    let (fit, st') = check st seq in let rest = check_all st' seqs in fit && rest

-- The numbers n, n + 1, n + 2, … with no gap, repetition or swap.
abbrev pub Consecutive : ℕ → List ℕ → Type 0
Consecutive n [] = Unit
Consecutive n (seq ∷ seqs) = (seq ≡ n) × Consecutive (n + 1) seqs

check_all_from :
    (n : ℕ) (seqs : List ℕ)
    → (check_all (record { expected = some n }) seqs ≡ true) ↔ Consecutive n seqs
unfolding check_all check
check_all_from n [] = (λ _. tt, λ _. refl)
check_all_from n (seq ∷ seqs) =
    let ih = check_all_from (seq + 1) seqs in (λ h. ground (arith, ih.0), λ h. ground (arith, ih.1))

-- From a fresh or a reset tracker, a stream passes without a flagged gap exactly when its numbers are
-- consecutive from its first one.
pub check_all_iff :
    (st : SeqTracker) (n : ℕ) (seqs : List ℕ)
    → (check_all (reset st) (n ∷ seqs) ≡ true) ↔ Consecutive n (n ∷ seqs)
unfolding check_all check reset
check_all_iff st n seqs =
    let ih = check_all_from (n + 1) seqs in (λ h. (refl, ih.0 h), λ h. ih.1 h.1)
