-- ===== src/Bankroll/Account/Balanced.antt =====
-- What one settlement and one entry do to the account.
use cross_arb.Prelude.{
  ℕ, ◌+◌, ◌≡◌, ap, Bool, List, [], ◌∷◌, length, length-append, All, All-append, Bool-cases, inl,
  inr, arith,
}
use cross_arb.Prelude.Int.{
  ℤ, pos, pos_part, neg_part, ◌+ℤ◌, ◌*ℤ◌, ◌≤ℤ◌, ◌<ℤ◌, leb_ℤ, int_laws, *ℤ_nonneg, not_leb_ℤ,
}
use cross_arb.Prelude.Int.Sums.{sum_of, sum_of-append}
use cross_arb.Persistence.Episodes.{Episode}
use cross_arb.Capital.Economics.{cost_per}
use cross_arb.Capital.Afford.{cost_per_pos}
use cross_arb.Bankroll.Account.{
  Position, Account, Walk, settle_each, settle_due, enter, profit_of, capital_of, realized_pnl,
  locked_capital,
}

-- A position that may be held: it costs and earns no negative amount.
abbrev IsFair : Position → Type 0
IsFair p = (pos 0 ≤ℤ p.capital) × (pos 0 ≤ℤ p.profit)

-- What one settlement does.
pub record IsSettled (now : ℤ) (ps : List Position) (freed : ℤ) (done still : List Position)
    : Type 0 where
  split : (f : Position → ℤ) → sum_of f ps ≡ sum_of f done +ℤ sum_of f still
  paid : freed ≡ sum_of capital_of done +ℤ sum_of profit_of done
  gain : pos 0 ≤ℤ freed
  fair : All IsFair still
  pub pending : All (λ p. now <ℤ p.settle_t) still

pub settle_each-IsSettled :
    (now : ℤ) (ps : List Position)
    → All IsFair ps
    → let (freed, done, still) = settle_each now ps in IsSettled now ps freed done still
unfolding settle_each sum_of
settle_each-IsSettled now [] h = record {
  split = λ f. omega int_laws;
  paid = omega int_laws;
  gain = omega arith;
  fair = tt;
  pending = tt;
}
settle_each-IsSettled now (p ∷ ps) h =
    let r = settle_each-IsSettled now ps h.1 in
    elim (Bool-cases (leb_ℤ p.settle_t now)) [
      | inl due ↦ rw due (record {
        split = λ f. omega (int_laws, ap pos_part (r.split f), ap neg_part (r.split f));
        paid = omega (int_laws, ap pos_part r.paid, ap neg_part r.paid);
        gain = omega (int_laws, r.gain, h.0);
        fair = r.fair;
        pending = r.pending;
      })
      | inr later ↦ rw later (record {
        split = λ f. omega (int_laws, ap pos_part (r.split f), ap neg_part (r.split f));
        paid = r.paid;
        gain = r.gain;
        fair = (h.0, r.fair);
        pending = (not_leb_ℤ p.settle_t now later, r.pending);
      })
    ]

-- The state of a walk that began with `capital0`, over `n` candidates so far.
pub record IsBalanced (w : Walk) (capital0 : ℤ) (n : ℕ) (a : Account) : Type 0 where
  pub solvent : pos 0 ≤ℤ a.cash
  pub equity : a.cash +ℤ locked_capital a ≡ capital0 +ℤ realized_pnl a
  pub places : (f : Position → ℤ) → sum_of f a.entered ≡ sum_of f a.realized +ℤ sum_of f a.held
  pub sizes : All (λ p. (pos 1 ≤ℤ p.size) × (p.size ≤ℤ w.max_clip) × (pos 0 ≤ℤ p.profit)) a.entered
  pub counts : n ≡ length a.entered + a.skipped_capital + a.skipped_tau
  pub fair : All (λ p. (pos 0 ≤ℤ p.capital) × (pos 0 ≤ℤ p.profit)) a.held

pub settle_due-IsBalanced :
    (w : Walk) (capital0 : ℤ) (n : ℕ) (a : Account) (now : ℤ)
    → IsBalanced w capital0 n a
    → IsBalanced w capital0 n (settle_due a now)
unfolding settle_due
settle_due-IsBalanced w capital0 n a now b =
    let r = settle_each-IsSettled now a.held b.fair in
    record {
      solvent = omega (int_laws, b.solvent, r.gain);
      equity = rw (sum_of-append profit_of a.realized (settle_each now a.held).1) (
          omega (
            int_laws,
            ap pos_part b.equity,
            ap neg_part b.equity,
            ap pos_part (r.split capital_of),
            ap neg_part (r.split capital_of),
            ap pos_part r.paid,
            ap neg_part r.paid,
          ));
      places = λ f. rw (sum_of-append f a.realized (settle_each now a.held).1) (
          omega (
            int_laws,
            ap pos_part (b.places f),
            ap neg_part (b.places f),
            ap pos_part (r.split f),
            ap neg_part (r.split f),
          ));
      sizes = b.sizes;
      counts = b.counts;
      fair = r.fair;
    }

pub enter-IsBalanced :
    (w : Walk) (capital0 : ℤ) (n : ℕ) (a : Account) (e : Episode) (size per settle : ℤ)
    (partial : Bool)
    → IsBalanced w capital0 n a
    → pos 1 ≤ℤ size
    → size ≤ℤ w.max_clip
    → pos 0 ≤ℤ per
    → size *ℤ cost_per e ≤ℤ a.cash
    → IsBalanced w capital0 (n + 1) (enter a e size per settle partial)
unfolding enter sum_of
enter-IsBalanced w capital0 n a e size per settle partial b h m g c =
    let capital = *ℤ_nonneg size (cost_per e) (omega (arith, h)) (omega (arith, cost_per_pos e)) in
    let profit = *ℤ_nonneg size per (omega (arith, h)) g in
    record {
      solvent = omega (int_laws, c);
      equity =
          rw (sum_of-append capital_of a.held _)
            (omega (int_laws, ap pos_part b.equity, ap neg_part b.equity));
      places = λ f.
          rw (sum_of-append f a.held _, sum_of-append f a.entered _)
            (omega (int_laws, ap pos_part (b.places f), ap neg_part (b.places f)));
      sizes = All-append _ a.entered _ b.sizes ((h, m, profit), tt);
      counts = rw (length-append a.entered) (omega (arith, b.counts));
      fair = All-append _ a.held _ b.fair ((capital, profit), tt);
    }
