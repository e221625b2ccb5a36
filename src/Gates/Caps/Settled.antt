-- ===== src/Gates/Caps/Settled.antt =====
-- What settlements do to the counters of the walk.
use cross_arb.Prelude.{
  ◌≡◌, refl, ap, Bool, true, false, List, [], ◌∷◌, String, ◌=?◌, string_keys, length, All,
  Bool-cases, ◌⊎◌, inl, inr, if◌then◌else◌, arith,
}
use cross_arb.Prelude.Int.{ℤ, pos, pos_part, neg_part, ◌+ℤ◌, ◌-ℤ◌, ◌≤ℤ◌, leb_ℤ, int_laws}
use cross_arb.Prelude.Int.Sums.{sum_of}
use cross_arb.Gates.Caps.{Entry, Book, release, settle_each}

abbrev pub capital_of : Entry → ℤ
capital_of x = x.capital

-- What an entry counts under a name, by its market or by its cluster.
abbrev pub at_market : String → Entry → ℤ
at_market m x = if m =? x.market then x.capital else pos 0

abbrev pub in_cluster : String → Entry → ℤ
in_cluster c x = if c =? x.cluster then x.capital else pos 0

abbrev pub IsPaid : Entry → Type 0
IsPaid x = pos 0 ≤ℤ x.capital

-- From one state and the positions that it counts to another: every counter follows its sum.
pub record Moves (b : Book) (xs : List Entry) (b' : Book) (ys : List Entry) : Type 0 where
  pub cash : b'.cash +ℤ sum_of capital_of ys ≡ b.cash +ℤ sum_of capital_of xs
  pub total : b'.total +ℤ sum_of capital_of xs ≡ b.total +ℤ sum_of capital_of ys
  pub pair :
      (m : String)
      → b'.per_pair m +ℤ sum_of (at_market m) xs ≡ b.per_pair m +ℤ sum_of (at_market m) ys
  pub cluster :
      (c : String)
      → b'.per_cluster c +ℤ sum_of (in_cluster c) xs ≡ b.per_cluster c +ℤ sum_of (in_cluster c) ys
  pub positions : b'.open_positions +ℤ pos (length xs) ≡ b.open_positions +ℤ pos (length ys)
  pub entered : b'.entered ≡ b.entered

-- The counters do not rise.
pub record Falls (b b' : Book) : Type 0 where
  pub cash : b.cash ≤ℤ b'.cash
  pub total : b'.total ≤ℤ b.total
  pub pair : (m : String) → b'.per_pair m ≤ℤ b.per_pair m
  pub cluster : (c : String) → b'.per_cluster c ≤ℤ b.per_cluster c
  pub positions : b'.open_positions ≤ℤ b.open_positions

lowered : (same : Bool) (v c : ℤ) → pos 0 ≤ℤ c → (if same then v +ℤ (pos 0 -ℤ c) else v) ≤ℤ v
lowered true v c h = omega (int_laws, h)
lowered false v c h = omega arith

-- A counter that a settlement lowers, ahead of the others.
follows :
    (same : Bool) (u v s t c : ℤ)
    → u +ℤ s ≡ (if same then v +ℤ (pos 0 -ℤ c) else v) +ℤ t
    → u +ℤ ((if same then c else pos 0) +ℤ s) ≡ v +ℤ t
follows true u v s t c h = omega (int_laws, ap pos_part h, ap neg_part h)
follows false u v s t c h = omega (int_laws, ap pos_part h, ap neg_part h)

released :
    (b : Book) (x : Entry) (due : Bool)
    → pos 0 ≤ℤ x.capital
    → Falls b (if due then release b x else b)
unfolding release
released b x true h = record {
  cash = omega (int_laws, h);
  total = omega (int_laws, h);
  pair = λ m. lowered (m =? x.market) (b.per_pair m) x.capital h;
  cluster = λ c. lowered (c =? x.cluster) (b.per_cluster c) x.capital h;
  positions = omega int_laws;
}
released b x false h = record {
  cash = omega arith;
  total = omega arith;
  pair = λ m. omega arith;
  cluster = λ c. omega arith;
  positions = omega arith;
}

pub settle_each-Moves :
    (now : ℤ) (b : Book) (xs : List Entry)
    → let (b', still) = settle_each now b xs in Moves b xs b' still
unfolding settle_each release sum_of
settle_each-Moves now b [] = record {
  cash = refl;
  total = refl;
  pair = λ m. refl;
  cluster = λ c. refl;
  positions = refl;
  entered = refl;
}
settle_each-Moves now b (x ∷ xs) = elim (Bool-cases (leb_ℤ x.settle_t now)) [
  | inl due ↦ rw due (
      let r = settle_each-Moves now (release b x) xs in
      record {
        cash = omega (int_laws, ap pos_part r.cash, ap neg_part r.cash);
        total = omega (int_laws, ap pos_part r.total, ap neg_part r.total);
        pair = λ m. follows (m =? x.market) _ (b.per_pair m) _ _ x.capital (r.pair m);
        cluster = λ c. follows (c =? x.cluster) _ (b.per_cluster c) _ _ x.capital (r.cluster c);
        positions = omega (int_laws, ap pos_part r.positions, ap neg_part r.positions);
        entered = r.entered;
      })
  | inr later ↦ rw later (
      let r = settle_each-Moves now b xs in
      record {
        cash = omega (int_laws, ap pos_part r.cash, ap neg_part r.cash);
        total = omega (int_laws, ap pos_part r.total, ap neg_part r.total);
        pair = λ m. omega (int_laws, ap pos_part (r.pair m), ap neg_part (r.pair m));
        cluster = λ c. omega (int_laws, ap pos_part (r.cluster c), ap neg_part (r.cluster c));
        positions = omega (int_laws, ap pos_part r.positions, ap neg_part r.positions);
        entered = r.entered;
      })
]

pub settle_each-Falls :
    (now : ℤ) (b : Book) (xs : List Entry)
    → All IsPaid xs
    → let (b', still) = settle_each now b xs in Falls b b' × All IsPaid still
unfolding settle_each
settle_each-Falls now b [] h = (
  record {
    cash = omega arith;
    total = omega arith;
    pair = λ m. omega arith;
    cluster = λ c. omega arith;
    positions = omega arith;
  },
  tt,
)
settle_each-Falls now b (x ∷ xs) h =
    let due = leb_ℤ x.settle_t now in
    let first = released b x due h.0 in
    let (rest, paid) = settle_each-Falls now (if due then release b x else b) xs h.1 in
    (
      record {
        cash = omega (arith, first.cash, rest.cash);
        total = omega (arith, first.total, rest.total);
        pair = λ m. omega (arith, first.pair m, rest.pair m);
        cluster = λ c. omega (arith, first.cluster c, rest.cluster c);
        positions = omega (arith, first.positions, rest.positions);
      },
      stays _ (Bool-cases due) paid,
    )
  where
    stays :
        {due : Bool} (ys : List Entry)
        → (due ≡ true) ⊎ (due ≡ false)
        → All IsPaid ys
        → All IsPaid (if due then ys else x ∷ ys)
    stays ys (inl e) paid = rw e paid
    stays ys (inr e) paid = rw e (h.0, paid)
