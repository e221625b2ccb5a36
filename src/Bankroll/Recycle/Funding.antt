-- ===== src/Bankroll/Recycle/Funding.antt =====
-- What funding a candidate does to the account of the run.
use cross_arb.Prelude.{
  ℕ, ◌+◌, ◌≡◌, refl, ap, Bool, some, List, [], ◌∷◌, length, All, All-insert_by, insert_by,
  length-insert_by, Bool-cases, inl, inr, arith,
}
use cross_arb.Prelude.Int.{
  ℤ, pos, pos_part, neg_part, ◌+ℤ◌, ◌*ℤ◌, ◌≤ℤ◌, ltb_ℤ, min_ℤ, int_laws, *ℤ_nonneg, not_ltb_ℤ,
}
use cross_arb.Prelude.Int.Rounding.{floor_div}
use cross_arb.Prelude.Int.Sums.{sum_of, sum_of-append}
use cross_arb.Persistence.Episodes.{Episode}
use cross_arb.Capital.Economics.{settle_t, cost_per}
use cross_arb.Capital.Afford.{cost_per_pos, profit_per_nonneg, affordable}
use cross_arb.Bankroll.Recycle.{
  Arm, Rules, Funded, Via, Status, funded, below_tau, cap0, cluster0, no_capital, settles_first,
  clip_of, edge_of, cat_capped, cluster_capped, fund, try_fund,
}

abbrev pub capital_of : Funded → ℤ
capital_of p = p.capital

abbrev pub profit_of : Funded → ℤ
profit_of p = p.profit

-- It costs and earns no negative amount.
abbrev pub IsFair : Funded → Type 0
IsFair p = (pos 0 ≤ℤ p.capital) × (pos 0 ≤ℤ p.profit)

-- The account is in balance.
pub record IsBalanced (capital0 : ℤ) (a : Arm) : Type 0 where
  pub solvent : pos 0 ≤ℤ a.cash
  pub equity : a.cash +ℤ sum_of capital_of a.held ≡ capital0 +ℤ sum_of profit_of a.realized
  pub places : (f : Funded → ℤ) → sum_of f a.entered ≡ sum_of f a.realized +ℤ sum_of f a.held
  pub fair : All IsFair a.held

-- In a heap the sums are those of its items.
sum_of-push :
    (f : Funded → ℤ) (p : Funded) (ps : List Funded)
    → sum_of f (insert_by settles_first p ps) ≡ f p +ℤ sum_of f ps
unfolding insert_by sum_of
sum_of-push f p [] = refl
sum_of-push f p (q ∷ ps) =
    let rest = sum_of-push f p ps in
    elim (Bool-cases (settles_first p q)) [
      | inl first ↦ rw first refl
      | inr behind ↦ rw behind (omega (int_laws, ap pos_part rest, ap neg_part rest))
    ]

-- What a status does to the heap and to the candidates that wait.
abbrev pub grows : Status → ℕ
grows (funded p) = 1
grows _ = 0

fund-IsBalanced :
    (w : Rules) (a : Arm) (e : Episode) (now : ℤ) (via : Via) (size : ℤ) (trimmed : Bool)
    (settle : ℤ)
    → IsBalanced w.capital0 a
    → pos 1 ≤ℤ size
    → size *ℤ cost_per e ≤ℤ a.cash
    → IsBalanced w.capital0 (fund w a e now via size trimmed settle).1
unfolding fund sum_of
fund-IsBalanced w a e now via size trimmed settle b h c =
    let capital = *ℤ_nonneg size (cost_per e) (omega (arith, h)) (omega (arith, cost_per_pos e)) in
    let profit =
      *ℤ_nonneg size (edge_of w e) (omega (arith, h)) (profit_per_nonneg e w.haircut w.void_mult) in
    record {
      solvent = omega (int_laws, c);
      equity =
          rw (sum_of-push capital_of _ a.held)
            (omega (int_laws, ap pos_part b.equity, ap neg_part b.equity));
      places = λ f.
          rw (sum_of-push f _ a.held, sum_of-append f a.entered _)
            (omega (int_laws, ap pos_part (b.places f), ap neg_part (b.places f)));
      fair = All-insert_by settles_first IsFair _ a.held (capital, profit) b.fair;
    }

-- What a candidate that is tried leaves.
pub record Tries (w : Rules) (a : Arm) (st : Status) (a' : Arm) : Type 0 where
  pub balanced : IsBalanced w.capital0 a'
  pub heap : length a'.held ≡ length a.held + grows st
  pub waiting : a'.pending ≡ a.pending

untouched :
    (w : Rules) (a : Arm) (st : Status) → IsBalanced w.capital0 a → grows st ≡ 0 → Tries w a st a
untouched w a st b h = record { balanced = b; heap = omega (arith, h); waiting = refl }

abbrev pub IsDated : Rules → Episode → Type 0
IsDated w e = (now : ℤ) → (t : ℤ) × (settle_t e.market now w.offset_s ≡ some t)

pub try_fund-Tries :
    (w : Rules) (a : Arm) (e : Episode) (now : ℤ) (via : Via)
    → IsBalanced w.capital0 a
    → IsDated w e
    → (st : Status) × (a' : Arm) × (try_fund w a e now via ≡ some (st, a')) × Tries w a st a'
unfolding try_fund fund
try_fund-Tries w a e now via b dated =
    let want = cat_capped w e w.cat_caps (clip_of w e) in
    let left = cluster_capped w a e w.cluster_cap want in
    let size = min_ℤ left (floor_div a.cash (pos_part (cost_per e))) in
    let (t, settles) = dated now in
    elim (Bool-cases (ltb_ℤ (edge_of w e) w.tau)) [
      | inl thin ↦ (below_tau, a, rw thin refl, untouched w a below_tau b refl)
      | inr rich ↦ elim (Bool-cases (ltb_ℤ want (pos 1))) [
        | inl nothing ↦ (cap0, a, rw (rich, nothing) refl, untouched w a cap0 b refl)
        | inr wanted ↦ elim (Bool-cases (ltb_ℤ left (pos 1))) [
          | inl full ↦ (cluster0, a, rw (rich, wanted, full) refl, untouched w a cluster0 b refl)
          | inr room ↦ elim (Bool-cases (ltb_ℤ size (pos 1))) [
            | inl poor ↦
                (no_capital, a, rw (rich, wanted, room, poor) refl, untouched w a no_capital b refl)
            | inr enough ↦ (
              (fund w a e now via size (ltb_ℤ left want) t).0,
              (fund w a e now via size (ltb_ℤ left want) t).1,
              rw (rich, wanted, room, enough, settles) refl,
              record {
                balanced =
                    fund-IsBalanced w a e now via size (ltb_ℤ left want) t b
                      (not_ltb_ℤ size (pos 1) enough)
                      (affordable a.cash size (cost_per e) (cost_per_pos e) (ground arith));
                heap = omega (arith, length-insert_by settles_first _ a.held);
                waiting = refl;
              },
            )
          ]
        ]
      ]
    ]
