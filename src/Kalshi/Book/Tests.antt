-- ===== src/Kalshi/Book/Tests.antt =====
-- The book of bot/kalshi_book.py's own test, and the theorems there.
use cross_arb.Prelude.{◌≡◌, refl, some, List, [], ◌∷◌, lookup, insert, erase, int_keys, arith}
use cross_arb.Prelude.Int.{pos, negsuc, ◌+ℤ◌, ◌-ℤ◌}
use cross_arb.Kalshi.Book.{
  KalshiBook, Snapshot, Delta, yes_side, no_side, init, apply_snapshot, apply_delta, best,
  apply_level, from_rows, max_price,
}
use cross_arb.Kalshi.Book.Merge.{
  IsValid, running, resting, apply_deltas, resting-apply_deltas, snapshot_deltas-IsValid,
}

abbrev snapshot : Snapshot
snapshot = record {
  yes_dollars = some ((pos 6700, pos 10000) ∷ (pos 6600, pos 5000) ∷ []);
  no_dollars = some ((pos 3100, pos 4000) ∷ []);
}

abbrev deltas : List Delta
deltas =
    record { side = yes_side; price = pos 6800; delta = pos 3000 }
    ∷ record { side = yes_side; price = pos 6800; delta = negsuc 2999 }
    ∷ record { side = no_side; price = pos 3300; delta = pos 1000 }
    ∷ []

abbrev book : KalshiBook
book = apply_snapshot (init "T") snapshot

-- The YES bid goes back to 0.67 when its level is emptied, and the better NO bid makes the ask 0.67.
best_runs :
    (best book ≡ (some (pos 6700), some (pos 6900)))
    × (best (apply_deltas book deltas) ≡ (some (pos 6700), some (pos 6700)))
unfolding best max_price init apply_snapshot from_rows apply_deltas apply_delta apply_level lookup
    insert erase ◌+ℤ◌ ◌-ℤ◌
best_runs = (refl, refl)

resting-apply_deltas_example :
    resting (apply_deltas book deltas) yes_side (pos 6800)
    ≡ running yes_side (pos 6800) (resting book yes_side (pos 6800)) deltas
resting-apply_deltas_example = resting-apply_deltas book deltas yes_side (pos 6800)

snapshot_deltas-IsValid_example : IsValid (apply_deltas (apply_snapshot (init "T") snapshot) deltas)
snapshot_deltas-IsValid_example =
    snapshot_deltas-IsValid (init "T") snapshot deltas (omega arith) (omega arith)
