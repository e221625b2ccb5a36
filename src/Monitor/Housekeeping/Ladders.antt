-- ===== src/Monitor/Housekeeping/Ladders.antt =====
-- `ladder_cents`, `wx_ladders` and `hb_ladder_pass` of bot/monitor.py. A record's time is left out.
use cross_arb.Prelude.{
  ℕ, ◌≡◌, ◌↔◌, refl, sym, ap, ◌∙◌, Bool, true, false, ◌&&◌, Option, none, some, List, [], ◌∷◌, take,
  String, ◌=?◌, =?_refl, =?→≡, string_keys, int_keys, Dict, IsDict, lookup, insert, lookup-insert,
  lookup-select_keys, other_key, contains, select, is_some, if◌then◌else◌, arith, Bool-cases, inl,
  inr,
}
use cross_arb.Prelude.Int.{ℤ}
use cross_arb.Prelude.Int.Rounding.{round_div}
use cross_arb.Monitor.Edge.{Level, Ladder}
use cross_arb.Monitor.Market.{MarketTracker}

-- Rungs as (whole cents, tenths of a contract).
abbrev pub Cents : Type 0
Cents = List (ℤ × ℤ)

abbrev parsed_cents : Option ℤ → Option ℤ → Cents → Cents
parsed_cents (some p) (some q) rest = (round_div p 100, round_div q 10) ∷ rest
parsed_cents _ _ rest = rest

unfoldable pub cents_of : List Level → Cents
cents_of [] = []
cents_of (l ∷ ls) = parsed_cents l.px l.qty (cents_of ls)

-- `(levels or [])[:n]`: the cut is before the parsing.
unfoldable pub ladder_cents : Ladder → ℕ → Cents
unfolding cents_of
ladder_cents none n = []
ladder_cents (some ls) n = cents_of (take n ls)

pub record Ladders : Type 0 where
  pub pb : Cents
  pub pa : Cents
  pub kb : Cents
  pub ka : Cents

-- `LADDER_LEVELS`
abbrev ladder_levels : ℕ
ladder_levels = 5

unfoldable pub wx_ladders : MarketTracker → Ladders
unfolding ladder_cents
wx_ladders trk = record {
  pb = ladder_cents trk.p_books.bids ladder_levels;
  pa = ladder_cents trk.p_books.offers ladder_levels;
  kb = ladder_cents trk.k_books.bids ladder_levels;
  ka = ladder_cents trk.k_books.offers ladder_levels;
}

abbrev same_cents : Cents → Cents → Bool
same_cents [] [] = true
same_cents ((p, q) ∷ xs) ((p', q') ∷ ys) = p =? p' && q =? q' && same_cents xs ys
same_cents _ _ = false

same_cents_iff : (xs ys : Cents) → (same_cents xs ys ≡ true) ↔ (xs ≡ ys)
same_cents_iff [] [] = ground arith
same_cents_iff [] (y ∷ ys) = ground arith
same_cents_iff (x ∷ xs) [] = ground arith
same_cents_iff ((p, q) ∷ xs) ((p', q') ∷ ys) =
    ground (arith, int_keys.beq_iff p p', int_keys.beq_iff q q', same_cents_iff xs ys)

abbrev same_ladders : Ladders → Ladders → Bool
same_ladders a b =
    same_cents a.pb b.pb && same_cents a.pa b.pa && same_cents a.kb b.kb && same_cents a.ka b.ka

same_ladders_iff : (a b : Ladders) → (same_ladders a b ≡ true) ↔ (a ≡ b)
same_ladders_iff a b = ground (
  arith,
  same_cents_iff a.pb b.pb,
  same_cents_iff a.pa b.pa,
  same_cents_iff a.kb b.kb,
  same_cents_iff a.ka b.ka,
)

-- `last.get(market) == lad`
abbrev unchanged : Option Ladders → Ladders → Bool
unchanged none lad = false
unchanged (some old) lad = same_ladders old lad

abbrev pub Trackers : Type 0
Trackers = Dict String MarketTracker

abbrev written : Dict String Ladders → String → Ladders → Dict String Ladders
written last market lad =
    if unchanged (lookup market last) lad then last else insert market lad last

-- The loop over the trackers: the new `last`, and what is logged.
unfoldable pub hb_each :
    Trackers → Dict String Ladders → Dict String Ladders × List (String × Ladders)
hb_each [] last = (last, [])
hb_each ((market, trk) ∷ trackers) last =
    let lad = wx_ladders trk in
    let rest = hb_each trackers (written last market lad) in
    (rest.0, if unchanged (lookup market last) lad then rest.1 else (market, lad) ∷ rest.1)

abbrev is_tracked : {V : Type 0} → Trackers → String × V → Bool
is_tracked trackers row = contains row.0 trackers

-- Rows of markets that are gone are dropped first.
unfoldable pub hb_ladder_pass :
    Trackers → Dict String Ladders → Dict String Ladders × List (String × Ladders)
unfolding hb_each
hb_ladder_pass trackers last = hb_each trackers (select (is_tracked trackers) last)

unchanged_eq : (o : Option Ladders) (lad : Ladders) → unchanged o lad ≡ true → o ≡ some lad
unchanged_eq none lad h = cc
unchanged_eq (some old) lad h = ap some ((same_ladders_iff old lad).0 h)

lookup-written :
    (last : Dict String Ladders) (market : String) (lad : Ladders) (m : String)
    → lookup m (written last market lad) ≡ (if market =? m then some lad else lookup m last)
lookup-written last market lad m = elim (Bool-cases (unchanged (lookup market last) lad)) [
  | inr differs ↦ rw differs (lookup-insert market m lad last)
  | inl same ↦ rw same (elim (Bool-cases (market =? m)) [
    | inl this ↦
        rw this
          (ap (λ k. lookup k last) (sym (=?→≡ this)) ∙ unchanged_eq (lookup market last) lad same)
    | inr other ↦ rw other refl
  ])
]

abbrev pub shown : Option MarketTracker → Option Ladders → Option Ladders
shown none old = old
shown (some trk) old = some (wx_ladders trk)

only_shown :
    (o : Option MarketTracker) (old : Option Ladders)
    → shown o (if is_some o then old else none) ≡ shown o none
only_shown none old = refl
only_shown (some trk) old = refl

lookup-hb_each :
    (trackers : Trackers) (last : Dict String Ladders) (m : String)
    → IsDict trackers
    → lookup m (hb_each trackers last).0 ≡ shown (lookup m trackers) (lookup m last)
unfolding hb_each lookup
lookup-hb_each [] last m h = refl
lookup-hb_each ((market, trk) ∷ trackers) last m h =
    lookup-hb_each trackers (written last market (wx_ladders trk)) m h.1
    ∙ ap (shown (lookup m trackers)) (lookup-written last market (wx_ladders trk) m)
    ∙ elim (Bool-cases (market =? m)) [
      | inl same ↦ rw (same, ap (λ k. lookup k trackers) (sym (=?→≡ same)) ∙ h.0) refl
      | inr other ↦ rw other refl
    ]

-- The markets whose ladders differ from those that were logged last.
pub changes : Trackers → Dict String Ladders → List (String × Ladders)
changes [] last = []
changes ((market, trk) ∷ trackers) last =
    let rest = changes trackers last in
    if unchanged (lookup market last) (wx_ladders trk)
    then rest
    else (market, wx_ladders trk) ∷ rest

changes_other :
    (trackers : Trackers) (last last' : Dict String Ladders)
    → ((m : String) → is_some (lookup m trackers) ≡ true → lookup m last' ≡ lookup m last)
    → changes trackers last' ≡ changes trackers last
unfolding changes lookup
changes_other [] last last' h = refl
changes_other ((market, trk) ∷ trackers) last last' h =
    rw
      (
        h market
            (ap (λ b. is_some (if b then some trk else lookup market trackers)) (=?_refl market)),
        changes_other trackers last last' (λ m t. h m (ground arith)),
      )
      refl

logged-hb_each :
    (trackers : Trackers) (last : Dict String Ladders)
    → IsDict trackers
    → (hb_each trackers last).1 ≡ changes trackers last
unfolding hb_each changes
logged-hb_each [] last h = refl
logged-hb_each ((market, trk) ∷ trackers) last h =
    rw
      (logged-hb_each trackers (written last market (wx_ladders trk)) h.1
        ∙ changes_other trackers last (written last market (wx_ladders trk)) (λ m t.
          lookup-written last market (wx_ladders trk) m
          ∙ other_key trackers market m (some (wx_ladders trk)) (lookup m last) h.0 t))
      refl

lookup-select_tracked :
    {V : Type 0} (trackers : Trackers) (m : String) (d : Dict String V)
    → lookup m (select (is_tracked trackers) d) ≡ (if contains m trackers then lookup m d else none)
lookup-select_tracked trackers m d = lookup-select_keys (λ k. contains k trackers) m d

-- After a pass `last` holds the present ladders of every tracked market and nothing of any other; and what
-- is logged are the ladders of exactly the tracked markets that had none or other ones logged last.
pub hb_ladder_pass_lem :
    (trackers : Trackers) (last : Dict String Ladders)
    → IsDict trackers
    → ((m : String) → lookup m (hb_ladder_pass trackers last).0 ≡ shown (lookup m trackers) none)
      × ((hb_ladder_pass trackers last).1 ≡ changes trackers last)
unfolding hb_ladder_pass
hb_ladder_pass_lem trackers last h =
    let d = select (is_tracked trackers) last in
    (
      λ m.
          lookup-hb_each trackers d m h
          ∙ ap (shown (lookup m trackers)) (lookup-select_tracked trackers m last)
          ∙ only_shown (lookup m trackers) (lookup m last),
      logged-hb_each trackers d h
          ∙ changes_other trackers last d (λ m t.
            lookup-select_tracked trackers m last ∙ ap (λ b. if b then lookup m last else none) t),
    )
