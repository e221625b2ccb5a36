-- ===== src/Monitor/Live/Cli.antt =====
-- `cli_stream` of `run_live` in bot/monitor.py: the log of the weather service's daily maximum. The readings that
-- `fetch_cli` makes of the network are arguments.
use cross_arb.Prelude.{
  ◌≡◌, ◌≢◌, ◌↔◌, refl, sym, ap, subst, ◌∙◌, Bool, true, false, ◌&&◌, Option, none, some, List, [],
  ◌∷◌, ◌++◌, String, ◌=?◌, =?→≡, string_keys, int_keys, Dict, lookup, insert, lookup-insert,
  if◌then◌else◌, arith, Bool-cases, inl, inr, some_eq,
}
use cross_arb.Prelude.Int.{ℤ}

pub record CliRec : Type 0 where
  pub station : String
  pub report_date : String
  pub max : ℤ
  pub issued : Option String
  pub wmo : Option String

-- `(rec["report_date"], rec["max"])`
abbrev pub Key : Type 0
Key = String × ℤ

abbrev pub key_of : CliRec → Key
key_of r = (r.report_date, r.max)

abbrev same_key : Key → Key → Bool
same_key (d, m) (d', m') = d =? d' && m =? m'

same_key_iff : (a b : Key) → (same_key a b ≡ true) ↔ (a ≡ b)
same_key_iff (d, m) (d', m') = ground (arith, string_keys.beq_iff d d', int_keys.beq_iff m m')

abbrev pub known : Option Key → Key → Bool
known none k = false
known (some j) k = same_key j k

abbrev pub Last : Type 0
Last = Dict String Key

-- The rows of the log, in order.
unfoldable pub seed : Last → List CliRec → Last
seed last [] = last
seed last (r ∷ rs) = seed (insert r.station (key_of r) last) rs

-- A reading of a station: none where the fetch or the parse failed.
abbrev pub Reading : Type 0
Reading = String × Option CliRec

-- One turn of the loop over the stations.
abbrev with_key : Last → String → CliRec → Bool → Last × List CliRec
with_key last st r true = (last, [])
with_key last st r false = (insert st (key_of r) last, r ∷ [])

abbrev read_station : Last → Reading → Last × List CliRec
read_station last (st, none) = (last, [])
read_station last (st, some r) = with_key last st r (known (lookup st last) (key_of r))

unfoldable pub poll : Last → List Reading → Last × List CliRec
poll last [] = (last, [])
poll last (x ∷ xs) =
    let (last', row) = read_station last x in
    let (last'', rows) = poll last' xs in (last'', row ++ rows)

-- A reading is of the station that was asked for.
abbrev pub IsOwn : Reading → Type 0
IsOwn (st, none) = Unit
IsOwn (st, some r) = r.station ≡ st

abbrev pub Own : List Reading → Type 0
Own [] = Unit
Own (x ∷ xs) = IsOwn x × Own xs

-- The newest reading of a station.
abbrev pub latest : String → Option Key → List Reading → Option Key
latest st old [] = old
latest st old ((s, none) ∷ xs) = latest st old xs
latest st old ((s, some r) ∷ xs) = latest st (if s =? st then some (key_of r) else old) xs

-- No row says of its station what the log says of it already.
abbrev pub IsNews : Last → List CliRec → Type 0
IsNews last [] = Unit
IsNews last (r ∷ rs) =
    (lookup r.station last ≢ some (key_of r)) × IsNews (insert r.station (key_of r) last) rs

known_eq : (o : Option Key) (k : Key) → known o k ≡ true → o ≡ some k
known_eq none k h = cc
known_eq (some j) k h = ap some ((same_key_iff j k).0 h)

unknown_ne : (o : Option Key) (k : Key) → known o k ≡ false → o ≢ some k
unknown_ne none k h = λ e. cc
unknown_ne (some j) k h = λ e. cc (sym ((same_key_iff j k).1 (some_eq e)) ∙ h)

-- What polls leave, against what a restart reads from the log.
abbrev pub Resumes : Last → List Reading → Last × List CliRec → Type 0
Resumes last xs (last', rows) =
    (seed last rows ≡ last')
    × IsNews last rows
    × ((st : String) → lookup st last' ≡ latest st (lookup st last) xs)

Resumes-known :
    (last : Last) (st : String) (r : CliRec) (xs : List Reading) (out : Last × List CliRec)
    → lookup st last ≡ some (key_of r)
    → Resumes last xs out
    → Resumes last ((st, some r) ∷ xs) out
Resumes-known last st r xs (last', rows) e (a, b, c) = (
  a,
  b,
  λ s.
      c s
      ∙ ap (λ o. latest s o xs)
          (elim (Bool-cases (st =? s)) [
            | inl same ↦ rw same (ap (λ x. lookup x last) (sym (=?→≡ same)) ∙ e)
            | inr other ↦ rw other refl
          ]),
)

abbrev after_row : Last × List CliRec → List Reading → Last × List CliRec
after_row (last', row) xs = let (last'', rows) = poll last' xs in (last'', row ++ rows)

Resumes-row :
    (last : Last) (r : CliRec) (xs : List Reading) (k : Bool)
    → known (lookup r.station last) (key_of r) ≡ k
    → ((l : Last) → Resumes l xs (poll l xs))
    → Resumes last ((r.station, some r) ∷ xs) (after_row (with_key last r.station r k) xs)
unfolding seed
Resumes-row last r xs true e ih =
    Resumes-known last r.station r xs (poll last xs) (known_eq (lookup r.station last) (key_of r) e)
      (ih last)
Resumes-row last r xs false e ih =
    let (a, b, c) = ih (insert r.station (key_of r) last) in
    (
      a,
      (unknown_ne (lookup r.station last) (key_of r) e, b),
      λ s. c s ∙ ap (λ o. latest s o xs) (lookup-insert r.station s (key_of r) last),
    )

-- After any readings, each of the station that it was asked for, `last` is what a restart takes from the log;
-- every row that was written was news of its station at that point; and `last` holds the newest reading of
-- every station, or what it held before where there was none.
pub poll-Resumes : (xs : List Reading) (last : Last) → Own xs → Resumes last xs (poll last xs)
unfolding poll seed
poll-Resumes [] last own = (refl, tt, λ s. refl)
poll-Resumes ((st, none) ∷ xs) last (o, own) = poll-Resumes xs last own
poll-Resumes ((st, some r) ∷ xs) last (o, own) =
    subst
      (λ s.
        Resumes last ((s, some r) ∷ xs)
          (after_row (with_key last s r (known (lookup s last) (key_of r))) xs))
      o
      (Resumes-row last r xs (known (lookup r.station last) (key_of r)) refl
        (λ l. poll-Resumes xs l own))
