-- ===== src/Monitor/Housekeeping/Prune.antt =====
-- `prune_decision` of bot/monitor.py.
use cross_arb.Prelude.{
  ℕ, ◌+◌, ◌≡◌, refl, ap, ◌∙◌, Bool, false, not, ◌&&◌, Option, none, some, List, [], ◌∷◌, String,
  ◌=?◌, string_keys, elem, Dict, lookup, insert, lookup-insert, leb, if◌then◌else◌, arith, All,
}

abbrev or_zero : Option ℕ → ℕ
or_zero none = 0
or_zero (some n) = n

-- `absent.get(slug, 0)`
unfoldable pub misses : Dict String ℕ → String → ℕ
misses absent slug = or_zero (lookup slug absent)

-- The loop, with the new `absent` beside the slugs to free.
pub prune_each : ℕ → List String → Dict String ℕ → List String → Dict String ℕ × List String
prune_each threshold current absent [] = (absent, [])
prune_each threshold current absent (slug ∷ slugs) =
    let here = elem slug current in
    let n = if here then 0 else misses absent slug + 1 in
    let (absent', freed) = prune_each threshold current (insert slug n absent) slugs in
    (absent', if not here && leb threshold n then slug ∷ freed else freed)

pub prune_decision : List String → List String → Dict String ℕ → ℕ → Dict String ℕ × List String
unfolding prune_each
prune_decision tracked current absent threshold = prune_each threshold current absent tracked

-- The tracked slugs are keys, so none is there twice.
abbrev pub IsDistinct : List String → Type 0
IsDistinct [] = Unit
IsDistinct (x ∷ xs) = (elem x xs ≡ false) × IsDistinct xs

misses-insert :
    (k j : String) (n : ℕ) (d : Dict String ℕ)
    → misses (insert k n d) j ≡ (if k =? j then n else misses d j)
unfolding misses
misses-insert k j n d = ap or_zero (lookup-insert k j n d) ∙ ground arith

-- The count of a slug after a heartbeat.
abbrev counted : Bool → Bool → ℕ → ℕ
counted tracked current n = if tracked then if current then 0 else n + 1 else n

misses-prune_each :
    (threshold : ℕ) (current : List String) (absent : Dict String ℕ) (slugs : List String)
    (j : String)
    → IsDistinct slugs
    → misses (prune_each threshold current absent slugs).0 j
      ≡ counted (elem j slugs) (elem j current) (misses absent j)
unfolding prune_each
misses-prune_each threshold current absent [] j h = refl
misses-prune_each threshold current absent (slug ∷ slugs) j h = ground (
  arith,
  string_keys.beq_iff slug j,
  string_keys.beq_iff j slug,
  h.0,
  misses-insert slug j (if elem slug current then 0 else misses absent slug + 1) absent,
  misses-prune_each threshold current
      (insert slug (if elem slug current then 0 else misses absent slug + 1) absent) slugs j h.1,
)

elem-prune_each :
    (threshold : ℕ) (current : List String) (absent : Dict String ℕ) (slugs : List String)
    (j : String)
    → IsDistinct slugs
    → elem j (prune_each threshold current absent slugs).1
      ≡ (elem j slugs && not (elem j current) && leb threshold (misses absent j + 1))
unfolding prune_each
elem-prune_each threshold current absent [] j h = refl
elem-prune_each threshold current absent (slug ∷ slugs) j h = ground (
  arith,
  string_keys.beq_iff slug j,
  string_keys.beq_iff j slug,
  h.0,
  misses-insert slug j (if elem slug current then 0 else misses absent slug + 1) absent,
  elem-prune_each threshold current
      (insert slug (if elem slug current then 0 else misses absent slug + 1) absent) slugs j h.1,
)

-- A heartbeat: what is tracked, and what discovery returned.
abbrev pub Beat : Type 0
Beat = List String × List String

abbrev pub absent_after : ℕ → Dict String ℕ → List Beat → Dict String ℕ
absent_after threshold absent [] = absent
absent_after threshold absent ((tracked, current) ∷ beats) =
    absent_after threshold (prune_decision tracked current absent threshold).0 beats

-- The heartbeats in a row at which a slug was tracked and not discovered, up to the last one.
abbrev pub streak : String → ℕ → List Beat → ℕ
streak slug n [] = n
streak slug n ((tracked, current) ∷ beats) =
    streak slug (counted (elem slug tracked) (elem slug current) n) beats

misses-absent_after :
    (threshold : ℕ) (absent : Dict String ℕ) (slug : String) (beats : List Beat)
    → All (λ b. IsDistinct b.0) beats
    → misses (absent_after threshold absent beats) slug ≡ streak slug (misses absent slug) beats
unfolding prune_decision
misses-absent_after threshold absent slug [] h = refl
misses-absent_after threshold absent slug ((tracked, current) ∷ beats) (d, ds) =
    misses-absent_after threshold (prune_decision tracked current absent threshold).0 slug beats ds
    ∙ ap (λ n. streak slug n beats) (misses-prune_each threshold current absent tracked slug d)

-- After any heartbeats from a fresh start, each over distinct slugs, the next one frees exactly the slugs
-- that are tracked, are not discovered, and with this one have gone undiscovered for as many heartbeats in
-- a row as the threshold says; one discovery in between starts the count again.
pub prune_decision_iff :
    (threshold : ℕ) (beats : List Beat) (tracked current : List String) (slug : String)
    → All (λ b. IsDistinct b.0) beats
    → IsDistinct tracked
    → elem slug (prune_decision tracked current (absent_after threshold [] beats) threshold).1
      ≡ (elem slug tracked && not (elem slug current) && leb threshold (streak slug 0 beats + 1))
unfolding prune_decision lookup misses
prune_decision_iff threshold beats tracked current slug h d =
    elem-prune_each threshold current (absent_after threshold [] beats) tracked slug d
    ∙ ap (λ n. elem slug tracked && not (elem slug current) && leb threshold (n + 1))
        (misses-absent_after threshold [] slug beats h)
