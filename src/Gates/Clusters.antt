-- ===== src/Gates/Clusters.antt =====
-- `cluster_of` of scripts/backtest_current_strategy.py: the markets whose exposure counts together.
use Prim.Native.Char.{Char, code}
use Prim.Native.String.{String, ◌++◌ as str_append}
use cross_arb.Prelude.{
  ℕ, zero, suc, Bool, ◌||◌, List, [], ◌∷◌, starts_with, codes, ◌==◌, is_some, if◌then◌else◌,
}
use cross_arb.Capital.Economics.{match_date}

-- The first ten characters.
abbrev ten : ℕ → String → String
ten zero s = String.[]
ten (suc n) String.[] = String.[]
ten (suc n) (String.◌∷◌ c s) = String.◌∷◌ c (ten n s)

-- The text of the first date, or an empty one.
unfoldable pub date_text : String → String
unfolding match_date
date_text String.[] = String.[]
date_text (String.◌∷◌ c s) =
    let rest = date_text s in
    if is_some (match_date (codes (String.◌∷◌ c s))) then ten 10 (String.◌∷◌ c s) else rest

abbrev into_first : Char → List String → List String
into_first c [] = String.◌∷◌ c String.[] ∷ []
into_first c (w ∷ ws) = String.◌∷◌ c w ∷ ws

-- `split("-")`
unfoldable pub split_dash : String → List String
split_dash String.[] = String.[] ∷ []
split_dash (String.◌∷◌ c s) =
    let ws = split_dash s in if code c == b'-' then String.[] ∷ ws else into_first c ws

-- `-(gte|lt|gt|lte|above|below)` at the start.
abbrev is_bucket : String → Bool
is_bucket s =
    starts_with s "-gte"
    || starts_with s "-lt"
    || starts_with s "-gt"
    || starts_with s "-lte"
    || starts_with s "-above"
    || starts_with s "-below"

-- The text in front of its bucket; a slug is one line.
unfoldable pub cut_bucket : String → String
cut_bucket String.[] = String.[]
cut_bucket (String.◌∷◌ c s) =
    let rest = cut_bucket s in if is_bucket (String.◌∷◌ c s) then String.[] else String.◌∷◌ c rest

abbrev city_of : String → List String → String
city_of m (kind ∷ measure ∷ city ∷ parts) = city
city_of m _ = m

unfoldable pub cluster_of : String → String
unfolding date_text split_dash cut_bucket
cluster_of m =
    if starts_with m "tc-"
    then str_append (city_of m (split_dash m)) (str_append "-" (date_text m))
    else if starts_with m "aec-"
    then cut_bucket m
    else m
