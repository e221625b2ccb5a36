-- ===== src/Persistence/Category.antt =====
-- `category` of scripts/analyze_persistence.py: the family of a market, by the prefix of its slug.
use text.Mathlib.Text.{starts_with}
use cross_arb.Prelude.{
  ℕ, zero, suc, ◌≡◌, refl, sym, ap, ◌∙◌, ◌↔◌, Bool, true, ◌||◌, String, Eq, ==_iff, ◌==◌,
  if◌then◌else◌,
}

pub data Category : Type 0 where
  weather sports econ other : Category

-- `ECON_PFX`: CPI, GDP, jobs, unemployment, rates.
abbrev is_econ : String → Bool
is_econ slug =
    starts_with slug "cpic-"
    || starts_with slug "gdpc-"
    || starts_with slug "nfpc-"
    || starts_with slug "urc-"
    || starts_with slug "rdc-"

unfoldable pub category : String → Category
category slug =
    if starts_with slug "tc-"
    then weather
    else if starts_with slug "aec-"
    then sports
    else if is_econ slug
    then econ
    else other

-- Categories as keys of a dict.
unfoldable pub rank : Category → ℕ
rank weather = 0
rank sports = 1
rank econ = 2
rank other = 3

unrank : ℕ → Category
unrank zero = weather
unrank (suc zero) = sports
unrank (suc (suc zero)) = econ
unrank _ = other

unrank-rank : (c : Category) → unrank (rank c) ≡ c
unfolding rank unrank
unrank-rank weather = refl
unrank-rank sports = refl
unrank-rank econ = refl
unrank-rank other = refl

unfoldable pub same_category : Category → Category → Bool
unfolding rank
same_category c d = rank c == rank d

pub same_category_iff : (c d : Category) → (same_category c d ≡ true) ↔ (c ≡ d)
unfolding same_category
same_category_iff c d = (
  λ h. sym (unrank-rank c) ∙ ap unrank ((==_iff (rank c) (rank d)).0 h) ∙ unrank-rank d,
  λ h. (==_iff (rank c) (rank d)).1 (ap rank h),
)

instance abbrev pub category_keys : Eq Category
category_keys = record { beq = same_category; beq_iff = same_category_iff }
