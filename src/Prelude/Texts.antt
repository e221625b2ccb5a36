-- ===== src/Prelude/Texts.antt =====
-- Texts as lists of code points, and their order.
use Prim.Native.Char.{code}
use Prim.Native.Nat.{ℕ}
use Prim.Native.String.{String, compare}
use mathlib.Core.Bool.{Bool}
use mathlib.Core.List.{List, [], ◌∷◌}
use text.Mathlib.Text.{is_le}

abbrev pub codes : String → List ℕ
codes String.[] = []
codes (String.◌∷◌ c s) = code c ∷ codes s

-- Python's `<=` on texts.
abbrev pub text_le : String → String → Bool
text_le s t = is_le (compare s t)
