-- ===== src/Prelude/Text.antt =====
-- Text as a list of code points, and literals.
pub mod Laws
use Prim.Native.Char.{code}
use Prim.Native.String.{String}
use eunga_py.Prelude.{ℕ, ◌==◌, Bool, true, false, ◌&&◌, List, [], ◌∷◌}

abbrev pub Str : Type 0
Str = List ℕ

-- The code points of a literal.
abbrev pub codes : String → Str
codes String.[] = []
codes (String.◌∷◌ c s) = code c ∷ codes s

abbrev pub eq_str : Str → Str → Bool
eq_str [] [] = true
eq_str (c ∷ s) (d ∷ t) = c == d && eq_str s t
eq_str _ _ = false
