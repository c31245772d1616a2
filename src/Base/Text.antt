-- ===== src/Base/Text.antt =====
-- The literals of the program, as the lists of their character codes.
use Prim.Native.Nat.{ℕ}
use Prim.Native.Char.{code}
use Prim.Native.String.{String, [], ◌∷◌}
use mathlib.Core.List.{List}

abbrev pub text : String → List ℕ
text [] = List.[]
text (c ∷ s) = List.◌∷◌ (code c) (text s)
