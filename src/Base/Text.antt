-- ===== src/Base/Text.antt =====
-- The texts of the program, as the lists of their bytes.
use Prim.Native.Nat.{ℕ}
use Prim.Native.Char.{code}
use Prim.Native.String.{String, [], ◌∷◌}
use mathlib.Core.List.{List, [] as []ᴸ, ◌∷◌ as ◌∷ᴸ◌}

abbrev pub text : String → List ℕ
text [] = []ᴸ
text (c ∷ s) = code c ∷ᴸ text s
