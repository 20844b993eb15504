-- ===== src/Base/Text.antt =====
-- Texts as lists of bytes: those of a literal, and their equality.
use Prim.Native.Char.{code as code_of}
use Prim.Native.String.{String}
use Prim.Native.Nat.{ℕ}
use anc.Base.Tests.{◌==◌}
use mathlib.Core.Bool.{Bool, true, false, ◌&&◌}
use mathlib.Core.List.{List, [], ◌∷◌}

abbrev pub codes : String → List ℕ
codes String.[] = []
codes (String.◌∷◌ c s) = code_of c ∷ codes s

-- `==` on texts.
unfoldable pub same_text : List ℕ → List ℕ → Bool
same_text [] [] = true
same_text [] (y ∷ ys) = false
same_text (x ∷ xs) [] = false
same_text (x ∷ xs) (y ∷ ys) = x == y && same_text xs ys
