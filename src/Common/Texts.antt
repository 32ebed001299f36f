-- ===== src/Common/Texts.antt =====
-- Texts as lists of code points, where the source looks into them. Lower case is that of ASCII: it
-- is what the source's comparisons with ASCII texts depend on.
use Prim.Native.Nat.{ℕ, ◌+◌}
use Prim.Native.Char.{code}
use Prim.Native.String.{String}
use mathlib.Core.Bool.{Bool, true, false, ◌&&◌}
use mathlib.Core.List.{List, [], ◌∷◌, map}
use sassy_auth.Common.Tests.{leb, ◌==◌, if◌then◌else◌}

abbrev pub codes : String → List ℕ
codes String.[] = []
codes (String.◌∷◌ c s) = code c ∷ codes s

abbrev pub lower_code : ℕ → ℕ
lower_code c = if leb b'A' c && leb c b'Z' then c + 32 else c

-- `s.toLowerCase()`, as its code points
abbrev pub lower : String → List ℕ
lower s = map lower_code (codes s)

abbrev pub begins_with : List ℕ → List ℕ → Bool
begins_with s [] = true
begins_with [] (y ∷ ys) = false
begins_with (x ∷ xs) (y ∷ ys) = x == y && begins_with xs ys

abbrev pub same_codes : List ℕ → List ℕ → Bool
same_codes [] [] = true
same_codes (x ∷ xs) (y ∷ ys) = x == y && same_codes xs ys
same_codes _ _ = false
