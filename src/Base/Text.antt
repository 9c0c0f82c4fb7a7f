-- ===== src/Base/Text.antt =====
-- Go strings: sequences of bytes.
use Prim.Native.Char.{code}
use Prim.Native.Nat.{ℕ}
use Prim.Native.String.{String}
use mathlib.Core.Bool.{Bool, true, false, ◌||◌}
use mathlib.Core.List.{List, [], ◌∷◌}
use native.Mathlib.Decide.{ℕ_discrete}
use inventory_service.Base.Tests.{ltb, ◌==◌, if◌then◌else◌}

abbrev pub GoString : Type 0
GoString = List ℕ

-- The bytes of an ASCII literal.
abbrev pub codes : String → GoString
codes String.[] = []
codes (String.◌∷◌ c s) = code c ∷ codes s

unfoldable pub text_discrete : Discrete GoString
unfolding ℕ_discrete
text_discrete = hlevel ℕ_discrete

-- `a == b` on strings.
abbrev pub text_eq : GoString → GoString → Bool
text_eq a b = elim (text_discrete a b) [ yes _ ↦ true | no _ ↦ false ]

-- `a < b` on strings: byte by byte.
abbrev pub text_ltb : GoString → GoString → Bool
text_ltb [] [] = false
text_ltb [] (y ∷ ys) = true
text_ltb (x ∷ xs) [] = false
text_ltb (x ∷ xs) (y ∷ ys) = if ltb x y then true else if x == y then text_ltb xs ys else false

-- `slices.Contains`, and `sku_id = ANY($1)` of a query
abbrev pub text_elem : GoString → List GoString → Bool
text_elem s [] = false
text_elem s (t ∷ ts) = text_eq t s || text_elem s ts
