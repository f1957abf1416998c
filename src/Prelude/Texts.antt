-- ===== src/Prelude/Texts.antt =====
-- Texts as code points, their order, and sets of texts as lists.
use Prim.Native.Nat.{ℕ, Ordering}
use Prim.Native.Char.{code}
use Prim.Native.String.{String, compare}
use mathlib.Core.Bool.{Bool, true, false, ◌||◌}
use mathlib.Core.List.{List, [], ◌∷◌, ◌++◌}
use activegraph_surrealdb.Prelude.Tests.{◌==◌, text_eq, if◌then◌else◌}

abbrev pub codes : String → List ℕ
codes String.[] = []
codes (String.◌∷◌ c s) = code c ∷ codes s

abbrev pub text_ltb : String → String → Bool
text_ltb a b = elim (compare a b) [ Ordering.lt ↦ true | _ ↦ false ]

abbrev pub member : String → List String → Bool
member t [] = false
member t (x ∷ xs) = t == x || member t xs

-- `dict.fromkeys(…)`, and adding to a set: what is there already is not added again
abbrev pub add_new : String → List String → List String
add_new t xs = if member t xs then xs else xs ++ t ∷ []

abbrev pub add_all : List String → List String → List String
add_all [] xs = xs
add_all (t ∷ ts) xs = add_all ts (add_new t xs)
