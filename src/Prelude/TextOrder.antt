-- ===== src/Prelude/TextOrder.antt =====
-- The order of texts: it is a strict weak order.
use Prim.Native.Char.{Char, code}
use Prim.Native.String.{String, [], ◌∷◌, compare, then}
use Prim.Native.String.compare
use Prim.Native.Nat.{ℕ, Ordering, compare as compare_ℕ}
use mathlib.Core.Path.{◌≡◌, refl, ap, ◌∙◌}
use mathlib.Core.Bool.{Bool, true, false, ◌&&◌, ◌||◌}
use native.Mathlib.Omega.{arith}
use text.Mathlib.TextEquality.{Char-path}
use activegraph_surrealdb.Prelude.Tests.{ltb, ◌==◌, nat_eq}
use activegraph_surrealdb.Prelude.Texts.{text_ltb}

abbrev first_less : Ordering → Bool
first_less o = elim o [ Ordering.lt ↦ true | _ ↦ false ]

-- a text against the empty one, and two texts by their first characters
text_ltb-nil : (a : String) → text_ltb a [] ≡ false
text_ltb-nil [] = ap first_less compare.nil-nil
text_ltb-nil (c ∷ s) = ap first_less (λ i. compare.cons-nil c s i)

nil-text_ltb : (d : Char) (t : String) → text_ltb [] (d ∷ t) ≡ true
nil-text_ltb d t = ap first_less (λ i. compare.nil-cons d t i)

lt_then :
    (a b : ℕ) (p : Ordering)
    → first_less (then (compare_ℕ a b) p) ≡ (ltb a b || a == b && first_less p)
lt_then a b p =
    elim (compare_ℕ a b)
      as (λ o. first_less (then o p) ≡ (
        elim o [ Ordering.lt ↦ true | _ ↦ false ]
        || elim o [ Ordering.eq ↦ true | _ ↦ false ] && first_less p)) [
          | Ordering.lt ↦ refl
          | Ordering.eq ↦ refl
          | Ordering.gt ↦ refl
        ]

text_ltb-cons :
    (c d : Char) (s t : String)
    → text_ltb (c ∷ s) (d ∷ t) ≡ (ltb (code c) (code d) || code c == code d && text_ltb s t)
text_ltb-cons c d s t =
    ap first_less (λ i. compare.cons-cons c d s t i) ∙ lt_then (code c) (code d) (compare s t)

pub text_ltb_asym : (a b : String) → text_ltb a b ≡ true → text_ltb b a ≡ false
text_ltb_asym [] b h = text_ltb-nil b
text_ltb_asym (c ∷ s) [] h = absurd (cc (h, text_ltb-nil (c ∷ s)))
text_ltb_asym (c ∷ s) (d ∷ t) h =
    ground (arith, h, text_ltb-cons c d s t, text_ltb-cons d c t s, text_ltb_asym s t)

pub text_ltb_trans_weak :
    (a b c : String) → text_ltb a b ≡ true → text_ltb c b ≡ false → text_ltb a c ≡ true
text_ltb_trans_weak a [] c h k = absurd (cc (h, text_ltb-nil a))
text_ltb_trans_weak a (y ∷ b) [] h k = absurd (cc (k, nil-text_ltb y b))
text_ltb_trans_weak [] (y ∷ b) (z ∷ c) h k = nil-text_ltb z c
text_ltb_trans_weak (x ∷ a) (y ∷ b) (z ∷ c) h k = ground (
  arith,
  h,
  k,
  text_ltb-cons x y a b,
  text_ltb-cons z y c b,
  text_ltb-cons x z a c,
  text_ltb_trans_weak a b c,
)

-- Two texts of which neither precedes the other are one.
pub text_ltb_connex : (a b : String) → text_ltb a b ≡ false → text_ltb b a ≡ false → a ≡ b
text_ltb_connex [] [] h k = refl
text_ltb_connex [] (d ∷ t) h k = absurd (cc (h, nil-text_ltb d t))
text_ltb_connex (c ∷ s) [] h k = absurd (cc (k, nil-text_ltb c s))
text_ltb_connex (c ∷ s) (d ∷ t) h k =
    let first : code c ≡ code d =
      ground (arith, h, k, text_ltb-cons c d s t, text_ltb-cons d c t s) in
    let rest =
      text_ltb_connex s t (ground (arith, h, first, text_ltb-cons c d s t))
        (ground (arith, k, first, text_ltb-cons d c t s)) in
    λ i. Char-path c d first i ∷ rest i
