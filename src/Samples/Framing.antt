-- ===== src/Samples/Framing.antt =====
-- A text is determined by its characters' numbers, and the witness for keys.py.
use text.Mathlib.TextEquality.{Char-path}
use activegraph_surrealdb.Prelude.{String, ◌≡◌, ◌≢◌, ◌⊎◌, refl, ap₂, List, [], ◌∷◌, codes, arith}
use activegraph_surrealdb.Keys.{frames, encoded_parts}
use activegraph_surrealdb.Keys.Framing.{record_key_inj}
use activegraph_surrealdb.Samples.Events.{sample_platform}

pub codes_inj : (a b : String) → codes a ≡ codes b → a ≡ b
codes_inj String.[] String.[] e = refl
codes_inj String.[] (String.◌∷◌ d b) e = absurd (cc)
codes_inj (String.◌∷◌ c a) String.[] e = absurd (cc)
codes_inj (String.◌∷◌ c a) (String.◌∷◌ d b) e =
    ap₂ String.◌∷◌ (Char-path c d (cc)) (codes_inj a b (cc))

abbrev two_parts : List String
two_parts = "a" ∷ "b" ∷ []

record_key_inj_example :
    (two_parts ≡ two_parts)
    ⊎ ((frames (encoded_parts two_parts) ≢ frames (encoded_parts two_parts))
        × (sample_platform.sha256 (frames (encoded_parts two_parts))
            ≡ sample_platform.sha256 (frames (encoded_parts two_parts))))
unfolding encoded_parts
record_key_inj_example =
    record_key_inj two_parts two_parts codes_inj (omega arith, (omega arith, tt))
      (omega arith, (omega arith, tt)) refl
