-- ===== src/Samples/Machine.antt =====
-- A platform whose values are texts: encoding keeps them, and a dictionary is the text of its items.
use Prim.Native.String.{◌++◌ as text_append}
use text.Mathlib.Text.{find?}
use activegraph_surrealdb.Prelude.{
  ℕ, zero, suc, String, ◌+◌, ◌*◌, ◌/◌, ◌%◌, refl, ap, List, [], ◌∷◌, ◌++◌, ◌==◌, nat_eq, is_some,
  codes, if◌then◌else◌,
}
use activegraph_surrealdb.Errors.{ok}
use activegraph_surrealdb.Platform.{Platform, JsonLaws}

abbrev digit : ℕ → String
digit n =
    if n == 0
    then "0"
    else if n == 1
    then "1"
    else if n == 2
    then "2"
    else if n == 3
    then "3"
    else if n == 4
    then "4"
    else if n == 5
    then "5"
    else if n == 6
    then "6"
    else if n == 7
    then "7"
    else if n == 8
    then "8"
    else "9"

-- decimal digits, the fuel a bound on their number
abbrev pub decimal : ℕ → ℕ → String
decimal zero n = ""
decimal (suc fuel) n =
    let front = decimal fuel (n / 10) in
    if n / 10 == 0 then digit n else text_append front (digit (n % 10))

abbrev pub mix : ℕ → List ℕ → ℕ
mix h [] = h
mix h (b ∷ bs) = mix ((h * 257 + b) % 1000000007) bs

abbrev pub items : List (String × String) → String
items [] = ""
items ((k, v) ∷ rest) =
    text_append k (text_append ":" (text_append v (text_append "," (items rest))))

abbrev pub machine : (List ℕ → String) → Platform
machine digest = record {
  Value = String;
  null = "null";
  text = λ t. t;
  number = λ n. decimal 20 n;
  object = items;
  encode_payload = λ v. ok v;
  loads = λ t. ok t;
  dumps = λ a. a;
  listed = λ v. ok v;
  shown = λ n. decimal 20 n;
  utf8 = codes;
  sha256 = digest;
  repr = λ t. t;
  lower = λ t. t;
  contains = λ needle hay. is_some (find? hay needle);
}

abbrev pub sample : Platform
sample = machine (λ bytes. decimal 10 (mix 7 bytes))

pub machine-JsonLaws : (digest : List ℕ → String) → JsonLaws (machine digest)
machine-JsonLaws digest = record {
  adapt-adapt = λ v a h. refl;
  loads-dumps = λ v a h. refl;
  adapt-object = λ before k v a after h. ap (λ x. ok (items (before ++ (k, x) ∷ after))) (cc);
}
