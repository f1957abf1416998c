-- ===== src/Samples/Dicts.antt =====
-- A platform whose dictionaries can be read item by item, and the witness for `event_hash`. A value is
-- its own JSON: a mark for its kind, and each text of a dictionary written character by character up
-- to an end mark.
use Prim.Native.Char.{Char, code}
use activegraph_surrealdb.Prelude.{
  ℕ, zero, suc, String, ◌≤◌, ◌≡◌, ◌⊎◌, refl, ap, ◌∙◌, Option, none, some, List, [], ◌∷◌, ◌++◌, ◌==◌,
  nat_eq, text_eq, length, arith, if◌then◌else◌,
}
use activegraph_surrealdb.Errors.{Result, ok}
use activegraph_surrealdb.Platform.{Platform, JsonLaws}
use activegraph_surrealdb.Serde.{canonical_json, event_hash, optional_value}
use activegraph_surrealdb.Serde.Hashing.{
  or_else, last_value, DictLaws, Position, IsSame, Collides, event_hash_inj,
}
use activegraph_surrealdb.Samples.Framing.{codes_inj}
use activegraph_surrealdb.Samples.Machine.{machine, decimal}

-- a text, and what stands behind it
abbrev quoted : String → String → String
quoted String.[] rest = String.◌∷◌ "." (String.◌∷◌ "." rest)
quoted (String.◌∷◌ c t) rest = String.◌∷◌ "'" (String.◌∷◌ c (quoted t rest))

abbrev with_char : Char → String × String → String × String
with_char c (t, rest) = (String.◌∷◌ c t, rest)

abbrev unquoted : String → String × String
unquoted String.[] = ("", "")
unquoted (String.◌∷◌ c String.[]) = ("", "")
unquoted (String.◌∷◌ c (String.◌∷◌ d t)) =
    let rest = unquoted t in if code c == 46 then ("", t) else with_char d rest

unquoted-quoted : (t rest : String) → unquoted (quoted t rest) ≡ (t, rest)
unquoted-quoted String.[] rest = refl
unquoted-quoted (String.◌∷◌ c t) rest = ap (with_char c) (unquoted-quoted t rest)

abbrev size : String → ℕ
size String.[] = 0
size (String.◌∷◌ c t) = suc (size t)

size-quoted : (t rest : String) → size rest ≤ size (quoted t rest)
size-quoted String.[] rest = omega arith
size-quoted (String.◌∷◌ c t) rest = omega (arith, size-quoted t rest)

abbrev packed : List (String × String) → String
packed [] = ""
packed ((k, v) ∷ rest) = String.◌∷◌ "+" (quoted k (quoted v (packed rest)))

size-packed : (items : List (String × String)) → length items ≤ size (packed items)
size-packed [] = omega arith
size-packed ((k, v) ∷ rest) =
    omega
      (arith, size-packed rest, size-quoted v (packed rest), size-quoted k (quoted v (packed rest)))

-- the last value under a key, the fuel a bound on the number of items
abbrev find_value : ℕ → String → String → Option String
find_value zero key text = none
find_value (suc fuel) key String.[] = none
find_value (suc fuel) key (String.◌∷◌ c text) =
    let (k, behind) = unquoted text in
    let (v, rest) = unquoted behind in
    or_else (find_value fuel key rest) (if k == key then some v else none)

find_value-packed :
    (fuel : ℕ) (key : String) (items : List (String × String))
    → length items ≤ fuel
    → find_value fuel key (packed items) ≡ last_value key items
find_value-packed zero key [] h = refl
find_value-packed zero key (item ∷ rest) h = absurd (omega arith)
find_value-packed (suc fuel) key [] h = refl
find_value-packed (suc fuel) key ((k, v) ∷ rest) h = rw (
  unquoted-quoted k (quoted v (packed rest)),
  unquoted-quoted v (packed rest),
  find_value-packed fuel key rest (omega arith),
)

abbrev item_of : String → String → Option String
item_of value key = find_value (size value) key value

abbrev tallied : ℕ → String
tallied zero = ""
tallied (suc n) = String.◌∷◌ "1" (tallied n)

tallied_inj : (n m : ℕ) → tallied n ≡ tallied m → n ≡ m
tallied_inj zero zero e = refl
tallied_inj zero (suc m) e = absurd (cc)
tallied_inj (suc n) zero e = absurd (cc)
tallied_inj (suc n) (suc m) e = ap suc (tallied_inj n m (cc))

-- None is the empty text. The digest is the number of bytes, so that there are collisions.
instance abbrev dict_platform : Platform
dict_platform = record (machine (λ bytes. decimal 10 (length bytes))) {
  null = "";
  text = λ t. String.◌∷◌ "t" t;
  number = tallied;
  object = packed;
}

dict-JsonLaws : JsonLaws dict_platform
dict-JsonLaws = record {
  adapt-adapt = λ v a h. refl;
  loads-dumps = λ v a h. refl;
  adapt-object = λ before k v a after h. ap (λ x. ok (packed (before ++ (k, x) ∷ after))) (cc);
}

item_of-packed :
    (items : List (String × String)) (key v a : String)
    → ◌≡◌ {A = Result String} (ok (packed items)) (ok a)
    → last_value key items ≡ some v
    → item_of a key ≡ some v
item_of-packed items key v a h e =
    let same : a ≡ packed items = cc in
    ap (λ x. item_of x key) same
    ∙ find_value-packed (size (packed items)) key items (size-packed items)
    ∙ e

dict-DictLaws : DictLaws dict_platform
dict-DictLaws = record {
  get = item_of;
  get-object = λ items key v a h e. (v, refl, item_of-packed items key v a h e);
  adapt-null = refl;
  adapt-text = λ t. refl;
  adapt-number = λ n. refl;
  text_inj = λ s t e. cc;
  number_inj = tallied_inj;
  null-text = λ t e. absurd (cc);
}

abbrev task_created : Position String
task_created = record {
  scope = "acme";
  run_id = "run_1";
  seq = 3;
  event = record {
    id = "e1";
    event_type = "task.created";
    payload = "p";
    actor = some "ada";
    frame_id = none;
    caused_by = none;
    timestamp = "t1";
  };
  previous = some "h";
}

-- by another actor, whose name is as long
abbrev created_by_bob : Position String
created_by_bob = record task_created { event = record task_created.event { actor = some "bob" } }

event_hash_inj_example : IsSame task_created created_by_bob ⊎ Collides task_created created_by_bob
unfolding event_hash canonical_json optional_value
event_hash_inj_example =
    event_hash_inj dict-JsonLaws dict-DictLaws task_created created_by_bob _ codes_inj refl refl
