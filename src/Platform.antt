-- ===== src/Platform.antt =====
-- What the provider calls and does not implement: Python's text and hash functions, ActiveGraph's
-- `encode_payload`, and the `json` module. `Value` stands for Python values that a payload, a
-- dictionary literal or decoded JSON may be.
use activegraph_surrealdb.Prelude.{ℕ, String, ◌≡◌, Bool, List, ◌++◌, ◌∷◌}
use activegraph_surrealdb.Errors.{Result, ok, ◌>>=◌}

pub record Platform : Type 1 where
  pub Value : Type 0
  -- the values of a dictionary literal
  pub null : Value
  pub text : String → Value
  pub number : ℕ → Value
  pub object : List (String × Value) → Value
  -- activegraph.store.serde.encode_payload raises NonSerializableEventError
  pub encode_payload : Value → Result String
  -- json.loads, and json.dumps with sorted keys and compact separators
  pub loads : String → Result Value
  pub dumps : Value → String
  -- list(v)
  pub listed : Value → Result Value
  -- str(n) of a number
  pub shown : ℕ → String
  -- str.encode("utf-8"), for texts with no lone surrogate, hashlib.sha256(…).hexdigest(), repr, str.lower, and `needle in haystack`
  pub utf8 : String → List ℕ
  pub sha256 : List ℕ → String
  pub repr : String → String
  pub lower : String → String
  pub contains : String → String → Bool

module _ ⦃p : Platform⦄ where
  -- What `loads(encode_payload(v))` makes of a value: its plain JSON form.
  abbrev pub adapt : p.Value → Result p.Value
  adapt v = do t ← p.encode_payload v; p.loads t

-- What the code relies on: JSON that was decoded is printed and read back unchanged, and adapting
-- goes through the items of a dictionary, each by itself.
pub record JsonLaws (p : Platform) : Type 0 where
  pub adapt-adapt : (v a : p.Value) → adapt ⦃p = p⦄ v ≡ ok a → adapt ⦃p = p⦄ a ≡ ok a
  pub loads-dumps : (v a : p.Value) → adapt ⦃p = p⦄ v ≡ ok a → p.loads (p.dumps a) ≡ ok a
  pub adapt-object :
      (before : List (String × p.Value)) (k : String) (v a : p.Value)
      (after : List (String × p.Value))
      → adapt ⦃p = p⦄ v ≡ ok a
      → adapt ⦃p = p⦄ (p.object (before ++ (k, v) ∷ after))
        ≡ adapt ⦃p = p⦄ (p.object (before ++ (k, a) ∷ after))
