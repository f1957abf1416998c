-- ===== src/Keys.antt =====
-- keys.py: opaque record keys, and `SurrealConnection.record_id`, which is built on them.
pub mod Framing
use activegraph_surrealdb.Prelude.{
  ℕ, zero, suc, String, ◌+◌, ◌-◌, ◌*◌, ◌/◌, ◌%◌, ◌^◌, List, [], ◌∷◌, ◌++◌, Bool, ◌&&◌, ◌==◌,
  text_eq, length,
}
use activegraph_surrealdb.Platform.{Platform}

-- `n.to_bytes(width, "big")`, for n below 256 ^ width
unfoldable pub to_bytes : ℕ → ℕ → List ℕ
to_bytes zero n = []
to_bytes (suc width) n = to_bytes width (n / 256) ++ (n % 256) ∷ []

-- SurrealDB's RecordID
pub record RecordId : Type 0 where
  pub table : String
  pub key : String

unfoldable pub same_id : RecordId → RecordId → Bool
same_id a b = a.table == b.table && a.key == b.key

-- what one part hands to the digest: its length in eight bytes, then its bytes
unfoldable pub frame : List ℕ → List ℕ
unfolding to_bytes
frame encoded = to_bytes 8 (length encoded) ++ encoded

unfoldable pub frames : List (List ℕ) → List ℕ
unfolding frame
frames [] = []
frames (encoded ∷ rest) = frame encoded ++ frames rest

module _ ⦃p : Platform⦄ where
  unfoldable pub encoded_parts : List String → List (List ℕ)
  encoded_parts [] = []
  encoded_parts (part ∷ parts) = p.utf8 part ∷ encoded_parts parts

  -- A digest that is fed in pieces is the digest of their concatenation.
  unfoldable pub record_key : List String → String
  unfolding frames encoded_parts
  record_key parts = p.sha256 (frames (encoded_parts parts))

  unfoldable pub record_id : String → List String → RecordId
  record_id table parts = record { table = table; key = record_key (table ∷ parts) }
