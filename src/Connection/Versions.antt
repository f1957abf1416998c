-- ===== src/Connection/Versions.antt =====
-- connection.py: which versions `_assert_schema_version` accepts.
use activegraph_surrealdb.Prelude.{
  ℕ, ◌≡◌, ◌≤◌, refl, Bool, true, false, Option, none, some, ltb, arith, String, if◌then◌else◌,
}
use activegraph_surrealdb.Errors.{Result, ok, raised, ledger_integrity}
use activegraph_surrealdb.Platform.{Platform}
use activegraph_surrealdb.Connection.Schema.{SchemaRow, assert_schema_version, assert_version}

-- a version that this provider can open or upgrade
pub record IsSupported (row : SchemaRow) : Type 0 where
  pub version : ℕ
  pub stored : row.version ≡ some version
  pub at_least : 1 ≤ version
  pub at_most : version ≤ 3

module _ ⦃p : Platform⦄ where
  pub assert_schema_version-supported :
      (row : SchemaRow) → IsSupported row → assert_schema_version row ≡ ok tt
  unfolding assert_schema_version
  assert_schema_version-supported row s = ground (arith, s.stored, s.at_least, s.at_most)

-- LedgerIntegrityError, with some text
abbrev pub Refuses : Result (Unit {0}) → Type 0
Refuses r = (message : String) × (r ≡ raised ledger_integrity message)

-- A chain of two tests refuses unless both fail.
chain_Refuses :
    (a b : Bool) (x y : Result (Unit {0}))
    → Refuses x
    → Refuses y
    → ¬ ((a ≡ false) × (b ≡ false))
    → Refuses (if a then x else if b then y else ok tt)
chain_Refuses true b x y r q n = r
chain_Refuses false true x y r q n = q
chain_Refuses false false x y r q n = absurd (n (refl, refl))

module _ ⦃p : Platform⦄ where
  assert_version-Refuses :
      (row : SchemaRow) (version : Option ℕ)
      → row.version ≡ version
      → ¬ IsSupported row
      → Refuses (assert_version version)
  assert_version-Refuses row none e unsupported = (_, refl)
  assert_version-Refuses row (some version) e unsupported =
      chain_Refuses (ltb 3 version) (ltb version 1) _ _ (_, refl) (_, refl)
        (λ (low, high). unsupported (record {
          version = version;
          stored = e;
          at_least = ground (arith, high);
          at_most = ground (arith, low);
        }))

  pub assert_schema_version-Refuses :
      (row : SchemaRow) → ¬ IsSupported row → Refuses (assert_schema_version row)
  unfolding assert_schema_version
  assert_schema_version-Refuses row unsupported =
      assert_version-Refuses row row.version refl unsupported
