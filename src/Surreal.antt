-- ===== src/Surreal.antt =====
-- SurrealDB as the provider uses it. The engine is not part of the repository, so it is a
-- parameter: `Collection` is one table, with an operation for each form of statement in use, and
-- `CollectionLaws` what the code relies on.
pub mod Sorting
pub mod Memory
pub mod Records
use activegraph_surrealdb.Prelude.{
  String, ◌≡◌, ◌⊎◌, Bool, true, false, not, ◌&&◌, Option, none, some, List, [], ◌∷◌, All, Elem,
  keep_if, if◌then◌else◌,
}
use activegraph_surrealdb.Keys.{RecordId, same_id}

-- One more row in a list that is in order.
unfoldable pub insert_by : {Row : Type 0} → (Row → Row → Bool) → Row → List Row → List Row
insert_by before r [] = r ∷ []
insert_by before r (x ∷ xs) = if before r x then r ∷ x ∷ xs else x ∷ insert_by before r xs

abbrev pub keep_option : {Row : Type 0} → (Row → Bool) → Option Row → Option Row
keep_option keep none = none
keep_option keep (some r) = if keep r then some r else none

pub record Collection (Row : Type 0) : Type 1 where
  pub Table : Type 0
  -- SELECT * FROM ONLY $record
  pub select : Table → RecordId → Option Row
  -- why CREATE of this record with this content is refused: the record exists, or a unique index
  pub refuses : RecordId → Row → Table → Option String
  -- the record has this content, whether it was there or not (CREATE, UPSERT)
  pub write : RecordId → Row → Table → Table
  -- DELETE $record, and DELETE table WHERE …
  pub delete : RecordId → Table → Table
  pub delete_where : (Row → Bool) → Table → Table
  -- SELECT * FROM table WHERE … ORDER BY …, the order given by "comes before"
  pub select_where : (Row → Bool) → (Row → Row → Bool) → Table → List Row

-- What makes "comes before" an order: two rows do not precede each other, and what precedes a row
-- precedes every row that does not precede that row.
pub record IsOrder {Row : Type 0} (before : Row → Row → Bool) : Type 0 where
  pub asym : (a b : Row) → before a b ≡ true → before b a ≡ false
  pub trans_weak : (a b c : Row) → before a b ≡ true → before c b ≡ false → before a c ≡ true

pub record CollectionLaws {Row : Type 0} (c : Collection Row) : Type 0 where
  pub select-write :
      (k : RecordId) (r : Row) (t : c.Table) (j : RecordId)
      → c.select (c.write k r t) j ≡ (if same_id k j then some r else c.select t j)
  pub select-delete :
      (k : RecordId) (t : c.Table) (j : RecordId)
      → c.select (c.delete k t) j ≡ (if same_id k j then none else c.select t j)
  pub select-delete_where :
      (gone : Row → Bool) (t : c.Table) (j : RecordId)
      → c.select (c.delete_where gone t) j ≡ keep_option (λ r. not (gone r)) (c.select t j)
  -- CREATE never overwrites a record.
  pub refuses_taken :
      (k : RecordId) (r old : Row) (t : c.Table)
      → c.refuses k r t ≡ none
      → c.select t k ≡ some old
      → ⊥
  -- A query finds every record that the clause accepts, and nothing else.
  pub Elem-select_where :
      (keep : Row → Bool) (before : Row → Row → Bool) (t : c.Table) (k : RecordId) (r : Row)
      → c.select t k ≡ some r
      → keep r ≡ true
      → Elem r (c.select_where keep before t)
  pub select_where_sound :
      (keep : Row → Bool) (before : Row → Row → Bool) (t : c.Table) (r : Row)
      → Elem r (c.select_where keep before t)
      → (keep r ≡ true) × (k : RecordId) × (c.select t k ≡ some r)
  -- A new record is found at its place in the order, if that ranks it against each row found.
  pub select_where-write :
      (keep : Row → Bool) (before : Row → Row → Bool) (k : RecordId) (r : Row) (t : c.Table)
      → c.select t k ≡ none
      → keep r ≡ true
      → All (λ x. (before r x ≡ true) ⊎ (before x r ≡ true)) (c.select_where keep before t)
      → c.select_where keep before (c.write k r t)
        ≡ insert_by before r (c.select_where keep before t)
  pub select_where-write_other :
      (keep : Row → Bool) (before : Row → Row → Bool) (k : RecordId) (r : Row) (t : c.Table)
      → c.select t k ≡ none
      → keep r ≡ false
      → c.select_where keep before (c.write k r t) ≡ c.select_where keep before t
  pub select_where-delete_where :
      (keep : Row → Bool) (before : Row → Row → Bool) (gone : Row → Bool) (t : c.Table)
      → IsOrder before
      → c.select_where keep before (c.delete_where gone t)
        ≡ keep_if (λ r. not (gone r)) (c.select_where keep before t)
  -- A query with one more condition finds the rows of the other query that meet it, in their order.
  pub select_where-and :
      (keep more : Row → Bool) (before : Row → Row → Bool) (t : c.Table)
      → IsOrder before
      → c.select_where (λ r. keep r && more r) before t
        ≡ keep_if more (c.select_where keep before t)
