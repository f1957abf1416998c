-- ===== src/Surreal/Records.antt =====
-- What a statement leaves in a table, from the laws of `Collection`.
use activegraph_surrealdb.Prelude.{
  ◌≡◌, ap, ◌↔◌, Option, none, some, true, false, Bool, not, arith, text_eq, eq_iff, ◌∙◌,
  if◌then◌else◌,
}
use activegraph_surrealdb.Keys.{RecordId, same_id}
use activegraph_surrealdb.Surreal.{Collection, CollectionLaws, keep_option}

pub same_id_refl : (k : RecordId) → same_id k k ≡ true
unfolding same_id
same_id_refl k = ground (arith, eq_iff k.table k.table, eq_iff k.key k.key)

-- What is written under a record ID is found there.
pub select-write_same :
    {Row : Type 0} {c : Collection Row}
    → CollectionLaws c
    → (k : RecordId) (r : Row) (t : c.Table) → c.select (c.write k r t) k ≡ some r
select-write_same {c} laws k r t =
    laws.select-write k r t k ∙ ap (λ b. if b then some r else c.select t k) (same_id_refl k)

-- After a DELETE exactly the records are left that its clause rejects.
module _ {Row : Type 0} where
  abbrev pub Left : (c : Collection Row) → (Row → Bool) → c.Table → c.Table → Type 0
  Left c gone before after =
      (k : RecordId) (r : Row)
      → (c.select after k ≡ some r) ↔ ((c.select before k ≡ some r) × (gone r ≡ false))

  kept_iff :
      (gone : Row → Bool) (o : Option Row) (r : Row)
      → (keep_option (λ x. not (gone x)) o ≡ some r) ↔ ((o ≡ some r) × (gone r ≡ false))
  kept_iff gone none r = (λ h. absurd (cc), λ h. absurd (cc h.0))
  kept_iff gone (some x) r = (λ h. ground arith, λ h. ground arith)

  pub delete_where-Left :
      {c : Collection Row}
      → CollectionLaws c
      → (gone : Row → Bool) (t : c.Table) → Left c gone t (c.delete_where gone t)
  delete_where-Left laws gone t k r = rw (laws.select-delete_where gone t k) (kept_iff gone _ r)
