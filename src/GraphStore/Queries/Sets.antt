-- ===== src/GraphStore/Queries/Sets.antt =====
-- graph_store.py: which texts are in the sets that the neighbourhood walk builds.
use activegraph_surrealdb.Prelude.{
  String, ◌≡◌, inl, inr, refl, sym, subst, not, ◌&&◌, Bool, true, false, ◌||◌, List, [], ◌∷◌, ◌++◌,
  ◌==◌, text_eq, beq-eq, beq_refl, arith, eq_iff, Elem, member, add_new, add_all, Bool-cases,
}
use activegraph_surrealdb.GraphStore.Rows.{RelationRow}
use activegraph_surrealdb.GraphStore.Queries.{next_frontier, next_endpoint, relation_ids}

pub member-append :
    (v : String) (xs ys : List String) → member v (xs ++ ys) ≡ (member v xs || member v ys)
member-append v [] ys = ground arith
member-append v (x ∷ xs) ys = ground (arith, member-append v xs ys)

pub member-add_new :
    (v t : String) (xs : List String) → member v (add_new t xs) ≡ (member v xs || v == t)
member-add_new v t xs = ground (arith, member-append v xs (t ∷ []), eq_iff v t)

pub member-add_all :
    (v : String) (ts xs : List String) → member v (add_all ts xs) ≡ (member v xs || member v ts)
member-add_all v [] xs = ground arith
member-add_all v (t ∷ ts) xs =
    ground (arith, member-add_all v ts (add_new t xs), member-add_new v t xs)

-- is the text an endpoint of the row, or of one of the rows? is it the ID of one?
abbrev pub is_endpoint : String → RelationRow → Bool
is_endpoint v row = v == row.content.source || v == row.content.target

abbrev pub is_endpoint_of : String → List RelationRow → Bool
is_endpoint_of v [] = false
is_endpoint_of v (row ∷ rows) = is_endpoint v row || is_endpoint_of v rows

abbrev pub is_id_of : String → List RelationRow → Bool
is_id_of r [] = false
is_id_of r (row ∷ rows) = r == row.content.relation_id || is_id_of r rows

member-next_endpoint :
    (snapshot : List String) (v t : String) (found : List String)
    → member v (next_endpoint snapshot t found)
      ≡ (member v found || (not (member v snapshot) && v == t))
member-next_endpoint snapshot v t found = ground (arith, member-add_new v t found, eq_iff v t)

pub member-next_frontier :
    (snapshot : List String) (v : String) (rows : List RelationRow) (found : List String)
    → member v (next_frontier snapshot rows found)
      ≡ (member v found || (not (member v snapshot) && is_endpoint_of v rows))
unfolding next_frontier
member-next_frontier snapshot v [] found = ground arith
member-next_frontier snapshot v (row ∷ rows) found =
    let first = next_endpoint snapshot row.content.source found in
    ground (
      arith,
      member-next_frontier snapshot v rows (next_endpoint snapshot row.content.target first),
      member-next_endpoint snapshot v row.content.target first,
      member-next_endpoint snapshot v row.content.source found,
    )

pub member-relation_ids :
    (r : String) (rows : List RelationRow) (seen : List String)
    → member r (relation_ids rows seen) ≡ (member r seen || is_id_of r rows)
unfolding relation_ids
member-relation_ids r [] seen = ground arith
member-relation_ids r (row ∷ rows) seen = ground (
  arith,
  member-relation_ids r rows (add_new row.content.relation_id seen),
  member-add_new r row.content.relation_id seen,
)

-- A test that some row passes is passed by a row of the list.
pub is_endpoint_of-Elem :
    (v : String) (rows : List RelationRow)
    → is_endpoint_of v rows ≡ true
    → (row : RelationRow) × Elem row rows × (is_endpoint v row ≡ true)
is_endpoint_of-Elem v [] h = absurd (cc)
is_endpoint_of-Elem v (row ∷ rows) h = elim (Bool-cases (is_endpoint v row)) [
  | inl here ↦ (row, inl refl, here)
  | inr not_here ↦
      let (found, inside, passes) = is_endpoint_of-Elem v rows (ground arith) in
      (found, inr inside, passes)
]

pub is_id_of-Elem :
    (r : String) (rows : List RelationRow)
    → is_id_of r rows ≡ true
    → (row : RelationRow) × Elem row rows × (row.content.relation_id ≡ r)
is_id_of-Elem r [] h = absurd (cc)
is_id_of-Elem r (row ∷ rows) h = elim (Bool-cases (r == row.content.relation_id)) [
  | inl here ↦ (row, inl refl, sym (beq-eq r row.content.relation_id here))
  | inr not_here ↦
      let (found, inside, same) = is_id_of-Elem r rows (ground arith) in (found, inr inside, same)
]

pub Elem-is_endpoint_of :
    (v : String) (row : RelationRow) (rows : List RelationRow)
    → Elem row rows
    → is_endpoint v row ≡ true
    → is_endpoint_of v rows ≡ true
Elem-is_endpoint_of v row [] inside h = absurd inside
Elem-is_endpoint_of v row (x ∷ rows) (inl same) h =
    let e : is_endpoint v x ≡ true = subst (λ y. is_endpoint v y ≡ true) same h in ground arith
Elem-is_endpoint_of v row (x ∷ rows) (inr inside) h =
    ground (arith, Elem-is_endpoint_of v row rows inside h)

pub Elem-is_id_of :
    (row : RelationRow) (rows : List RelationRow)
    → Elem row rows
    → is_id_of row.content.relation_id rows ≡ true
Elem-is_id_of row [] inside = absurd inside
Elem-is_id_of row (x ∷ rows) (inl same) =
    subst (λ y. is_id_of row.content.relation_id (y ∷ rows) ≡ true) same
      (ground (arith, beq_refl row.content.relation_id))
Elem-is_id_of row (x ∷ rows) (inr inside) = ground (arith, Elem-is_id_of row rows inside)
