-- ===== src/GraphStore/Queries/Reach.antt =====
-- graph_store.py: the relations of a run as a graph, and what lies within a number of steps.
use activegraph_surrealdb.Prelude.{
  ℕ, zero, suc, String, ◌≡◌, ◌↔◌, ◌⊎◌, inl, inr, refl, true, ◌&&◌, List, text_eq, arith, eq_iff,
  Elem, member, Bool-cases, some,
}
use activegraph_surrealdb.Keys.{RecordId}
use activegraph_surrealdb.GraphStore.Rows.{
  RelationRow, GraphServer, GraphDb, relation_in, touches, by_relation_id,
}
use activegraph_surrealdb.GraphStore.Session.{GraphHandle}
use activegraph_surrealdb.GraphStore.Queries.Sets.{is_endpoint}
use activegraph_surrealdb.GraphStore.Rebuild.{GraphLaws}

abbrev pub Touches : String → RelationRow → Type 0
Touches v row = (v ≡ row.content.source) ⊎ (v ≡ row.content.target)

pub Touches-is_endpoint :
    (v : String) (row : RelationRow) → Touches v row ↔ (is_endpoint v row ≡ true)
Touches-is_endpoint v row = (
  λ t. ground (arith, eq_iff v row.content.source, eq_iff v row.content.target),
  λ t. ground (arith, eq_iff v row.content.source, eq_iff v row.content.target),
)

module _ ⦃s : GraphServer⦄ (h : GraphHandle) (d : GraphDb s.tables) where
  -- a stored relation of the run
  pub record IsEdge (row : RelationRow) : Type 0 where
    pub key : RecordId
    pub stored : s.tables.relations.select d.relations key ≡ some row
    pub in_scope : row.scope ≡ h.scope
    pub of_run : row.run_id ≡ h.run_id

  -- the objects that at most n relations lead to, whichever way they point, and the relations at an
  -- object that fewer lead to
  abbrev pub Within : String → ℕ → String → Type 0
  Within start zero v = v ≡ start
  Within start (suc n) v =
      Within start n v
      ⊎ ((u : String) × (row : RelationRow) × Within start n u
          × IsEdge row
          × Touches u row
          × Touches v row)

  abbrev pub Crossed : String → ℕ → String → Type 0
  Crossed start zero r = ⊥
  Crossed start (suc n) r =
      Crossed start n r
      ⊎ ((u : String) × (row : RelationRow) × Within start n u
          × IsEdge row
          × Touches u row
          × (row.content.relation_id ≡ r))

  abbrev pub incident : List String → List RelationRow
  incident frontier =
      s.tables.relations.select_where
        (λ row. relation_in h.scope h.run_id row && touches frontier row) by_relation_id d.relations

  module _ (laws : GraphLaws s) where
    pub incident-IsEdge :
        (frontier : List String) (row : RelationRow)
        → Elem row (incident frontier)
        → IsEdge row × ((u : String) × (member u frontier ≡ true) × Touches u row)
    incident-IsEdge frontier row inside =
        let (kept, k, stored) =
          laws.relations.select_where_sound
            (λ r. relation_in h.scope h.run_id r && touches frontier r) by_relation_id d.relations
            row inside in
        (
          record {
            key = k;
            stored = stored;
            in_scope = ground (arith, kept, eq_iff row.scope h.scope);
            of_run = ground (arith, kept, eq_iff row.run_id h.run_id);
          },
          elim (Bool-cases (member row.content.source frontier)) [
            | inl at_source ↦ (row.content.source, at_source, inl refl)
            | inr elsewhere ↦ (row.content.target, ground (arith, kept), inr refl)
          ],
        )

    pub IsEdge-incident :
        (frontier : List String) (row : RelationRow) (u : String)
        → IsEdge row
        → member u frontier ≡ true
        → Touches u row
        → Elem row (incident frontier)
    IsEdge-incident frontier row u edge inside touching =
        laws.relations.Elem-select_where (λ r. relation_in h.scope h.run_id r && touches frontier r)
          by_relation_id d.relations edge.key row edge.stored (kept touching)
      where
        kept : Touches u row → (relation_in h.scope h.run_id row && touches frontier row) ≡ true
        kept (inl e) = ground (
          arith,
          e,
          inside,
          edge.in_scope,
          edge.of_run,
          eq_iff row.scope h.scope,
          eq_iff row.run_id h.run_id,
        )
        kept (inr e) = ground (
          arith,
          e,
          inside,
          edge.in_scope,
          edge.of_run,
          eq_iff row.scope h.scope,
          eq_iff row.run_id h.run_id,
        )
