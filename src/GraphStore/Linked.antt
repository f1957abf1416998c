-- ===== src/GraphStore/Linked.antt =====
-- graph_store.py: what `put_relation` stores between stored endpoints, with no other session at work.
use activegraph_surrealdb.Prelude.{
  String, ◌≡◌, none, some, List, [], ◌∷◌, nat_eq, text_eq, arith, eq_iff, refl,
}
use activegraph_surrealdb.Errors.{ok}
use activegraph_surrealdb.Platform.{Platform, JsonLaws, adapt}
use activegraph_surrealdb.Serde.{
  Relation, RelationRecord, canonical_json, relation_to_record, record_to_relation,
}
use activegraph_surrealdb.Serde.RoundTrip.{record_to_relation-relation_to_record}
use activegraph_surrealdb.Surreal.Records.{select-write_same}
use activegraph_surrealdb.GraphStore.Rows.{
  VertexRow, GraphServer, GraphDb, GraphWrite, delete_relation, insert_relation, apply_graph_writes,
}
use activegraph_surrealdb.GraphStore.Session.{
  GraphHandle, assert_scoped_row, vertex_record_id, relation_record_id,
}
use activegraph_surrealdb.GraphStore.Relations.{
  begin_transaction, commit, ensure_placeholder, put_relation_body, put_relation, get_relation,
  select_relation, tx_select_vertex, tx_delete_relation, tx_insert_relation, relation_row,
  relation_of_row,
}
use activegraph_surrealdb.GraphStore.Lifecycle.{
  at_rest, action_steps, IsReadable, assert_readable-ok,
}
use activegraph_surrealdb.GraphStore.Rebuild.{GraphLaws}

module _ ⦃p : Platform⦄ ⦃s : GraphServer⦄ (h : GraphHandle) (d : GraphDb s.tables) where
  -- the vertex of this ID is stored, as an object or as a placeholder
  pub record IsVertex (object_id : String) : Type 0 where
    pub row : VertexRow
    pub found : s.tables.vertices.select d.vertices (vertex_record_id h object_id) ≡ some row
    pub in_scope : row.scope ≡ h.scope
    pub of_run : row.run_id ≡ h.run_id
    pub logical : row.object_id ≡ object_id

  -- the writes of `put_relation` between stored endpoints
  abbrev pub linking : Relation p.Value → RelationRecord → List GraphWrite
  linking rel encoded =
      delete_relation (relation_record_id h rel.id)
      ∷ insert_relation (relation_record_id h rel.id) (relation_row h rel encoded)
      ∷ []

  assert_scoped_row-IsVertex :
      (object_id : String) (v : IsVertex object_id)
      → assert_scoped_row h v.row.scope v.row.run_id (some (v.row.object_id, object_id)) ≡ ok tt
  unfolding assert_scoped_row
  assert_scoped_row-IsVertex object_id v = ground (
    arith,
    v.in_scope,
    v.of_run,
    v.logical,
    eq_iff v.row.scope h.scope,
    eq_iff v.row.run_id h.run_id,
    eq_iff v.row.object_id object_id,
  )

  put_relation-linked :
      (rel : Relation p.Value) (encoded : RelationRecord)
      → IsReadable h d
      → IsVertex rel.source
      → IsVertex rel.target
      → relation_to_record rel ≡ ok encoded
      → s.tables.relations.refuses
          (relation_record_id h rel.id)
          (relation_row h rel encoded)
          (s.tables.relations.delete (relation_record_id h rel.id) d.relations)
        ≡ none
      → s.conflict (record { base = d; writes = linking rel encoded }) d ≡ none
      → put_relation rel (at_rest h d)
        ≡ (ok tt, at_rest h (apply_graph_writes s.tables d (linking rel encoded)))
  unfolding action_steps put_relation put_relation_body begin_transaction commit ensure_placeholder
      tx_select_vertex tx_delete_relation tx_insert_relation
  put_relation-linked rel encoded r a b e allowed accepted = ground (
    arith,
    assert_readable-ok h d r,
    a.found,
    b.found,
    assert_scoped_row-IsVertex rel.source a,
    assert_scoped_row-IsVertex rel.target b,
    e,
    allowed,
    accepted,
  )

  get_relation-readable :
      (relation_id : String)
      → IsReadable h d
      → get_relation relation_id (at_rest h d) ≡ (
        relation_of_row h relation_id
            (s.tables.relations.select d.relations (relation_record_id h relation_id)),
        at_rest h d,
      )
  unfolding action_steps get_relation select_relation
  get_relation-readable relation_id r = ground (arith, assert_readable-ok h d r)

module _ ⦃p : Platform⦄ where
  encoded_id :
      (rel : Relation p.Value) (encoded : RelationRecord)
      → relation_to_record rel ≡ ok encoded
      → encoded.relation_id ≡ rel.id
  unfolding relation_to_record canonical_json
  encoded_id rel encoded e = ground arith

  relation_of_row-relation_row :
      (h : GraphHandle) (rel stored : Relation p.Value) (encoded : RelationRecord)
      → relation_to_record rel ≡ ok encoded
      → record_to_relation encoded ≡ ok stored
      → relation_of_row h rel.id (some (relation_row h rel encoded)) ≡ ok (some stored)
  unfolding relation_of_row relation_row assert_scoped_row
  relation_of_row-relation_row h rel stored encoded e g = ground (
    arith,
    g,
    eq_iff h.scope h.scope,
    eq_iff h.run_id h.run_id,
    encoded_id rel encoded e,
    eq_iff encoded.relation_id rel.id,
  )

module _ ⦃p : Platform⦄ ⦃s : GraphServer⦄ (laws : GraphLaws s) (h : GraphHandle)
    (d : GraphDb s.tables) where
  -- On a readable projection that holds both endpoints, `put_relation` of a relation that can be
  -- encoded, that INSERT does not refuse once the older record of its ID is deleted and whose commit
  -- is accepted, returns and writes no vertex; the relation is then found under its ID with its two
  -- values in plain JSON form.
  pub get_relation-put_relation :
      (json : JsonLaws p) (rel : Relation p.Value) (encoded : RelationRecord)
      → IsReadable h d
      → IsVertex h d rel.source
      → IsVertex h d rel.target
      → relation_to_record rel ≡ ok encoded
      → s.tables.relations.refuses
          (relation_record_id h rel.id)
          (relation_row h rel encoded)
          (s.tables.relations.delete (relation_record_id h rel.id) d.relations)
        ≡ none
      → s.conflict (record { base = d; writes = linking h d rel encoded }) d ≡ none
      → let after = put_relation rel (at_rest h d) in
        (after.0 ≡ ok tt)
        × (after.1.db.vertices ≡ d.vertices)
        × ((a b : p.Value) × (adapt rel.properties ≡ ok a)
            × (adapt rel.provenance ≡ ok b)
            × ((get_relation rel.id after.1).0
                ≡ ok (some (record rel { properties = a; provenance = b }))))
  get_relation-put_relation json rel encoded r source target e allowed accepted =
      let (a, b, first, second, back) = record_to_relation-relation_to_record json rel encoded e in
      let d' = apply_graph_writes s.tables d (linking h d rel encoded) in
      let found =
        select-write_same laws.relations (relation_record_id h rel.id) (relation_row h rel encoded)
          (s.tables.relations.delete (relation_record_id h rel.id) d.relations) in
      let readable : IsReadable h d' = record {
        open_handle = r.open_handle;
        row = r.row;
        found = r.found;
        in_scope = r.in_scope;
        of_run = r.of_run;
        serving = r.serving;
      } in
      rw (put_relation-linked h d rel encoded r source target e allowed accepted) (
        refl,
        refl,
        (
          a,
          b,
          first,
          second,
          rw (get_relation-readable h d' rel.id readable)
              (rw found (relation_of_row-relation_row h rel _ encoded e back)),
        ),
      )
