-- ===== src/GraphStore/Relations.antt =====
-- graph_store.py: relations, and the transaction of `put_relation`.
use activegraph_surrealdb.Prelude.{String, Option, none, some, List, [], ◌∷◌, ◌++◌, Bool, text_eq}
use activegraph_surrealdb.Errors.{Result, ok, ◌>>=◌ as and_then, raised, sdk_error}
use activegraph_surrealdb.Exec.{pure, fail, lift, gets, call, ask, try_else, ◌>>=◌, ◌>>◌}
use activegraph_surrealdb.Platform.{Platform}
use activegraph_surrealdb.Serde.{Relation, RelationRecord, relation_to_record, record_to_relation}
use activegraph_surrealdb.Keys.{RecordId}
use activegraph_surrealdb.GraphStore.Rows.{
  VertexRow, RelationRow, GraphServer, GraphDb, GraphTx, GraphWrite, create_vertex, delete_relation,
  insert_relation, apply_graph_writes, relation_in, by_relation_id,
}
use activegraph_surrealdb.GraphStore.Session.{
  GraphHandle, GraphMethod, assert_scoped_row, assert_readable, vertex_record_id,
  relation_record_id,
}
use activegraph_surrealdb.GraphStore.Objects.{placeholder_content, decode_all}

module _ ⦃s : GraphServer⦄ where
  abbrev pub Tx : Type 0
  Tx = GraphTx s.tables

  abbrev pub view : Tx → GraphDb s.tables
  view tx = apply_graph_writes s.tables tx.base tx.writes

  abbrev pub with_write : Tx → GraphWrite → Tx
  with_write tx w = record tx { writes = tx.writes ++ w ∷ [] }

  abbrev pub unless : Option String → Tx → Result Tx
  unless none tx = ok tx
  unless (some reason) tx = raised sdk_error reason

  unfoldable pub begin_transaction : GraphMethod Tx
  begin_transaction = ask (λ d. ok (record { base = d; writes = [] }))

  unfoldable pub tx_select_vertex : Tx → RecordId → GraphMethod (Option VertexRow)
  tx_select_vertex tx k = ask (λ d. ok (s.tables.vertices.select (view tx).vertices k))

  unfoldable pub tx_create_vertex : Tx → RecordId → VertexRow → GraphMethod Tx
  tx_create_vertex tx k row = ask (λ d.
      unless (s.tables.vertices.refuses k row (view tx).vertices)
        (with_write tx (create_vertex k row)))

  unfoldable pub tx_delete_relation : Tx → RecordId → GraphMethod Tx
  tx_delete_relation tx k = ask (λ d. ok (with_write tx (delete_relation k)))

  unfoldable pub tx_insert_relation : Tx → RecordId → RelationRow → GraphMethod Tx
  tx_insert_relation tx k row = ask (λ d.
      unless (s.tables.relations.refuses k row (view tx).relations)
        (with_write tx (insert_relation k row)))

  abbrev pub commit_on :
      Tx → Option String → GraphDb s.tables → Result (Unit {0}) × GraphDb s.tables
  commit_on tx none d = (ok tt, apply_graph_writes s.tables d tx.writes)
  commit_on tx (some reason) d = (raised sdk_error reason, d)

  unfoldable pub commit : Tx → GraphMethod (Unit {0})
  commit tx = call (λ d. commit_on tx (s.conflict tx d) d)

  -- `with suppress(BaseException): transaction.cancel()`
  unfoldable pub cancel : GraphMethod (Unit {0})
  cancel = try_else (ask (λ d. ok tt)) (λ exc. pure tt) pure

  unfoldable pub select_relation : RecordId → GraphMethod (Option RelationRow)
  select_relation k = ask (λ d. ok (s.tables.relations.select d.relations k))

  unfoldable pub drop_relation : RecordId → GraphMethod (Unit {0})
  drop_relation k =
      call (λ d. (ok tt, record d { relations = s.tables.relations.delete k d.relations }))

  unfoldable pub query_relations :
      (RelationRow → Bool) → (RelationRow → RelationRow → Bool) → GraphMethod (List RelationRow)
  query_relations keep before =
      ask (λ d. ok (s.tables.relations.select_where keep before d.relations))

module _ ⦃p : Platform⦄ where
  unfoldable pub relation_of_row :
      GraphHandle → String → Option RelationRow → Result (Option (Relation p.Value))
  relation_of_row h relation_id none = ok none
  relation_of_row h relation_id (some row) =
      and_then
        (assert_scoped_row h row.scope row.run_id (some (row.content.relation_id, relation_id)))
        (λ _. and_then (record_to_relation row.content) (λ rel. ok (some rel)))

  unfoldable pub decode_relations : List RelationRow → Result (List (Relation p.Value))
  decode_relations = decode_all (λ row. record_to_relation row.content)

  unfoldable pub relation_row : GraphHandle → Relation p.Value → RelationRecord → RelationRow
  relation_row h rel encoded = record {
    scope = h.scope;
    run_id = h.run_id;
    source_vertex = vertex_record_id h rel.source;
    target_vertex = vertex_record_id h rel.target;
    content = encoded;
  }

module _ ⦃p : Platform⦄ ⦃s : GraphServer⦄ where
  abbrev pub placeholder_if_missing : Tx → GraphHandle → String → Option VertexRow → GraphMethod Tx
  placeholder_if_missing tx h object_id none =
      tx_create_vertex tx (vertex_record_id h object_id) (placeholder_content h object_id)
  placeholder_if_missing tx h object_id (some row) = do
    lift (assert_scoped_row h row.scope row.run_id (some (row.object_id, object_id)))
    pure tx

  -- `_ensure_placeholder_in_transaction`
  unfoldable pub ensure_placeholder : Tx → String → GraphMethod Tx
  ensure_placeholder tx object_id = do
    h ← gets (λ h. h)
    row ← tx_select_vertex tx (vertex_record_id h object_id)
    placeholder_if_missing tx h object_id row

  -- the `try` clause of `put_relation`
  unfoldable pub put_relation_body : Relation p.Value → Tx → GraphMethod (Unit {0})
  put_relation_body rel transaction = do
    h ← gets (λ h. h)
    with_source ← ensure_placeholder transaction rel.source
    with_target ← ensure_placeholder with_source rel.target
    deleted ← tx_delete_relation with_target (relation_record_id h rel.id)
    encoded ← lift (relation_to_record rel)
    inserted ← tx_insert_relation deleted (relation_record_id h rel.id) (relation_row h rel encoded)
    commit inserted

  unfoldable pub put_relation : Relation p.Value → GraphMethod (Unit {0})
  put_relation rel = do
    assert_readable
    transaction ← begin_transaction
    try_else (put_relation_body rel transaction) (λ exc. cancel >> fail exc) pure

  unfoldable pub get_relation : String → GraphMethod (Option (Relation p.Value))
  get_relation relation_id = do
    assert_readable
    h ← gets (λ h. h)
    row ← select_relation (relation_record_id h relation_id)
    lift (relation_of_row h relation_id row)

  unfoldable pub remove_relation : String → GraphMethod (Unit {0})
  remove_relation relation_id = do
    assert_readable
    h ← gets (λ h. h)
    drop_relation (relation_record_id h relation_id)

  unfoldable pub all_relations : GraphMethod (List (Relation p.Value))
  all_relations = do
    assert_readable
    h ← gets (λ h. h)
    rows ← query_relations (relation_in h.scope h.run_id) by_relation_id
    lift (decode_relations rows)
