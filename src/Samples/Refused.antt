-- ===== src/Samples/Refused.antt =====
-- Tests and witnesses for `put_relation` of graph_store.py on a server that refuses every commit.
use activegraph_surrealdb.Prelude.{String, ◌≡◌, refl, some, [], ◌∷◌}
use activegraph_surrealdb.Errors.{sdk_error, raised}
use activegraph_surrealdb.Serde.{Relation, relation_to_record, canonical_json}
use activegraph_surrealdb.Surreal.Memory.{memory}
use activegraph_surrealdb.GraphStore.Rows.{
  ProjectionRow, VertexRow, RelationRow, PatchRow, GraphServer, GraphDb,
}
use activegraph_surrealdb.GraphStore.Session.{projection_record, serves}
use activegraph_surrealdb.GraphStore.Relations.{
  begin_transaction, commit, cancel, ensure_placeholder, put_relation_body, put_relation,
  tx_select_vertex, tx_create_vertex, tx_delete_relation, tx_insert_relation,
}
use activegraph_surrealdb.GraphStore.Lifecycle.{at_rest, graph_steps}
use activegraph_surrealdb.GraphStore.Atomic.{put_relation_atomic}
use activegraph_surrealdb.Samples.Events.{sample_platform}
use activegraph_surrealdb.Samples.Projection.{graph_handle, projection, lookup_empty, lookup_runs}

instance abbrev refusing : GraphServer
refusing = record {
  tables = record {
    projections = memory ProjectionRow;
    vertices = memory VertexRow;
    relations = memory RelationRow;
    patches = memory PatchRow;
  };
  conflict = λ tx d. some "Transaction conflict";
}

abbrev bare_db : GraphDb refusing.tables
bare_db = record {
  projections = ((projection_record graph_handle, projection) ∷ [], (lookup_empty _, tt));
  vertices = ([], tt);
  relations = ([], tt);
  patches = ([], tt);
}

abbrev blocks : Relation String
blocks = record {
  id = "r1";
  source = "task#12";
  target = "task#3";
  relation_type = "blocks";
  properties = "d";
  provenance = "o";
}

commit_refused :
    (put_relation blocks (at_rest graph_handle bare_db)).0 ≡ raised sdk_error "Transaction conflict"
unfolding lookup_runs graph_steps serves begin_transaction commit cancel ensure_placeholder
    put_relation_body put_relation tx_select_vertex tx_create_vertex tx_delete_relation
    tx_insert_relation relation_to_record canonical_json
commit_refused = refl

put_relation_atomic_example :
    (put_relation blocks (at_rest graph_handle bare_db)).1 ≡ at_rest graph_handle bare_db
put_relation_atomic_example =
    put_relation_atomic graph_handle bare_db blocks
      (record { kind = sdk_error; message = "Transaction conflict" }) commit_refused
