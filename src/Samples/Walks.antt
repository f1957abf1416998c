-- ===== src/Samples/Walks.antt =====
-- Tests and witnesses for the neighbourhood walk of graph_store.py.
use activegraph_surrealdb.Prelude.{String, ◌≡◌, refl, List, [], ◌∷◌}
use activegraph_surrealdb.Errors.{ok}
use activegraph_surrealdb.Keys.{same_id, record_id, record_key, frames, encoded_parts}
use activegraph_surrealdb.Surreal.Memory.{memory, sort, lookup}
use activegraph_surrealdb.GraphStore.Rows.{RelationRow, GraphDb}
use activegraph_surrealdb.GraphStore.Session.{vertex_record_id, relation_record_id}
use activegraph_surrealdb.GraphStore.Lifecycle.{at_rest, action_steps}
use activegraph_surrealdb.GraphStore.Relations.{query_relations}
use activegraph_surrealdb.GraphStore.Queries.{walk, next_frontier, relation_ids}
use activegraph_surrealdb.GraphStore.Queries.Walk.{Explored, walk_explores}
use activegraph_surrealdb.Samples.Events.{sample_platform}
use activegraph_surrealdb.Samples.Projection.{
  graph_server, graph_server-GraphLaws, graph_handle, graph_db,
}

abbrev arc : String → String → String → RelationRow
arc relation_id source target = record {
  scope = "acme";
  run_id = "run_1";
  source_vertex = vertex_record_id graph_handle source;
  target_vertex = vertex_record_id graph_handle target;
  content = record {
    relation_id = relation_id;
    source = source;
    target = target;
    relation_type = "follows";
    data_json = "d";
    provenance_json = "o";
  };
}

abbrev with_arc : RelationRow → GraphDb graph_server.tables → GraphDb graph_server.tables
with_arc row d = record d {
  relations =
      (memory RelationRow).write (relation_record_id graph_handle row.content.relation_id) row
        d.relations;
}

-- a path from a to d, walked from b
abbrev pub path_db : GraphDb graph_server.tables
path_db =
    with_arc (arc "r1" "a" "b") (with_arc (arc "r2" "b" "c") (with_arc (arc "r3" "c" "d") graph_db))

walk_test :
    (walk 1 ("b" ∷ []) ("b" ∷ []) [] (at_rest graph_handle path_db)).0
    ≡ ok ("b" ∷ "a" ∷ "c" ∷ [], "r1" ∷ "r2" ∷ [])
unfolding action_steps walk next_frontier relation_ids query_relations lookup sort same_id record_id
    record_key frames encoded_parts relation_record_id
walk_test = refl

walk_explores_example :
    (objs rels : List String) × (walk 2 ("b" ∷ []) ("b" ∷ []) [] (at_rest graph_handle path_db)
      ≡ (ok (objs, rels), at_rest graph_handle path_db))
    × Explored graph_server-GraphLaws graph_handle path_db "b" 2 objs rels
walk_explores_example = walk_explores graph_server-GraphLaws graph_handle path_db 2 "b"
