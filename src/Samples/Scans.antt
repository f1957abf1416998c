-- ===== src/Samples/Scans.antt =====
-- Tests and witnesses for the query hooks of graph_store.py.
use activegraph_surrealdb.Prelude.{
  String, ◌≡◌, refl, inl, none, some, List, [], ◌∷◌, keep_if, nat_eq,
}
use activegraph_surrealdb.Errors.{ok}
use activegraph_surrealdb.Serde.{Object, Relation, object_from_record, record_to_relation}
use activegraph_surrealdb.GraphStore.Rows.{object_fields}
use activegraph_surrealdb.GraphStore.Session.{serves, relation_record_id}
use activegraph_surrealdb.GraphStore.Objects.{
  all_objects, decode_all, object_of_vertex, query_vertices,
}
use activegraph_surrealdb.GraphStore.Relations.{all_relations, query_relations, decode_relations}
use activegraph_surrealdb.GraphStore.Lifecycle.{at_rest, graph_steps, IsReadable}
use activegraph_surrealdb.GraphStore.Queries.{
  ObjectQuery, query_objects, find_objects, find_relations,
}
use activegraph_surrealdb.GraphStore.Queries.Scan.{scan, of_type, query_objects-scan}
use activegraph_surrealdb.GraphStore.Queries.Filters.{is_sought, find_relations-all_relations}
use activegraph_surrealdb.Surreal.Memory.{sort}
use activegraph_surrealdb.Samples.Events.{sample_platform}
use activegraph_surrealdb.Samples.Projection.{
  graph_server, graph_server-GraphLaws, graph_handle, graph_db, graph_IsReadable, projection,
  lookup_runs,
}
use activegraph_surrealdb.Samples.Walks.{path_db}

abbrev task : Object String
task = record {
  id = "task#12";
  object_type = "task";
  properties = "d";
  version = 2;
  provenance = "o";
}

abbrev one_task : ObjectQuery String
one_task = record {
  object_type = some "task";
  where_items = none;
  limit = some 1;
  result_mode = "objects";
}

tasks_scanned : (all_objects (at_rest graph_handle graph_db)).0 ≡ ok (task ∷ [])
unfolding graph_steps lookup_runs all_objects query_vertices decode_all object_of_vertex
    object_fields object_from_record sort serves
tasks_scanned = refl

query_objects-scan_example :
    (query_objects one_task (at_rest graph_handle graph_db)
      ≡ (ok (scan one_task (task ∷ [])), at_rest graph_handle graph_db))
    × (find_objects (some "note") (at_rest graph_handle graph_db)
        ≡ (ok (keep_if (of_type (some "note")) (task ∷ [])), at_rest graph_handle graph_db))
query_objects-scan_example =
    query_objects-scan graph_server-GraphLaws graph_handle graph_db graph_IsReadable (task ∷ [])
      tasks_scanned one_task (some "note")

abbrev link : String → String → String → Relation String
link relation_id source target = record {
  id = relation_id;
  source = source;
  target = target;
  relation_type = "follows";
  properties = "d";
  provenance = "o";
}

abbrev path : List (Relation String)
path = link "r1" "a" "b" ∷ link "r2" "b" "c" ∷ link "r3" "c" "d" ∷ []

path_IsReadable : IsReadable graph_handle path_db
unfolding lookup_runs
path_IsReadable = record {
  open_handle = refl;
  row = projection;
  found = refl;
  in_scope = refl;
  of_run = refl;
  serving = inl refl;
}

path_scanned : (all_relations (at_rest graph_handle path_db)).0 ≡ ok path
unfolding graph_steps lookup_runs all_relations query_relations decode_relations decode_all
    record_to_relation sort serves relation_record_id
path_scanned = refl

find_relations-all_relations_example :
    find_relations (some "b") none (some "follows") (at_rest graph_handle path_db)
    ≡ (ok (keep_if (is_sought (some "b") none (some "follows")) path), at_rest graph_handle path_db)
find_relations-all_relations_example =
    find_relations-all_relations graph_server-GraphLaws graph_handle path_db (some "b") none
      (some "follows") path path_IsReadable path_scanned
