-- ===== src/Samples/Links.antt =====
-- Tests and witnesses for relations of graph_store.py between stored endpoints.
use activegraph_surrealdb.Prelude.{String, ◌≡◌, refl, some}
use activegraph_surrealdb.Errors.{ok}
use activegraph_surrealdb.Platform.{adapt}
use activegraph_surrealdb.Serde.{Relation, RelationRecord, relation_to_record, canonical_json}
use activegraph_surrealdb.GraphStore.Relations.{put_relation, get_relation}
use activegraph_surrealdb.GraphStore.Lifecycle.{at_rest}
use activegraph_surrealdb.GraphStore.Linked.{IsVertex, get_relation-put_relation}
use activegraph_surrealdb.Samples.Machine.{machine-JsonLaws}
use activegraph_surrealdb.Samples.Events.{sample_platform}
use activegraph_surrealdb.Samples.Projection.{
  graph_server, graph_server-GraphLaws, graph_handle, graph_db, graph_IsReadable, task_row,
  lookup_runs,
}

-- a task that follows itself
abbrev follows : Relation String
follows = record {
  id = "r2";
  source = "task#12";
  target = "task#12";
  relation_type = "follows";
  properties = "d";
  provenance = "o";
}

abbrev follows_record : RelationRecord
follows_record = record {
  relation_id = "r2";
  source = "task#12";
  target = "task#12";
  relation_type = "follows";
  data_json = "d";
  provenance_json = "o";
}

follows_stored : relation_to_record follows ≡ ok follows_record
unfolding relation_to_record canonical_json
follows_stored = refl

task_IsVertex : IsVertex graph_handle graph_db "task#12"
unfolding lookup_runs
task_IsVertex = record {
  row = task_row;
  found = refl;
  in_scope = refl;
  of_run = refl;
  logical = refl;
}

get_relation-put_relation_example :
    let after = put_relation follows (at_rest graph_handle graph_db) in
    (after.0 ≡ ok tt)
    × (after.1.db.vertices ≡ graph_db.vertices)
    × ((a b : String) × (adapt follows.properties ≡ ok a)
        × (adapt follows.provenance ≡ ok b)
        × ((get_relation "r2" after.1).0
            ≡ ok (some (record follows { properties = a; provenance = b }))))
unfolding lookup_runs
get_relation-put_relation_example =
    get_relation-put_relation graph_server-GraphLaws graph_handle graph_db (machine-JsonLaws _)
      follows follows_record graph_IsReadable task_IsVertex task_IsVertex follows_stored refl refl
