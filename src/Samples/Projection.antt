-- ===== src/Samples/Projection.antt =====
-- Tests and witnesses for the projection's lifecycle and the objects of graph_store.py.
use activegraph_surrealdb.Prelude.{String, ◌≡◌, ◌↔◌, refl, inl, true, false, none, some, [], ◌∷◌}
use activegraph_surrealdb.Errors.{ok}
use activegraph_surrealdb.Keys.{RecordId, same_id, record_id, record_key, frames, encoded_parts}
use activegraph_surrealdb.Serde.{Object, ObjectRecord, object_to_record, canonical_json}
use activegraph_surrealdb.Surreal.Memory.{memory, memory-CollectionLaws, lookup}
use activegraph_surrealdb.GraphStore.Rows.{
  ProjectionRow, VertexRow, RelationRow, PatchRow, GraphServer, GraphDb,
}
use activegraph_surrealdb.GraphStore.Session.{
  GraphHandle, projection_record, vertex_record_id, assert_readable, begin_rebuild, mark_failed,
  exception,
}
use activegraph_surrealdb.GraphStore.Objects.{
  put_object, get_object, remove_object, placeholder_content,
}
use activegraph_surrealdb.GraphStore.Lifecycle.{at_rest, IsReadable, assert_readable_iff}
use activegraph_surrealdb.GraphStore.Rebuild.{
  GraphLaws, IsCleared, begin_rebuild-IsReadable, mark_failed-IsReadable,
}
use activegraph_surrealdb.GraphStore.Stored.{
  get_object-put_object, get_object-put_object_other, get_object-remove_object,
}
use activegraph_surrealdb.Samples.Machine.{machine-JsonLaws}
use activegraph_surrealdb.Samples.Events.{sample_platform}

instance abbrev pub graph_server : GraphServer
graph_server = record {
  tables = record {
    projections = memory ProjectionRow;
    vertices = memory VertexRow;
    relations = memory RelationRow;
    patches = memory PatchRow;
  };
  conflict = λ tx d. none;
}

pub graph_server-GraphLaws : GraphLaws graph_server
graph_server-GraphLaws = record {
  projections = memory-CollectionLaws ProjectionRow;
  vertices = memory-CollectionLaws VertexRow;
  relations = memory-CollectionLaws RelationRow;
  patches = memory-CollectionLaws PatchRow;
}

abbrev pub graph_handle : GraphHandle
graph_handle = record { run_id = "run_1"; scope = "acme"; closed = false; rebuilding_here = false }

abbrev pub projection : ProjectionRow
projection = record {
  scope = "acme";
  run_id = "run_1";
  status = "ready";
  error = none;
  updated_at = "t0";
}

abbrev pub task : Object String
task = record {
  id = "task#12";
  object_type = "task";
  properties = "d";
  version = 2;
  provenance = "o";
}

abbrev task_record : ObjectRecord
task_record = record {
  object_id = "task#12";
  object_type = "task";
  data_json = "d";
  version = 2;
  provenance_json = "o";
}

abbrev pub task_row : VertexRow
task_row = record {
  scope = "acme";
  run_id = "run_1";
  object_id = "task#12";
  object_present = true;
  object_seq = 12;
  object_type = some "task";
  data_json = some "d";
  version = some 2;
  provenance_json = some "o";
}

pub lookup_empty : {Row : Type 0} (k : RecordId) → lookup {Row = Row} k [] ≡ none
unfolding lookup
lookup_empty k = refl

abbrev pub graph_db : GraphDb graph_server.tables
graph_db = record {
  projections = ((projection_record graph_handle, projection) ∷ [], (lookup_empty _, tt));
  vertices = ((vertex_record_id graph_handle "task#12", task_row) ∷ [], (lookup_empty _, tt));
  relations = ([], tt);
  patches = ([], tt);
}

-- Named on an `unfolding` line, this lets a lookup of the sample run.
unfoldable pub lookup_runs : Unit {0}
unfolding lookup same_id projection_record vertex_record_id record_id record_key frames
    encoded_parts
lookup_runs = tt

pub graph_IsReadable : IsReadable graph_handle graph_db
unfolding lookup_runs
graph_IsReadable = record {
  open_handle = refl;
  row = projection;
  found = refl;
  in_scope = refl;
  of_run = refl;
  serving = inl refl;
}

assert_readable_iff_example :
    ((assert_readable (at_rest graph_handle graph_db)).0 ≡ ok tt) ↔ IsReadable graph_handle graph_db
assert_readable_iff_example = assert_readable_iff graph_handle graph_db

abbrev reader : GraphHandle
reader = record graph_handle { rebuilding_here = false }

begin_rebuild-IsReadable_example :
    let after = begin_rebuild "t1" (at_rest graph_handle graph_db) in
    (after.0 ≡ ok tt)
    × IsReadable after.1.handle after.1.db
    × IsCleared graph_handle graph_db after.1.db
    × (¬ IsReadable reader after.1.db)
begin_rebuild-IsReadable_example =
    begin_rebuild-IsReadable graph_server-GraphLaws graph_handle graph_db "t1" reader refl refl refl
      refl

mark_failed-IsReadable_example :
    ¬ IsReadable reader
      (mark_failed (exception "TimeoutError") "t2" (at_rest graph_handle graph_db)).1.db
mark_failed-IsReadable_example =
    mark_failed-IsReadable graph_server-GraphLaws graph_handle graph_db (exception "TimeoutError")
      "t2" reader refl refl refl

abbrev claim : Object String
claim = record task { id = "claim#3"; object_type = "claim" }

abbrev claim_record : ObjectRecord
claim_record = record task_record { object_id = "claim#3"; object_type = "claim" }

claim_stored : object_to_record claim ≡ ok claim_record
unfolding object_to_record canonical_json
claim_stored = refl

get_object-put_object_example :
    let after = put_object claim (at_rest graph_handle graph_db) in
    (after.0 ≡ ok tt) × ((get_object "claim#3" after.1).0 ≡ ok (some claim))
get_object-put_object_example =
    get_object-put_object graph_server-GraphLaws graph_handle graph_db (machine-JsonLaws _) claim
      "d" "o" graph_IsReadable refl refl

get_object-put_object_other_example :
    (get_object "task#12" (put_object claim (at_rest graph_handle graph_db)).1).0
    ≡ (get_object "task#12" (at_rest graph_handle graph_db)).0
unfolding lookup_runs
get_object-put_object_other_example =
    get_object-put_object_other graph_server-GraphLaws graph_handle graph_db claim "task#12"
      claim_record graph_IsReadable claim_stored refl

get_object-remove_object_example :
    let after = remove_object "task#12" (at_rest graph_handle graph_db) in
    (after.0 ≡ ok tt)
    × ((get_object "task#12" after.1).0 ≡ ok none)
    × (graph_server.tables.vertices.select after.1.db.vertices
          (vertex_record_id graph_handle "task#12")
        ≡ some (placeholder_content graph_handle "task#12"))
unfolding lookup_runs
get_object-remove_object_example =
    get_object-remove_object graph_server-GraphLaws graph_handle graph_db "task#12" task_row
      graph_IsReadable refl refl refl refl
