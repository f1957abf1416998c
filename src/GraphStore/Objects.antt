-- ===== src/GraphStore/Objects.antt =====
-- graph_store.py: the constructor, and the projection of objects and patches.
use activegraph_surrealdb.Prelude.{
  ℕ, String, Option, none, some, List, [], ◌∷◌, Bool, true, false, ◌==◌, text_eq, if◌then◌else◌,
}
use activegraph_surrealdb.Errors.{
  Error, Result, ok, ◌>>=◌ as and_then, value_error, raised, sdk_error,
}
use activegraph_surrealdb.Exec.{pure, fail, lift, gets, raise_if, call, ask, try_else, ◌>>=◌, ◌>>◌}
use activegraph_surrealdb.Platform.{Platform}
use activegraph_surrealdb.Serde.{
  Object, ObjectRecord, Patch, object_to_record, object_from_record, patch_to_record,
  patch_from_record,
}
use activegraph_surrealdb.Keys.{RecordId}
use activegraph_surrealdb.GraphStore.Rows.{
  ProjectionRow, VertexRow, PatchRow, GraphServer, GraphDb, object_fields, live_vertex,
  by_object_seq, patch_in, by_patch_id,
}
use activegraph_surrealdb.GraphStore.ObjectSeq.{object_seq}
use activegraph_surrealdb.GraphStore.Session.{
  GraphHandle, GraphMethod, assert_scoped_row, assert_readable, vertex_record_id, patch_record_id,
  projection_record, projection_row,
}

-- the content that `put_object` writes, around the object's record
unfoldable pub object_content : GraphHandle → ℕ → ObjectRecord → VertexRow
object_content h seq encoded = record {
  scope = h.scope;
  run_id = h.run_id;
  object_id = encoded.object_id;
  object_present = true;
  object_seq = seq;
  object_type = some encoded.object_type;
  data_json = some encoded.data_json;
  version = some encoded.version;
  provenance_json = some encoded.provenance_json;
}

-- `_placeholder_content`
unfoldable pub placeholder_content : GraphHandle → String → VertexRow
placeholder_content h object_id = record {
  scope = h.scope;
  run_id = h.run_id;
  object_id = object_id;
  object_present = false;
  object_seq = object_seq object_id;
  object_type = none;
  data_json = none;
  version = none;
  provenance_json = none;
}

module _ ⦃p : Platform⦄ where
  -- a list comprehension whose body may raise
  unfoldable pub decode_all : {Row A : Type 0} → (Row → Result A) → List Row → Result (List A)
  decode_all decode [] = ok []
  decode_all decode (row ∷ rows) =
      and_then (decode row) (λ a. and_then (decode_all decode rows) (λ rest. ok (a ∷ rest)))

  unfoldable pub object_of_vertex : VertexRow → Result (Object p.Value)
  object_of_vertex row = and_then (object_fields row) object_from_record

  -- the end of `get_object`
  unfoldable pub object_of_row :
      GraphHandle → String → Option VertexRow → Result (Option (Object p.Value))
  object_of_row h object_id none = ok none
  object_of_row h object_id (some row) =
      if row.object_present
      then and_then (assert_scoped_row h row.scope row.run_id (some (row.object_id, object_id)))
          (λ _. and_then (object_of_vertex row) (λ obj. ok (some obj)))
      else ok none

  unfoldable pub patch_of_row :
      GraphHandle → String → Option PatchRow → Result (Option (Patch p.Value))
  patch_of_row h patch_id none = ok none
  patch_of_row h patch_id (some row) =
      and_then (assert_scoped_row h row.scope row.run_id (some (row.content.patch_id, patch_id)))
        (λ _. and_then (patch_from_record row.content) (λ patch. ok (some patch)))

module _ ⦃s : GraphServer⦄ where
  unfoldable pub select_vertex : RecordId → GraphMethod (Option VertexRow)
  select_vertex k = ask (λ d. ok (s.tables.vertices.select d.vertices k))

  unfoldable pub upsert_vertex : RecordId → VertexRow → GraphMethod (Unit {0})
  upsert_vertex k row =
      call (λ d. (ok tt, record d { vertices = s.tables.vertices.write k row d.vertices }))

  unfoldable pub query_vertices : (VertexRow → Bool) → GraphMethod (List VertexRow)
  query_vertices keep = ask (λ d. ok (s.tables.vertices.select_where keep by_object_seq d.vertices))

  unfoldable pub select_patch : RecordId → GraphMethod (Option PatchRow)
  select_patch k = ask (λ d. ok (s.tables.patches.select d.patches k))

  unfoldable pub upsert_patch : RecordId → PatchRow → GraphMethod (Unit {0})
  upsert_patch k row =
      call (λ d. (ok tt, record d { patches = s.tables.patches.write k row d.patches }))

  unfoldable pub delete_patch : RecordId → GraphMethod (Unit {0})
  delete_patch k = call (λ d. (ok tt, record d { patches = s.tables.patches.delete k d.patches }))

  unfoldable pub query_patches : String → String → GraphMethod (List PatchRow)
  query_patches scope run_id =
      ask (λ d. ok (s.tables.patches.select_where (patch_in scope run_id) by_patch_id d.patches))

  abbrev pub create_projection_on :
      Option String
      → RecordId
      → ProjectionRow
      → GraphDb s.tables
      → Result (Unit {0}) × GraphDb s.tables
  create_projection_on none k row d =
      (ok tt, record d { projections = s.tables.projections.write k row d.projections })
  create_projection_on (some reason) k row d = (raised sdk_error reason, d)

  unfoldable pub create_projection : RecordId → ProjectionRow → GraphMethod (Unit {0})
  create_projection k row =
      call (λ d. create_projection_on (s.tables.projections.refuses k row d.projections) k row d)

module _ ⦃p : Platform⦄ ⦃s : GraphServer⦄ where
  abbrev pub unless_made : Error → Option ProjectionRow → GraphMethod (Unit {0})
  unless_made exc none = fail exc
  unless_made exc (some row) = pure tt

  abbrev pub make_if_missing : GraphHandle → String → Option ProjectionRow → GraphMethod (Unit {0})
  make_if_missing h now (some row) = pure tt
  make_if_missing h now none =
      try_else
        (create_projection (projection_record h) (record {
          scope = h.scope;
          run_id = h.run_id;
          status = "ready";
          error = none;
          updated_at = now;
        }))
        (λ exc. projection_row >>= unless_made exc) pure

  -- `_ensure_projection_record`
  unfoldable pub ensure_projection_record : String → GraphMethod (Unit {0})
  ensure_projection_record now = do
    h ← gets (λ h. h)
    row ← projection_row
    make_if_missing h now row

  -- `__init__`, once the connection is open and has its schema
  unfoldable pub initialise : String → GraphMethod (Unit {0})
  initialise now = do
    h ← gets (λ h. h)
    raise_if (h.run_id == "") value_error "run_id must be non-empty"
    raise_if (h.scope == "") value_error "scope must be non-empty"
    ensure_projection_record now

  unfoldable pub put_object : Object p.Value → GraphMethod (Unit {0})
  put_object obj = do
    assert_readable
    h ← gets (λ h. h)
    encoded ← lift (object_to_record obj)
    upsert_vertex (vertex_record_id h obj.id) (object_content h (object_seq obj.id) encoded)

  unfoldable pub get_object : String → GraphMethod (Option (Object p.Value))
  get_object object_id = do
    assert_readable
    h ← gets (λ h. h)
    row ← select_vertex (vertex_record_id h object_id)
    lift (object_of_row h object_id row)

  abbrev pub remove_found : GraphHandle → String → Option VertexRow → GraphMethod (Unit {0})
  remove_found h object_id none = pure tt
  remove_found h object_id (some row) = do
    lift (assert_scoped_row h row.scope row.run_id (some (row.object_id, object_id)))
    upsert_vertex (vertex_record_id h object_id) (placeholder_content h object_id)

  unfoldable pub remove_object : String → GraphMethod (Unit {0})
  remove_object object_id = do
    assert_readable
    h ← gets (λ h. h)
    row ← select_vertex (vertex_record_id h object_id)
    remove_found h object_id row

  unfoldable pub all_objects : GraphMethod (List (Object p.Value))
  all_objects = do
    assert_readable
    h ← gets (λ h. h)
    rows ← query_vertices (live_vertex h.scope h.run_id)
    lift (decode_all object_of_vertex rows)

  unfoldable pub put_patch : Patch p.Value → GraphMethod (Unit {0})
  put_patch patch = do
    assert_readable
    h ← gets (λ h. h)
    encoded ← lift (patch_to_record patch)
    upsert_patch (patch_record_id h patch.id)
        (record { scope = h.scope; run_id = h.run_id; content = encoded })

  unfoldable pub get_patch : String → GraphMethod (Option (Patch p.Value))
  get_patch patch_id = do
    assert_readable
    h ← gets (λ h. h)
    row ← select_patch (patch_record_id h patch_id)
    lift (patch_of_row h patch_id row)

  unfoldable pub all_patches : GraphMethod (List (Patch p.Value))
  all_patches = do
    assert_readable
    h ← gets (λ h. h)
    rows ← query_patches h.scope h.run_id
    lift (decode_all (λ row. patch_from_record row.content) rows)

  unfoldable pub remove_patch : String → GraphMethod (Unit {0})
  remove_patch patch_id = do
    assert_readable
    h ← gets (λ h. h)
    delete_patch (patch_record_id h patch_id)
