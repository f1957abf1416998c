-- ===== src/GraphStore/Stored.antt =====
-- graph_store.py: what the object methods store and give back, with no other session at work.
use activegraph_surrealdb.Prelude.{
  String, ◌≡◌, ap, ap₂, none, some, false, nat_eq, text_eq, arith, eq_iff, ◌∙◌, refl, if◌then◌else◌,
}
use activegraph_surrealdb.Errors.{ok}
use activegraph_surrealdb.Platform.{Platform, JsonLaws, adapt}
use activegraph_surrealdb.Serde.{
  Object, ObjectRecord, canonical_json, object_to_record, object_from_record,
}
use activegraph_surrealdb.Serde.RoundTrip.{object_from_record-object_to_record}
use activegraph_surrealdb.Keys.{same_id}
use activegraph_surrealdb.Surreal.Records.{select-write_same}
use activegraph_surrealdb.GraphStore.Rows.{VertexRow, GraphServer, GraphDb, object_fields}
use activegraph_surrealdb.GraphStore.ObjectSeq.{object_seq}
use activegraph_surrealdb.GraphStore.Session.{GraphHandle, assert_scoped_row, vertex_record_id}
use activegraph_surrealdb.GraphStore.Objects.{
  object_content, placeholder_content, object_of_vertex, object_of_row, select_vertex,
  upsert_vertex, put_object, get_object, remove_object,
}
use activegraph_surrealdb.GraphStore.Lifecycle.{
  at_rest, action_steps, IsReadable, assert_readable-ok,
}
use activegraph_surrealdb.GraphStore.Rebuild.{GraphLaws}

module _ ⦃p : Platform⦄ ⦃s : GraphServer⦄ (h : GraphHandle) (d : GraphDb s.tables) where
  abbrev pub with_vertex : String → VertexRow → GraphDb s.tables
  with_vertex object_id row = record d {
    vertices = s.tables.vertices.write (vertex_record_id h object_id) row d.vertices;
  }

  -- Writing a vertex leaves the projection as readable as it was.
  with_vertex-IsReadable :
      (object_id : String) (row : VertexRow)
      → IsReadable h d
      → IsReadable h (with_vertex object_id row)
  with_vertex-IsReadable object_id row r = record {
    open_handle = r.open_handle;
    row = r.row;
    found = r.found;
    in_scope = r.in_scope;
    of_run = r.of_run;
    serving = r.serving;
  }

  put_object-readable :
      (obj : Object p.Value) (encoded : ObjectRecord)
      → IsReadable h d
      → object_to_record obj ≡ ok encoded
      → put_object obj (at_rest h d)
        ≡ (ok tt, at_rest h (with_vertex obj.id (object_content h (object_seq obj.id) encoded)))
  unfolding action_steps put_object upsert_vertex
  put_object-readable obj encoded r e = ground (arith, assert_readable-ok h d r, e)

  get_object-readable :
      (object_id : String)
      → IsReadable h d
      → get_object object_id (at_rest h d) ≡ (
        object_of_row h object_id
            (s.tables.vertices.select d.vertices (vertex_record_id h object_id)),
        at_rest h d,
      )
  unfolding action_steps get_object select_vertex
  get_object-readable object_id r = ground (arith, assert_readable-ok h d r)

module _ ⦃p : Platform⦄ where
  encoded_id :
      (obj : Object p.Value) (encoded : ObjectRecord)
      → object_to_record obj ≡ ok encoded
      → encoded.object_id ≡ obj.id
  unfolding object_to_record canonical_json
  encoded_id obj encoded e = ground arith

  -- The content written for an object reads back as the object's record.
  object_of_row-object_content :
      (h : GraphHandle) (obj stored : Object p.Value) (encoded : ObjectRecord)
      → object_to_record obj ≡ ok encoded
      → object_from_record encoded ≡ ok stored
      → object_of_row h obj.id (some (object_content h (object_seq obj.id) encoded))
        ≡ ok (some stored)
  unfolding object_of_row object_content object_of_vertex object_fields assert_scoped_row
  object_of_row-object_content h obj stored encoded e g = ground (
    arith,
    g,
    eq_iff h.scope h.scope,
    eq_iff h.run_id h.run_id,
    encoded_id obj encoded e,
    eq_iff encoded.object_id obj.id,
  )

  encoded_object :
      (obj : Object p.Value) (a b : p.Value)
      → adapt obj.properties ≡ ok a
      → adapt obj.provenance ≡ ok b
      → (encoded : ObjectRecord) × (object_to_record obj ≡ ok encoded)
  unfolding object_to_record canonical_json
  encoded_object obj a b e g = (
    record {
      object_id = obj.id;
      object_type = obj.object_type;
      data_json = p.dumps a;
      version = obj.version;
      provenance_json = p.dumps b;
    },
    ground (arith, e, g),
  )

module _ ⦃p : Platform⦄ ⦃s : GraphServer⦄ (laws : GraphLaws s) (h : GraphHandle)
    (d : GraphDb s.tables) where
  object_of_row-placeholder_content :
      (object_id : String)
      → object_of_row h object_id (some (placeholder_content h object_id)) ≡ ok none
  unfolding object_of_row placeholder_content
  object_of_row-placeholder_content object_id = refl

  remove_object-stored :
      (object_id : String) (row : VertexRow)
      → IsReadable h d
      → s.tables.vertices.select d.vertices (vertex_record_id h object_id) ≡ some row
      → row.scope ≡ h.scope
      → row.run_id ≡ h.run_id
      → row.object_id ≡ object_id
      → remove_object object_id (at_rest h d)
        ≡ (ok tt, at_rest h (with_vertex h d object_id (placeholder_content h object_id)))
  unfolding action_steps remove_object select_vertex upsert_vertex assert_scoped_row
  remove_object-stored object_id row r f a b c = ground (
    arith,
    assert_readable-ok h d r,
    f,
    eq_iff row.scope h.scope,
    eq_iff row.run_id h.run_id,
    eq_iff row.object_id object_id,
  )

  -- On a readable projection, an object whose values have a plain JSON form is stored, and is then
  -- found under its ID with its values in that form, whatever was stored under the ID before.
  pub get_object-put_object :
      (json : JsonLaws p) (obj : Object p.Value) (a b : p.Value)
      → IsReadable h d
      → adapt obj.properties ≡ ok a
      → adapt obj.provenance ≡ ok b
      → let after = put_object obj (at_rest h d) in
        (after.0 ≡ ok tt)
        × ((get_object obj.id after.1).0
            ≡ ok (some (record obj { properties = a; provenance = b })))
  get_object-put_object json obj a b r e g =
      let (encoded, k) = encoded_object obj a b e g in
      let (a', b', e', g', back) = object_from_record-object_to_record json obj encoded k in
      let row = object_content h (object_seq obj.id) encoded in
      let same_a : a' ≡ a = cc (e, e') in
      let same_b : b' ≡ b = cc (g, g') in
      let back' : object_from_record encoded ≡ ok (record obj { properties = a; provenance = b }) =
        back ∙ ap₂ (λ x y. ok (record obj { properties = x; provenance = y })) same_a same_b in
      rw (put_object-readable h d obj encoded r k) (
        refl,
        rw
            (get_object-readable h (with_vertex h d obj.id row) obj.id
              (with_vertex-IsReadable h d obj.id row r))
            (rw (select-write_same laws.vertices (vertex_record_id h obj.id) row d.vertices)
              (object_of_row-object_content h obj _ encoded k back')),
      )

  -- It is the same under every other record ID.
  pub get_object-put_object_other :
      (obj : Object p.Value) (object_id : String) (encoded : ObjectRecord)
      → IsReadable h d
      → object_to_record obj ≡ ok encoded
      → same_id (vertex_record_id h obj.id) (vertex_record_id h object_id) ≡ false
      → (get_object object_id (put_object obj (at_rest h d)).1).0
        ≡ (get_object object_id (at_rest h d)).0
  get_object-put_object_other obj object_id encoded r e other =
      let row = object_content h (object_seq obj.id) encoded in
      rw (put_object-readable h d obj encoded r e) (
        rw
          (get_object-readable h (with_vertex h d obj.id row) object_id
            (with_vertex-IsReadable h d obj.id row r))
          (rw (get_object-readable h d object_id r) (
            ap (object_of_row h object_id) (
              laws.vertices.select-write (vertex_record_id h obj.id) row d.vertices
                (vertex_record_id h object_id)
              ∙ ap
                  (λ t.
                    if t
                    then some row
                    else s.tables.vertices.select d.vertices (vertex_record_id h object_id))
                  other))))

  -- On a readable projection, `remove_object` of a stored object leaves a placeholder: the object is
  -- no longer found, and the record under its ID is absent as an object but keeps the counter that
  -- `put_object` writes for that ID.
  pub get_object-remove_object :
      (object_id : String) (row : VertexRow)
      → IsReadable h d
      → s.tables.vertices.select d.vertices (vertex_record_id h object_id) ≡ some row
      → row.scope ≡ h.scope
      → row.run_id ≡ h.run_id
      → row.object_id ≡ object_id
      → let after = remove_object object_id (at_rest h d) in
        (after.0 ≡ ok tt)
        × ((get_object object_id after.1).0 ≡ ok none)
        × (s.tables.vertices.select after.1.db.vertices (vertex_record_id h object_id)
            ≡ some (placeholder_content h object_id))
  get_object-remove_object object_id row r f a b c =
      let stub = placeholder_content h object_id in
      let found = select-write_same laws.vertices (vertex_record_id h object_id) stub d.vertices in
      rw (remove_object-stored object_id row r f a b c) (
        refl,
        rw
            (get_object-readable h (with_vertex h d object_id stub) object_id
              (with_vertex-IsReadable h d object_id stub r))
            (rw found (object_of_row-placeholder_content object_id)),
        found,
      )
