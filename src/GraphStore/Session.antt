-- ===== src/GraphStore/Session.antt =====
-- graph_store.py: the store object, the guards of its methods, and the projection's lifecycle.
use activegraph_surrealdb.Prelude.{
  String, Option, none, some, [], ◌∷◌, Bool, true, false, not, ◌==◌, ◌||◌, ◌&&◌, text_eq,
  if◌then◌else◌,
}
use activegraph_surrealdb.Errors.{
  Result, ok, raised, raise_if as result_raise_if, surreal_provider, closed_store,
  projection_unavailable,
}
use activegraph_surrealdb.Exec.{Action, lift, gets, modify, raise_if, call, ask, ◌>>=◌, ◌>>◌}
use activegraph_surrealdb.Platform.{Platform}
use activegraph_surrealdb.Keys.{RecordId, record_id}
use activegraph_surrealdb.EventStore.Chain.{format}
use activegraph_surrealdb.GraphStore.Rows.{
  ProjectionRow, GraphServer, GraphDb, vertex_in, relation_in, patch_in,
}

-- the fields of SurrealGraphStore that its methods read or assign
pub record GraphHandle : Type 0 where
  pub run_id : String
  pub scope : String
  pub closed : Bool
  pub rebuilding_here : Bool

-- `_assert_scoped_row`: the scope columns of a row, and its logical ID if one is expected
unfoldable pub assert_scoped_row :
    GraphHandle → String → String → Option (String × String) → Result (Unit {0})
assert_scoped_row h scope run_id logical =
    if not (scope == h.scope) || not (run_id == h.run_id)
    then raised surreal_provider "a graph record crossed its scope/run boundary"
    else elim logical [
      | none ↦ ok tt
      | some (stored, expected) ↦
          result_raise_if (not (stored == expected)) surreal_provider
            "an opaque graph record ID resolved incorrectly"
    ]

module _ ⦃s : GraphServer⦄ where
  abbrev pub GraphMethod : Type 0 → Type 0
  GraphMethod = Action GraphHandle (GraphDb s.tables)

  unfoldable pub ensure_open : GraphMethod (Unit {0})
  ensure_open = do
    closed ← gets (λ h. h.closed)
    raise_if closed closed_store "the SurrealGraphStore is closed"

  unfoldable pub select_projection : RecordId → GraphMethod (Option ProjectionRow)
  select_projection k = ask (λ d. ok (s.tables.projections.select d.projections k))

  unfoldable pub upsert_projection : RecordId → ProjectionRow → GraphMethod (Unit {0})
  upsert_projection k row =
      call (λ d. (ok tt, record d { projections = s.tables.projections.write k row d.projections }))

  unfoldable pub delete_relations : String → String → GraphMethod (Unit {0})
  delete_relations scope run_id = call (λ d. (
    ok tt,
    record d { relations = s.tables.relations.delete_where (relation_in scope run_id) d.relations },
  ))

  unfoldable pub delete_patches : String → String → GraphMethod (Unit {0})
  delete_patches scope run_id = call (λ d. (
    ok tt,
    record d { patches = s.tables.patches.delete_where (patch_in scope run_id) d.patches },
  ))

  unfoldable pub delete_vertices : String → String → GraphMethod (Unit {0})
  delete_vertices scope run_id = call (λ d. (
    ok tt,
    record d { vertices = s.tables.vertices.delete_where (vertex_in scope run_id) d.vertices },
  ))

  -- Relation records must be removed before their endpoint vertices.
  unfoldable pub clear : GraphMethod (Unit {0})
  clear = do
    ensure_open
    h ← gets (λ h. h)
    delete_relations h.scope h.run_id
    delete_patches h.scope h.run_id
    delete_vertices h.scope h.run_id

  unfoldable pub close : GraphMethod (Unit {0})
  close = modify (λ h. record h { closed = true })

-- the parameter of `mark_failed`: nothing, an exception's class name, or a text
pub data Failure : Type 0 where
  unspecified : Failure
  exception text : String → Failure

abbrev pub failure_detail : Failure → String
failure_detail unspecified = "projection rebuild failed"
failure_detail (exception class_name) = class_name
failure_detail (text detail) = detail

-- the status test of `_assert_readable`
unfoldable pub serves : String → Bool → Bool
serves status rebuilding_here =
    if status == "ready" then true else status == "rebuilding" && rebuilding_here

module _ ⦃p : Platform⦄ where
  unfoldable pub projection_record : GraphHandle → RecordId
  projection_record h = record_id "ag_projection" (h.scope ∷ h.run_id ∷ [])

  unfoldable pub vertex_record_id : GraphHandle → String → RecordId
  vertex_record_id h object_id = record_id "ag_vertex" (h.scope ∷ h.run_id ∷ object_id ∷ [])

  unfoldable pub relation_record_id : GraphHandle → String → RecordId
  relation_record_id h relation_id = record_id "ag_relation" (h.scope ∷ h.run_id ∷ relation_id ∷ [])

  unfoldable pub patch_record_id : GraphHandle → String → RecordId
  patch_record_id h patch_id = record_id "ag_patch" (h.scope ∷ h.run_id ∷ patch_id ∷ [])

  abbrev pub scoped_projection : GraphHandle → Option ProjectionRow → Result (Option ProjectionRow)
  scoped_projection h none = ok none
  scoped_projection h (some row) = elim (assert_scoped_row h row.scope row.run_id none) [
    | ok u ↦ ok (some row)
    | Result.err e ↦ Result.err e
  ]

  abbrev pub status_of : Option ProjectionRow → Result String
  status_of none = raised projection_unavailable "projection metadata is incomplete"
  status_of (some row) = ok row.status

module _ ⦃p : Platform⦄ ⦃s : GraphServer⦄ where
  -- `_projection_row`
  unfoldable pub projection_row : GraphMethod (Option ProjectionRow)
  projection_row = do
    h ← gets (λ h. h)
    row ← select_projection (projection_record h)
    lift (scoped_projection h row)

  unfoldable pub projection_status : GraphMethod String
  projection_status = do ensure_open; row ← projection_row; lift (status_of row)

  -- `_assert_readable`, which is `_assert_writable` too
  unfoldable pub assert_readable : GraphMethod (Unit {0})
  assert_readable = do
    ensure_open
    status ← projection_status
    h ← gets (λ h. h)
    raise_if (not (serves status h.rebuilding_here)) projection_unavailable
        (format ("projection is " ∷ status ∷ "; current-state data is incomplete" ∷ []))

  -- `_set_projection_status`; `now` is the clock's reading
  unfoldable pub set_projection_status : String → Option String → String → GraphMethod (Unit {0})
  set_projection_status status error now = do
    h ← gets (λ h. h)
    upsert_projection (projection_record h) (record {
      scope = h.scope;
      run_id = h.run_id;
      status = status;
      error = error;
      updated_at = now;
    })

  abbrev pub set_rebuilding : Bool → GraphMethod (Unit {0})
  set_rebuilding b = modify (λ h. record h { rebuilding_here = b })

  unfoldable pub begin_rebuild : String → GraphMethod (Unit {0})
  begin_rebuild now = do
    ensure_open
    set_projection_status "rebuilding" none now
    set_rebuilding true
    clear

  unfoldable pub mark_ready : String → GraphMethod (Unit {0})
  mark_ready now = do ensure_open; set_projection_status "ready" none now; set_rebuilding false

  unfoldable pub mark_failed : Failure → String → GraphMethod (Unit {0})
  mark_failed error now = do
    ensure_open
    set_projection_status "failed" (some (failure_detail error)) now
    set_rebuilding false
