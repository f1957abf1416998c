-- ===== src/GraphStore/Rows.antt =====
-- graph_store.py: the rows of the projection tables, their WHERE and ORDER BY clauses, the
-- transaction of `put_relation`, and the server that holds the tables.
use activegraph_surrealdb.Prelude.{
  ℕ, String, Option, none, some, List, [], ◌∷◌, Bool, true, false, ◌&&◌, ◌||◌, ◌==◌, nat_eq,
  text_eq, option_eq, ltb, text_ltb, member,
}
use activegraph_surrealdb.Errors.{Result, ok, raised, key_error, ◌>>=◌}
use activegraph_surrealdb.Serde.{ObjectRecord, RelationRecord, PatchRecord}
use activegraph_surrealdb.Keys.{RecordId}
use activegraph_surrealdb.Surreal.{Collection}

pub record ProjectionRow : Type 0 where
  pub scope : String
  pub run_id : String
  pub status : String
  pub error : Option String
  pub updated_at : String

-- The fields of an object are absent in a placeholder.
pub record VertexRow : Type 0 where
  pub scope : String
  pub run_id : String
  pub object_id : String
  pub object_present : Bool
  pub object_seq : ℕ
  pub object_type : Option String
  pub data_json : Option String
  pub version : Option ℕ
  pub provenance_json : Option String

pub record RelationRow : Type 0 where
  pub scope : String
  pub run_id : String
  pub source_vertex : RecordId
  pub target_vertex : RecordId
  pub content : RelationRecord

pub record PatchRow : Type 0 where
  pub scope : String
  pub run_id : String
  pub content : PatchRecord

-- `record["…"]` of a field that the row lacks
abbrev pub field : {A : Type 0} → String → Option A → Result A
field name (some a) = ok a
field name none = raised key_error name

-- the object part of a vertex, as `object_from_record` reads it
unfoldable pub object_fields : VertexRow → Result ObjectRecord
object_fields row = do
  object_type ← field "object_type" row.object_type
  data_json ← field "data_json" row.data_json
  version ← field "version" row.version
  provenance_json ← field "provenance_json" row.provenance_json
  ok (record {
    object_id = row.object_id;
    object_type = object_type;
    data_json = data_json;
    version = version;
    provenance_json = provenance_json;
  })

-- a clause on an optional column, present only if the filter is given
abbrev pub matches : Option String → Option String → Bool
matches none value = true
matches (some wanted) value = value == some wanted

abbrev pub live_vertex : String → String → VertexRow → Bool
live_vertex scope run_id row = row.scope == scope && row.run_id == run_id && row.object_present

-- ORDER BY object_seq ASC, object_id ASC
abbrev pub by_object_seq : VertexRow → VertexRow → Bool
by_object_seq a b =
    ltb a.object_seq b.object_seq
    || (a.object_seq == b.object_seq && text_ltb a.object_id b.object_id)

abbrev pub relation_in : String → String → RelationRow → Bool
relation_in scope run_id row = row.scope == scope && row.run_id == run_id

-- AND source = … AND target = … AND relation_type = …, each only if it is given
abbrev pub relation_matches : Option String → Option String → Option String → RelationRow → Bool
relation_matches source target type row =
    matches source (some row.content.source)
    && matches target (some row.content.target)
    && matches type (some row.content.relation_type)

-- AND (source IN $frontier OR target IN $frontier)
abbrev pub touches : List String → RelationRow → Bool
touches frontier row = member row.content.source frontier || member row.content.target frontier

-- ORDER BY relation_id ASC, ORDER BY patch_id ASC, and no ORDER BY
abbrev pub by_relation_id : RelationRow → RelationRow → Bool
by_relation_id a b = text_ltb a.content.relation_id b.content.relation_id

abbrev pub by_patch_id : PatchRow → PatchRow → Bool
by_patch_id a b = text_ltb a.content.patch_id b.content.patch_id

abbrev pub unordered : {Row : Type 0} → Row → Row → Bool
unordered a b = false

abbrev pub patch_in : String → String → PatchRow → Bool
patch_in scope run_id row = row.scope == scope && row.run_id == run_id

abbrev pub vertex_in : String → String → VertexRow → Bool
vertex_in scope run_id row = row.scope == scope && row.run_id == run_id

pub record GraphTables : Type 1 where
  pub projections : Collection ProjectionRow
  pub vertices : Collection VertexRow
  pub relations : Collection RelationRow
  pub patches : Collection PatchRow

pub record GraphDb (g : GraphTables) : Type 0 where
  pub projections : g.projections.Table
  pub vertices : g.vertices.Table
  pub relations : g.relations.Table
  pub patches : g.patches.Table

-- the statements of the transaction of `put_relation`
pub data GraphWrite : Type 0 where
  create_vertex : RecordId → VertexRow → GraphWrite
  delete_relation : RecordId → GraphWrite
  insert_relation : RecordId → RelationRow → GraphWrite

module _ (g : GraphTables) where
  abbrev pub apply_graph_write : GraphDb g → GraphWrite → GraphDb g
  apply_graph_write d (create_vertex k row) = record d {
    vertices = g.vertices.write k row d.vertices;
  }
  apply_graph_write d (delete_relation k) = record d {
    relations = g.relations.delete k d.relations;
  }
  apply_graph_write d (insert_relation k row) = record d {
    relations = g.relations.write k row d.relations;
  }

  abbrev pub apply_graph_writes : GraphDb g → List GraphWrite → GraphDb g
  apply_graph_writes d [] = d
  apply_graph_writes d (w ∷ ws) = apply_graph_writes (apply_graph_write d w) ws

  pub record GraphTx : Type 0 where
    pub base : GraphDb g
    pub writes : List GraphWrite

pub record GraphServer : Type 1 where
  pub tables : GraphTables
  -- why COMMIT of a transaction is refused in the current state
  pub conflict : GraphTx tables → GraphDb tables → Option String
