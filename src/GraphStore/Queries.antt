-- ===== src/GraphStore/Queries.antt =====
-- graph_store.py: the queries that run in the database, and the neighbourhood walk.
pub mod Sets
pub mod Reach
pub mod Levels
pub mod Walk
pub mod Scan
pub mod Filters
use activegraph_surrealdb.Prelude.{
  ℕ, zero, suc, String, Option, none, some, List, [], ◌∷◌, Bool, true, false, not, ◌==◌, ◌&&◌,
  text_eq, take, member, add_new, add_all, if◌then◌else◌,
}
use activegraph_surrealdb.Exec.{pure, lift, gets, ◌>>=◌, ◌>>◌}
use activegraph_surrealdb.Platform.{Platform}
use activegraph_surrealdb.Serde.{Object, Relation}
use activegraph_surrealdb.GraphStore.Rows.{
  RelationRow, GraphServer, live_vertex, matches, relation_in, relation_matches, touches,
  by_relation_id, unordered,
}
use activegraph_surrealdb.GraphStore.Session.{GraphMethod, assert_readable}
use activegraph_surrealdb.GraphStore.Objects.{
  decode_all, object_of_vertex, query_vertices, get_object,
}
use activegraph_surrealdb.GraphStore.Relations.{query_relations, decode_relations}

-- activegraph.core.graph_store.ObjectQuery and ObjectQueryResult; `where` holds the items of the
-- dictionary, or nothing
pub record ObjectQuery (Value : Type 0) : Type 0 where
  pub object_type : Option String
  pub where_items : Option (List (String × Value))
  pub limit : Option ℕ
  pub result_mode : String

pub record ObjectQueryResult (Value : Type 0) : Type 0 where
  pub objects : List (Object Value)
  pub residual : List (String × Value)
  pub exists : Option Bool

abbrev pub items_or_empty : {A : Type 0} → Option (List A) → List A
items_or_empty none = []
items_or_empty (some items) = items

abbrev pub is_empty : {A : Type 0} → List A → Bool
is_empty [] = true
is_empty (x ∷ xs) = false

-- LIMIT $limit, if it is given
abbrev pub limited : {A : Type 0} → Option ℕ → List A → List A
limited none rows = rows
limited (some n) rows = take n rows

-- the endpoints of the rows that are not in the snapshot, and the rows' IDs
abbrev pub next_endpoint : List String → String → List String → List String
next_endpoint snapshot endpoint found =
    if member endpoint snapshot then found else add_new endpoint found

unfoldable pub next_frontier : List String → List RelationRow → List String → List String
next_frontier snapshot [] found = found
next_frontier snapshot (row ∷ rows) found =
    next_frontier snapshot rows
      (next_endpoint snapshot row.content.target (next_endpoint snapshot row.content.source found))

unfoldable pub relation_ids : List RelationRow → List String → List String
relation_ids [] seen = seen
relation_ids (row ∷ rows) seen = relation_ids rows (add_new row.content.relation_id seen)

module _ ⦃p : Platform⦄ ⦃s : GraphServer⦄ where
  -- `_select_objects`
  unfoldable pub select_objects : Option String → Option ℕ → GraphMethod (List (Object p.Value))
  select_objects object_type limit = do
    h ← gets (λ h. h)
    rows ←
        query_vertices
          (λ row. live_vertex h.scope h.run_id row && matches object_type row.object_type)
    lift (decode_all object_of_vertex (limited limit rows))

  -- `_object_exists`
  unfoldable pub object_exists : Option String → GraphMethod Bool
  object_exists object_type = do
    h ← gets (λ h. h)
    rows ←
        query_vertices
          (λ row. live_vertex h.scope h.run_id row && matches object_type row.object_type)
    pure (not (is_empty (take 1 rows)))

  unfoldable pub query_objects : ObjectQuery p.Value → GraphMethod (ObjectQueryResult p.Value)
  query_objects plan = do
    assert_readable
    let residual = items_or_empty plan.where_items
    if plan.result_mode == "exists" && is_empty residual
        then (do
          found ← object_exists plan.object_type
          pure (record { objects = []; residual = []; exists = some found }))
        else (do
          objects ← select_objects plan.object_type (if is_empty residual then plan.limit else none)
          pure (record { objects = objects; residual = residual; exists = none }))

  unfoldable pub find_objects : Option String → GraphMethod (List (Object p.Value))
  find_objects object_type = do assert_readable; select_objects object_type none

  abbrev pub type_in : List String → Option String → Bool
  type_in types none = false
  type_in types (some type) = member type types

  unfoldable pub find_objects_in_types : List String → GraphMethod (List (Object p.Value))
  find_objects_in_types [] = pure []
  find_objects_in_types types = do
    assert_readable
    h ← gets (λ h. h)
    rows ←
        query_vertices
          (λ row. live_vertex h.scope h.run_id row && type_in (add_all types []) row.object_type)
    lift (decode_all object_of_vertex rows)

  unfoldable pub find_relations :
      Option String → Option String → Option String → GraphMethod (List (Relation p.Value))
  find_relations source target type = do
    assert_readable
    h ← gets (λ h. h)
    rows ←
        query_relations
          (λ row. relation_in h.scope h.run_id row && relation_matches source target type row)
          by_relation_id
    lift (decode_relations rows)

  unfoldable pub objects_by_logical_ids : List String → GraphMethod (List (Object p.Value))
  objects_by_logical_ids [] = pure []
  objects_by_logical_ids ids = do
    h ← gets (λ h. h)
    rows ← query_vertices (λ row. live_vertex h.scope h.run_id row && member row.object_id ids)
    lift (decode_all object_of_vertex rows)

  unfoldable pub relations_by_logical_ids : List String → GraphMethod (List (Relation p.Value))
  relations_by_logical_ids [] = pure []
  relations_by_logical_ids ids = do
    h ← gets (λ h. h)
    rows ←
        query_relations
          (λ row. relation_in h.scope h.run_id row && member row.content.relation_id ids) unordered
    lift (decode_relations rows)

  -- The levels of the walk that are left: the objects and the relations seen, and the frontier.
  unfoldable pub walk :
      ℕ → List String → List String → List String → GraphMethod (List String × List String)
  walk zero seen_objects frontier seen_relations = pure (seen_objects, seen_relations)
  walk (suc depth) seen_objects [] seen_relations = pure (seen_objects, seen_relations)
  walk (suc depth) seen_objects frontier seen_relations = do
    h ← gets (λ h. h)
    rows ←
        query_relations (λ row. relation_in h.scope h.run_id row && touches frontier row)
          by_relation_id
    let reached = next_frontier seen_objects rows []
    walk depth (add_all reached seen_objects) reached (relation_ids rows seen_relations)

  abbrev pub neighborhood_of :
      String
      → ℕ
      → Option (Object p.Value)
      → GraphMethod (List (Object p.Value) × List (Relation p.Value))
  neighborhood_of start depth none = pure ([], [])
  neighborhood_of start depth (some obj) = do
    (seen_objects, seen_relations) ← walk depth (start ∷ []) (start ∷ []) []
    objects ← objects_by_logical_ids seen_objects
    relations ← relations_by_logical_ids seen_relations
    pure (objects, relations)

  unfoldable pub neighborhood :
      String → ℕ → GraphMethod (List (Object p.Value) × List (Relation p.Value))
  neighborhood object_id depth = do
    assert_readable
    found ← get_object object_id
    neighborhood_of object_id depth found
