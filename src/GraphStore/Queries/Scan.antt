-- ===== src/GraphStore/Queries/Scan.antt =====
-- graph_store.py: the query hooks against a scan of all objects, which is what ActiveGraph does for a
-- store without them.
use activegraph_surrealdb.Prelude.{
  ℕ, zero, suc, String, ◌≡◌, refl, ap, ◌∙◌, Option, none, some, List, [], ◌∷◌, Bool, true, not,
  ◌==◌, ◌&&◌, text_eq, nat_eq, text_ltb_asym, text_ltb_trans_weak, take, keep_if, arith, Bool-cases,
  inl, inr, if◌then◌else◌,
}
use activegraph_surrealdb.Errors.{Result, ok, bind-eq-ok}
use activegraph_surrealdb.Platform.{Platform}
use activegraph_surrealdb.Serde.{Object, object_from_record}
use activegraph_surrealdb.Surreal.{IsOrder}
use activegraph_surrealdb.GraphStore.Rows.{
  VertexRow, GraphServer, GraphDb, object_fields, field, live_vertex, matches, by_object_seq,
}
use activegraph_surrealdb.GraphStore.Session.{GraphHandle}
use activegraph_surrealdb.GraphStore.Objects.{
  decode_all, object_of_vertex, query_vertices, all_objects,
}
use activegraph_surrealdb.GraphStore.Lifecycle.{
  at_rest, action_steps, IsReadable, assert_readable-ok,
}
use activegraph_surrealdb.GraphStore.Rebuild.{GraphLaws}
use activegraph_surrealdb.GraphStore.Queries.{
  ObjectQuery, ObjectQueryResult, items_or_empty, is_empty, limited, select_objects, object_exists,
  query_objects, find_objects,
}

by_object_seq-IsOrder : IsOrder by_object_seq
by_object_seq-IsOrder = record {
  asym = λ a b h. ground (arith, text_ltb_asym a.object_id b.object_id);
  trans_weak = λ a b c h k. ground (arith, text_ltb_trans_weak a.object_id b.object_id c.object_id);
}

module _ ⦃p : Platform⦄ where
  abbrev pub of_type : Option String → Object p.Value → Bool
  of_type none obj = true
  of_type (some wanted) obj = obj.object_type == wanted

  -- what a plan asks for, of all objects in their order
  abbrev pub scan : ObjectQuery p.Value → List (Object p.Value) → ObjectQueryResult p.Value
  scan plan objects =
      let found = keep_if (of_type plan.object_type) objects in
      let residual = items_or_empty plan.where_items in
      if plan.result_mode == "exists" && is_empty residual
      then record { objects = []; residual = []; exists = some (not (is_empty found)) }
      else record {
        objects = limited (if is_empty residual then plan.limit else none) found;
        residual = residual;
        exists = none;
      }

  fields_type :
      (row : VertexRow) (obj : Object p.Value)
      → object_of_vertex row ≡ ok obj
      → row.object_type ≡ some obj.object_type
  unfolding object_of_vertex object_fields object_from_record
  fields_type row obj e =
      let (fields, f, g) = bind-eq-ok (object_fields row) object_from_record e in
      let (type, t, f1) = bind-eq-ok (field "object_type" row.object_type) _ f in
      let (properties_json, _, f2) = bind-eq-ok (field "data_json" row.data_json) _ f1 in
      let (version, _, f3) = bind-eq-ok (field "version" row.version) _ f2 in
      let (provenance, _, f4) = bind-eq-ok (field "provenance_json" row.provenance_json) _ f3 in
      let (properties, _, g1) = bind-eq-ok (p.loads fields.data_json) _ g in
      let (source, _, g2) = bind-eq-ok (p.loads fields.provenance_json) _ g1 in
      ground (arith, t, f4, g2)

  of_type-matches :
      (wanted : Option String) (row : VertexRow) (obj : Object p.Value)
      → object_of_vertex row ≡ ok obj
      → matches wanted row.object_type ≡ of_type wanted obj
  of_type-matches none row obj e = refl
  of_type-matches (some type) row obj e = ap (matches (some type)) (fields_type row obj e)

module _ ⦃p : Platform⦄ {Row A : Type 0} (decode : Row → Result A) where
  pub decode_all-keep_if :
      (test : Row → Bool) (wanted : A → Bool)
      → ((row : Row) (a : A) → decode row ≡ ok a → test row ≡ wanted a)
      → (rows : List Row) (decoded : List A) → decode_all decode rows ≡ ok decoded
      → decode_all decode (keep_if test rows) ≡ ok (keep_if wanted decoded)
  unfolding decode_all
  decode_all-keep_if test wanted agree [] decoded e = ground (arith, e)
  decode_all-keep_if test wanted agree (row ∷ rows) decoded e =
      let (a, here, e1) = bind-eq-ok (decode row) _ e in
      let (rest, later, e2) = bind-eq-ok (decode_all decode rows) _ e1 in
      let again = decode_all-keep_if test wanted agree rows rest later in
      ground (arith, here, again, e2, agree row a here)

  decode_all-take :
      (n : ℕ) (rows : List Row) (decoded : List A)
      → decode_all decode rows ≡ ok decoded
      → decode_all decode (take n rows) ≡ ok (take n decoded)
  unfolding decode_all
  decode_all-take zero rows decoded e = refl
  decode_all-take (suc n) [] decoded e = ground (arith, e)
  decode_all-take (suc n) (row ∷ rows) decoded e =
      let (obj, here, e1) = bind-eq-ok (decode row) _ e in
      let (rest, later, e2) = bind-eq-ok (decode_all decode rows) _ e1 in
      let again = decode_all-take n rows rest later in ground (arith, here, again, e2)

  decode_all-is_empty :
      (rows : List Row) (decoded : List A)
      → decode_all decode rows ≡ ok decoded
      → is_empty (take 1 rows) ≡ is_empty decoded
  unfolding decode_all
  decode_all-is_empty [] decoded e = ground (arith, e)
  decode_all-is_empty (row ∷ rows) decoded e =
      let (obj, here, e1) = bind-eq-ok (decode row) _ e in
      let (rest, later, e2) = bind-eq-ok (decode_all decode rows) _ e1 in ground (arith, here, e2)

  decode_all-limited :
      (limit : Option ℕ) (rows : List Row) (decoded : List A)
      → decode_all decode rows ≡ ok decoded
      → decode_all decode (limited limit rows) ≡ ok (limited limit decoded)
  decode_all-limited none rows decoded e = e
  decode_all-limited (some n) rows decoded e = decode_all-take n rows decoded e

module _ ⦃p : Platform⦄ ⦃s : GraphServer⦄ (laws : GraphLaws s) (h : GraphHandle)
    (d : GraphDb s.tables) (readable : IsReadable h d) (objects : List (Object p.Value))
    (scanned : (all_objects (at_rest h d)).0 ≡ ok objects) where
  abbrev live_rows : List VertexRow
  live_rows = s.tables.vertices.select_where (live_vertex h.scope h.run_id) by_object_seq d.vertices

  abbrev typed_rows : Option String → List VertexRow
  typed_rows object_type =
      s.tables.vertices.select_where
        (λ row. live_vertex h.scope h.run_id row && matches object_type row.object_type)
        by_object_seq d.vertices

  decoded : decode_all object_of_vertex live_rows ≡ ok objects
  unfolding action_steps all_objects query_vertices
  decoded = ground (arith, scanned, assert_readable-ok h d readable)

  typed_rows-decoded :
      (object_type : Option String)
      → decode_all object_of_vertex (typed_rows object_type)
        ≡ ok (keep_if (of_type object_type) objects)
  typed_rows-decoded object_type =
      ap (decode_all object_of_vertex) (
        laws.vertices.select_where-and (live_vertex h.scope h.run_id)
          (λ row. matches object_type row.object_type) by_object_seq d.vertices
          by_object_seq-IsOrder)
      ∙ decode_all-keep_if object_of_vertex _ (of_type object_type) (of_type-matches object_type)
          live_rows objects decoded

  select_objects-scan :
      (object_type : Option String) (limit : Option ℕ)
      → select_objects object_type limit (at_rest h d)
        ≡ (ok (limited limit (keep_if (of_type object_type) objects)), at_rest h d)
  unfolding action_steps select_objects query_vertices
  select_objects-scan object_type limit =
      ap (λ r. (r, at_rest h d))
        (decode_all-limited object_of_vertex limit (typed_rows object_type) _
          (typed_rows-decoded object_type))

  object_exists-scan :
      (object_type : Option String)
      → object_exists object_type (at_rest h d)
        ≡ (ok (not (is_empty (keep_if (of_type object_type) objects))), at_rest h d)
  unfolding action_steps object_exists query_vertices
  object_exists-scan object_type =
      ap (λ b. (ok (not b), at_rest h d))
        (decode_all-is_empty object_of_vertex (typed_rows object_type) _
          (typed_rows-decoded object_type))

  -- In a quiet world, on a readable projection whose objects can all be decoded, `query_objects` and
  -- `find_objects`, which filter in the database, answer as a scan of `all_objects` would: the objects
  -- of the type asked for, in their order, cut at the limit if there is no clause left over, or only
  -- whether there is one; and they change nothing.
  pub query_objects-scan :
      (plan : ObjectQuery p.Value) (object_type : Option String)
      → (query_objects plan (at_rest h d) ≡ (ok (scan plan objects), at_rest h d))
        × (find_objects object_type (at_rest h d)
            ≡ (ok (keep_if (of_type object_type) objects), at_rest h d))
  unfolding action_steps query_objects find_objects
  query_objects-scan plan object_type = (
    elim (Bool-cases (plan.result_mode == "exists" && is_empty (items_or_empty plan.where_items))) [
      | inl exists ↦
          ground
            (arith, exists, assert_readable-ok h d readable, object_exists-scan plan.object_type)
      | inr listed ↦ ground (
        arith,
        listed,
        assert_readable-ok h d readable,
        select_objects-scan plan.object_type
            (if is_empty (items_or_empty plan.where_items) then plan.limit else none),
      )
    ],
    ground (arith, assert_readable-ok h d readable, select_objects-scan object_type none),
  )
