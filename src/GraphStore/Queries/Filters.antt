-- ===== src/GraphStore/Queries/Filters.antt =====
-- graph_store.py: `find_relations` against a scan of all relations.
use activegraph_surrealdb.Prelude.{
  String, ◌≡◌, ap, ◌∙◌, Option, some, List, Bool, ◌&&◌, text_eq, nat_eq, text_ltb_asym,
  text_ltb_trans_weak, keep_if, arith,
}
use activegraph_surrealdb.Errors.{ok, bind-eq-ok}
use activegraph_surrealdb.Platform.{Platform}
use activegraph_surrealdb.Serde.{Relation, record_to_relation}
use activegraph_surrealdb.Surreal.{IsOrder}
use activegraph_surrealdb.GraphStore.Rows.{
  RelationRow, by_relation_id, relation_in, relation_matches, GraphServer, GraphDb, matches,
}
use activegraph_surrealdb.GraphStore.Session.{GraphHandle}
use activegraph_surrealdb.GraphStore.Objects.{decode_all}
use activegraph_surrealdb.GraphStore.Lifecycle.{
  at_rest, action_steps, IsReadable, assert_readable-ok,
}
use activegraph_surrealdb.GraphStore.Rebuild.{GraphLaws}
use activegraph_surrealdb.GraphStore.Queries.{find_relations}
use activegraph_surrealdb.GraphStore.Relations.{query_relations, decode_relations, all_relations}
use activegraph_surrealdb.GraphStore.Queries.Scan.{decode_all-keep_if}

by_relation_id-IsOrder : IsOrder by_relation_id
by_relation_id-IsOrder = record {
  asym = λ a b h. text_ltb_asym a.content.relation_id b.content.relation_id h;
  trans_weak = λ a b c h k.
      text_ltb_trans_weak a.content.relation_id b.content.relation_id c.content.relation_id h k;
}

module _ ⦃p : Platform⦄ where
  -- the filters that are given
  abbrev pub is_sought : Option String → Option String → Option String → Relation p.Value → Bool
  is_sought source target type rel =
      matches source (some rel.source)
      && matches target (some rel.target)
      && matches type (some rel.relation_type)

  is_sought-matches :
      (source target type : Option String) (row : RelationRow) (rel : Relation p.Value)
      → record_to_relation row.content ≡ ok rel
      → relation_matches source target type row ≡ is_sought source target type rel
  unfolding record_to_relation
  is_sought-matches source target type row rel e =
      let (properties, _, e1) = bind-eq-ok (p.loads row.content.data_json) _ e in
      let (provenance, _, e2) = bind-eq-ok (p.loads row.content.provenance_json) _ e1 in
      let same : ◌≡◌ {A = Relation p.Value}
          (record {
            id = row.content.relation_id;
            source = row.content.source;
            target = row.content.target;
            relation_type = row.content.relation_type;
            properties = properties;
            provenance = provenance;
          })
          rel =
        cc (e2) in
      ap (is_sought source target type) same

  -- In a quiet world, on a readable projection whose relations can all be decoded, `find_relations`,
  -- which filters in the database, returns those of `all_relations` that have the source, the target
  -- and the type asked for, each if it is given, in their order; and it changes nothing.
  pub find_relations-all_relations :
      ⦃s : GraphServer⦄ (laws : GraphLaws s) (h : GraphHandle) (d : GraphDb s.tables)
      (source target type : Option String) (relations : List (Relation p.Value))
      → IsReadable h d
      → (all_relations (at_rest h d)).0 ≡ ok relations
      → find_relations source target type (at_rest h d)
        ≡ (ok (keep_if (is_sought source target type) relations), at_rest h d)
  unfolding action_steps all_relations find_relations query_relations decode_relations
  find_relations-all_relations ⦃s⦄ laws h d source target type relations readable scanned =
      let guard = assert_readable-ok h d readable in
      let decode = λ (row : RelationRow). record_to_relation row.content in
      let rows =
        s.tables.relations.select_where (relation_in h.scope h.run_id) by_relation_id d.relations in
      let all_decoded : decode_all decode rows ≡ ok relations = ground (arith, scanned, guard) in
      let sought : decode_all decode (
            s.tables.relations.select_where
              (λ row. relation_in h.scope h.run_id row && relation_matches source target type row)
              by_relation_id d.relations)
          ≡ ok (keep_if (is_sought source target type) relations) =
        ap (decode_all decode) (
          laws.relations.select_where-and (relation_in h.scope h.run_id)
            (relation_matches source target type) by_relation_id d.relations by_relation_id-IsOrder)
        ∙ decode_all-keep_if decode _ (is_sought source target type)
            (is_sought-matches source target type) rows relations all_decoded in
      ground (arith, guard, sought)
