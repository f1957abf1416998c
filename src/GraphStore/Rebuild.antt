-- ===== src/GraphStore/Rebuild.antt =====
-- graph_store.py: the projection's lifecycle, `begin_rebuild`, `mark_ready` and `mark_failed`.
use activegraph_surrealdb.Prelude.{
  String, ◌≡◌, Option, none, some, true, false, nat_eq, text_eq, arith, eq_iff, inl, inr, sym, ◌∙◌,
  refl, subst, ◌==◌,
}
use activegraph_surrealdb.Errors.{ok}
use activegraph_surrealdb.Platform.{Platform}
use activegraph_surrealdb.Surreal.{CollectionLaws}
use activegraph_surrealdb.Surreal.Records.{select-write_same, Left, delete_where-Left}
use activegraph_surrealdb.GraphStore.Rows.{
  ProjectionRow, GraphServer, GraphDb, vertex_in, relation_in, patch_in,
}
use activegraph_surrealdb.GraphStore.Session.{
  GraphHandle, projection_record, begin_rebuild, mark_ready, mark_failed, Failure, failure_detail,
}
use activegraph_surrealdb.GraphStore.Lifecycle.{at_rest, graph_steps, Serving, IsReadable}

pub record GraphLaws (s : GraphServer) : Type 0 where
  pub projections : CollectionLaws s.tables.projections
  pub vertices : CollectionLaws s.tables.vertices
  pub relations : CollectionLaws s.tables.relations
  pub patches : CollectionLaws s.tables.patches

module _ ⦃p : Platform⦄ ⦃s : GraphServer⦄ (h : GraphHandle) where
  -- Nothing of this run is left in the three data tables, and everything of other runs is.
  pub record IsCleared (before after : GraphDb s.tables) : Type 0 where
    pub vertices :
        Left s.tables.vertices (vertex_in h.scope h.run_id) before.vertices after.vertices
    pub relations :
        Left s.tables.relations (relation_in h.scope h.run_id) before.relations after.relations
    pub patches : Left s.tables.patches (patch_in h.scope h.run_id) before.patches after.patches

  abbrev pub status_row : String → Option String → String → ProjectionRow
  status_row status error now = record {
    scope = h.scope;
    run_id = h.run_id;
    status = status;
    error = error;
    updated_at = now;
  }

not_equal : (a b : String) → (a == b) ≡ false → ¬ (a ≡ b)
not_equal a b h e = ground (arith, h, eq_iff a b, e)

module _ ⦃p : Platform⦄ ⦃s : GraphServer⦄ (laws : GraphLaws s) where
  -- Every store of one run reads one projection row.
  projection_record-same :
      (g h : GraphHandle)
      → g.scope ≡ h.scope
      → g.run_id ≡ h.run_id
      → projection_record g ≡ projection_record h
  unfolding projection_record
  projection_record-same g h e f = cc

  -- A store of the run whose row says a status is refused unless it serves that status.
  IsReadable-Serving :
      (h g : GraphHandle) (d : GraphDb s.tables) (row : ProjectionRow)
      → g.scope ≡ h.scope
      → g.run_id ≡ h.run_id
      → s.tables.projections.select d.projections (projection_record h) ≡ some row
      → IsReadable g d
      → Serving row.status g.rebuilding_here
  IsReadable-Serving h g d row e f found r =
      let same : projection_record g ≡ projection_record h = projection_record-same g h e f in
      let rows : r.row ≡ row = cc (r.found, found, same) in
      subst (λ x. Serving x.status g.rebuilding_here) rows r.serving

  Serving-IsReadable :
      (h g : GraphHandle) (d : GraphDb s.tables) (row : ProjectionRow)
      → g.scope ≡ h.scope
      → g.run_id ≡ h.run_id
      → g.closed ≡ false
      → s.tables.projections.select d.projections (projection_record h) ≡ some row
      → row.scope ≡ h.scope
      → row.run_id ≡ h.run_id
      → Serving row.status g.rebuilding_here
      → IsReadable g d
  Serving-IsReadable h g d row e f open_handle found in_scope of_run serving =
      let same : projection_record g ≡ projection_record h = projection_record-same g h e f in
      record {
        open_handle = open_handle;
        row = row;
        found = cc (found, same);
        in_scope = in_scope ∙ sym e;
        of_run = of_run ∙ sym f;
        serving = serving;
      }

  abbrev pub with_status :
      GraphHandle → String → Option String → String → GraphDb s.tables → GraphDb s.tables
  with_status h status error now d = record d {
    projections =
        s.tables.projections.write (projection_record h) (status_row h status error now)
          d.projections;
  }

  abbrev pub without_run : GraphHandle → GraphDb s.tables → GraphDb s.tables
  without_run h d = record d {
    vertices = s.tables.vertices.delete_where (vertex_in h.scope h.run_id) d.vertices;
    relations = s.tables.relations.delete_where (relation_in h.scope h.run_id) d.relations;
    patches = s.tables.patches.delete_where (patch_in h.scope h.run_id) d.patches;
  }

  pub begin_rebuild-open :
      (h : GraphHandle) (d : GraphDb s.tables) (now : String)
      → h.closed ≡ false
      → begin_rebuild now (at_rest h d) ≡ (
        ok tt,
        at_rest
            (record h { rebuilding_here = true })
            (without_run h (with_status h "rebuilding" none now d)),
      )
  unfolding graph_steps begin_rebuild
  begin_rebuild-open h d now open_handle = ground (arith, open_handle)

  pub mark_ready-open :
      (h : GraphHandle) (d : GraphDb s.tables) (now : String)
      → h.closed ≡ false
      → mark_ready now (at_rest h d)
        ≡ (ok tt, at_rest (record h { rebuilding_here = false }) (with_status h "ready" none now d))
  unfolding graph_steps mark_ready
  mark_ready-open h d now open_handle = ground (arith, open_handle)

  pub mark_failed-open :
      (h : GraphHandle) (d : GraphDb s.tables) (error : Failure) (now : String)
      → h.closed ≡ false
      → mark_failed error now (at_rest h d) ≡ (
        ok tt,
        at_rest
            (record h { rebuilding_here = false })
            (with_status h "failed" (some (failure_detail error)) now d),
      )
  unfolding graph_steps mark_failed
  mark_failed-open h d error now open_handle = ground (arith, open_handle)

  -- After `begin_rebuild` on an open store, the run's data tables hold nothing of this run and all
  -- that they held of other runs; this store may read and write the projection, and every other
  -- store of the run that is not rebuilding it is refused.
  pub begin_rebuild-IsReadable :
      (h : GraphHandle) (d : GraphDb s.tables) (now : String) (g : GraphHandle)
      → h.closed ≡ false
      → g.scope ≡ h.scope
      → g.run_id ≡ h.run_id
      → g.rebuilding_here ≡ false
      → let after = begin_rebuild now (at_rest h d) in
        (after.0 ≡ ok tt)
        × IsReadable after.1.handle after.1.db
        × IsCleared h d after.1.db
        × (¬ IsReadable g after.1.db)
  begin_rebuild-IsReadable h d now g open_handle same_scope same_run idle =
      let e = begin_rebuild-open h d now open_handle in
      let h' : GraphHandle = record h { rebuilding_here = true } in
      let d' = with_status h "rebuilding" none now d in
      let found =
        select-write_same laws.projections (projection_record h)
          (status_row h "rebuilding" none now) d.projections in
      rw e (
        refl,
        Serving-IsReadable h h' (without_run h d') (status_row h "rebuilding" none now) refl refl
            open_handle found refl refl (inr (refl, refl)),
        record {
          vertices = delete_where-Left laws.vertices (vertex_in h.scope h.run_id) d.vertices;
          relations = delete_where-Left laws.relations (relation_in h.scope h.run_id) d.relations;
          patches = delete_where-Left laws.patches (patch_in h.scope h.run_id) d.patches;
        },
        λ r.
            elim (IsReadable-Serving h g (without_run h d') (status_row h "rebuilding" none now)
              same_scope same_run found r) [
                | inl ready ↦ not_equal "rebuilding" "ready" refl ready
                | inr (same, here) ↦ absurd (cc (idle, here))
              ],
      )

  -- After `mark_ready` on an open store, every open store of the run may read and write the
  -- projection.
  pub mark_ready-IsReadable :
      (h : GraphHandle) (d : GraphDb s.tables) (now : String) (g : GraphHandle)
      → h.closed ≡ false
      → g.scope ≡ h.scope
      → g.run_id ≡ h.run_id
      → g.closed ≡ false
      → IsReadable g (mark_ready now (at_rest h d)).1.db
  mark_ready-IsReadable h d now g open_handle e f open_reader =
      let row = status_row h "ready" none now in
      rw (mark_ready-open h d now open_handle) (
        Serving-IsReadable h g (with_status h "ready" none now d) row e f open_reader
          (select-write_same laws.projections (projection_record h) row d.projections) refl refl
          (inl refl))

  -- After `mark_failed` on an open store, whatever the failure, no store of the run may read or
  -- write the projection, the one that marked it included.
  pub mark_failed-IsReadable :
      (h : GraphHandle) (d : GraphDb s.tables) (error : Failure) (now : String) (g : GraphHandle)
      → h.closed ≡ false
      → g.scope ≡ h.scope
      → g.run_id ≡ h.run_id
      → ¬ IsReadable g (mark_failed error now (at_rest h d)).1.db
  mark_failed-IsReadable h d error now g open_handle e f r =
      let row = status_row h "failed" (some (failure_detail error)) now in
      let d' = with_status h "failed" (some (failure_detail error)) now d in
      elim (IsReadable-Serving h g d' row e f
        (select-write_same laws.projections (projection_record h) row d.projections)
        (subst (λ x. IsReadable g x.1.db) (mark_failed-open h d error now open_handle) r)) [
          | inl ready ↦ not_equal "failed" "ready" refl ready
          | inr (same, here) ↦ not_equal "failed" "rebuilding" refl same
        ]
