-- ===== src/GraphStore/Lifecycle.antt =====
-- graph_store.py: who may read a projection, and what a rebuild leaves, with no other session at
-- work.
use activegraph_surrealdb.Prelude.{
  String, ◌≡◌, ap, ◌↔◌, ◌⊎◌, some, [], true, false, Bool, nat_eq, text_eq, arith, eq_iff, inl, inr,
  Option-cases,
}
use activegraph_surrealdb.Errors.{ok}
use activegraph_surrealdb.Exec.{
  World, pure, fail, lift, gets, raise_if, call, ask, modify, ◌>>=◌, try_else,
}
use activegraph_surrealdb.Platform.{Platform}
use activegraph_surrealdb.GraphStore.Rows.{ProjectionRow, GraphServer, GraphDb}
use activegraph_surrealdb.GraphStore.Session.{
  GraphHandle, ensure_open, select_projection, upsert_projection, projection_record, projection_row,
  projection_status, assert_readable, assert_scoped_row, serves, set_projection_status, clear,
  delete_relations, delete_patches, delete_vertices,
}

module _ ⦃s : GraphServer⦄ where
  -- every call is answered, and no other session commits anything
  abbrev pub at_rest : GraphHandle → GraphDb s.tables → World GraphHandle (GraphDb s.tables)
  at_rest h d = record { handle = h; db = d; schedule = [] }

-- A projection with this status serves a store that is, or is not, the one rebuilding it.
abbrev pub Serving : String → Bool → Type 0
Serving status rebuilding_here =
    (status ≡ "ready") ⊎ (status ≡ "rebuilding") × (rebuilding_here ≡ true)

-- for proofs that run the store's methods, without the guard's own steps and with them
unfoldable pub action_steps : Unit {0}
unfolding pure fail lift gets raise_if call ask modify ◌>>=◌ try_else
action_steps = tt

unfoldable pub graph_steps : Unit {0}
unfolding action_steps ensure_open select_projection upsert_projection projection_row
    projection_status assert_readable assert_scoped_row set_projection_status clear delete_relations
    delete_patches delete_vertices
graph_steps = tt

serves_iff : (status : String) (b : Bool) → (serves status b ≡ true) ↔ Serving status b
unfolding serves
serves_iff status b = (
  λ h. ground (arith, eq_iff status "ready", eq_iff status "rebuilding"),
  λ h. ground (arith, eq_iff status "ready", eq_iff status "rebuilding"),
)

module _ ⦃p : Platform⦄ ⦃s : GraphServer⦄ (h : GraphHandle) (d : GraphDb s.tables) where
  pub record IsReadable : Type 0 where
    pub open_handle : h.closed ≡ false
    pub row : ProjectionRow
    pub found : s.tables.projections.select d.projections (projection_record h) ≡ some row
    pub in_scope : row.scope ≡ h.scope
    pub of_run : row.run_id ≡ h.run_id
    pub serving : Serving row.status h.rebuilding_here

  pub assert_readable-ok : IsReadable → assert_readable (at_rest h d) ≡ (ok tt, at_rest h d)
  unfolding graph_steps
  assert_readable-ok r = ground (
    arith,
    r.open_handle,
    r.found,
    eq_iff r.row.scope h.scope,
    eq_iff r.row.run_id h.run_id,
    r.in_scope,
    r.of_run,
    (serves_iff r.row.status h.rebuilding_here).1 r.serving,
  )

  -- the guard's tests of a row that is there
  readable_tests :
      (row : ProjectionRow)
      → s.tables.projections.select d.projections (projection_record h) ≡ some row
      → (assert_readable (at_rest h d)).0 ≡ ok tt
      → (h.closed ≡ false)
        × (row.scope ≡ h.scope)
        × (row.run_id ≡ h.run_id)
        × (serves row.status h.rebuilding_here ≡ true)
  unfolding graph_steps
  readable_tests row f r = ground (arith, f, eq_iff row.scope h.scope, eq_iff row.run_id h.run_id)

  -- The guard that opens every method passes exactly when the store is open and the run's own
  -- projection row says "ready", or says "rebuilding" and this store is the one rebuilding it.
  pub assert_readable_iff : ((assert_readable (at_rest h d)).0 ≡ ok tt) ↔ IsReadable
  unfolding graph_steps
  assert_readable_iff = (
    λ r. elim (Option-cases (s.tables.projections.select d.projections (projection_record h))) [
      | inl missing ↦ absurd (ground arith)
      | inr (row, f) ↦
          let (a, b, c, e) = readable_tests row f r in
          record {
            open_handle = a;
            row = row;
            found = f;
            in_scope = b;
            of_run = c;
            serving = (serves_iff row.status h.rebuilding_here).0 e;
          }
    ],
    λ r. ap (λ x. x.0) (assert_readable-ok r),
  )
