-- ===== src/GraphStore/Kept.antt =====
-- graph_store.py: what the constructor does in the database closes no store.
use activegraph_surrealdb.Prelude.{String, ◌≡◌, Option, none, some, false}
use activegraph_surrealdb.Errors.{Error}
use activegraph_surrealdb.Exec.Held.{Holds-call, Holds-ask, Holds-gets}
use activegraph_surrealdb.Exec.Triples.{
  Triple, Triple-pure, Triple-fail, Triple-lift, Triple-bind, Triple-try_else,
}
use activegraph_surrealdb.Platform.{Platform}
use activegraph_surrealdb.GraphStore.Rows.{ProjectionRow, GraphServer}
use activegraph_surrealdb.GraphStore.Session.{
  GraphHandle, GraphMethod, projection_row, select_projection,
}
use activegraph_surrealdb.GraphStore.Objects.{
  ensure_projection_record, make_if_missing, unless_made, create_projection,
}

module _ ⦃p : Platform⦄ ⦃s : GraphServer⦄ where
  abbrev StillOpen : GraphHandle → Type 0
  StillOpen h = h.closed ≡ false

  abbrev StaysOpen : {A : Type 0} → GraphMethod A → Type 0
  StaysOpen m = Triple (λ w. StillOpen w.handle) (λ a. Unit {0}) m

  projection_row-StaysOpen : StaysOpen projection_row
  unfolding projection_row select_projection
  projection_row-StaysOpen =
      Triple-bind _ _ (Holds-gets StillOpen _)
        λ h _. Triple-bind _ _ (Holds-ask StillOpen _) λ row _. Triple-lift _ (λ a e. tt)

  unless_made-StaysOpen :
      (exc : Error) (row : Option ProjectionRow) → StaysOpen (unless_made exc row)
  unless_made-StaysOpen exc none = Triple-fail exc
  unless_made-StaysOpen exc (some row) = Triple-pure tt tt

  make_if_missing-StaysOpen :
      (h : GraphHandle) (now : String) (row : Option ProjectionRow)
      → StaysOpen (make_if_missing h now row)
  unfolding create_projection
  make_if_missing-StaysOpen h now (some row) = Triple-pure tt tt
  make_if_missing-StaysOpen h now none =
      Triple-try_else _ _ _ (Holds-call StillOpen _)
        (λ exc. Triple-bind _ _ projection_row-StaysOpen λ row _. unless_made-StaysOpen exc row)
        (λ u _. Triple-pure u tt)

  pub ensure_projection_record-StaysOpen :
      (now : String)
      → Triple
          (λ w. w.handle.closed ≡ false)
          (λ (u : Unit {0}). Unit {0})
          (ensure_projection_record now)
  unfolding ensure_projection_record
  ensure_projection_record-StaysOpen now =
      Triple-bind _ _ (Holds-gets StillOpen _)
        λ h _. Triple-bind _ _ projection_row-StaysOpen λ row _. make_if_missing-StaysOpen h now row
