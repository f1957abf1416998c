-- ===== src/EventStore/Kept.antt =====
-- event_store.py: what the constructor does in the database closes no store.
use activegraph_surrealdb.Prelude.{String, ◌≡◌, Option, none, some, false}
use activegraph_surrealdb.Errors.{Error}
use activegraph_surrealdb.Exec.Held.{Holds-call, Holds-ask, Holds-gets, Holds-modify}
use activegraph_surrealdb.Exec.Triples.{
  Triple, Triple-pure, Triple-fail, Triple-lift, Triple-raise_if, Triple-bind, Triple-try_else,
  weaken,
}
use activegraph_surrealdb.Platform.{Platform}
use activegraph_surrealdb.EventStore.Rows.{RunRow, LedgerServer}
use activegraph_surrealdb.EventStore.Session.{
  Handle, Method, ensure_open, select_run, select_events, read_run_row, create_run_record,
  verified_rows_and_run,
}
use activegraph_surrealdb.EventStore.Reads.{verify_integrity}
use activegraph_surrealdb.EventStore.Fork.{
  settle_head, ensure_run, create_if_missing, unless_created,
}

module _ ⦃p : Platform⦄ ⦃s : LedgerServer⦄ where
  abbrev StillOpen : Handle → Type 0
  StillOpen h = h.closed ≡ false

  abbrev StaysOpen : {A : Type 0} → Method A → Type 0
  StaysOpen m = Triple (λ w. StillOpen w.handle) (λ a. Unit {0}) m

  read_run_row-StaysOpen : StaysOpen read_run_row
  unfolding read_run_row select_run
  read_run_row-StaysOpen =
      Triple-bind _ _ (Holds-gets StillOpen _)
        λ h _. Triple-bind _ _ (Holds-ask StillOpen _) λ row _. Triple-lift _ (λ a e. tt)

  verified_rows_and_run-StaysOpen : StaysOpen verified_rows_and_run
  unfolding verified_rows_and_run ensure_open select_events
  verified_rows_and_run-StaysOpen =
      Triple-bind _ _
        (Triple-bind _ _ (Holds-gets StillOpen _)
          λ closed _. weaken _ _ _ (λ u e. tt) (Triple-raise_if closed _ _))
        λ _ _. Triple-bind _ _ (Holds-gets StillOpen _) λ h _.
          Triple-bind _ _ (Holds-ask StillOpen _) λ rows _.
            Triple-bind _ _ read_run_row-StaysOpen λ found _.
              Triple-bind {R = λ a. Unit {0}} _ _ (Triple-lift _ (λ a e. tt)) λ run _.
                Triple-bind {R = λ a. Unit {0}} _ _ (Triple-lift _ (λ a e. tt)) λ last _.
                  Triple-bind _ _ (Triple-raise_if _ _ _)
                    λ _ _. Triple-bind _ _ (Triple-raise_if _ _ _) λ _ _. Triple-pure _ tt

  unless_created-StaysOpen :
      (exc : Error) (row : Option RunRow) → StaysOpen (unless_created exc row)
  unless_created-StaysOpen exc none = Triple-fail exc
  unless_created-StaysOpen exc (some row) = Triple-pure tt tt

  create_if_missing-StaysOpen :
      (h : Handle) (now : String) (row : Option RunRow) → StaysOpen (create_if_missing h now row)
  unfolding create_run_record
  create_if_missing-StaysOpen h now (some row) = Triple-pure tt tt
  create_if_missing-StaysOpen h now none =
      Triple-try_else _ _ _ (Holds-call StillOpen _)
        (λ exc. Triple-bind _ _ read_run_row-StaysOpen λ row _. unless_created-StaysOpen exc row)
        (λ u _. Triple-pure u tt)

  pub settle_head-StaysOpen :
      (now : String)
      → Triple (λ w. w.handle.closed ≡ false) (λ (u : Unit {0}). Unit {0}) (settle_head now)
  unfolding ensure_run verify_integrity
  settle_head-StaysOpen now =
      Triple-bind _ _
        (Triple-bind _ _ (Holds-gets StillOpen _) λ h _.
          Triple-bind _ _ read_run_row-StaysOpen λ row _. create_if_missing-StaysOpen h now row)
        λ _ _.
          Triple-bind {R = λ r. Unit {0}} _ _
            (Triple-bind _ _ verified_rows_and_run-StaysOpen λ found _. Triple-pure _ tt)
            λ report _. Holds-modify StillOpen _ (λ h e. e)
