-- ===== src/EventStore/Guards.antt =====
-- event_store.py: what the helpers of a method guarantee under any schedule of answers and of other
-- sessions, for a predicate `Q` of the database that those sessions keep.
use activegraph_surrealdb.Prelude.{
  String, ◌≡◌, refl, Option, none, some, [], false, nat_eq, text_eq, option_eq, arith, eq_iff,
}
use activegraph_surrealdb.Errors.{Error, Result, ok}
use activegraph_surrealdb.Exec.{ask}
use activegraph_surrealdb.Exec.Triples.{
  Guarded, Triple, Triple-pure, Triple-lift, weaken, Triple-raise_if, Triple-bind, Triple-try_else,
  Triple-gets, Triple-call,
}
use activegraph_surrealdb.Platform.{Platform}
use activegraph_surrealdb.Keys.{RecordId}
use activegraph_surrealdb.EventStore.Rows.{
  RunRow, EventRow, LedgerServer, Db, Transaction, Write, view, with_write, create_event,
  create_run, apply_writes,
}
use activegraph_surrealdb.EventStore.Chain.{run_record}
use activegraph_surrealdb.EventStore.Session.{
  Handle, Method, mis_scoped, head_differs, unless, begin_transaction, select_run, tx_select_run,
  tx_select_event, tx_create_event, tx_create_run, tx_write, commit, commit_on, cancel_safely,
  ensure_open, or_missing, read_run_row, transaction_run_row, assert_expected_head,
  raise_if_concurrent,
}

-- the object is of this scope and run
pub record IsOf (scope run_id : String) (h : Handle) : Type 0 where
  pub of_scope : h.scope ≡ scope
  pub of_run : h.run_id ≡ run_id

pub unless-ok : {A : Type 0} (reason : Option String) (a b : A) → unless reason a ≡ ok b → a ≡ b
unless-ok none a b e = cc
unless-ok (some m) a b e = absurd (cc)

abbrev pub Anything : {A : Type 0} → A → Type 0
Anything a = Unit

module _ ⦃p : Platform⦄ ⦃s : LedgerServer⦄ (scope run_id : String) (Q : Db s → Type 0) where
  abbrev pub Safe : {A : Type 0} → (A → Type 0) → Method A → Type 0
  Safe R m = Triple (Guarded (IsOf scope run_id) Q) R m

  pub Safe-ask :
      {A : Type 0} (R : A → Type 0) (f : Db s → Result A)
      → ((d : Db s) (a : A) → Q d → f d ≡ ok a → R a)
      → Safe R (ask f)
  unfolding ask
  Safe-ask R f k = Triple-call (λ d. (f d, d)) (λ d q. (q, λ a e. k d a q e))

  pub begin_transaction-Safe :
      Safe
        (λ tx. (base : Db s) × Q base × (tx ≡ record { base = base; writes = [] }))
        begin_transaction
  unfolding begin_transaction
  begin_transaction-Safe = Safe-ask _ _ (λ d tx q e. (d, q, cc))

  pub ensure_open-Safe : Safe Anything ensure_open
  unfolding ensure_open
  ensure_open-Safe =
      Triple-bind _ _ (Triple-gets {R = Anything} _ (λ h k. tt))
        (λ c _. weaken _ _ _ (λ a r. tt) (Triple-raise_if c _ _))

  pub tx_select_run-Safe :
      (tx : Transaction s) (k : RecordId)
      → Safe (λ row. s.runs.select (view tx).runs k ≡ row) (tx_select_run tx k)
  unfolding tx_select_run
  tx_select_run-Safe tx k = Safe-ask _ _ (λ d row q e. cc)

  pub tx_select_event-Safe :
      (tx : Transaction s) (k : RecordId)
      → Safe (λ row. s.events.select (view tx).events k ≡ row) (tx_select_event tx k)
  unfolding tx_select_event
  tx_select_event-Safe tx k = Safe-ask _ _ (λ d row q e. cc)

  pub tx_create_event-Safe :
      (tx : Transaction s) (k : RecordId) (row : EventRow)
      → Safe (λ t. with_write tx (create_event k row) ≡ t) (tx_create_event tx k row)
  unfolding tx_create_event
  tx_create_event-Safe tx k row =
      Safe-ask _ _ (λ d t q e. unless-ok (s.events.refuses k row (view tx).events) _ t e)

  pub tx_create_run-Safe :
      (tx : Transaction s) (k : RecordId) (row : RunRow)
      → Safe (λ t. with_write tx (create_run k row) ≡ t) (tx_create_run tx k row)
  unfolding tx_create_run
  tx_create_run-Safe tx k row =
      Safe-ask _ _ (λ d t q e. unless-ok (s.runs.refuses k row (view tx).runs) _ t e)

  pub tx_write-Safe :
      (tx : Transaction s) (w : Write) → Safe (λ t. with_write tx w ≡ t) (tx_write tx w)
  unfolding tx_write
  tx_write-Safe tx w = Safe-ask _ _ (λ d t q e. cc)

  commit_on-Safe :
      (tx : Transaction s) (d : Db s) (reason : Option String)
      → s.conflict tx d ≡ reason
      → (s.conflict tx d ≡ none → Q d → Q (apply_writes d tx.writes))
      → Q d
      → Q (commit_on tx reason d).1
  commit_on-Safe tx d none e k q = k e q
  commit_on-Safe tx d (some m) e k q = q

  -- A commit is safe if the transaction's writes keep `Q` in every state that accepts them.
  pub commit-Safe :
      (tx : Transaction s)
      → ((d : Db s) → s.conflict tx d ≡ none → Q d → Q (apply_writes d tx.writes))
      → Safe Anything (commit tx)
  unfolding commit
  commit-Safe tx k =
      Triple-call _ (λ d q. (commit_on-Safe tx d (s.conflict tx d) refl (k d) q, λ a e. tt))

  pub cancel_safely-Safe : Safe Anything cancel_safely
  unfolding cancel_safely
  cancel_safely-Safe =
      Triple-try_else _ _ _ (Safe-ask Anything _ (λ d a q e. tt)) (λ e. Triple-pure tt tt)
        (λ a _. Triple-pure a tt)

  pub select_run-Safe : (k : RecordId) → Safe Anything (select_run k)
  unfolding select_run
  select_run-Safe k = Safe-ask Anything _ (λ d row q e. tt)

  pub read_run_row-Safe : Safe Anything read_run_row
  unfolding read_run_row
  read_run_row-Safe = Triple-bind _ _ (Triple-gets {R = Anything} _ (λ h k. tt)) λ h _.
      Triple-bind _ _ (select_run-Safe (run_record h.scope h.run_id))
        λ row _. Triple-lift _ (λ a e. tt)

  run_facts :
      (tx : Transaction s) (h : Handle) (found : Option RunRow) (row : RunRow)
      → IsOf scope run_id h
      → s.runs.select (view tx).runs (run_record h.scope h.run_id) ≡ found
      → found ≡ some row
      → mis_scoped h row ≡ false
      → (s.runs.select (view tx).runs (run_record scope run_id) ≡ some row)
        × (row.scope ≡ scope)
        × (row.run_id ≡ run_id)
  run_facts tx h found row k f g m = (
    cc (k.of_scope, k.of_run),
    ground (arith, eq_iff row.scope h.scope, eq_iff row.run_id h.run_id),
    ground (arith, eq_iff row.scope h.scope, eq_iff row.run_id h.run_id),
  )

  or_missing-ok :
      (run : String) (found : Option RunRow) (row : RunRow)
      → or_missing run found ≡ ok row
      → found ≡ some row
  unfolding or_missing
  or_missing-ok run none row e = absurd (cc)
  or_missing-ok run (some r) row e = cc

  pub transaction_run_row-Safe :
      (tx : Transaction s)
      → Safe
          (λ row.
            (s.runs.select (view tx).runs (run_record scope run_id) ≡ some row)
            × (row.scope ≡ scope)
            × (row.run_id ≡ run_id))
          (transaction_run_row tx)
  unfolding transaction_run_row
  transaction_run_row-Safe tx =
      Triple-bind _ _ (Triple-gets {R = IsOf scope run_id} _ (λ h k. k)) λ h k.
        Triple-bind _ _ (tx_select_run-Safe tx (run_record h.scope h.run_id)) λ found f.
          Triple-bind _ _
            (Triple-lift (or_missing h.run_id found) (λ row e. or_missing-ok h.run_id found row e))
            λ row g.
              Triple-bind _ _ (Triple-raise_if (mis_scoped h row) _ _)
                λ _ m. Triple-pure row (run_facts tx h found row k f g m)

  pub assert_expected_head-Safe : (row : RunRow) → Safe Anything (assert_expected_head row)
  unfolding assert_expected_head
  assert_expected_head-Safe row =
      Triple-bind _ _ (Triple-gets {R = Anything} _ (λ h k. tt))
        λ h _. weaken _ _ _ (λ u r. tt) (Triple-raise_if (head_differs h row) _ _)

  pub raise_if_concurrent-Safe : (e : Error) → Safe Anything (raise_if_concurrent e)
  unfolding raise_if_concurrent
  raise_if_concurrent-Safe e =
      Triple-bind _ _
        (Triple-try_else {R = Anything} {S = Anything} _ _ _ read_run_row-Safe
          (λ x. Triple-pure none tt) (λ row _. Triple-pure row tt))
        λ current _.
          Triple-bind _ _ (Triple-gets {R = Anything} _ (λ h k. tt))
            λ h _. weaken _ _ _ (λ u r. tt) (Triple-raise_if _ _ _)
