-- ===== src/EventStore/Quiet.antt =====
-- event_store.py: the constructor and the steps of `fork_prefix`, when every call is answered and no
-- other session is at work.
use mathlib.Core.List.{append-nil, append_assoc}
use activegraph_surrealdb.Prelude.{
  String, ◌≡◌, ◌≢◌, refl, sym, subst, ◌∙◌, none, List, [], ◌∷◌, ◌++◌, false, nat_eq, text_eq,
  option_eq, length, arith, eq_iff, option_beq_iff,
}
use activegraph_surrealdb.Errors.{ok}
use activegraph_surrealdb.Platform.{Platform}
use activegraph_surrealdb.Keys.{RecordId}
use activegraph_surrealdb.EventStore.Rows.{
  RunRow, EventRow, LedgerServer, LedgerLaws, Db, Transaction, update_run, with_head, apply_writes,
  merge_head, create_run, create_event, view, with_write,
}
use activegraph_surrealdb.EventStore.Chain.{run_record}
use activegraph_surrealdb.EventStore.Session.{Handle, session_steps}
use activegraph_surrealdb.EventStore.Reads.{verify_integrity}
use activegraph_surrealdb.EventStore.Fork.{
  create_children, fork_body, open_store, initialise, ensure_run, fresh_handle,
}
use activegraph_surrealdb.EventStore.Ledger.{IsLedger}
use activegraph_surrealdb.EventStore.Verify.{quiet, scoped_self, verified_rows_and_run-ok}
use activegraph_surrealdb.EventStore.Children.{rows_in}
use activegraph_surrealdb.EventStore.Copies.{creates, Fresh}
use activegraph_surrealdb.EventStore.Branching.{forking, apply_writes-snoc, absent_by_refuses}

module _ ⦃s : LedgerServer⦄ where
  -- CREATE refuses none of the rows, each after those before it
  abbrev pub Accepts : s.events.Table → List (RecordId × EventRow) → Type 0
  Accepts t [] = Unit
  Accepts t ((k, row) ∷ rest) =
      (s.events.refuses k row t ≡ none) × Accepts (s.events.write k row t) rest

  pub create_children-quiet :
      ⦃p : Platform⦄ (h : Handle) (d : Db s) (tx : Transaction s)
      (children : List (RecordId × EventRow))
      → Accepts (view tx).events children
      → create_children tx children (quiet h d)
        ≡ (ok (record tx { writes = tx.writes ++ creates children }), quiet h d)
  unfolding session_steps create_children
  create_children-quiet h d tx [] a =
      λ i. (ok (record tx { writes = sym (append-nil tx.writes) i }), quiet h d)
  create_children-quiet h d tx ((k, row) ∷ rest) a =
      let w = create_event k row in
      let moved : Accepts (view (with_write tx w)).events rest =
        subst (λ (x : Db s). Accepts x.events rest) (sym (apply_writes-snoc tx.base tx.writes w))
          a.1 in
      rw a.0 (
        create_children-quiet h d (with_write tx w) rest moved ∙ λ i.
        (ok (record tx { writes = append_assoc tx.writes (w ∷ []) (creates rest) i }), quiet h d))

  pub Fresh-Accepts :
      (laws : LedgerLaws s) (t : s.events.Table) (children : List (RecordId × EventRow))
      → Accepts t children
      → Fresh t children
  Fresh-Accepts laws t [] a = tt
  Fresh-Accepts laws t ((k, row) ∷ rest) a =
      (absent_by_refuses laws t k row a.0, Fresh-Accepts laws (s.events.write k row t) rest a.1)

pub length-rows_in :
    (children : List (RecordId × EventRow)) → length (rows_in children) ≡ length children
length-rows_in [] = refl
length-rows_in (c ∷ children) = omega (arith, length-rows_in children)

module _ ⦃p : Platform⦄ ⦃s : LedgerServer⦄ (h : Handle) (d : Db s) where
  -- An object on a run that is sound opens, and expects its head.
  initialise-quiet :
      (run : RunRow) (now : String)
      → h.closed ≡ false
      → h.run_id ≢ ""
      → h.scope ≢ ""
      → IsLedger h.scope h.run_id d run
      → initialise now (quiet h d) ≡ (
        ok tt,
        quiet (record h { expected_next_seq = run.next_seq; expected_head_hash = run.head_hash }) d,
      )
  unfolding session_steps initialise ensure_run verify_integrity
  initialise-quiet run now open_handle named scoped ledger = ground (
    arith,
    ledger.found,
    scoped_self h run ledger.in_scope ledger.of_run,
    eq_iff h.run_id "",
    eq_iff h.scope "",
    verified_rows_and_run-ok h d run open_handle ledger,
  )

module _ ⦃p : Platform⦄ ⦃s : LedgerServer⦄ (h : Handle) (d : Db s) where
  pub open_store-quiet :
      (scope run_id now : String) (run : RunRow)
      → run_id ≢ ""
      → scope ≢ ""
      → IsLedger scope run_id d run
      → open_store scope run_id now (quiet h d) ≡ (
        ok (record (fresh_handle scope run_id) {
          expected_next_seq = run.next_seq;
          expected_head_hash = run.head_hash;
        }),
        quiet h d,
      )
  unfolding open_store
  open_store-quiet scope run_id now run named scoped ledger =
      ground
        (arith, initialise-quiet (fresh_handle scope run_id) d run now refl named scoped ledger)

  -- the body of a fork commits
  pub fork_body-quiet :
      (run child : RunRow) (children : List (RecordId × EventRow))
      → IsLedger h.scope h.run_id d run
      → s.runs.select d.runs (run_record h.scope child.run_id) ≡ none
      → s.runs.refuses (run_record h.scope child.run_id) child (
          update_run s.runs
            (run_record h.scope h.run_id)
            (with_head run.next_seq run.head_hash)
            d.runs)
        ≡ none
      → Accepts d.events children
      → s.conflict
          (record {
            base = d;
            writes = forking h.scope h.run_id run (run_record h.scope child.run_id) child children;
          })
          d
        ≡ none
      → fork_body run.next_seq run child children (record { base = d; writes = [] }) (quiet h d) ≡ (
        ok tt,
        quiet h (
            apply_writes d
              (forking h.scope h.run_id run (run_record h.scope child.run_id) child children)),
      )
  unfolding session_steps fork_body
  fork_body-quiet run child children ledger absent allowed accepted commits = ground (
    arith,
    ledger.found,
    absent,
    allowed,
    scoped_self h run ledger.in_scope ledger.of_run,
    option_beq_iff run.head_hash run.head_hash,
    create_children-quiet h d
        (record {
          base = d;
          writes =
              merge_head (run_record h.scope h.run_id) run.next_seq run.head_hash
              ∷ create_run (run_record h.scope child.run_id) child
              ∷ [];
        })
        children accepted,
    commits,
  )
