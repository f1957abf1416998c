-- ===== src/EventStore/Verify.antt =====
-- event_store.py: `verify_integrity` and the reads that rest on it, with no other session at work.
use activegraph_surrealdb.Prelude.{
  String, ◌≡◌, ap, ◌↔◌, Option, none, some, List, [], false, nat_eq, text_eq, option_eq, length,
  arith, eq_iff, option_beq_iff, inl, inr, Option-cases, sym, ◌∙◌,
}
use activegraph_surrealdb.Errors.{ok, returned, failed, outcome}
use activegraph_surrealdb.Exec.{World}
use activegraph_surrealdb.Platform.{Platform}
use activegraph_surrealdb.EventStore.Rows.{RunRow, EventRow, LedgerServer, Db}
use activegraph_surrealdb.EventStore.Chain.{run_record, verify_rows}
use activegraph_surrealdb.EventStore.Session.{
  Handle, mis_scoped, session_steps, verified_rows_and_run,
}
use activegraph_surrealdb.EventStore.Reads.{IntegrityReport, verify_integrity}
use activegraph_surrealdb.EventStore.Integrity.{verify_rows_iff}
use activegraph_surrealdb.EventStore.Ledger.{rows_of, IsLedger}

module _ ⦃s : LedgerServer⦄ where
  -- every call is answered, and no other session commits anything
  abbrev pub quiet : Handle → Db s → World Handle (Db s)
  quiet h d = record { handle = h; db = d; schedule = [] }

pub scoped_self :
    (h : Handle) (run : RunRow)
    → run.scope ≡ h.scope
    → run.run_id ≡ h.run_id
    → mis_scoped h run ≡ false
scoped_self h run e g = ground (arith, eq_iff run.scope h.scope, eq_iff run.run_id h.run_id)

module _ ⦃p : Platform⦄ ⦃s : LedgerServer⦄ (h : Handle) (d : Db s) (run : RunRow) where
  -- An open handle reads a sound ledger whole.
  pub verified_rows_and_run-ok :
      h.closed ≡ false
      → IsLedger h.scope h.run_id d run
      → verified_rows_and_run (quiet h d) ≡ (ok (rows_of h.scope h.run_id d, run), quiet h d)
  unfolding session_steps verified_rows_and_run
  verified_rows_and_run-ok open_handle ledger = ground (
    arith,
    ledger.found,
    scoped_self h run ledger.in_scope ledger.of_run,
    (verify_rows_iff h.scope h.run_id 0 none run.head_hash (rows_of h.scope h.run_id d)).1
        ledger.chain,
    option_beq_iff run.head_hash run.head_hash,
  )

module _ ⦃p : Platform⦄ ⦃s : LedgerServer⦄ (h : Handle) (d : Db s) where
  -- what an accepted read has tested, with the run row and the chain's last hash at hand
  accepted_tests :
      (found : RunRow) (last : Option String) (rows : List EventRow) (run : RunRow)
      → s.runs.select d.runs (run_record h.scope h.run_id) ≡ some found
      → verify_rows h.scope h.run_id 0 none (rows_of h.scope h.run_id d) ≡ ok last
      → (verified_rows_and_run (quiet h d)).0 ≡ ok (rows, run)
      → (rows_of h.scope h.run_id d ≡ rows)
        × (found ≡ run)
        × (run.scope ≡ h.scope)
        × (run.run_id ≡ h.run_id)
        × (run.next_seq ≡ length (rows_of h.scope h.run_id d))
        × (run.head_hash ≡ last)
  unfolding session_steps verified_rows_and_run
  accepted_tests found last rows run f v r = ground (
    arith,
    eq_iff found.scope h.scope,
    eq_iff found.run_id h.run_id,
    option_beq_iff found.head_hash last,
  )

  -- Whatever is accepted is a sound ledger.
  pub verified_rows_and_run-IsLedger :
      (rows : List EventRow) (run : RunRow)
      → (verified_rows_and_run (quiet h d)).0 ≡ ok (rows, run)
      → (rows ≡ rows_of h.scope h.run_id d) × IsLedger h.scope h.run_id d run
  unfolding session_steps verified_rows_and_run
  verified_rows_and_run-IsLedger rows run r =
      elim (Option-cases (s.runs.select d.runs (run_record h.scope h.run_id))) [
        | inl missing ↦ absurd (ground arith)
        | inr (found, f) ↦
            elim (outcome (verify_rows h.scope h.run_id 0 none (rows_of h.scope h.run_id d))) [
              | failed e v ↦ absurd (ground arith)
              | returned last v ↦
                  let (same_rows, same_run, a, b, n, m) =
                    accepted_tests found last rows run f v r in
                  (
                    sym same_rows,
                    record {
                      found = f ∙ ap some same_run;
                      in_scope = a;
                      of_run = b;
                      chain = rw m (
                          (verify_rows_iff h.scope h.run_id 0 none last
                              (rows_of h.scope h.run_id d)).0
                            v);
                      counted = n;
                    },
                  )
            ]
      ]

  -- On an open handle, `verify_integrity` returns exactly when the run's stored rows are one
  -- gap-free hash chain in its scope whose length and last hash are those of the run row; it then
  -- reports that length and hash.
  pub verify_integrity_iff :
      (report : IntegrityReport)
      → h.closed ≡ false
      → ((verify_integrity (quiet h d)).0 ≡ ok report) ↔ (
          (run : RunRow) × IsLedger h.scope h.run_id d run
          × (report ≡ record {
            event_count = length (rows_of h.scope h.run_id d);
            next_seq = run.next_seq;
            head_hash = run.head_hash;
          }))
  unfolding session_steps verify_integrity
  verify_integrity_iff report open_handle = (
    λ r. elim (outcome (verified_rows_and_run (quiet h d)).0) [
      | failed e v ↦ absurd (ground arith)
      | returned (rows, run) v ↦
          let (same_rows, ledger) = verified_rows_and_run-IsLedger rows run v in
          (run, ledger, ground arith)
    ],
    λ (run, ledger, e). ground (arith, verified_rows_and_run-ok h d run open_handle ledger),
  )
