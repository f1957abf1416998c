-- ===== src/EventStore/Ledger.antt =====
-- event_store.py: the invariant of a stored run, and how the two kinds of write keep it.
use activegraph_surrealdb.Prelude.{
  ℕ, String, ◌+◌, ◌<◌, ◌≤◌, ◌≡◌, refl, ◌∙◌, ◌⊎◌, Option, none, some, List, [], ◌∷◌, ◌++◌, true,
  nat_eq, text_eq, option_eq, length, All, arith, inr, eq_iff, length-append,
}
use activegraph_surrealdb.Platform.{Platform}
use activegraph_surrealdb.Keys.{RecordId}
use activegraph_surrealdb.Surreal.Records.{same_id_refl}
use activegraph_surrealdb.Surreal.{insert_by}
use activegraph_surrealdb.EventStore.Rows.{
  RunRow, EventRow, LedgerServer, LedgerLaws, Db, in_run, by_seq, update_run, with_head,
  apply_write, apply_writes, create_event, merge_head,
}
use activegraph_surrealdb.EventStore.Chain.{run_record}
use activegraph_surrealdb.EventStore.Integrity.{IsLink, IsChain, IsChain-append}

-- the sequence numbers of a chain lie below its end
pub IsChain-below :
    ⦃p : Platform⦄ (scope run_id : String) (seq bound : ℕ) (previous last : Option String)
    (rows : List EventRow)
    → seq + length rows ≤ bound
    → IsChain scope run_id seq previous rows last
    → All (λ x. x.seq < bound) rows
IsChain-below scope run_id seq bound previous last [] n c = tt
IsChain-below scope run_id seq bound previous last (row ∷ rows) n c =
    let e : row.seq ≡ seq = c.0.2 in
    (
      omega arith,
      IsChain-below scope run_id (seq + 1) bound (some row.hash) last rows (omega arith) c.1,
    )

-- a row with a later number goes to the end
pub insert_by-last :
    (row : EventRow) (rows : List EventRow)
    → All (λ x. x.seq < row.seq) rows
    → insert_by by_seq row rows ≡ rows ++ row ∷ []
unfolding insert_by
insert_by-last row [] h = refl
insert_by-last row (x ∷ rows) h = ground (arith, insert_by-last row rows h.1)

pub ranked :
    (row : EventRow) (rows : List EventRow)
    → All (λ x. x.seq < row.seq) rows
    → All (λ x. (by_seq row x ≡ true) ⊎ (by_seq x row ≡ true)) rows
ranked row [] h = tt
ranked row (x ∷ rows) h = (inr (ground arith), ranked row rows h.1)

pub in_run_self :
    (scope run_id : String) (row : EventRow)
    → row.scope ≡ scope
    → row.run_id ≡ run_id
    → in_run scope run_id row ≡ true
in_run_self scope run_id row e g = ground (arith, eq_iff row.scope scope, eq_iff row.run_id run_id)

module _ ⦃p : Platform⦄ ⦃s : LedgerServer⦄ where
  -- SELECT * FROM ag_event WHERE … ORDER BY seq ASC
  abbrev pub rows_of : String → String → Db s → List EventRow
  rows_of scope run_id d = s.events.select_where (in_run scope run_id) by_seq d.events

  -- The run row is there and is in scope, the rows are its hash chain, without gap or branch, and
  -- the row holds the number and the hash of the head.
  pub record IsLedger (scope run_id : String) (d : Db s) (run : RunRow) : Type 0 where
    pub found : s.runs.select d.runs (run_record scope run_id) ≡ some run
    pub in_scope : run.scope ≡ scope
    pub of_run : run.run_id ≡ run_id
    pub chain : IsChain scope run_id 0 none (rows_of scope run_id d) run.head_hash
    pub counted : run.next_seq ≡ length (rows_of scope run_id d)

module _ ⦃p : Platform⦄ ⦃s : LedgerServer⦄ (laws : LedgerLaws s) where
  pub select-update_run :
      (k : RecordId) (f : RunRow → RunRow) (t : s.runs.Table) (run : RunRow)
      → s.runs.select t k ≡ some run
      → s.runs.select (update_run s.runs k f t) k ≡ some (f run)
  select-update_run k f t run h =
      ground (arith, h, laws.runs.select-write k (f run) t k, same_id_refl k)

  -- A new event at the head is the last row.
  pub rows_of-extend :
      (scope run_id : String) (d : Db s) (run : RunRow) (k : RecordId) (row : EventRow)
      → IsLedger scope run_id d run
      → s.events.select d.events k ≡ none
      → IsLink scope run_id run.next_seq run.head_hash row
      → rows_of scope run_id (apply_write d (create_event k row))
        ≡ rows_of scope run_id d ++ row ∷ []
  rows_of-extend scope run_id d run k row ledger absent link =
      let below =
        IsChain-below scope run_id 0 row.seq none run.head_hash (rows_of scope run_id d)
          (omega (arith, link.2)) ledger.chain in
      laws.events.select_where-write (in_run scope run_id) by_seq k row d.events absent
        (in_run_self scope run_id row link.0 link.1) (ranked row (rows_of scope run_id d) below)
      ∙ insert_by-last row (rows_of scope run_id d) below

  pub IsLedger-extend :
      (scope run_id : String) (d : Db s) (run : RunRow) (k : RecordId) (row : EventRow)
      → IsLedger scope run_id d run
      → s.events.select d.events k ≡ none
      → IsLink scope run_id run.next_seq run.head_hash row
      → IsLedger scope run_id
          (apply_writes d (
            create_event k row
            ∷ merge_head (run_record scope run_id) (run.next_seq + 1) (some row.hash)
            ∷ []))
          (with_head (run.next_seq + 1) (some row.hash) run)
  IsLedger-extend scope run_id d run k row ledger absent link = record {
    found =
        select-update_run (run_record scope run_id) (with_head (run.next_seq + 1) (some row.hash))
          d.runs run ledger.found;
    in_scope = ledger.in_scope;
    of_run = ledger.of_run;
    chain = rw (rows_of-extend scope run_id d run k row ledger absent link) (
        IsChain-append scope run_id 0 run.next_seq none run.head_hash (some row.hash)
          (rows_of scope run_id d) (row ∷ []) (omega (arith, ledger.counted)) ledger.chain
          (link, refl));
    counted =
        rw (rows_of-extend scope run_id d run k row ledger absent link)
          (omega (arith, ledger.counted, length-append (rows_of scope run_id d) (row ∷ [])));
  }
