-- ===== src/EventStore/Branching.antt =====
-- event_store.py: the writes that `fork_prefix` commits, and the runs after them.
use activegraph_surrealdb.Prelude.{
  ℕ, String, ◌+◌, ◌≡◌, ◌≢◌, refl, sym, subst, ap, ◌∙◌, Option, none, some, List, [], ◌∷◌, ◌++◌,
  nat_eq, text_eq, option_eq, All, length, Option-cases, inl, inr, arith,
}
use activegraph_surrealdb.Platform.{Platform, JsonLaws}
use activegraph_surrealdb.Keys.{RecordId}
use activegraph_surrealdb.Surreal.Memory.{same_id_iff}
use activegraph_surrealdb.EventStore.Rows.{
  RunRow, EventRow, LedgerServer, LedgerLaws, Db, Transaction, Write, update_run, with_head,
  apply_write, apply_writes, merge_head, create_run, Unchanged,
}
use activegraph_surrealdb.EventStore.Chain.{run_record}
use activegraph_surrealdb.EventStore.Integrity.{IsChain}
use activegraph_surrealdb.EventStore.Ledger.{IsLedger, rows_of, select-update_run}
use activegraph_surrealdb.EventStore.Append.{IsSound}
use activegraph_surrealdb.EventStore.Children.{rows_in}
use activegraph_surrealdb.EventStore.Copies.{
  creates, write_all, Fresh, Fresh-Agree, Unchanged-Agree, apply_writes-creates, write_all-other,
}
use activegraph_surrealdb.EventStore.Keeping.{IsLedger-create_run}

-- the writes of a fork
abbrev pub forking :
    ⦃p : Platform⦄
    → String
    → String
    → RunRow
    → RecordId
    → RunRow
    → List (RecordId × EventRow)
    → List Write
forking scope run_id parent k child children =
    merge_head (run_record scope run_id) parent.next_seq parent.head_hash
    ∷ create_run k child
    ∷ creates children

pub apply_writes-snoc :
    ⦃s : LedgerServer⦄ (d : Db s) (ws : List Write) (w : Write)
    → apply_writes d (ws ++ w ∷ []) ≡ apply_write (apply_writes d ws) w
apply_writes-snoc d [] w = refl
apply_writes-snoc d (v ∷ ws) w = apply_writes-snoc (apply_write d v) ws w

module _ ⦃s : LedgerServer⦄ (laws : LedgerLaws s) where
  pub absent_by_refuses :
      (t : s.events.Table) (k : RecordId) (row : EventRow)
      → s.events.refuses k row t ≡ none
      → s.events.select t k ≡ none
  absent_by_refuses t k row e = elim (Option-cases (s.events.select t k)) [
    | inl absent ↦ absent
    | inr (old, taken) ↦ absurd (laws.events.refuses_taken k row old t e taken)
  ]

-- the chain that is copied is of another run
pub others_of_chain :
    ⦃p : Platform⦄ (run_id its_scope its_run : String) (seq : ℕ) (previous last : Option String)
    (rows : List EventRow)
    → its_run ≢ run_id
    → IsChain its_scope its_run seq previous rows last
    → All (λ (row : EventRow). row.run_id ≢ run_id) rows
others_of_chain run_id its_scope its_run seq previous last [] n c = tt
others_of_chain run_id its_scope its_run seq previous last (row ∷ rows) n c = (
  λ e. n (sym c.0.1 ∙ e),
  others_of_chain run_id its_scope its_run (seq + 1) (some row.hash) last rows n c.1,
)

module _ ⦃p : Platform⦄ ⦃s : LedgerServer⦄ (json : JsonLaws p) (laws : LedgerLaws s)
    (scope run_id : String) where
  -- writing the head that is there again
  IsLedger-touch :
      (d : Db s) (run : RunRow) (next_seq : ℕ) (head_hash : Option String)
      → run.next_seq ≡ next_seq
      → run.head_hash ≡ head_hash
      → IsLedger scope run_id d run
      → IsLedger scope run_id
          (record d {
            runs =
                update_run s.runs (run_record scope run_id) (with_head next_seq head_hash) d.runs;
          })
          (with_head next_seq head_hash run)
  IsLedger-touch d run next_seq head_hash e g ledger = record {
    found =
        select-update_run laws (run_record scope run_id) (with_head next_seq head_hash) d.runs run
          ledger.found;
    in_scope = ledger.in_scope;
    of_run = ledger.of_run;
    chain = subst (IsChain scope run_id 0 none (rows_of scope run_id d)) g ledger.chain;
    counted = sym e ∙ ledger.counted;
  }

  IsLedger-copies :
      (d : Db s) (run : RunRow) (children : List (RecordId × EventRow))
      → All (λ (row : EventRow). row.run_id ≢ run_id) (rows_in children)
      → Fresh d.events children
      → IsLedger scope run_id d run
      → IsLedger scope run_id (record d { events = write_all children d.events }) run
  IsLedger-copies d run children n f ledger =
      let same = write_all-other laws scope run_id children d.events n f in
      record {
        found = ledger.found;
        in_scope = ledger.in_scope;
        of_run = ledger.of_run;
        chain =
            subst (λ rows. IsChain scope run_id 0 none rows run.head_hash) (sym same) ledger.chain;
        counted = ledger.counted ∙ ap length (sym same);
      }

  select-touched :
      (d : Db s) (run : RunRow) (k : RecordId) (f : RunRow → RunRow)
      → s.runs.select d.runs (run_record scope run_id) ≡ some run
      → s.runs.select d.runs k ≡ none
      → s.runs.select (update_run s.runs (run_record scope run_id) f d.runs) k ≡ none
  select-touched d run k f found absent = ground (
    arith,
    found,
    absent,
    laws.runs.select-write (run_record scope run_id) (f run) d.runs k,
    same_id_iff (run_record scope run_id) k,
  )

  pub IsLedger-forking :
      (d : Db s) (run parent child : RunRow) (k : RecordId) (children : List (RecordId × EventRow))
      → run.next_seq ≡ parent.next_seq
      → run.head_hash ≡ parent.head_hash
      → s.runs.select d.runs k ≡ none
      → Fresh d.events children
      → All (λ (row : EventRow). row.run_id ≢ run_id) (rows_in children)
      → IsLedger scope run_id d run
      → IsLedger scope run_id
          (apply_writes d (forking scope run_id parent k child children))
          (with_head parent.next_seq parent.head_hash run)
  IsLedger-forking d run parent child k children next head absent fresh others ledger =
      let d1 = record d {
        runs =
            update_run s.runs (run_record scope run_id) (with_head parent.next_seq parent.head_hash)
              d.runs;
      } in
      let d2 = record d1 { runs = s.runs.write k child d1.runs } in
      let touched = IsLedger-touch d run parent.next_seq parent.head_hash next head ledger in
      let created =
        IsLedger-create_run json laws scope run_id d1 _ child k
          (select-touched d run k _ ledger.found absent) touched in
      subst (λ x. IsLedger scope run_id x (with_head parent.next_seq parent.head_hash run))
        (sym (apply_writes-creates children d2))
        (IsLedger-copies d2 _ children others fresh created)

  pub fork-writes-IsSound :
      (tx : Transaction s) (base d : Db s) (current parent child : RunRow) (k : RecordId)
      (children : List (RecordId × EventRow))
      → tx ≡ record { base = base; writes = forking scope run_id parent k child children }
      → s.runs.select base.runs (run_record scope run_id) ≡ some current
      → current.next_seq ≡ parent.next_seq
      → current.head_hash ≡ parent.head_hash
      → s.runs.select base.runs k ≡ none
      → Fresh base.events children
      → All (λ (row : EventRow). row.run_id ≢ run_id) (rows_in children)
      → s.conflict tx d ≡ none
      → IsSound json laws scope run_id d
      → IsSound json laws scope run_id (apply_writes d tx.writes)
  fork-writes-IsSound tx base d current parent child k children e found next head absent fresh
        others accepted (run, ledger) =
      let same =
        subst (λ t. All (Unchanged t.base d) t.writes) e (laws.no_lost_update tx d accepted) in
      let same_run : current ≡ run = cc (same.0, found, ledger.found) in
      let forked =
        IsLedger-forking d run parent child k children
          (ap (λ (r : RunRow). r.next_seq) (sym same_run) ∙ next)
          (ap (λ (r : RunRow). r.head_hash) (sym same_run) ∙ head) (sym same.1.0 ∙ absent)
          (Fresh-Agree laws base.events d.events children (Unchanged-Agree children base d same.1.1)
            fresh)
          others ledger in
      subst (λ (t : Transaction s). IsSound json laws scope run_id (apply_writes d t.writes))
        (sym e) (with_head parent.next_seq parent.head_hash run, forked)
