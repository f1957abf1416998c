-- ===== src/EventStore/Copies.antt =====
-- event_store.py: the rows that a fork creates, beside the runs that are there.
use mathlib.Core.List.{append-nil, append_assoc}
use activegraph_surrealdb.Prelude.{
  ℕ, String, ◌+◌, ◌<◌, ◌≡◌, ◌≢◌, refl, sym, subst, ap, ◌∙◌, Option, none, some, List, [], ◌∷◌, ◌++◌,
  false, Bool-cases, inl, inr, nat_eq, text_eq, All, arith, eq_iff,
}
use activegraph_surrealdb.Platform.{Platform}
use activegraph_surrealdb.Keys.{RecordId}
use activegraph_surrealdb.EventStore.Rows.{
  EventRow, LedgerServer, LedgerLaws, Db, Write, in_run, by_seq, apply_writes, create_event,
  Unchanged,
}
use activegraph_surrealdb.EventStore.Integrity.{IsChain}
use activegraph_surrealdb.EventStore.Ledger.{in_run_self, insert_by-last, ranked}
use activegraph_surrealdb.EventStore.Children.{rows_in}

-- `transaction.create(event_record, content)` for each row
abbrev pub creates : List (RecordId × EventRow) → List Write
creates [] = []
creates ((k, row) ∷ rest) = create_event k row ∷ creates rest

in_run_other :
    (scope run_id : String) (row : EventRow) → row.run_id ≢ run_id → in_run scope run_id row ≡ false
in_run_other scope run_id row n = elim (Bool-cases (in_run scope run_id row)) [
  | inl same ↦ absurd (n (ground (arith, same, eq_iff row.run_id run_id)))
  | inr other ↦ other
]

module _ ⦃s : LedgerServer⦄ where
  abbrev pub write_all : List (RecordId × EventRow) → s.events.Table → s.events.Table
  write_all [] t = t
  write_all ((k, row) ∷ rest) t = write_all rest (s.events.write k row t)

  -- no record is there when its turn comes
  abbrev pub Fresh : s.events.Table → List (RecordId × EventRow) → Type 0
  Fresh t [] = Unit
  Fresh t ((k, row) ∷ rest) = (s.events.select t k ≡ none) × Fresh (s.events.write k row t) rest

  -- the records of the rows are the same in both tables
  abbrev pub Agree : s.events.Table → s.events.Table → List (RecordId × EventRow) → Type 0
  Agree t u [] = Unit
  Agree t u ((k, row) ∷ rest) = (s.events.select t k ≡ s.events.select u k) × Agree t u rest

  pub apply_writes-creates :
      (children : List (RecordId × EventRow)) (d : Db s)
      → apply_writes d (creates children) ≡ record d { events = write_all children d.events }
  apply_writes-creates [] d = refl
  apply_writes-creates ((k, row) ∷ rest) d =
      apply_writes-creates rest (record d { events = s.events.write k row d.events })

  pub Unchanged-Agree :
      (children : List (RecordId × EventRow)) (base d : Db s)
      → All (Unchanged base d) (creates children)
      → Agree base.events d.events children
  Unchanged-Agree [] base d h = tt
  Unchanged-Agree ((k, row) ∷ rest) base d h = (h.0, Unchanged-Agree rest base d h.1)

module _ ⦃s : LedgerServer⦄ (laws : LedgerLaws s) where
  Agree-write :
      (k : RecordId) (row : EventRow) (t u : s.events.Table) (rest : List (RecordId × EventRow))
      → Agree t u rest
      → Agree (s.events.write k row t) (s.events.write k row u) rest
  Agree-write k row t u [] a = tt
  Agree-write k row t u ((j, other) ∷ rest) a = (
    ground (arith, a.0, laws.events.select-write k row t j, laws.events.select-write k row u j),
    Agree-write k row t u rest a.1,
  )

  pub Fresh-Agree :
      (t u : s.events.Table) (children : List (RecordId × EventRow))
      → Agree t u children
      → Fresh t children
      → Fresh u children
  Fresh-Agree t u [] a f = tt
  Fresh-Agree t u ((k, row) ∷ rest) a f = (
    sym a.0 ∙ f.0,
    Fresh-Agree (s.events.write k row t) (s.events.write k row u) rest
        (Agree-write k row t u rest a.1) f.1,
  )

  -- Rows of another run leave the rows of a run as they are.
  pub write_all-other :
      (scope run_id : String) (children : List (RecordId × EventRow)) (t : s.events.Table)
      → All (λ (row : EventRow). row.run_id ≢ run_id) (rows_in children)
      → Fresh t children
      → s.events.select_where (in_run scope run_id) by_seq (write_all children t)
        ≡ s.events.select_where (in_run scope run_id) by_seq t
  write_all-other scope run_id [] t n f = refl
  write_all-other scope run_id ((k, row) ∷ rest) t n f =
      write_all-other scope run_id rest (s.events.write k row t) n.1 f.1
      ∙ laws.events.select_where-write_other (in_run scope run_id) by_seq k row t f.0
          (in_run_other scope run_id row n.0)

  below_snoc :
      (seq : ℕ) (row : EventRow) (rows : List EventRow)
      → row.seq ≡ seq
      → All (λ x. x.seq < seq) rows
      → All (λ x. x.seq < seq + 1) (rows ++ row ∷ [])
  below_snoc seq row [] e h = (omega arith, tt)
  below_snoc seq row (x ∷ rows) e h = (omega (arith, h.0), below_snoc seq row rows e h.1)

  All-earlier :
      (seq : ℕ) (row : EventRow) (rows : List EventRow)
      → row.seq ≡ seq
      → All (λ x. x.seq < seq) rows
      → All (λ x. x.seq < row.seq) rows
  All-earlier seq row rows e h = subst (λ n. All (λ (x : EventRow). x.seq < n) rows) (sym e) h

  -- Rows that link up go behind the rows of their run, in their order.
  pub write_all-chain :
      ⦃p : Platform⦄ (scope run_id : String) (seq : ℕ) (previous last : Option String)
      (children : List (RecordId × EventRow)) (t : s.events.Table)
      → IsChain scope run_id seq previous (rows_in children) last
      → Fresh t children
      → All (λ x. x.seq < seq) (s.events.select_where (in_run scope run_id) by_seq t)
      → s.events.select_where (in_run scope run_id) by_seq (write_all children t)
        ≡ s.events.select_where (in_run scope run_id) by_seq t ++ rows_in children
  write_all-chain scope run_id seq previous last [] t c f below = sym (append-nil _)
  write_all-chain scope run_id seq previous last ((k, row) ∷ rest) t c f below =
      let old = s.events.select_where (in_run scope run_id) by_seq t in
      let first = All-earlier seq row old c.0.2 below in
      let one =
        laws.events.select_where-write (in_run scope run_id) by_seq k row t f.0
          (in_run_self scope run_id row c.0.0 c.0.1) (ranked row old first)
        ∙ insert_by-last row old first in
      write_all-chain scope run_id (seq + 1) (some row.hash) last rest (s.events.write k row t) c.1
        f.1 (subst (All (λ x. x.seq < seq + 1)) (sym one) (below_snoc seq row old c.0.2 below))
      ∙ ap (λ rows. rows ++ rows_in rest) one
      ∙ append_assoc old (row ∷ []) (rows_in rest)
