-- ===== src/EventStore/Forking.antt =====
-- event_store.py: `fork_prefix` keeps the parent's run sound, whatever fails and whoever else writes.
use mathlib.Core.List.{append-nil, append_assoc}
use activegraph_surrealdb.Prelude.{
  ℕ, String, ◌≡◌, ◌≢◌, refl, sym, subst, ap, ◌∙◌, Option, none, some, List, [], ◌∷◌, ◌++◌, false,
  nat_eq, text_eq, option_eq, is_some, length, Bool-cases, inl, inr, arith, option_beq_iff,
}
use activegraph_surrealdb.Errors.{Error, ok}
use activegraph_surrealdb.Exec.Triples.{
  Triple-pure, Triple-fail, Triple-lift, Triple-raise_if, Triple-bind, Triple-try_else, Triple-gets,
  weaken,
}
use activegraph_surrealdb.Platform.{Platform, JsonLaws}
use activegraph_surrealdb.Keys.{RecordId}
use activegraph_surrealdb.EventStore.Rows.{
  RunRow, EventRow, LedgerServer, LedgerLaws, Db, Transaction, merge_head, create_run, create_event,
  view, with_write,
}
use activegraph_surrealdb.EventStore.Chain.{run_record, child_rows}
use activegraph_surrealdb.EventStore.Session.{Handle, unless, tx_create_event}
use activegraph_surrealdb.EventStore.Fork.{
  create_children, fork_body, abandon_fork, fork_prefix, child_run_row, destination_exists,
  passes_fork,
}
use activegraph_surrealdb.EventStore.Integrity.{IsChain}
use activegraph_surrealdb.EventStore.Append.{IsSound}
use activegraph_surrealdb.EventStore.Children.{rows_in, child_rows-IsChain}
use activegraph_surrealdb.EventStore.Copies.{creates, Fresh}
use activegraph_surrealdb.EventStore.Branching.{
  forking, apply_writes-snoc, absent_by_refuses, others_of_chain, fork-writes-IsSound,
}
use activegraph_surrealdb.EventStore.Keeping.{verified_rows_and_run-Safe, open_store-Safe}
use activegraph_surrealdb.EventStore.Guards.{
  IsOf, Anything, Safe, Safe-ask, ensure_open-Safe, transaction_run_row-Safe, tx_select_run-Safe,
  tx_write-Safe, tx_create_run-Safe, commit-Safe, select_run-Safe, cancel_safely-Safe,
  raise_if_concurrent-Safe, assert_expected_head-Safe, begin_transaction-Safe,
}

module _ ⦃p : Platform⦄ ⦃s : LedgerServer⦄ (json : JsonLaws p) (laws : LedgerLaws s)
    (scope run_id : String) where
  abbrev Sound : Db s → Type 0
  Sound = IsSound json laws scope run_id

  -- the transaction after the copies, none of which overwrites a record
  pub record Copied (tx : Transaction s) (children : List (RecordId × EventRow)) (t : Transaction s)
      : Type 0 where
    pub copied : t ≡ record tx { writes = tx.writes ++ creates children }
    pub fresh : Fresh (view tx).events children

  unless_refused :
      (reason : Option String) (a b : Transaction s)
      → unless reason a ≡ ok b
      → (reason ≡ none) × (a ≡ b)
  unless_refused none a b e = (refl, cc (e))
  unless_refused (some m) a b e = absurd (cc (e))

  Copied-cons :
      (tx created t : Transaction s) (k : RecordId) (row : EventRow)
      (rest : List (RecordId × EventRow))
      → with_write tx (create_event k row) ≡ created
      → s.events.select (view tx).events k ≡ none
      → Copied created rest t
      → Copied tx ((k, row) ∷ rest) t
  Copied-cons tx created t k row rest e absent c =
      let w = create_event k row in
      let d : Copied (with_write tx w) rest t = subst (λ x. Copied x rest t) (sym e) c in
      record {
        copied =
            d.copied ∙ λ i. record tx { writes = append_assoc tx.writes (w ∷ []) (creates rest) i };
        fresh = (
          absent,
          subst (λ (x : Db s). Fresh x.events rest) (apply_writes-snoc tx.base tx.writes w) d.fresh,
        );
      }

  tx_create_event-Absent :
      (tx : Transaction s) (k : RecordId) (row : EventRow)
      → Safe scope run_id Sound
          (λ t.
            (with_write tx (create_event k row) ≡ t) × (s.events.select (view tx).events k ≡ none))
          (tx_create_event tx k row)
  unfolding tx_create_event
  tx_create_event-Absent tx k row = Safe-ask scope run_id Sound _ _ (λ d t q e.
      let (allowed, written) = unless_refused (s.events.refuses k row (view tx).events) _ t e in
      (written, absent_by_refuses laws (view tx).events k row allowed))

  create_children-Safe :
      (tx : Transaction s) (children : List (RecordId × EventRow))
      → Safe scope run_id Sound (Copied tx children) (create_children tx children)
  unfolding create_children
  create_children-Safe tx [] =
      Triple-pure tx
        (record { copied = λ i. record tx { writes = sym (append-nil tx.writes) i }; fresh = tt })
  create_children-Safe tx ((k, row) ∷ rest) =
      Triple-bind _ _ (tx_create_event-Absent tx k row) λ created (e, absent).
        weaken _ _ _ (λ t c. Copied-cons tx created t k row rest e absent c)
          (create_children-Safe created rest)

  -- The child's record is not the parent's, since it is not there when the transaction begins.
  pub other_run :
      (base : Db s) (h : Handle) (current : RunRow) (new_run_id : String)
      → IsOf scope run_id h
      → s.runs.select base.runs (run_record scope run_id) ≡ some current
      → s.runs.select base.runs (run_record h.scope new_run_id) ≡ none
      → new_run_id ≢ run_id
  other_run base h current new_run_id k found absent e =
      absurd (cc (k.of_scope, found, absent, ap (run_record h.scope) e))

  built :
      (h : Handle) (base : Db s) (parent child : RunRow) (k : RecordId)
      (children : List (RecordId × EventRow)) (touched created copied : Transaction s)
      → IsOf scope run_id h
      → with_write {rs = s.runs} {es = s.events}
          (record { base = base; writes = [] })
          (merge_head (run_record h.scope h.run_id) parent.next_seq parent.head_hash)
        ≡ touched
      → with_write touched (create_run k child) ≡ created
      → Copied created children copied
      → (copied ≡ record { base = base; writes = forking scope run_id parent k child children })
        × Fresh base.events children
  built h base parent child k children touched created copied own t c q =
      let same : run_record h.scope h.run_id ≡ run_record scope run_id =
        cc (own.of_scope, own.of_run) in
      let prepared : created ≡ record {
        base = base;
        writes =
            merge_head (run_record scope run_id) parent.next_seq parent.head_hash
            ∷ create_run k child
            ∷ [];
      } =
        sym c ∙ ap (λ (x : Transaction s). with_write x (create_run k child)) (sym t) ∙ λ i.
        record {
          base = base;
          writes = merge_head (same i) parent.next_seq parent.head_hash ∷ create_run k child ∷ [];
        } in
      let q' : Copied
          (record {
            base = base;
            writes =
                merge_head (run_record scope run_id) parent.next_seq parent.head_hash
                ∷ create_run k child
                ∷ [];
          })
          children copied =
        subst (λ (x : Transaction s). Copied x children copied) prepared q in
      (q'.copied, q'.fresh)

  no_record :
      (found existing : Option RunRow) → found ≡ existing → is_some existing ≡ false → found ≡ none
  no_record found none e new = e
  no_record found (some row) e new = absurd (cc (new))

  fork_body-Safe :
      (base : Db s) (parent child : RunRow) (children : List (RecordId × EventRow))
      (its_scope : String) (last : Option String) (row_count : ℕ)
      → parent.next_seq ≡ row_count
      → IsChain its_scope child.run_id 0 none (rows_in children) last
      → Safe scope run_id Sound Anything
          (fork_body row_count parent child children (record { base = base; writes = [] }))
  unfolding fork_body
  fork_body-Safe base parent child children its_scope last row_count e chain =
      Triple-bind _ _ (Triple-gets {R = IsOf scope run_id} _ (λ h k. k)) λ h k.
        Triple-bind _ _ (transaction_run_row-Safe scope run_id Sound _) λ current f.
          Triple-bind _ _ (Triple-raise_if _ _ _) λ _ agrees.
            Triple-bind _ _ (tx_select_run-Safe scope run_id Sound _ _) λ existing x.
              Triple-bind _ _ (Triple-raise_if (is_some existing) _ _) λ _ new.
                Triple-bind _ _ (tx_write-Safe scope run_id Sound _ _) λ touched t.
                  Triple-bind _ _ (tx_create_run-Safe scope run_id Sound touched _ _) λ created c.
                    Triple-bind _ _ (create_children-Safe created children) λ copied q.
                      commit-Safe scope run_id Sound copied λ d accepted sound.
                        let absent = no_record _ existing x new in
                        let (writes, fresh) =
                          built h base parent child _ children touched created copied k t c q in
                        fork-writes-IsSound json laws scope run_id copied base d current parent
                          child (run_record h.scope child.run_id) children writes f.0
                          (ground (arith, agrees, e))
                          (ground
                            (arith, agrees, option_beq_iff current.head_hash parent.head_hash))
                          absent fresh
                          (others_of_chain run_id its_scope child.run_id 0 none last
                            (rows_in children) (other_run base h current child.run_id k f.0 absent)
                            chain)
                          accepted sound

  destination_exists-Safe :
      (run : String) → Safe scope run_id Sound Anything (destination_exists run)
  unfolding destination_exists
  destination_exists-Safe run =
      Triple-bind {R = Anything} _ _ (Triple-gets {R = Anything} _ (λ h k. tt))
        λ h _. Triple-bind _ _ (select_run-Safe scope run_id Sound _) λ row _. Triple-pure _ tt

  abandon_fork-Safe :
      (new_run_id : String) (exc : Error)
      → Safe scope run_id Sound (Anything {A = Unit {0}}) (abandon_fork new_run_id exc)
  abandon_fork-Safe new_run_id exc = Triple-bind _ _ (cancel_safely-Safe scope run_id Sound) λ _ _.
      elim (Bool-cases (passes_fork exc.kind)) [
        | inl passes ↦ rw passes (Triple-fail exc)
        | inr other ↦ rw other (
            Triple-bind _ _ (destination_exists-Safe new_run_id) λ exists _.
              Triple-bind _ _ (Triple-raise_if _ _ _) λ _ _.
                Triple-bind _ _ (raise_if_concurrent-Safe scope run_id Sound exc)
                  λ _ _. Triple-fail exc)
      ]

  pub fork_prefix-Safe :
      (new_run_id at_event_id : String) (label : Option String) (now : String)
      → Safe scope run_id Sound Anything (fork_prefix new_run_id at_event_id label now)
  unfolding fork_prefix child_run_row
  fork_prefix-Safe new_run_id at_event_id label now =
      Triple-bind _ _ (ensure_open-Safe scope run_id Sound) λ _ _.
        Triple-bind {R = Anything} _ _ (Triple-gets {R = Anything} _ (λ h k. tt)) λ h _.
          Triple-bind _ _ (verified_rows_and_run-Safe json laws scope run_id scope run_id)
            λ found counted.
              Triple-bind _ _ (assert_expected_head-Safe scope run_id Sound found.1) λ _ _.
                Triple-bind _ _ (Triple-raise_if _ _ _) λ _ _.
                  Triple-bind {R = Anything} _ _ (Triple-lift _ (λ a e. tt)) λ cutoff _.
                    Triple-bind _ _ (destination_exists-Safe new_run_id) λ exists _.
                      Triple-bind _ _ (Triple-raise_if _ _ _) λ _ _.
                        Triple-bind {R = Anything} _ _ (Triple-lift _ (λ a e. tt)) λ prefix _.
                          Triple-bind _ _
                            (Triple-lift (child_rows h.scope new_run_id 0 none prefix) (λ r e. e))
                            λ made rows.
                              Triple-bind _ _ (begin_transaction-Safe scope run_id Sound)
                                λ transaction (base, q, b).
                                  Triple-bind {R = Anything} _ _
                                    (Triple-try_else {R = Anything} _ _ _
                                      (subst
                                        (λ (tx : Transaction s). Safe scope run_id Sound Anything (
                                          fork_body (length found.0) found.1
                                            (child_run_row h found.1 new_run_id at_event_id label
                                              now (length made.0) made.1)
                                            made.0 tx))
                                        (sym b)
                                        (fork_body-Safe base found.1 _ made.0 h.scope made.1 _
                                          counted
                                          (child_rows-IsChain json h.scope new_run_id 0 none made.1
                                            prefix made.0 rows).0))
                                      (abandon_fork-Safe new_run_id) (λ u _. Triple-pure u tt))
                                    λ _ _.
                                      open_store-Safe json laws scope run_id scope run_id h.scope
                                        new_run_id now
