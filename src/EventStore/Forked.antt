-- ===== src/EventStore/Forked.antt =====
-- event_store.py: what `fork_prefix` makes, when every call is answered and no other session is at
-- work.
use activegraph_surrealdb.Prelude.{
  ℕ, String, ◌+◌, ◌≡◌, ◌≢◌, ◌<◌, refl, sym, subst, ap, ◌∙◌, Option, none, some, List, [], ◌++◌,
  false, nat_eq, text_eq, option_eq, All, length, take, arith,
}
use activegraph_surrealdb.Errors.{ok}
use activegraph_surrealdb.Platform.{Platform, JsonLaws}
use activegraph_surrealdb.Serde.{Event}
use activegraph_surrealdb.Keys.{RecordId}
use activegraph_surrealdb.Surreal.Records.{same_id_refl}
use activegraph_surrealdb.EventStore.Rows.{
  RunRow, EventRow, LedgerServer, LedgerLaws, Db, Write, update_run, with_head, apply_writes,
}
use activegraph_surrealdb.EventStore.Chain.{run_record, child_rows, events_of, index_of}
use activegraph_surrealdb.EventStore.Session.{Handle, session_steps, head_differs}
use activegraph_surrealdb.EventStore.Fork.{
  fork_body, fork_prefix, child_run_row, fresh_handle, starts_compacted, destination_exists,
}
use activegraph_surrealdb.EventStore.Integrity.{IsChain}
use activegraph_surrealdb.EventStore.Ledger.{IsLedger, rows_of}
use activegraph_surrealdb.EventStore.Verify.{quiet, verified_rows_and_run-ok}
use activegraph_surrealdb.EventStore.Children.{rows_in, child_rows-IsChain}
use activegraph_surrealdb.EventStore.Copies.{
  write_all, Fresh, apply_writes-creates, write_all-chain, write_all-other,
}
use activegraph_surrealdb.EventStore.Branching.{forking, IsLedger-forking, others_of_chain}
use activegraph_surrealdb.EventStore.Quiet.{
  Accepts, Fresh-Accepts, length-rows_in, open_store-quiet, fork_body-quiet,
}

module _ ⦃p : Platform⦄ ⦃s : LedgerServer⦄ (h : Handle) (d : Db s) where
  -- the child's run after the writes of a fork
  IsLedger-child :
      (laws : LedgerLaws s) (run child : RunRow) (children : List (RecordId × EventRow))
      → child.scope ≡ h.scope
      → child.next_seq ≡ length children
      → IsChain h.scope child.run_id 0 none (rows_in children) child.head_hash
      → rows_of h.scope child.run_id d ≡ []
      → Fresh d.events children
      → let after =
          apply_writes d
            (forking h.scope h.run_id run (run_record h.scope child.run_id) child children) in
        (rows_of h.scope child.run_id after ≡ rows_in children)
        × IsLedger h.scope child.run_id after child
  IsLedger-child laws run child children in_scope counted chain empty fresh =
      let k = run_record h.scope child.run_id in
      let runs =
        update_run s.runs (run_record h.scope h.run_id) (with_head run.next_seq run.head_hash)
          d.runs in
      let written = apply_writes-creates children (record d { runs = s.runs.write k child runs }) in
      let rows : rows_of h.scope child.run_id (record d { events = write_all children d.events })
          ≡ rows_in children =
        write_all-chain laws h.scope child.run_id 0 none child.head_hash children d.events chain
          fresh (subst (All (λ x. x.seq < 0)) (sym empty) tt)
        ∙ ap (λ old. old ++ rows_in children) empty in
      rw written (
        rows,
        record {
          found = ground (arith, laws.runs.select-write k child runs k, same_id_refl k);
          in_scope = in_scope;
          of_run = refl;
          chain = rw rows chain;
          counted = counted ∙ sym (length-rows_in children) ∙ ap length (sym rows);
        },
      )

module _ ⦃p : Platform⦄ ⦃s : LedgerServer⦄ (json : JsonLaws p) (laws : LedgerLaws s) (h : Handle)
    (d : Db s) (run : RunRow) (new_run_id at_event_id : String) (label : Option String)
    (now : String) (index : ℕ) (prefix : List (Event p.Value))
    (children : List (RecordId × EventRow)) (last : Option String) where
  abbrev pub child : RunRow
  child = child_run_row h run new_run_id at_event_id label now (length children) last

  abbrev pub child_record : RecordId
  child_record = run_record h.scope new_run_id

  abbrev pub branching : List Write
  branching = forking h.scope h.run_id run child_record child children

  fork_prefix-quiet :
      h.closed ≡ false
      → h.scope ≢ ""
      → new_run_id ≢ ""
      → IsLedger h.scope h.run_id d run
      → head_differs h run ≡ false
      → starts_compacted (rows_of h.scope h.run_id d) ≡ false
      → index_of at_event_id 0 (rows_of h.scope h.run_id d) ≡ some index
      → events_of (take (index + 1) (rows_of h.scope h.run_id d)) ≡ ok prefix
      → child_rows h.scope new_run_id 0 none prefix ≡ ok (children, last)
      → s.runs.select d.runs child_record ≡ none
      → fork_body run.next_seq run child children (record { base = d; writes = [] }) (quiet h d)
        ≡ (ok tt, quiet h (apply_writes d branching))
      → IsLedger h.scope new_run_id (apply_writes d branching) child
      → fork_prefix new_run_id at_event_id label now (quiet h d) ≡ (
        ok (record (fresh_handle h.scope new_run_id) {
          expected_next_seq = length children;
          expected_head_hash = last;
        }),
        quiet h (apply_writes d branching),
      )
  unfolding session_steps fork_prefix destination_exists child_run_row
  fork_prefix-quiet open_handle scoped named ledger fresh_head plain at decoded made absent body
        made_ledger =
      ground (
        arith,
        verified_rows_and_run-ok h d run open_handle ledger,
        sym ledger.counted,
        body,
        open_store-quiet h (apply_writes d branching) h.scope new_run_id now child named scoped
            made_ledger,
      )

  -- the two runs after the writes
  branched :
      new_run_id ≢ h.run_id
      → IsLedger h.scope h.run_id d run
      → child_rows h.scope new_run_id 0 none prefix ≡ ok (children, last)
      → s.runs.select d.runs child_record ≡ none
      → rows_of h.scope new_run_id d ≡ []
      → Accepts d.events children
      → let after = apply_writes d branching in
        (rows_of h.scope h.run_id after ≡ rows_of h.scope h.run_id d)
        × IsLedger h.scope h.run_id after run
        × (rows_of h.scope new_run_id after ≡ rows_in children)
        × IsLedger h.scope new_run_id after child
  unfolding child_run_row
  branched other ledger made absent empty accepted =
      let fresh = Fresh-Accepts laws d.events children accepted in
      let chain = (child_rows-IsChain json h.scope new_run_id 0 none last prefix children made).0 in
      let others =
        others_of_chain h.run_id h.scope new_run_id 0 none last (rows_in children) other chain in
      let (rows, made_ledger) =
        IsLedger-child h d laws run child children refl refl chain empty fresh in
      (
        rw
            (apply_writes-creates children (record d {
              runs = s.runs.write child_record child (
                  update_run s.runs (run_record h.scope h.run_id)
                    (with_head run.next_seq run.head_hash) d.runs);
            }))
            (write_all-other laws h.scope h.run_id children d.events others fresh),
        IsLedger-forking json laws h.scope h.run_id d run run child child_record children refl refl
            absent fresh others ledger,
        rows,
        made_ledger,
      )

  -- In a quiet world, on an open handle whose scope is not empty and that expects the sound run's
  -- head, with a new run ID that is not empty, where the run does not begin with a snapshot, has the
  -- event with the given ID, and has no event that cannot be decoded or encoded up to it, and where
  -- neither the destination's record nor rows of it are there and the server refuses none of the
  -- writes: `fork_prefix` returns an object of the new run that expects the new run's head. The
  -- parent's rows and its run row are as before, and the new run is sound and has the rows that were
  -- derived from the prefix, one for each event of it.
  pub fork_prefix_branches :
      h.closed ≡ false
      → h.scope ≢ ""
      → new_run_id ≢ ""
      → IsLedger h.scope h.run_id d run
      → head_differs h run ≡ false
      → starts_compacted (rows_of h.scope h.run_id d) ≡ false
      → index_of at_event_id 0 (rows_of h.scope h.run_id d) ≡ some index
      → events_of (take (index + 1) (rows_of h.scope h.run_id d)) ≡ ok prefix
      → child_rows h.scope new_run_id 0 none prefix ≡ ok (children, last)
      → s.runs.select d.runs child_record ≡ none
      → rows_of h.scope new_run_id d ≡ []
      → s.runs.refuses child_record child (
          update_run s.runs
            (run_record h.scope h.run_id)
            (with_head run.next_seq run.head_hash)
            d.runs)
        ≡ none
      → Accepts d.events children
      → s.conflict (record { base = d; writes = branching }) d ≡ none
      → let after = fork_prefix new_run_id at_event_id label now (quiet h d) in
        (after.0
          ≡ ok (record (fresh_handle h.scope new_run_id) {
            expected_next_seq = length prefix;
            expected_head_hash = last;
          }))
        × (rows_of h.scope h.run_id after.1.db ≡ rows_of h.scope h.run_id d)
        × IsLedger h.scope h.run_id after.1.db run
        × (rows_of h.scope new_run_id after.1.db ≡ rows_in children)
        × IsLedger h.scope new_run_id after.1.db child
  unfolding child_run_row
  fork_prefix_branches open_handle scoped named ledger fresh_head plain at decoded made absent empty
        allowed accepted commits =
      let other : new_run_id ≢ h.run_id =
        λ e. absurd (cc (ledger.found, absent, ap (run_record h.scope) e)) in
      let (parent_rows, parent_ledger, rows, made_ledger) =
        branched other ledger made absent empty accepted in
      let count = (child_rows-IsChain json h.scope new_run_id 0 none last prefix children made).1 in
      rw
        (fork_prefix-quiet open_handle scoped named ledger fresh_head plain at decoded made absent
          (fork_body-quiet h d run child children ledger absent allowed accepted commits)
          made_ledger)
        (
          ap
              (λ n. ok (record (fresh_handle h.scope new_run_id) {
                expected_next_seq = n;
                expected_head_hash = last;
              }))
              count,
          parent_rows,
          parent_ledger,
          rows,
          made_ledger,
        )
