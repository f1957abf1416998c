-- ===== src/EventStore/Outcomes.antt =====
-- event_store.py: what `append` does when every call is answered and no other session is at work.
use activegraph_surrealdb.Prelude.{
  String, ◌≡◌, ◌+◌, none, some, List, [], ◌∷◌, ◌++◌, false, true, nat_eq, text_eq, option_eq, arith,
  option_beq_iff, refl,
}
use activegraph_surrealdb.Errors.{ok, raised, concurrent_writer, duplicate_event}
use activegraph_surrealdb.Platform.{Platform, JsonLaws}
use activegraph_surrealdb.Serde.{Event, EventRecord, event_to_record, event_hash}
use activegraph_surrealdb.EventStore.Rows.{
  RunRow, EventRow, LedgerServer, LedgerLaws, Db, Write, create_event, merge_head, apply_writes,
  with_head,
}
use activegraph_surrealdb.EventStore.Chain.{run_record, event_record, format}
use activegraph_surrealdb.EventStore.Session.{Handle, head_differs, session_steps}
use activegraph_surrealdb.EventStore.Writes.{append, append_body}
use activegraph_surrealdb.EventStore.Ledger.{rows_of, IsLedger, rows_of-extend, IsLedger-extend}
use activegraph_surrealdb.EventStore.Append.{appended_row, appended_row-IsLink}
use activegraph_surrealdb.EventStore.Verify.{quiet, scoped_self}

module _ ⦃p : Platform⦄ ⦃s : LedgerServer⦄ (h : Handle) (d : Db s) (run : RunRow)
    (event : Event p.Value) (encoded : EventRecord) where
  -- the writes of `append`
  abbrev pub appending : String → List Write
  appending hash =
      create_event (event_record h.scope h.run_id event.id)
        (appended_row h.scope h.run_id run.next_seq run.head_hash encoded hash)
      ∷ merge_head (run_record h.scope h.run_id) (run.next_seq + 1) (some hash)
      ∷ []

  abbrev pub extended : String → Db s
  extended hash = apply_writes d (appending hash)

  append-accepted :
      (hash : String)
      → s.conflict (record { base = d; writes = appending hash }) d ≡ none
      → h.closed ≡ false
      → IsLedger h.scope h.run_id d run
      → head_differs h run ≡ false
      → event_to_record event ≡ ok encoded
      → event_hash h.scope h.run_id run.next_seq event run.head_hash ≡ ok hash
      → s.events.select d.events (event_record h.scope h.run_id event.id) ≡ none
      → s.events.refuses
          (event_record h.scope h.run_id event.id)
          (appended_row h.scope h.run_id run.next_seq run.head_hash encoded hash)
          d.events
        ≡ none
      → append event (quiet h d) ≡ (
        ok tt,
        quiet
            (record h { expected_next_seq = run.next_seq + 1; expected_head_hash = some hash })
            (extended hash),
      )
  unfolding session_steps append append_body
  append-accepted hash accepts open_handle ledger fresh e g absent allowed = ground (
    arith,
    e,
    g,
    absent,
    allowed,
    ledger.found,
    scoped_self h run ledger.in_scope ledger.of_run,
    accepts,
  )

  -- An open handle that expects another head than the sound run has is refused: `append` of an event
  -- that can be encoded raises ConcurrentWriterError, and nothing is written.
  pub append_stale :
      h.closed ≡ false
      → IsLedger h.scope h.run_id d run
      → head_differs h run ≡ true
      → event_to_record event ≡ ok encoded
      → append event (quiet h d) ≡ (
        raised concurrent_writer (
            format
              ("run " ∷ p.repr h.run_id ∷ " changed after this handle observed its head" ∷ [])),
        quiet h d,
      )
  unfolding session_steps append append_body
  append_stale open_handle ledger stale e =
      ground (arith, e, ledger.found, scoped_self h run ledger.in_scope ledger.of_run)

  -- On an open handle that expects the sound run's head, `append` of an event that can be encoded and
  -- whose ID the run has already raises DuplicateEventError, and nothing is written.
  pub append_duplicate :
      (old : EventRow)
      → h.closed ≡ false
      → IsLedger h.scope h.run_id d run
      → head_differs h run ≡ false
      → event_to_record event ≡ ok encoded
      → s.events.select d.events (event_record h.scope h.run_id event.id) ≡ some old
      → append event (quiet h d) ≡ (
        raised duplicate_event (
            format ("event " ∷ p.repr event.id ∷ " already exists in run " ∷ p.repr h.run_id ∷ [])),
        quiet h d,
      )
  unfolding session_steps append append_body
  append_duplicate old open_handle ledger fresh e present =
      ground (arith, e, present, ledger.found, scoped_self h run ledger.in_scope ledger.of_run)

  -- On an open handle that expects the sound run's head, with a server that accepts the commit, `append` of an event that is new to the run, can be encoded
  -- and is not refused by CREATE returns. The run's rows are then the old ones and one more at the
  -- end, which is numbered and linked by the old head and holds the event's hash; the run is sound
  -- with the next number and that hash as its head, and the handle expects this head.
  pub append_extends :
      (json : JsonLaws p) (laws : LedgerLaws s) (hash : String)
      → s.conflict (record { base = d; writes = appending hash }) d ≡ none
      → h.closed ≡ false
      → IsLedger h.scope h.run_id d run
      → head_differs h run ≡ false
      → event_to_record event ≡ ok encoded
      → event_hash h.scope h.run_id run.next_seq event run.head_hash ≡ ok hash
      → s.events.select d.events (event_record h.scope h.run_id event.id) ≡ none
      → s.events.refuses
          (event_record h.scope h.run_id event.id)
          (appended_row h.scope h.run_id run.next_seq run.head_hash encoded hash)
          d.events
        ≡ none
      → let after = append event (quiet h d) in
        (after.0 ≡ ok tt)
        × (rows_of h.scope h.run_id after.1.db
            ≡ rows_of h.scope h.run_id d
              ++ appended_row h.scope h.run_id run.next_seq run.head_hash encoded hash ∷ [])
        × IsLedger h.scope h.run_id after.1.db (with_head (run.next_seq + 1) (some hash) run)
        × (head_differs after.1.handle (with_head (run.next_seq + 1) (some hash) run) ≡ false)
  append_extends json laws hash accepts open_handle ledger fresh e g absent allowed =
      let link =
        appended_row-IsLink json h.scope h.run_id run.next_seq run.head_hash event encoded hash e
          g in
      let k = event_record h.scope h.run_id event.id in
      let row = appended_row h.scope h.run_id run.next_seq run.head_hash encoded hash in
      rw (append-accepted hash accepts open_handle ledger fresh e g absent allowed) (
        refl,
        rows_of-extend laws h.scope h.run_id d run k row ledger absent link,
        IsLedger-extend laws h.scope h.run_id d run k row ledger absent link,
        ground (arith, option_beq_iff (some hash) (some hash)),
      )
