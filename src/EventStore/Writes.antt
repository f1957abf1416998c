-- ===== src/EventStore/Writes.antt =====
-- event_store.py: `append` and `truncate_after`.
use activegraph_surrealdb.Prelude.{
  ℕ, String, ◌+◌, Option, none, some, [], ◌∷◌, Bool, true, false, is_some,
}
use activegraph_surrealdb.Errors.{
  ErrorClass, Error, duplicate_event, concurrent_writer, event_not_found, raised, Result, ok,
}
use activegraph_surrealdb.Exec.{pure, fail, lift, gets, modify, raise_if, try_else, ◌>>=◌, ◌>>◌}
use activegraph_surrealdb.Platform.{Platform}
use activegraph_surrealdb.Serde.{Event, EventRecord, event_to_record, event_hash}
use activegraph_surrealdb.EventStore.Rows.{
  EventRow, LedgerServer, Transaction, merge_head, delete_events,
}
use activegraph_surrealdb.EventStore.Chain.{format, run_record, event_record, assert_row_scope}
use activegraph_surrealdb.EventStore.Session.{
  Method, begin_transaction, tx_select_event, tx_create_event, tx_write, commit, cancel_safely,
  ensure_open, transaction_run_row, assert_expected_head, raise_if_concurrent,
}

-- the classes that a method's `except` clause raises again at once
abbrev pub passes_append : ErrorClass → Bool
passes_append duplicate_event = true
passes_append concurrent_writer = true
passes_append _ = false

abbrev pub passes_truncate : ErrorClass → Bool
passes_truncate event_not_found = true
passes_truncate concurrent_writer = true
passes_truncate _ = false

abbrev pub found_or : Option EventRow → Result EventRow → Result EventRow
found_or (some row) missing = ok row
found_or none missing = missing

module _ ⦃p : Platform⦄ ⦃s : LedgerServer⦄ where
  -- what follows `_cancel_safely` in the `except` clause
  abbrev pub raise_again : {A : Type 0} → Bool → Error → Method A
  raise_again true exc = fail exc
  raise_again false exc = do raise_if_concurrent exc; fail exc

  abbrev pub abandon : {A : Type 0} → (ErrorClass → Bool) → Error → Method A
  abandon passes exc = do cancel_safely; raise_again (passes exc.kind) exc

  -- `self._expected_next_seq = …; self._expected_head_hash = …`
  abbrev pub expect : ℕ × Option String → Method (Unit {0})
  expect (next_seq, head_hash) =
      modify (λ h. record h { expected_next_seq = next_seq; expected_head_hash = head_hash })

  -- the `try` clause of `append`; it returns the head that the handle then expects
  unfoldable pub append_body :
      Event p.Value → EventRecord → Transaction s → Method (ℕ × Option String)
  append_body event encoded transaction = do
    h ← gets (λ h. h)
    head ← transaction_run_row transaction
    assert_expected_head head
    let event_id = event_record h.scope h.run_id event.id
    existing ← tx_select_event transaction event_id
    raise_if (is_some existing) duplicate_event
        (format ("event " ∷ p.repr event.id ∷ " already exists in run " ∷ p.repr h.run_id ∷ []))
    current_hash ← lift (event_hash h.scope h.run_id head.next_seq event head.head_hash)
    created ← tx_create_event transaction event_id (record {
      scope = h.scope;
      run_id = h.run_id;
      content = encoded;
      seq = head.next_seq;
      previous_hash = head.head_hash;
      hash = current_hash;
    })
    merged ←
        tx_write created
          (merge_head (run_record h.scope h.run_id) (head.next_seq + 1) (some current_hash))
    commit merged
    pure (head.next_seq + 1, some current_hash)

  unfoldable pub append : Event p.Value → Method (Unit {0})
  append event = do
    encoded ← lift (event_to_record event)
    ensure_open
    transaction ← begin_transaction
    try_else (append_body event encoded transaction) (abandon passes_append) expect

  unfoldable pub truncate_body : String → Transaction s → Method (ℕ × Option String)
  truncate_body event_id transaction = do
    h ← gets (λ h. h)
    head ← transaction_run_row transaction
    assert_expected_head head
    found ← tx_select_event transaction (event_record h.scope h.run_id event_id)
    cutoff ← lift (
        found_or found (
          raised event_not_found
            (format ("event " ∷ p.repr event_id ∷ " not found in run " ∷ p.repr h.run_id ∷ []))))
    lift (assert_row_scope h.scope h.run_id cutoff)
    deleted ← tx_write transaction (delete_events h.scope h.run_id cutoff.seq)
    merged ←
        tx_write deleted
          (merge_head (run_record h.scope h.run_id) (cutoff.seq + 1) (some cutoff.hash))
    commit merged
    pure (cutoff.seq + 1, some cutoff.hash)

  unfoldable pub truncate_after : String → Method (Unit {0})
  truncate_after event_id = do
    ensure_open
    transaction ← begin_transaction
    try_else (truncate_body event_id transaction) (abandon passes_truncate) expect
