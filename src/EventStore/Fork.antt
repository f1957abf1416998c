-- ===== src/EventStore/Fork.antt =====
-- event_store.py: the constructor, with `_ensure_run`, and `fork_prefix`.
use activegraph_surrealdb.Prelude.{
  ℕ, String, ◌+◌, Option, none, some, List, [], ◌∷◌, Bool, true, false, not, ◌==◌, ◌||◌, nat_eq,
  text_eq, option_eq, length, take, is_some, if◌then◌else◌,
}
use activegraph_surrealdb.Errors.{
  ErrorClass, Error, Result, ok, raised, concurrent_writer, run_already_exists, value_error,
  unsupported_compacted_run, fork_point_not_found,
}
use activegraph_surrealdb.Exec.{pure, fail, lift, gets, modify, raise_if, try_else, ◌>>=◌, ◌>>◌}
use activegraph_surrealdb.Platform.{Platform}
use activegraph_surrealdb.Keys.{RecordId}
use activegraph_surrealdb.EventStore.Rows.{RunRow, EventRow, LedgerServer, Transaction, merge_head}
use activegraph_surrealdb.EventStore.Chain.{format, run_record, index_of, events_of, child_rows}
use activegraph_surrealdb.EventStore.Session.{
  Handle, Method, begin_transaction, select_run, tx_select_run, tx_create_event, tx_create_run,
  tx_write, commit, cancel_safely, ensure_open, transaction_run_row, assert_expected_head,
  raise_if_concurrent, read_run_row, verified_rows_and_run, create_run_record,
}
use activegraph_surrealdb.EventStore.Reads.{RunPatch, new_run_row, verify_integrity}

abbrev pub passes_fork : ErrorClass → Bool
passes_fork concurrent_writer = true
passes_fork run_already_exists = true
passes_fork _ = false

abbrev no_metadata : RunPatch
no_metadata = record {
  parent_run_id = none;
  forked_at_event_id = none;
  label = none;
  goal = none;
  frame_id = none;
}

abbrev pub starts_compacted : List EventRow → Bool
starts_compacted [] = false
starts_compacted (row ∷ rows) = row.content.event_type == "runtime.snapshot"

module _ ⦃p : Platform⦄ ⦃s : LedgerServer⦄ where
  -- the handler of a failed CREATE: a competing constructor may have made the run
  abbrev pub unless_created : Error → Option RunRow → Method (Unit {0})
  unless_created exc none = fail exc
  unless_created exc (some row) = pure tt

  abbrev pub create_if_missing : Handle → String → Option RunRow → Method (Unit {0})
  create_if_missing h now (some row) = pure tt
  create_if_missing h now none =
      try_else
        (create_run_record (run_record h.scope h.run_id)
          (new_run_row h.scope h.run_id no_metadata now))
        (λ exc. read_run_row >>= unless_created exc) pure

  -- `_ensure_run`; `now` is the clock's reading
  unfoldable pub ensure_run : String → Method (Unit {0})
  ensure_run now = do h ← gets (λ h. h); row ← read_run_row; create_if_missing h now row

  -- what the constructor does once the connection is open and has its schema
  abbrev pub settle_head : String → Method (Unit {0})
  settle_head now = do
    ensure_run now
    report ← verify_integrity
    modify (λ h. record h {
      expected_next_seq = report.next_seq;
      expected_head_hash = report.head_hash;
    })

  -- `__init__` on the new object's own handle, but for its connection
  unfoldable pub initialise : String → Method (Unit {0})
  initialise now = do
    h ← gets (λ h. h)
    raise_if (h.run_id == "") value_error "run_id must be non-empty"
    raise_if (h.scope == "") value_error "scope must be non-empty"
    settle_head now

  abbrev pub fresh_handle : String → String → Handle
  fresh_handle scope run_id = record {
    run_id = run_id;
    scope = scope;
    closed = false;
    expected_next_seq = 0;
    expected_head_hash = none;
  }

  -- `SurrealEventStore(config, run_id=…, scope=…)`: another object over the same database.
  -- Its connection and `ensure_schema` are left out (EventStore/Opening has them), and `now` is the clock's
  -- reading for `fork_prefix` and for `_ensure_run`.
  unfoldable pub open_store : String → String → String → Method Handle
  open_store scope run_id now w =
      let (r, w') = initialise now (record w { handle = fresh_handle scope run_id }) in
      (
        elim r [ ok u ↦ ok w'.handle | Result.err e ↦ Result.err e ],
        record w' { handle = w.handle },
      )

  unfoldable pub destination_exists : String → Method Bool
  destination_exists run_id = do
    h ← gets (λ h. h)
    row ← select_run (run_record h.scope run_id)
    pure (is_some row)

  unfoldable pub create_children :
      Transaction s → List (RecordId × EventRow) → Method (Transaction s)
  create_children tx [] = pure tx
  create_children tx ((k, row) ∷ rest) = do
    created ← tx_create_event tx k row
    create_children created rest

  unfoldable pub child_run_row :
      Handle → RunRow → String → String → Option String → String → ℕ → Option String → RunRow
  child_run_row h parent new_run_id at_event_id label created_at next_seq head_hash = record {
    scope = h.scope;
    run_id = new_run_id;
    parent_run_id = some h.run_id;
    forked_at_event_id = some at_event_id;
    label = label;
    created_at = created_at;
    goal = parent.goal;
    frame_id = parent.frame_id;
    next_seq = next_seq;
    head_hash = head_hash;
  }

  abbrev pub exists_already : String → String
  exists_already new_run_id =
      format ("destination run " ∷ p.repr new_run_id ∷ " already exists" ∷ [])

  -- the `try` clause of `fork_prefix`
  unfoldable pub fork_body :
      ℕ → RunRow → RunRow → List (RecordId × EventRow) → Transaction s → Method (Unit {0})
  fork_body row_count parent child children transaction = do
    h ← gets (λ h. h)
    current_parent ← transaction_run_row transaction
    raise_if
        (not (current_parent.next_seq == row_count)
          || not (current_parent.head_hash == parent.head_hash))
        concurrent_writer (format ("parent run " ∷ p.repr h.run_id ∷ " changed during fork" ∷ []))
    let child_record = run_record h.scope child.run_id
    existing ← tx_select_run transaction child_record
    raise_if (is_some existing) run_already_exists (exists_already child.run_id)
    touched ←
        tx_write transaction
          (merge_head (run_record h.scope h.run_id) parent.next_seq parent.head_hash)
    created ← tx_create_run touched child_record child
    copied ← create_children created children
    commit copied

  abbrev pub abandon_fork : String → Error → Method (Unit {0})
  abandon_fork new_run_id exc = do
    cancel_safely
    if passes_fork exc.kind then fail exc else (do
      exists ← destination_exists new_run_id
      raise_if exists run_already_exists (exists_already new_run_id)
      raise_if_concurrent exc
      fail exc)

  abbrev pub found_index : Handle → String → Option ℕ → Result ℕ
  found_index h at_event_id (some index) = ok index
  found_index h at_event_id none =
      raised fork_point_not_found (
        format ("fork point " ∷ p.repr at_event_id ∷ " is absent from run " ∷ p.repr h.run_id ∷ []))

  unfoldable pub fork_prefix : String → String → Option String → String → Method Handle
  fork_prefix new_run_id at_event_id label now = do
    ensure_open
    h ← gets (λ h. h)
    (rows, parent_row) ← verified_rows_and_run
    assert_expected_head parent_row
    raise_if (starts_compacted rows) unsupported_compacted_run
        "runtime.snapshot logs are outside the preview fork contract"
    cutoff_index ← lift (found_index h at_event_id (index_of at_event_id 0 rows))
    exists ← destination_exists new_run_id
    raise_if exists run_already_exists (exists_already new_run_id)
    prefix ← lift (events_of (take (cutoff_index + 1) rows))
    (children, last_hash) ← lift (child_rows h.scope new_run_id 0 none prefix)
    let child =
        child_run_row h parent_row new_run_id at_event_id label now (length children) last_hash
    transaction ← begin_transaction
    try_else (fork_body (length rows) parent_row child children transaction)
        (abandon_fork new_run_id) pure
    open_store h.scope new_run_id now
