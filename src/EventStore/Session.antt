-- ===== src/EventStore/Session.antt =====
-- event_store.py: the store object, its SDK calls, and the internal helpers that the methods share.
-- The lock of a store serialises its own methods, so a method runs alone on its handle; the test
-- hooks are `None` outside of tests and are left out.
use activegraph_surrealdb.Prelude.{
  ℕ, String, Option, none, some, List, [], ◌∷◌, Bool, false, not, ◌==◌, ◌||◌, nat_eq, text_eq,
  option_eq, length, if◌then◌else◌,
}
use activegraph_surrealdb.Errors.{
  Error, Result, ok, raised, sdk_error, ledger_integrity, concurrent_writer, closed_store,
}
use activegraph_surrealdb.Exec.{
  Action, pure, fail, lift, gets, modify, raise_if, call, ask, try_else, ◌>>=◌, ◌>>◌,
}
use activegraph_surrealdb.Platform.{Platform}
use activegraph_surrealdb.Keys.{RecordId}
use activegraph_surrealdb.EventStore.Rows.{
  RunRow, EventRow, LedgerServer, Db, Transaction, Write, create_run, create_event, view,
  with_write, apply_writes, in_run, by_seq, update_run,
}
use activegraph_surrealdb.EventStore.Chain.{
  format, conflict_words, any_text, run_record, verify_rows,
}

-- the fields of SurrealEventStore that its methods read or assign
pub record Handle : Type 0 where
  pub run_id : String
  pub scope : String
  pub closed : Bool
  pub expected_next_seq : ℕ
  pub expected_head_hash : Option String

-- an answer, unless the engine has a reason to refuse
abbrev pub unless : {A : Type 0} → Option String → A → Result A
unless none a = ok a
unless (some reason) a = raised sdk_error reason

module _ ⦃s : LedgerServer⦄ where
  abbrev pub Method : Type 0 → Type 0
  Method = Action Handle (Db s)

  unfoldable pub begin_transaction : Method (Transaction s)
  unfolding ask
  begin_transaction = ask (λ d. ok (record { base = d; writes = [] }))

  -- reads outside and inside of a transaction
  unfoldable pub select_run : RecordId → Method (Option RunRow)
  unfolding ask
  select_run k = ask (λ d. ok (s.runs.select d.runs k))

  unfoldable pub select_event : RecordId → Method (Option EventRow)
  unfolding ask
  select_event k = ask (λ d. ok (s.events.select d.events k))

  unfoldable pub select_events : String → String → Method (List EventRow)
  unfolding ask
  select_events scope run_id =
      ask (λ d. ok (s.events.select_where (in_run scope run_id) by_seq d.events))

  unfoldable pub tx_select_run : Transaction s → RecordId → Method (Option RunRow)
  unfolding ask
  tx_select_run tx k = ask (λ d. ok (s.runs.select (view tx).runs k))

  unfoldable pub tx_select_event : Transaction s → RecordId → Method (Option EventRow)
  unfolding ask
  tx_select_event tx k = ask (λ d. ok (s.events.select (view tx).events k))

  unfoldable pub tx_create_event : Transaction s → RecordId → EventRow → Method (Transaction s)
  unfolding ask
  tx_create_event tx k row =
      ask
        (λ d. unless (s.events.refuses k row (view tx).events) (with_write tx (create_event k row)))

  unfoldable pub tx_create_run : Transaction s → RecordId → RunRow → Method (Transaction s)
  unfolding ask
  tx_create_run tx k row =
      ask (λ d. unless (s.runs.refuses k row (view tx).runs) (with_write tx (create_run k row)))

  unfoldable pub tx_write : Transaction s → Write → Method (Transaction s)
  unfolding ask
  tx_write tx w = ask (λ d. ok (with_write tx w))

  abbrev pub commit_on : Transaction s → Option String → Db s → Result (Unit {0}) × Db s
  commit_on tx none d = (ok tt, apply_writes d tx.writes)
  commit_on tx (some reason) d = (raised sdk_error reason, d)

  unfoldable pub commit : Transaction s → Method (Unit {0})
  unfolding call
  commit tx = call (λ d. commit_on tx (s.conflict tx d) d)

  -- `_cancel_safely`
  unfoldable pub cancel_safely : Method (Unit {0})
  cancel_safely = try_else (ask (λ d. ok tt)) (λ exc. pure tt) pure

  -- CREATE $run CONTENT $content, outside of a transaction
  abbrev pub create_on : Option String → RecordId → RunRow → Db s → Result (Unit {0}) × Db s
  create_on none k row d = (ok tt, record d { runs = s.runs.write k row d.runs })
  create_on (some reason) k row d = (raised sdk_error reason, d)

  unfoldable pub create_run_record : RecordId → RunRow → Method (Unit {0})
  unfolding call
  create_run_record k row = call (λ d. create_on (s.runs.refuses k row d.runs) k row d)

  -- UPDATE ONLY $run MERGE $patch
  unfoldable pub update_run_record : RecordId → (RunRow → RunRow) → Method (Unit {0})
  unfolding call
  update_run_record k f = call (λ d. (ok tt, record d { runs = update_run s.runs k f d.runs }))

  unfoldable pub ensure_open : Method (Unit {0})
  ensure_open = do
    closed ← gets (λ h. h.closed)
    raise_if closed closed_store "the SurrealEventStore is closed"

-- `int(head.get("next_seq", -1)) != … or head.get("head_hash") != …`
abbrev pub head_differs : Handle → RunRow → Bool
head_differs h row =
    not (row.next_seq == h.expected_next_seq) || not (row.head_hash == h.expected_head_hash)

abbrev pub mis_scoped : Handle → RunRow → Bool
mis_scoped h row = not (row.scope == h.scope) || not (row.run_id == h.run_id)

abbrev pub head_changed : Handle → Option RunRow → Bool
head_changed h none = false
head_changed h (some row) = head_differs h row

module _ ⦃p : Platform⦄ where
  unfoldable pub or_missing : String → Option RunRow → Result RunRow
  or_missing run_id none =
      raised ledger_integrity (format ("run metadata " ∷ p.repr run_id ∷ " is missing" ∷ []))
  or_missing run_id (some row) = ok row

  -- a row that is there is in its scope
  abbrev pub scoped_run : Handle → String → Option RunRow → Result (Option RunRow)
  scoped_run h message none = ok none
  scoped_run h message (some row) =
      if mis_scoped h row then raised ledger_integrity message else ok (some row)

  -- `any(word in str(cause).lower() for word in _CONFLICT_WORDS)`
  unfoldable pub names_conflict : Error → Bool
  names_conflict cause = any_text (λ word. p.contains word (p.lower cause.message)) conflict_words

module _ ⦃p : Platform⦄ ⦃s : LedgerServer⦄ where
  unfoldable pub read_run_row : Method (Option RunRow)
  read_run_row = do
    h ← gets (λ h. h)
    row ← select_run (run_record h.scope h.run_id)
    lift (scoped_run h "the canonical run record has mismatched scope" row)

  unfoldable pub transaction_run_row : Transaction s → Method RunRow
  transaction_run_row tx = do
    h ← gets (λ h. h)
    found ← tx_select_run tx (run_record h.scope h.run_id)
    row ← lift (or_missing h.run_id found)
    raise_if (mis_scoped h row) ledger_integrity "the transactional run record is mis-scoped"
    pure row

  unfoldable pub assert_expected_head : RunRow → Method (Unit {0})
  assert_expected_head head = do
    h ← gets (λ h. h)
    raise_if (head_differs h head) concurrent_writer
        (format ("run " ∷ p.repr h.run_id ∷ " changed after this handle observed its head" ∷ []))

  unfoldable pub raise_if_concurrent : Error → Method (Unit {0})
  raise_if_concurrent cause = do
    current ← try_else read_run_row (λ exc. pure none) pure
    h ← gets (λ h. h)
    raise_if (head_changed h current || names_conflict cause) concurrent_writer
        (format ("run " ∷ p.repr h.run_id ∷ " changed during a transactional write" ∷ []))

  -- `_verified_rows_and_run`
  unfoldable pub verified_rows_and_run : Method (List EventRow × RunRow)
  verified_rows_and_run = do
    ensure_open
    h ← gets (λ h. h)
    rows ← select_events h.scope h.run_id
    found ← read_run_row
    run ← lift (or_missing h.run_id found)
    last_hash ← lift (verify_rows h.scope h.run_id 0 none rows)
    raise_if (not (run.next_seq == length rows)) ledger_integrity (
        format (
          "run head expects "
          ∷ p.shown run.next_seq
          ∷ " events; found "
          ∷ p.shown (length rows)
          ∷ []))
    raise_if (not (run.head_hash == last_hash)) ledger_integrity
        "run head hash does not match the event chain"
    pure (rows, run)

-- Named on an `unfolding` line, this opens every call and helper of a session.
unfoldable pub session_steps : Unit {0}
unfolding pure fail lift gets modify raise_if call ask try_else ◌>>=◌ begin_transaction select_run
    select_event select_events tx_select_run tx_select_event tx_create_event tx_create_run tx_write
    commit cancel_safely create_run_record update_run_record ensure_open or_missing names_conflict
    read_run_row transaction_run_row assert_expected_head raise_if_concurrent
session_steps = tt
