-- ===== src/Samples/Outcomes.antt =====
-- Tests and witnesses for what `append` and `truncate_after` of event_store.py leave.
use activegraph_surrealdb.Prelude.{
  String, ◌≡◌, ◌↔◌, refl, false, none, some, [], ◌∷◌, ◌++◌, take, option_eq, nat_eq,
}
use activegraph_surrealdb.Errors.{ok, raised, concurrent_writer, duplicate_event}
use activegraph_surrealdb.Exec.{World}
use activegraph_surrealdb.Serde.{Event, EventRecord}
use activegraph_surrealdb.EventStore.Rows.{Db, RunRow, EventRow, with_head}
use activegraph_surrealdb.EventStore.Session.{Handle, head_differs, verified_rows_and_run}
use activegraph_surrealdb.EventStore.Writes.{append, truncate_after}
use activegraph_surrealdb.EventStore.Ledger.{rows_of, IsLedger}
use activegraph_surrealdb.EventStore.Append.{appended_row}
use activegraph_surrealdb.EventStore.Verify.{quiet, verified_rows_and_run-IsLedger}
use activegraph_surrealdb.EventStore.Outcomes.{append_extends, append_stale, append_duplicate}
use activegraph_surrealdb.EventStore.Truncation.{truncate_after_prefix}
use activegraph_surrealdb.EventStore.Chain.{verify_rows}
use activegraph_surrealdb.EventStore.Integrity.{IsChain, verify_rows_iff}
use activegraph_surrealdb.Samples.Machine.{machine-JsonLaws}
use activegraph_surrealdb.Samples.Ledger.{server, server-LedgerLaws}
use activegraph_surrealdb.Samples.Events.{
  sample_platform, sample_server, new_handle, opened, opened-IsLedger, first_event, second_event,
  after_first, first_row, ledger_runs,
}

abbrev encode : Event String → EventRecord
encode event = record {
  event_id = event.id;
  event_type = event.event_type;
  payload_json = event.payload;
  actor = event.actor;
  frame_id = event.frame_id;
  caused_by = event.caused_by;
  timestamp = event.timestamp;
}

abbrev pub first_stored : EventRow
first_stored = appended_row "acme" "run_1" 0 none (encode first_event) "930684828"

abbrev run_after_first : RunRow
run_after_first = with_head 1 (some "930684828") first_row

after_first_rows :
    (verified_rows_and_run (quiet new_handle after_first.db)).0
    ≡ ok (first_stored ∷ [], run_after_first)
unfolding ledger_runs
after_first_rows = refl

after_first-IsLedger : IsLedger "acme" "run_1" after_first.db run_after_first
after_first-IsLedger =
    (verified_rows_and_run-IsLedger new_handle after_first.db (first_stored ∷ []) run_after_first
      after_first_rows).1

append_extends_example :
    let after = append first_event (quiet new_handle opened.db) in
    (after.0 ≡ ok tt)
    × (rows_of "acme" "run_1" after.1.db ≡ rows_of "acme" "run_1" opened.db ++ first_stored ∷ [])
    × IsLedger "acme" "run_1" after.1.db run_after_first
    × (head_differs after.1.handle run_after_first ≡ false)
unfolding ledger_runs
append_extends_example =
    append_extends new_handle opened.db first_row first_event (encode first_event)
      (machine-JsonLaws _) server-LedgerLaws "930684828" refl refl opened-IsLedger refl refl refl
      refl refl

append_stale_example : append second_event (quiet new_handle after_first.db) ≡ (
  raised concurrent_writer "run run_1 changed after this handle observed its head",
  quiet new_handle after_first.db,
)
unfolding ledger_runs
append_stale_example =
    append_stale new_handle after_first.db run_after_first second_event (encode second_event) refl
      after_first-IsLedger refl refl

append_duplicate_example : append first_event (quiet after_first.handle after_first.db) ≡ (
  raised duplicate_event "event e1 already exists in run run_1",
  quiet after_first.handle after_first.db,
)
unfolding ledger_runs
append_duplicate_example =
    append_duplicate after_first.handle after_first.db run_after_first first_event
      (encode first_event) first_stored refl after_first-IsLedger refl refl refl

abbrev pub after_second : World Handle (Db server)
after_second = (append second_event (quiet after_first.handle after_first.db)).1

abbrev pub second_stored : EventRow
second_stored = appended_row "acme" "run_1" 1 (some "930684828") (encode second_event) "838926066"

abbrev pub run_after_second : RunRow
run_after_second = with_head 2 (some "838926066") first_row

after_second_rows :
    (verified_rows_and_run (quiet new_handle after_second.db)).0
    ≡ ok (first_stored ∷ second_stored ∷ [], run_after_second)
unfolding ledger_runs
after_second_rows = refl

pub after_second-IsLedger : IsLedger "acme" "run_1" after_second.db run_after_second
after_second-IsLedger =
    (verified_rows_and_run-IsLedger new_handle after_second.db (first_stored ∷ second_stored ∷ [])
      run_after_second after_second_rows).1

truncate_after_prefix_example :
    let after = truncate_after "e1" (quiet after_second.handle after_second.db) in
    (after.0 ≡ ok tt)
    × (rows_of "acme" "run_1" after.1.db ≡ take 1 (rows_of "acme" "run_1" after_second.db))
    × IsLedger "acme" "run_1" after.1.db (with_head 1 (some "930684828") run_after_second)
    × (head_differs after.1.handle (with_head 1 (some "930684828") run_after_second) ≡ false)
unfolding ledger_runs
truncate_after_prefix_example =
    truncate_after_prefix after_second.handle after_second.db run_after_second "e1" first_stored
      server-LedgerLaws refl refl after_second-IsLedger refl refl refl refl

verify_rows_iff_example :
    (verify_rows "acme" "run_1" 0 none (first_stored ∷ []) ≡ ok (some "930684828"))
    ↔ IsChain "acme" "run_1" 0 none (first_stored ∷ []) (some "930684828")
verify_rows_iff_example =
    verify_rows_iff "acme" "run_1" 0 none (some "930684828") (first_stored ∷ [])
