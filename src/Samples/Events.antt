-- ===== src/Samples/Events.antt =====
-- Tests and witnesses for the event store, serde.py and keys.py.
use activegraph_surrealdb.Prelude.{String, ◌≡◌, ◌↔◌, refl, none, some, [], ◌∷◌, length}
use activegraph_surrealdb.Errors.{ok, raised, concurrent_writer}
use activegraph_surrealdb.Exec.{World, answered, lost}
use activegraph_surrealdb.Exec.Triples.{Guarded}
use activegraph_surrealdb.Platform.{Platform}
use activegraph_surrealdb.Serde.{
  Event, canonical_json, event_to_record, record_to_event, event_hash, optional_value,
}
use activegraph_surrealdb.EventStore.Rows.{LedgerServer, Db, RunRow}
use activegraph_surrealdb.EventStore.Session.{Handle, session_steps, verified_rows_and_run}
use activegraph_surrealdb.EventStore.Reads.{
  IntegrityReport, verify_integrity, new_run_row, iter_events, get_event, count,
}
use activegraph_surrealdb.EventStore.Chain.{run_record, event_record, verify_rows}
use activegraph_surrealdb.EventStore.Append.{IsSound, append-IsSound}
use activegraph_surrealdb.EventStore.Guards.{IsOf}
use activegraph_surrealdb.EventStore.Verify.{
  quiet, verified_rows_and_run-IsLedger, verify_integrity_iff,
}
use activegraph_surrealdb.EventStore.Ledger.{rows_of, IsLedger}
use activegraph_surrealdb.Keys.{same_id, record_id, record_key, frames, encoded_parts}
use activegraph_surrealdb.Surreal.Memory.{lookup, sort}
use activegraph_surrealdb.EventStore.Writes.{append, append_body, truncate_after, truncate_body}
use activegraph_surrealdb.EventStore.Fork.{fresh_handle, initialise, ensure_run, fork_prefix}
use activegraph_surrealdb.Samples.Machine.{sample, machine-JsonLaws}
use activegraph_surrealdb.Samples.Ledger.{server, server-LedgerLaws, collision}

instance abbrev pub sample_platform : Platform
sample_platform = sample

instance abbrev pub sample_server : LedgerServer
sample_server = server

abbrev pub empty_db : Db server
empty_db = record { runs = ([], tt); events = ([], tt) }

abbrev pub new_handle : Handle
new_handle = fresh_handle "acme" "run_1"

abbrev pub opened : World Handle (Db server)
opened =
    (initialise "2026-01-01T00:00:00Z"
      (record { handle = new_handle; db = empty_db; schedule = [] })).1

abbrev pub first_event : Event String
first_event = record {
  id = "e1";
  event_type = "task.created";
  payload = "p";
  actor = none;
  frame_id = none;
  caused_by = none;
  timestamp = "t1";
}

abbrev pub after_first : World Handle (Db server)
after_first = (append first_event (quiet new_handle opened.db)).1

-- Serialising keeps the event of this sample as it is.
pub first_record :
    event_to_record first_event
    ≡ ok (record {
      event_id = "e1";
      event_type = "task.created";
      payload_json = "p";
      actor = none;
      frame_id = none;
      caused_by = none;
      timestamp = "t1";
    })
unfolding event_to_record canonical_json
first_record = refl

-- two more events, and another session that appends the second one behind this handle's back
abbrev pub second_event : Event String
second_event = record first_event { id = "e2"; caused_by = some "e1"; timestamp = "t2" }

abbrev pub third_event : Event String
third_event = record first_event { id = "e3"; payload = "q"; timestamp = "t3" }

abbrev rival : Db server → Db server
rival d = (append second_event (quiet after_first.handle d)).1.db

-- the rival writes before this handle's commit, and the answer to an earlier call is lost
abbrev pub contested : World Handle (Db server)
contested = record {
  handle = after_first.handle;
  db = after_first.db;
  schedule =
      record { others = λ d. d; answer = answered }
      ∷ record { others = λ d. d; answer = answered }
      ∷ record { others = rival; answer = answered }
      ∷ record { others = λ d. d; answer = lost "connection reset" }
      ∷ [];
}

abbrev pub Sound : Db server → Type 0
Sound = IsSound (machine-JsonLaws _) server-LedgerLaws "acme" "run_1"

-- Named on an `unfolding` line, this lets a test of the event store run.
unfoldable pub ledger_runs : Unit {0}
unfolding session_steps initialise ensure_run new_run_row verified_rows_and_run verify_integrity
    append append_body event_to_record canonical_json event_hash record_to_event verify_rows lookup
    sort same_id run_record event_record record_id record_key frames encoded_parts optional_value
    collision truncate_after truncate_body iter_events get_event count fork_prefix
ledger_runs = tt

abbrev pub first_row : RunRow
first_row = record {
  scope = "acme";
  run_id = "run_1";
  parent_run_id = none;
  forked_at_event_id = none;
  label = none;
  created_at = "2026-01-01T00:00:00Z";
  goal = none;
  frame_id = none;
  next_seq = 0;
  head_hash = none;
}

opened_rows : (verified_rows_and_run (quiet new_handle opened.db)).0 ≡ ok ([], first_row)
unfolding ledger_runs
opened_rows = refl

pub opened-IsLedger : IsLedger "acme" "run_1" opened.db first_row
opened-IsLedger = (verified_rows_and_run-IsLedger new_handle opened.db [] first_row opened_rows).1

opened-Sound : Sound opened.db
opened-Sound = (first_row, opened-IsLedger)

appended-Sound :
    (event : Event String) (h : Handle) (d : Db server)
    → IsOf "acme" "run_1" h
    → Sound d
    → Sound (append event (quiet h d)).1.db
appended-Sound event h d k q =
    append-IsSound (machine-JsonLaws _) server-LedgerLaws "acme" "run_1" event (quiet h d)
      (record { owner = k; holds = q; friends = tt })

after_first-IsOf : IsOf "acme" "run_1" after_first.handle
unfolding ledger_runs
after_first-IsOf = record { of_scope = refl; of_run = refl }

after_first-Sound : Sound after_first.db
after_first-Sound =
    appended-Sound first_event new_handle opened.db (record { of_scope = refl; of_run = refl })
      opened-Sound

pub contested-Guarded : Guarded (IsOf "acme" "run_1") Sound contested
contested-Guarded = record {
  owner = after_first-IsOf;
  holds = after_first-Sound;
  friends = (
    λ d q. q,
    (
      λ d q. q,
      (λ d q. appended-Sound second_event after_first.handle d after_first-IsOf q, (λ d q. q, tt)),
    ),
  );
}

-- The rival's event stands, and this handle's append is refused as a concurrent write.
contested_outcome :
    (append third_event contested).0
    ≡ raised concurrent_writer "run run_1 changed during a transactional write"
unfolding ledger_runs
contested_outcome = refl

both_sessions_count : (count (quiet new_handle (append third_event contested).1.db)).0 ≡ ok 2
unfolding ledger_runs
both_sessions_count = refl

abbrev empty_report : IntegrityReport
empty_report = record { event_count = 0; next_seq = 0; head_hash = none }

verify_integrity_iff_example :
    ((verify_integrity (quiet new_handle opened.db)).0 ≡ ok empty_report) ↔ (
      (run : RunRow) × IsLedger "acme" "run_1" opened.db run
      × (empty_report ≡ record {
        event_count = length (rows_of "acme" "run_1" opened.db);
        next_seq = run.next_seq;
        head_hash = run.head_hash;
      }))
verify_integrity_iff_example = verify_integrity_iff new_handle opened.db empty_report refl
