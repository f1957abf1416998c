-- ===== src/Samples/Forks.antt =====
-- Tests and witnesses for the rows that `fork_prefix` of event_store.py derives.
use activegraph_surrealdb.Prelude.{◌≡◌, refl, none, some, List, [], ◌∷◌}
use activegraph_surrealdb.Errors.{ok}
use activegraph_surrealdb.Keys.{RecordId}
use activegraph_surrealdb.EventStore.Rows.{EventRow}
use activegraph_surrealdb.EventStore.Chain.{child_rows, events_within, events_of}
use activegraph_surrealdb.EventStore.Window.{up_to, events_within-slice}
use activegraph_surrealdb.EventStore.Children.{rows_in, child_rows-IsChain}
use activegraph_surrealdb.Samples.Machine.{machine-JsonLaws}
use activegraph_surrealdb.Samples.Events.{sample_platform, first_event, ledger_runs}

abbrev pub copied : List (RecordId × EventRow)
copied =
    (
      record { table = "ag_event"; key = "11731160" },
      record {
        scope = "acme";
        run_id = "run_2";
        content = record {
          event_id = "e1";
          event_type = "task.created";
          payload_json = "p";
          actor = none;
          frame_id = none;
          caused_by = none;
          timestamp = "t1";
        };
        seq = 0;
        previous_hash = none;
        hash = "507465150";
      },
    )
    ∷ []

pub copied_rows :
    child_rows "acme" "run_2" 0 none (first_event ∷ []) ≡ ok (copied, some "507465150")
unfolding ledger_runs child_rows
copied_rows = refl

events_within-slice_example :
    events_within none (some 0) (rows_in copied) ≡ events_of (up_to (some 0) (rows_in copied))
events_within-slice_example =
    events_within-slice "acme" "run_2" none (some 0) (some "507465150") (rows_in copied)
      (child_rows-IsChain (machine-JsonLaws _) "acme" "run_2" 0 none (some "507465150")
        (first_event ∷ []) copied copied_rows).0
