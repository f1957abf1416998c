-- ===== src/Samples/Branches.antt =====
-- Tests and witnesses for a store object in use and for `fork_prefix` of event_store.py.
use activegraph_surrealdb.Prelude.{◌≡◌, refl, none, some, List, [], ◌∷◌}
use activegraph_surrealdb.Errors.{ok}
use activegraph_surrealdb.EventStore.Rows.{RunRow}
use activegraph_surrealdb.EventStore.Chain.{index_of, events_of}
use activegraph_surrealdb.EventStore.Reads.{RunPatch}
use activegraph_surrealdb.EventStore.Fork.{fresh_handle, fork_prefix, child_run_row}
use activegraph_surrealdb.EventStore.Ledger.{rows_of, IsLedger}
use activegraph_surrealdb.EventStore.Verify.{quiet}
use activegraph_surrealdb.EventStore.Children.{rows_in}
use activegraph_surrealdb.EventStore.Commands.{
  Command, appends, upserts, forks, iterates, counts, closes, performed_all, performed_all-IsSound,
}
use activegraph_surrealdb.EventStore.Forked.{fork_prefix_branches}
use activegraph_surrealdb.Samples.Machine.{machine-JsonLaws}
use activegraph_surrealdb.Samples.Ledger.{server-LedgerLaws}
use activegraph_surrealdb.Samples.Events.{
  sample_platform, sample_server, Sound, contested, contested-Guarded, first_event, third_event,
  ledger_runs,
}
use activegraph_surrealdb.Samples.Outcomes.{after_second, run_after_second, after_second-IsLedger}
use activegraph_surrealdb.Samples.Forks.{copied, copied_rows}

abbrev relabelled : RunPatch
relabelled = record {
  parent_run_id = none;
  forked_at_event_id = none;
  label = some "audited";
  goal = none;
  frame_id = none;
}

abbrev session : List (Command)
session =
    appends third_event
    ∷ upserts relabelled "t4"
    ∷ forks "run_2" "e1" none "t5"
    ∷ iterates none (some "e1")
    ∷ counts
    ∷ closes
    ∷ []

performed_all-IsSound_example : Sound (performed_all session contested).db
performed_all-IsSound_example =
    performed_all-IsSound (machine-JsonLaws _) server-LedgerLaws "acme" "run_1" session contested
      contested-Guarded

-- the run that a fork of the second state makes
abbrev branch : RunRow
branch = record {
  scope = "acme";
  run_id = "run_2";
  parent_run_id = some "run_1";
  forked_at_event_id = some "e1";
  label = none;
  created_at = "t5";
  goal = none;
  frame_id = none;
  next_seq = 1;
  head_hash = some "507465150";
}

fork_prefix_branches_example :
    let after = fork_prefix "run_2" "e1" none "t5" (quiet after_second.handle after_second.db) in
    (after.0
      ≡ ok (record (fresh_handle "acme" "run_2") {
        expected_next_seq = 1;
        expected_head_hash = some "507465150";
      }))
    × (rows_of "acme" "run_1" after.1.db ≡ rows_of "acme" "run_1" after_second.db)
    × IsLedger "acme" "run_1" after.1.db run_after_second
    × (rows_of "acme" "run_2" after.1.db ≡ rows_in copied)
    × IsLedger "acme" "run_2" after.1.db branch
unfolding ledger_runs child_run_row index_of events_of
fork_prefix_branches_example =
    fork_prefix_branches (machine-JsonLaws _) server-LedgerLaws after_second.handle after_second.db
      run_after_second "run_2" "e1" none "t5" 0 (first_event ∷ []) copied (some "507465150") refl
      (λ e. absurd (cc (e))) (λ e. absurd (cc (e))) after_second-IsLedger refl refl refl refl
      copied_rows refl refl refl (refl, tt) refl
