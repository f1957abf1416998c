-- ===== src/Samples/Listings.antt =====
-- Tests and witnesses for `most_recent_run_id` and `run_exists` of event_store.py.
use activegraph_surrealdb.Prelude.{String, ◌≡◌, refl, ◌==◌, text_eq, Option, some, false}
use activegraph_surrealdb.Errors.{ok}
use activegraph_surrealdb.EventStore.Rows.{Db}
use activegraph_surrealdb.EventStore.Chain.{run_record}
use activegraph_surrealdb.EventStore.Verify.{quiet}
use activegraph_surrealdb.EventStore.Listing.{
  most_recent_run_id, run_exists, any_order, candidates, count_of, count_by_run, max_of,
}
use activegraph_surrealdb.EventStore.Listing.Newest.{Answers, most_recent_run_id-Answers}
use activegraph_surrealdb.Samples.Events.{
  sample_platform, sample_server, after_first, new_handle, first_row, ledger_runs,
}
use activegraph_surrealdb.Samples.Ledger.{server}

-- beside the run with one event, one that was created later and has none
abbrev two_runs : Db server
two_runs = record after_first.db {
  runs =
      server.runs.write (run_record "acme" "run_2")
        (record first_row { run_id = "run_2"; created_at = "2026-02-01T00:00:00Z" })
        after_first.db.runs;
}

most_recent_test : (most_recent_run_id "acme" (quiet new_handle two_runs)).0 ≡ ok (some "run_1")
unfolding ledger_runs most_recent_run_id candidates count_of count_by_run max_of
most_recent_test = refl

run_exists_test : (run_exists "run_3" "acme" (quiet new_handle two_runs)).0 ≡ ok false
unfolding ledger_runs run_exists
run_exists_test = refl

most_recent_run_id-Answers_example :
    let runs = server.runs.select_where (λ row. row.scope == "acme") any_order two_runs.runs in
    let events =
      server.events.select_where (λ row. row.scope == "acme") any_order two_runs.events in
    (answer : Option String) × (most_recent_run_id "acme" (quiet new_handle two_runs)
      ≡ (ok answer, quiet new_handle two_runs))
    × Answers events answer runs
most_recent_run_id-Answers_example = most_recent_run_id-Answers new_handle two_runs "acme"
