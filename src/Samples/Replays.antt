-- ===== src/Samples/Replays.antt =====
-- Tests and witnesses for the replay of runtime.py.
use activegraph_surrealdb.Prelude.{ℕ, ◌+◌, ◌≡◌, refl, []}
use activegraph_surrealdb.Errors.{ok}
use activegraph_surrealdb.Exec.{World, pure}
use activegraph_surrealdb.EventStore.Chain.{optional_boundary, events_within}
use activegraph_surrealdb.GraphStore.Rows.{GraphDb}
use activegraph_surrealdb.GraphStore.Lifecycle.{action_steps, graph_steps}
use activegraph_surrealdb.GraphStore.Session.{begin_rebuild, mark_ready}
use activegraph_surrealdb.Runtime.Replay.{
  Stores, Framework, on_graph, on_events, replay_events, prepare, rebuild, replay_graph,
}
use activegraph_surrealdb.Runtime.Repair.{FrameworkLaws, replay_graph-Settled, Settled}
use activegraph_surrealdb.Samples.Events.{sample_platform, sample_server, after_first, ledger_runs}
use activegraph_surrealdb.Samples.Ledger.{server}
use activegraph_surrealdb.Samples.Projection.{
  graph_server, graph_server-GraphLaws, graph_handle, graph_db, lookup_runs,
}

-- A graph is the number of events that it has replayed.
abbrev counting : Framework
counting = record {
  Graph = ℕ;
  new_graph = λ run_id. pure 0;
  replay_event = λ n event. pure (n + 1);
  reseed = λ n events. ok n;
  class_name = λ kind. "Error";
}

counting-FrameworkLaws : FrameworkLaws counting
unfolding pure
counting-FrameworkLaws = record {
  new_graph-IsAlone = λ run scope run_id w a. a;
  replay_event-IsAlone = λ graph event scope run_id w a. a;
}

abbrev stores : World (Stores server) (GraphDb graph_server.tables)
stores = record {
  handle = record { events = after_first; graph = graph_handle };
  db = graph_db;
  schedule = [];
}

replay_test : (replay_graph counting "t1" "t2" "t3" stores).0 ≡ ok 1
unfolding ledger_runs lookup_runs graph_steps action_steps begin_rebuild mark_ready on_graph
    on_events replay_events prepare rebuild replay_graph optional_boundary events_within
replay_test = refl

replay_graph-Settled_example :
    Settled graph_server-GraphLaws counting counting-FrameworkLaws "acme" "run_1" graph_handle refl
      refl refl
      (replay_graph counting "t1" "t2" "t3" stores)
unfolding ledger_runs
replay_graph-Settled_example =
    replay_graph-Settled graph_server-GraphLaws counting counting-FrameworkLaws "acme" "run_1"
      graph_handle refl refl refl "t1" "t2" "t3" stores
      (record { of_scope = refl; of_run = refl; open_store = refl; quiet = refl }) refl refl
