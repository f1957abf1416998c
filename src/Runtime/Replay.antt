-- ===== src/Runtime/Replay.antt =====
-- runtime.py: `replay_graph` and `fork_event_store`. Replay uses two store objects, each with its own
-- connection: an action runs on the graph store's world, and the object that it owns holds the world
-- of the event store besides.
use activegraph_surrealdb.Prelude.{
  String, Bool, false, not, ◌==◌, text_eq, Option, none, List, [], ◌∷◌,
}
use activegraph_surrealdb.Errors.{ErrorClass, unsupported_compacted_run, value_error, Error, Result}
use activegraph_surrealdb.Exec.{
  World, Action, pure, fail, lift, gets, raise_if, try_else, ◌>>=◌, ◌>>◌,
}
use activegraph_surrealdb.Platform.{Platform}
use activegraph_surrealdb.Serde.{Event}
use activegraph_surrealdb.EventStore.Rows.{LedgerServer, Db}
use activegraph_surrealdb.EventStore.Session.{Handle, Method}
use activegraph_surrealdb.EventStore.Reads.{iter_events}
use activegraph_surrealdb.EventStore.Fork.{fork_prefix}
use activegraph_surrealdb.GraphStore.Rows.{GraphServer, GraphDb}
use activegraph_surrealdb.GraphStore.Session.{
  GraphHandle, GraphMethod, begin_rebuild, mark_ready, mark_failed, exception,
}

-- the two stores that a replay is given, the graph store's database apart
pub record Stores (s : LedgerServer) : Type 0 where
  pub events : World Handle (Db s)
  pub graph : GraphHandle

-- activegraph.core.graph.Graph: a graph over a graph store, which its methods call
pub record Framework ⦃p : Platform⦄ ⦃g : GraphServer⦄ : Type 1 where
  pub Graph : Type 0
  pub new_graph : String → GraphMethod Graph
  pub replay_event : Graph → Event p.Value → GraphMethod Graph
  -- `graph.ids.reseed_from_events`
  pub reseed : Graph → List (Event p.Value) → Result Graph
  -- Python's `type(error).__name__`
  pub class_name : ErrorClass → String

abbrev pub starts_with_snapshot : {A : Type 0} → List (Event A) → Bool
starts_with_snapshot [] = false
starts_with_snapshot (event ∷ rest) = event.event_type == "runtime.snapshot"

module _ ⦃p : Platform⦄ ⦃s : LedgerServer⦄ ⦃g : GraphServer⦄ where
  abbrev pub Replay : Type 0 → Type 0
  Replay = Action (Stores s) (GraphDb g.tables)

  abbrev pub graph_world :
      World (Stores s) (GraphDb g.tables) → World GraphHandle (GraphDb g.tables)
  graph_world w = record { handle = w.handle.graph; db = w.db; schedule = w.schedule }

  -- a method of the graph store, and one of the event store
  unfoldable pub on_graph : {A : Type 0} → GraphMethod A → Replay A
  on_graph m w =
      let (r, v) = m (graph_world w) in
      (
        r,
        record {
          handle = record { events = w.handle.events; graph = v.handle };
          db = v.db;
          schedule = v.schedule;
        },
      )

  unfoldable pub on_events : {A : Type 0} → Method A → Replay A
  on_events m w =
      let (r, v) = m w.handle.events in
      (r, record w { handle = record { events = v; graph = w.handle.graph } })

  module _ (f : Framework) where
    unfoldable pub replay_events : f.Graph → List (Event p.Value) → Replay f.Graph
    replay_events graph [] = pure graph
    replay_events graph (event ∷ rest) = do
      next ← on_graph (f.replay_event graph event)
      replay_events next rest

    -- the `try` clause up to `mark_ready`; `started` is the clock's reading
    unfoldable pub prepare : String → Replay f.Graph
    prepare started = do
      on_graph (begin_rebuild started)
      events ← on_events (iter_events none none)
      raise_if (starts_with_snapshot events) unsupported_compacted_run
          "runtime.snapshot replay is outside the uncompacted preview contract"
      run_id ← gets (λ h. h.events.handle.run_id)
      graph ← on_graph (f.new_graph run_id)
      replayed ← replay_events graph events
      lift (f.reseed replayed events)

    unfoldable pub rebuild : String → String → Replay f.Graph
    rebuild started ready_at = do
      graph ← prepare started
      on_graph (mark_ready ready_at)
      pure graph

    -- `with suppress(BaseException): graph_store.mark_failed(exc)`, then `raise`
    unfoldable pub give_up : {A : Type 0} → String → Error → Replay A
    give_up failed_at exc = do
      try_else (on_graph (mark_failed (exception (f.class_name exc.kind)) failed_at))
          (λ other. pure tt) pure
      fail exc

    unfoldable pub replay_graph : String → String → String → Replay f.Graph
    replay_graph started ready_at failed_at = do
      h ← gets (λ h. h)
      raise_if (not (h.events.handle.run_id == h.graph.run_id)) value_error
          "event and projection run_id values must match"
      raise_if (not (h.events.handle.scope == h.graph.scope)) value_error
          "event and projection scope values must match"
      try_else (rebuild started ready_at) (give_up failed_at) pure

  -- `fork_event_store`
  unfoldable pub fork_event_store : String → String → Option String → String → Method Handle
  fork_event_store new_run_id at_event_id label now = fork_prefix new_run_id at_event_id label now
