-- ===== src/Harness/Released.antt =====
-- harness.py: build_runtime leaves both stores open or no socket at all.
use activegraph_surrealdb.Prelude.{String, ◌≡◌, refl, Option, List, []}
use activegraph_surrealdb.Exec.{World, modify}
use activegraph_surrealdb.Exec.Held.{Quietly, call-Quietly}
use activegraph_surrealdb.Exec.Triples.{Triple, Triple-pure, Triple-bind}
use activegraph_surrealdb.Exec.Splits.{
  whichever, Splits, Splits-pure, Splits-fail, Splits-keeps, Splits-bind, Splits-try_else,
  Splits-within,
}
use activegraph_surrealdb.Platform.{Platform}
use activegraph_surrealdb.Strings.{Text}
use activegraph_surrealdb.Config.{SurrealConfig}
use activegraph_surrealdb.Connection.Schema.{SchemaServer}
use activegraph_surrealdb.Connection.Opening.{Sdk}
use activegraph_surrealdb.Connection.Live.{SocketLaws}
use activegraph_surrealdb.Connection.Owner.{Owned}
use activegraph_surrealdb.Connection.Owning.{new_store-Opens, close_owned-Shuts}
use activegraph_surrealdb.EventStore.Rows.{LedgerServer, Db}
use activegraph_surrealdb.EventStore.Session.{Handle}
use activegraph_surrealdb.EventStore.Opening.{
  new_event_store, close_event_store, is_closed as events_closed, shut as shut_events,
}
use activegraph_surrealdb.EventStore.Kept.{settle_head-StaysOpen}
use activegraph_surrealdb.GraphStore.Rows.{GraphServer, GraphDb}
use activegraph_surrealdb.GraphStore.Session.{GraphHandle}
use activegraph_surrealdb.GraphStore.Opening.{
  new_graph_store, close_graph_store, is_closed as graph_closed, shut as shut_graph,
}
use activegraph_surrealdb.GraphStore.Kept.{ensure_projection_record-StaysOpen}
use activegraph_surrealdb.Harness.Holdings.{
  EventsOpenOf, EventsShutOf, GraphOpenOf, GraphShutOf, EventsOpen, EventsShut, GraphOpen,
  GraphShut, Serving, Released, Built, Built-EitherWay, RuntimeLaws,
}
use activegraph_surrealdb.Harness.{Python, PackLoader, Session}
use activegraph_surrealdb.Harness.Loading.{Stable, Keeps-load_modules}
use activegraph_surrealdb.Harness.Building.{
  SurrealPackRuntime, Deployment, RuntimeMaker, on_event_store, on_graph_store, close_runtime,
  load_runtime, build_runtime,
}

module _ ⦃py : Python⦄ ⦃c : SchemaServer⦄ ⦃sdk : Sdk c⦄ ⦃s : LedgerServer⦄ ⦃g : GraphServer⦄
    (laws : SocketLaws c sdk) {F : Type 0} where
  -- closing the event store, whatever is known of the graph store
  close_events :
      (G : Owned c GraphHandle (GraphDb g.tables) → Type 0)
      → Splits
          (Quietly (λ d. EventsOpen laws d × G d.graph_store))
          (λ (u : Unit {0}). Quietly (λ d. EventsShut laws d × G d.graph_store))
          (Quietly (λ d. EventsShut laws d × G d.graph_store))
          (on_event_store {F = F} close_event_store)
  close_events G =
      Splits-within _ _ _ (close_owned-Shuts laws events_closed shut_events) (λ w q. q.state.0)
        (λ w v u q x. record {
          quiet = q.quiet;
          state = (record { released = x.released }, q.state.1);
        })
        (λ w v q x. record {
          quiet = q.quiet;
          state = (record { released = x.released }, q.state.1);
        })

  close_graph :
      (E : Owned c Handle (Db s) → Type 0)
      → Splits
          (Quietly (λ d. E d.event_store × GraphOpen laws d))
          (λ (u : Unit {0}). Quietly (λ d. E d.event_store × GraphShut laws d))
          (Quietly (λ d. E d.event_store × GraphShut laws d))
          (on_graph_store {F = F} close_graph_store)
  close_graph E =
      Splits-within _ _ _ (close_owned-Shuts laws graph_closed shut_graph) (λ w q. q.state.1)
        (λ w v u q x. record {
          quiet = q.quiet;
          state = (q.state.0, record { released = x.released });
        })
        (λ w v q x. record {
          quiet = q.quiet;
          state = (q.state.0, record { released = x.released });
        })

  closes :
      Splits
        (Quietly (Serving laws))
        (λ (u : Unit {0}). Quietly (Released laws))
        (Quietly (Released laws))
        (close_runtime {F = F})
  unfolding close_runtime
  closes =
      Splits-try_else _ _ _ (close_events (GraphOpenOf laws))
        (λ exc. Splits-bind _ _ (close_graph (EventsShutOf laws)) λ _. Splits-fail exc (λ w q. q))
        (λ _. close_graph (EventsShutOf laws))

  -- With no other session at work and no call refused, in the process or on a connection, after
  -- `SurrealPackRuntime.close` of a runtime whose stores are open, neither of them has an open socket,
  -- whether `close` returns or raises.
  pub close_runtime-Released :
      (w : World (Session py.Module) (Deployment c s g F))
      → w.schedule ≡ []
      → Serving laws w.db
      → Released laws (close_runtime w).1.db
  close_runtime-Released w quiet serving =
      (whichever (Quietly (Released laws)) _
        (closes.at w (record { quiet = quiet; state = serving }))).state

module _ ⦃p : Platform⦄ ⦃py : Python⦄ ⦃c : SchemaServer⦄ ⦃sdk : Sdk c⦄ ⦃s : LedgerServer⦄
    ⦃g : GraphServer⦄ (laws : SocketLaws c sdk) {F : Type 0}
    ⦃loader : PackLoader py (Deployment c s g F)⦄ ⦃maker : RuntimeMaker (Deployment c s g F)⦄
    (runtime : RuntimeLaws laws loader maker) (schema_text : Text) (now : String)
    (config : SurrealConfig) (run_id scope : String) where
  open_events :
      Splits
        (Quietly (Released laws {F = F}))
        (λ (u : Unit {0}). Quietly (λ d. EventsOpen laws d × GraphShut laws d))
        (Quietly (Released laws))
        (on_event_store (new_event_store config schema_text run_id scope now))
  open_events =
      Splits-within _ _ _
        (new_store-Opens laws events_closed shut_events _ _ refl (settle_head-StaysOpen now) config
          schema_text run_id scope)
        (λ w q. q.state.0)
        (λ w v u q x. record {
          quiet = q.quiet;
          state = (record { connected = x.connected; open_store = x.open_store }, q.state.1);
        })
        (λ w v q x. record {
          quiet = q.quiet;
          state = (record { released = x.released }, q.state.1);
        })

  open_graph :
      Splits
        (Quietly (λ d. EventsOpen laws d × GraphShut laws d))
        (λ (u : Unit {0}). Quietly (Serving laws))
        (Quietly (λ d. EventsOpen laws d × GraphShut laws d))
        (on_graph_store {F = F} (new_graph_store config schema_text run_id scope now))
  open_graph =
      Splits-within _ _ _
        (new_store-Opens laws graph_closed shut_graph _ _ refl
          (ensure_projection_record-StaysOpen now) config schema_text run_id scope)
        (λ w q. q.state.1)
        (λ w v u q x. record {
          quiet = q.quiet;
          state = (q.state.0, record { connected = x.connected; open_store = x.open_store });
        })
        (λ w v q x. record {
          quiet = q.quiet;
          state = (q.state.0, record { released = x.released });
        })

  -- the loading of packs leaves the stores open
  Serving-Stable : Stable (Quietly {H = Session py.Module} (Serving laws {F = F}))
  Serving-Stable = record {
    imports = λ w i q. record { quiet = q.quiet; state = q.state };
    adds = λ w name q. record { quiet = q.quiet; state = q.state };
    loads = λ pack. call-Quietly (Serving laws {F = F}) _ (runtime.load_pack-Serving pack);
    loads_with = λ settings pack.
        call-Quietly (Serving laws {F = F}) _ (runtime.load_pack_with-Serving settings pack);
  }

  module _ (modules : List String) (settings : String → Option py.Settings)
      (root : Option String) where
    load_runtime-Serving :
        Triple
          (Quietly (Serving laws {F = F}))
          (λ (r : SurrealPackRuntime). Unit {0})
          (load_runtime config run_id scope modules settings root)
    unfolding load_runtime modify
    load_runtime-Serving =
        Triple-bind _ _ (call-Quietly (Serving laws {F = F}) _ (runtime.new_graph-Serving run_id))
          λ _ _.
            Triple-bind _ _ (call-Quietly (Serving laws {F = F}) _ runtime.new_runtime-Serving)
              λ _ _.
                Triple-bind {R = λ u. Unit {0}} _ _
                  (record { at = λ w q. (record { quiet = q.quiet; state = q.state }, λ u e. tt) })
                  λ _ _.
                    Triple-bind _ _
                      (Keeps-load_modules (Quietly (Serving laws {F = F})) Serving-Stable settings
                        root modules)
                      λ _ _. Triple-pure _ tt

    builds :
        Splits
          (Quietly (Released laws {F = F}))
          (λ r. Quietly (Serving laws {F = F}))
          (Quietly (Released laws {F = F}))
          (build_runtime schema_text now config run_id scope modules settings root)
    unfolding build_runtime
    builds = Splits-bind _ _ open_events λ _.
        Splits-try_else {Y = Quietly (λ d. EventsOpen laws d × GraphShut laws d)}
          {R = λ r. Quietly (Serving laws {F = F})} _ _ _
          (Splits-bind _ _ open_graph λ _.
            Splits-try_else {Y = Quietly (Serving laws {F = F})}
              {R = λ r. Quietly (Serving laws {F = F})} _ _ _
              (Splits-keeps _ _ load_runtime-Serving (λ w q. q) (λ r w _ q. q))
              (λ exc.
                Splits-bind _ _ (close_graph laws (EventsOpenOf laws))
                  λ _. Splits-fail exc (λ w q. q))
              (λ r. Splits-pure r (λ w q. q)))
          (λ exc.
            Splits-bind _ _ (close_events laws (GraphShutOf laws)) λ _. Splits-fail exc (λ w q. q))
          (λ r. Splits-pure r (λ w q. q))

    -- For a process with no open socket of either store, with no other session at work on the
    -- connections, and an ActiveGraph that closes no store: if `build_runtime` returns, both stores are
    -- open and have an open socket, and if it raises, at whatever step, neither has one.
    pub build_runtime-Built :
        (w : World (Session py.Module) (Deployment c s g F))
        → w.schedule ≡ []
        → Released laws w.db
        → Built laws (build_runtime schema_text now config run_id scope modules settings root w)
    build_runtime-Built w quiet released =
        Built-EitherWay laws _ _ (builds.at w (record { quiet = quiet; state = released }))
