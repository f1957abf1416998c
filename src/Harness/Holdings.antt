-- ===== src/Harness/Holdings.antt =====
-- harness.py: which sockets the stores of a runtime hold.
use activegraph_surrealdb.Prelude.{String, []}
use activegraph_surrealdb.Errors.{Result, ok, err}
use activegraph_surrealdb.Exec.{World}
use activegraph_surrealdb.Exec.Held.{Quietly}
use activegraph_surrealdb.Exec.Splits.{EitherWay}
use activegraph_surrealdb.Connection.Schema.{SchemaServer}
use activegraph_surrealdb.Connection.Opening.{Sdk}
use activegraph_surrealdb.Connection.Live.{SocketLaws}
use activegraph_surrealdb.Connection.Owner.{Owned}
use activegraph_surrealdb.Connection.Owning.{Open, Shut}
use activegraph_surrealdb.EventStore.Rows.{LedgerServer}
use activegraph_surrealdb.EventStore.Session.{Handle}
use activegraph_surrealdb.EventStore.Opening.{is_closed as events_closed, shut as shut_events}
use activegraph_surrealdb.GraphStore.Rows.{GraphServer}
use activegraph_surrealdb.GraphStore.Session.{GraphHandle}
use activegraph_surrealdb.GraphStore.Opening.{is_closed as graph_closed, shut as shut_graph}
use activegraph_surrealdb.Harness.{Python, PackLoader}
use activegraph_surrealdb.Harness.Building.{Deployment, RuntimeMaker}

-- an object's state as a world of its own
abbrev pub alone : {O : Type 0} → O → World O (Unit {0})
alone o = record { handle = o; db = tt; schedule = [] }

module _ ⦃c : SchemaServer⦄ ⦃sdk : Sdk c⦄ (laws : SocketLaws c sdk) where
  abbrev pub EventsOpenOf : {D : Type 0} → Owned c Handle D → Type 0
  EventsOpenOf o = Open laws events_closed shut_events (alone o)

  abbrev pub EventsShutOf : {D : Type 0} → Owned c Handle D → Type 0
  EventsShutOf o = Shut laws events_closed shut_events (alone o)

  abbrev pub GraphOpenOf : {D : Type 0} → Owned c GraphHandle D → Type 0
  GraphOpenOf o = Open laws graph_closed shut_graph (alone o)

  abbrev pub GraphShutOf : {D : Type 0} → Owned c GraphHandle D → Type 0
  GraphShutOf o = Shut laws graph_closed shut_graph (alone o)

module _ ⦃c : SchemaServer⦄ ⦃sdk : Sdk c⦄ ⦃s : LedgerServer⦄ ⦃g : GraphServer⦄
    (laws : SocketLaws c sdk) {F : Type 0} where
  abbrev pub EventsOpen : Deployment c s g F → Type 0
  EventsOpen d = EventsOpenOf laws d.event_store

  abbrev pub EventsShut : Deployment c s g F → Type 0
  EventsShut d = EventsShutOf laws d.event_store

  abbrev pub GraphOpen : Deployment c s g F → Type 0
  GraphOpen d = GraphOpenOf laws d.graph_store

  abbrev pub GraphShut : Deployment c s g F → Type 0
  GraphShut d = GraphShutOf laws d.graph_store

  -- both stores are open and have an open socket
  abbrev pub Serving : Deployment c s g F → Type 0
  Serving d = EventsOpen d × GraphOpen d

  -- neither store has one
  abbrev pub Released : Deployment c s g F → Type 0
  Released d = EventsShut d × GraphShut d

  -- what is left of a runtime that was built, and of one that was not
  abbrev pub Built : {H A : Type 0} → Result A × World H (Deployment c s g F) → Type 0
  Built (ok r, w) = Serving w.db
  Built (err e, w) = Released w.db

  pub Built-EitherWay :
      {H A : Type 0} (r : Result A) (w : World H (Deployment c s g F))
      → EitherWay (λ a. Quietly Serving) (Quietly Released) (r, w)
      → Built (r, w)
  Built-EitherWay (ok a) w q = q.state
  Built-EitherWay (err e) w q = q.state

  -- What the code relies on: ActiveGraph closes no store.
  pub record RuntimeLaws ⦃py : Python⦄ (loader : PackLoader py (Deployment c s g F))
      (maker : RuntimeMaker (Deployment c s g F)) : Type 0 where
    pub new_graph-Serving :
        (run_id : String) (d : Deployment c s g F)
        → Serving d
        → Serving (maker.new_graph run_id d).1
    pub new_runtime-Serving : (d : Deployment c s g F) → Serving d → Serving (maker.new_runtime d).1
    pub load_pack-Serving :
        (pack : py.Pack) (d : Deployment c s g F) → Serving d → Serving (loader.load_pack pack d).1
    pub load_pack_with-Serving :
        (settings : py.Settings) (pack : py.Pack) (d : Deployment c s g F)
        → Serving d
        → Serving (loader.load_pack_with settings pack d).1
