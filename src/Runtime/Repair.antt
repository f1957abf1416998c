-- ===== src/Runtime/Repair.antt =====
-- runtime.py: after a replay the projection serves every store of its run, or none, with no other
-- session at work on it.
use activegraph_surrealdb.Prelude.{
  String, ◌≡◌, refl, sym, subst, ap, ◌∙◌, Bool, true, false, text_eq, eq_iff, none, List, [], ◌∷◌,
  arith,
}
use activegraph_surrealdb.Errors.{ErrorClass, Error, Result, ok, err}
use activegraph_surrealdb.Exec.{
  World, pure, fail, gets, raise_if, try_else, ◌>>=◌, continue, settle,
}
use activegraph_surrealdb.Exec.Triples.{
  Triple, Triple-lift, Triple-pure, Triple-bind, Triple-raise_if, weaken, bind_returns,
}
use activegraph_surrealdb.Platform.{Platform}
use activegraph_surrealdb.Serde.{Event}
use activegraph_surrealdb.EventStore.Rows.{LedgerServer}
use activegraph_surrealdb.EventStore.Session.{Method}
use activegraph_surrealdb.EventStore.Reads.{iter_events}
use activegraph_surrealdb.GraphStore.Rows.{GraphServer, GraphDb}
use activegraph_surrealdb.GraphStore.Session.{
  GraphHandle, GraphMethod, begin_rebuild, mark_ready, mark_failed, exception,
}
use activegraph_surrealdb.GraphStore.Lifecycle.{at_rest, IsReadable}
use activegraph_surrealdb.GraphStore.Rebuild.{
  GraphLaws, begin_rebuild-open, mark_ready-open, mark_failed-open, mark_ready-IsReadable,
  mark_failed-IsReadable,
}
use activegraph_surrealdb.Runtime.Replay.{
  Stores, Framework, Replay, graph_world, on_graph, on_events, replay_events, prepare, rebuild,
  give_up, replay_graph,
}

module _ ⦃g : GraphServer⦄ where
  -- The graph store is open, of its run, and alone with its database.
  pub record IsAlone (scope run_id : String) (w : World GraphHandle (GraphDb g.tables))
      : Type 0 where
    pub of_scope : w.handle.scope ≡ scope
    pub of_run : w.handle.run_id ≡ run_id
    pub open_store : w.handle.closed ≡ false
    pub quiet : w.schedule ≡ []

-- What a replay relies on: the graph changes the graph store only through its methods, so that the
-- store object stays open and of its run.
pub record FrameworkLaws ⦃p : Platform⦄ ⦃g : GraphServer⦄ (f : Framework) : Type 0 where
  pub new_graph-IsAlone :
      (run : String) (scope run_id : String) (w : World GraphHandle (GraphDb g.tables))
      → IsAlone scope run_id w
      → IsAlone scope run_id (f.new_graph run w).1
  pub replay_event-IsAlone :
      (graph : f.Graph) (event : Event p.Value) (scope run_id : String)
      (w : World GraphHandle (GraphDb g.tables))
      → IsAlone scope run_id w
      → IsAlone scope run_id (f.replay_event graph event w).1

abbrev pub Anything : {A : Type 0} → A → Type 0
Anything a = Unit

module _ ⦃p : Platform⦄ ⦃s : LedgerServer⦄ ⦃g : GraphServer⦄ (laws : GraphLaws g) (f : Framework)
    (seam : FrameworkLaws f) (scope run_id : String) where
  abbrev Kept : World (Stores s) (GraphDb g.tables) → Type 0
  Kept w = IsAlone scope run_id (graph_world w)

  abbrev Keeps : {A : Type 0} → Replay A → Type 0
  Keeps m = Triple Kept Anything m

  Keeps-on_graph :
      {A : Type 0} (m : GraphMethod A)
      → ((w : World GraphHandle (GraphDb g.tables))
          → IsAlone scope run_id w
          → IsAlone scope run_id (m w).1)
      → Keeps (on_graph m)
  unfolding on_graph
  Keeps-on_graph m k = record { at = λ w h. (k (graph_world w) h, λ a e. tt) }

  Keeps-on_events : {A : Type 0} (m : Method A) → Keeps (on_events m)
  unfolding on_events
  Keeps-on_events m = record { at = λ w h. (h, λ a e. tt) }

  Keeps-gets : {A : Type 0} (k : Stores s → A) → Keeps (gets k)
  unfolding gets
  Keeps-gets k = record { at = λ w h. (h, λ a e. tt) }

  -- a quiet world is that of its handle and database
  rested :
      (w : World GraphHandle (GraphDb g.tables))
      → IsAlone scope run_id w
      → w ≡ at_rest w.handle w.db
  rested w a = λ i. record { handle = w.handle; db = w.db; schedule = a.quiet i }

  begin_rebuild-IsAlone :
      (now : String) (w : World GraphHandle (GraphDb g.tables))
      → IsAlone scope run_id w
      → IsAlone scope run_id (begin_rebuild now w).1
  begin_rebuild-IsAlone now w a =
      subst (λ v. IsAlone scope run_id v.1)
        (sym (
          ap (begin_rebuild now) (rested w a)
          ∙ begin_rebuild-open laws w.handle w.db now a.open_store))
        (record {
          of_scope = a.of_scope;
          of_run = a.of_run;
          open_store = a.open_store;
          quiet = refl;
        })

  Keeps-replay_events :
      (graph : f.Graph) (events : List (Event p.Value)) → Keeps (replay_events f graph events)
  unfolding replay_events
  Keeps-replay_events graph [] = Triple-pure graph tt
  Keeps-replay_events graph (event ∷ rest) =
      Triple-bind _ _
        (Keeps-on_graph (f.replay_event graph event)
          (seam.replay_event-IsAlone graph event scope run_id))
        (λ next _. Keeps-replay_events next rest)

  Keeps-prepare : (started : String) → Keeps (prepare f started)
  unfolding prepare
  Keeps-prepare started =
      Triple-bind _ _ (Keeps-on_graph (begin_rebuild started) (begin_rebuild-IsAlone started))
        λ _ _. Triple-bind _ _ (Keeps-on_events (iter_events none none)) λ events _.
          Triple-bind _ _ (weaken _ _ _ (λ a r. tt) (Triple-raise_if _ _ _)) λ _ _.
            Triple-bind _ _ (Keeps-gets _) λ run _.
              Triple-bind _ _
                (Keeps-on_graph (f.new_graph run) (seam.new_graph-IsAlone run scope run_id))
                λ graph _.
                  Triple-bind _ _ (Keeps-replay_events graph events)
                    λ replayed _. Triple-lift _ (λ a e. tt)

  -- the reader is an open store object of the run
  module _ (reader : GraphHandle) (same_scope : reader.scope ≡ scope)
      (same_run : reader.run_id ≡ run_id) (open_reader : reader.closed ≡ false) where
    abbrev Rebuilt : {A : Type 0} → Result A × World (Stores s) (GraphDb g.tables) → Type 0
    Rebuilt (ok a, w) = IsReadable reader w.db
    Rebuilt (err e, w) = Kept w

    -- what a replay promises of the projection: it serves the reader if the replay has returned, and
    -- does not if it has raised
    abbrev pub Settled : {A : Type 0} → Result A × World (Stores s) (GraphDb g.tables) → Type 0
    Settled (ok a, w) = IsReadable reader w.db
    Settled (err e, w) = ¬ IsReadable reader w.db

    on_graph-eq :
        {A : Type 0} (m : GraphMethod A) (w : World (Stores s) (GraphDb g.tables)) (r : Result A)
        (h : GraphHandle) (d : GraphDb g.tables)
        → m (graph_world w) ≡ (r, at_rest h d)
        → on_graph m w ≡ (
          r,
          record { handle = record { events = w.handle.events; graph = h }; db = d; schedule = [] },
        )
    unfolding on_graph
    on_graph-eq m w r h d e =
        ap
          (λ x. (
            x.0,
            record {
              handle = record { events = w.handle.events; graph = x.1.handle };
              db = x.1.db;
              schedule = x.1.schedule;
            },
          ))
          e

    mark_ready-Rebuilt :
        (now : String) (graph : f.Graph) (w : World (Stores s) (GraphDb g.tables))
        → Kept w
        → Rebuilt ((on_graph (mark_ready now) >>= λ _. pure graph) w)
    unfolding pure
    mark_ready-Rebuilt now graph w k =
        let v = graph_world w in
        let e =
          ap (mark_ready now) (rested v k) ∙ mark_ready-open laws v.handle v.db now k.open_store in
        subst Rebuilt (sym (bind_returns _ _ _ _ _ (on_graph-eq (mark_ready now) w _ _ _ e))) (
          subst (λ x. IsReadable reader x.1.db)
            (mark_ready-open laws v.handle v.db now k.open_store)
            (mark_ready-IsReadable laws v.handle v.db now reader k.open_store
              (same_scope ∙ sym k.of_scope) (same_run ∙ sym k.of_run) open_reader))

    rebuild-Rebuilt :
        (started ready_at : String) (w : World (Stores s) (GraphDb g.tables))
        → Kept w
        → Rebuilt (rebuild f started ready_at w)
    unfolding rebuild ◌>>=◌
    rebuild-Rebuilt started ready_at w k =
        go (prepare f started w).0 (prepare f started w).1 ((Keeps-prepare started).at w k).0
      where
        go :
            (r : Result f.Graph) (v : World (Stores s) (GraphDb g.tables))
            → Kept v
            → Rebuilt (continue r (λ graph. on_graph (mark_ready ready_at) >>= λ _. pure graph) v)
        go (ok graph) v q = mark_ready-Rebuilt ready_at graph v q
        go (err e) v q = q

    marked :
        (class failed_at : String) (w : World (Stores s) (GraphDb g.tables)) (h : GraphHandle)
        (d : GraphDb g.tables)
        → mark_failed (exception class) failed_at (graph_world w) ≡ (ok tt, at_rest h d)
        → try_else (on_graph (mark_failed (exception class) failed_at)) (λ other. pure tt) pure w
          ≡ (
            ok tt,
            record {
              handle = record { events = w.handle.events; graph = h };
              db = d;
              schedule = [];
            },
          )
    unfolding try_else pure
    marked class failed_at w h d e =
        ap (λ x. settle x.0 pure (λ other. pure tt) x.1)
          (on_graph-eq (mark_failed (exception class) failed_at) w (ok tt) h d e)

    give_up-Settled :
        (failed_at : String) (exc : Error) (w : World (Stores s) (GraphDb g.tables))
        → Kept w
        → Settled (give_up f {A = f.Graph} failed_at exc w)
    unfolding give_up fail
    give_up-Settled failed_at exc w k =
        let v = graph_world w in
        let class = f.class_name exc.kind in
        let done = mark_failed-open laws v.handle v.db (exception class) failed_at k.open_store in
        let e = ap (mark_failed (exception class) failed_at) (rested v k) ∙ done in
        subst Settled (sym (bind_returns _ _ _ _ _ (marked class failed_at w _ _ e))) (
          subst (λ x. ¬ IsReadable reader x.1.db) done
            (mark_failed-IsReadable laws v.handle v.db (exception class) failed_at reader
              k.open_store (same_scope ∙ sym k.of_scope) (same_run ∙ sym k.of_run)))

    settle-Settled :
        (failed_at : String) (r : Result f.Graph) (w : World (Stores s) (GraphDb g.tables))
        → Rebuilt (r, w)
        → Settled (settle r pure (give_up f failed_at) w)
    unfolding pure
    settle-Settled failed_at (ok a) w q = q
    settle-Settled failed_at (err e) w q = give_up-Settled failed_at e w q

    guarded :
        (a b : Bool) (c : ErrorClass) (m n : String) (body : Replay f.Graph)
        (w : World (Stores s) (GraphDb g.tables))
        → a ≡ false
        → b ≡ false
        → Settled (body w)
        → Settled ((raise_if a c m >>= λ _. raise_if b c n >>= λ _. body) w)
    unfolding raise_if ◌>>=◌
    guarded true b c m n body w x y q = absurd (cc)
    guarded false true c m n body w x y q = absurd (cc)
    guarded false false c m n body w x y q = q

    -- Given an event store and a graph store of the same run and scope, the latter open and nobody
    -- else at work on its database, and a graph that leaves the store object open and of its run: if
    -- `replay_graph` returns, every open store object of the run may read the projection, and if it
    -- raises, at whatever step, none of them may.
    pub replay_graph-Settled :
        (started ready_at failed_at : String) (w : World (Stores s) (GraphDb g.tables))
        → IsAlone scope run_id (graph_world w)
        → w.handle.events.handle.run_id ≡ w.handle.graph.run_id
        → w.handle.events.handle.scope ≡ w.handle.graph.scope
        → Settled (replay_graph f started ready_at failed_at w)
    unfolding replay_graph gets try_else
    replay_graph-Settled started ready_at failed_at w k runs scopes =
        let done = rebuild f started ready_at w in
        subst Settled (sym (bind_returns (gets (λ h. h)) _ w w w.handle refl)) (
          guarded _ _ _ _ _ _ w
            (ground (arith, runs, eq_iff w.handle.events.handle.run_id w.handle.graph.run_id))
            (ground (arith, scopes, eq_iff w.handle.events.handle.scope w.handle.graph.scope))
            (settle-Settled failed_at done.0 done.1 (rebuild-Rebuilt started ready_at w k)))
