-- ===== src/Samples/Runtimes.antt =====
-- Tests and witnesses for build_runtime and SurrealPackRuntime of harness.py, on a wire in memory.
use activegraph_surrealdb.Prelude.{
  ◌≡◌, String, refl, Bool, true, false, Option, none, some, [], ◌∷◌, codes,
}
use activegraph_surrealdb.Errors.{ok}
use activegraph_surrealdb.Exec.{World}
use activegraph_surrealdb.Config.{SurrealConfig}
use activegraph_surrealdb.Connection.Schema.{SchemaRow, SchemaServer}
use activegraph_surrealdb.Connection.Opening.{Sdk, new_connection}
use activegraph_surrealdb.Connection.Live.{SocketLaws, Off}
use activegraph_surrealdb.Connection.Reported.{
  reported_version, search_version, version_at, digits_of, after_digits,
}
use activegraph_surrealdb.Connection.Owner.{Owned}
use activegraph_surrealdb.EventStore.Rows.{Db}
use activegraph_surrealdb.EventStore.Session.{Handle}
use activegraph_surrealdb.EventStore.Diagnostics.{with_connection, count_artifacts}
use activegraph_surrealdb.EventStore.Visiting.{with_connection-Off}
use activegraph_surrealdb.GraphStore.Rows.{GraphServer}
use activegraph_surrealdb.Harness.{PackLoader, Session}
use activegraph_surrealdb.Harness.Building.{Deployment, RuntimeMaker, build_runtime, close_runtime}
use activegraph_surrealdb.Harness.Holdings.{RuntimeLaws, Built, Released, Serving}
use activegraph_surrealdb.Harness.Released.{build_runtime-Built, close_runtime-Released}
use activegraph_surrealdb.Samples.Events.{sample_platform, sample_server, new_handle, empty_db}
use activegraph_surrealdb.Samples.Projection.{graph_server, graph_handle, graph_db}
use activegraph_surrealdb.Samples.Packs.{two_checkouts}

-- whether the socket is open, and the record of the schema
record Wire : Type 0 where
  socket : Bool
  schema : Option SchemaRow

instance abbrev wire_server : SchemaServer
wire_server = record {
  State = Wire;
  read = λ d. ok d.schema;
  define = λ text d. (ok tt, d);
  time_now = λ d. "t0";
  create = λ row d. (ok tt, record d { schema = some row });
  set_version = λ version d. d;
  close_session = λ d. (ok tt, d);
  close_socket = λ d. (ok tt, record d { socket = false });
}

instance abbrev wire_sdk : Sdk wire_server
wire_sdk = record {
  live = λ d. d.socket;
  connect = λ endpoint d. (ok true, record d { socket = true });
  signin = λ username password d. (ok tt, d);
  use_database = λ namespace database d. (ok tt, d);
  new_session = λ d. (ok tt, d);
  signin_session = λ username password d. (ok tt, d);
  use_session = λ namespace database d. (ok tt, d);
  version = λ d. ok (codes "surrealdb-2.3.10+build.7");
}

wire-SocketLaws : SocketLaws wire_server wire_sdk
wire-SocketLaws = record {
  connect-live = λ e d. refl;
  close_socket-live = λ d. refl;
  signin-live = λ u v d. refl;
  use_database-live = λ u v d. refl;
  new_session-live = λ d. refl;
  signin_session-live = λ u v d. refl;
  use_session-live = λ u v d. refl;
  close_session-live = λ d. refl;
  define-live = λ text d. refl;
  create-live = λ row d. refl;
  set_version-live = λ d. refl;
}

instance abbrev both_servers : GraphServer
both_servers = graph_server

abbrev Process : Type 0
Process = Deployment wire_server sample_server both_servers (Unit {0})

instance abbrev process_loader : PackLoader two_checkouts Process
process_loader = record {
  load_pack = λ pack d. (ok tt, d);
  load_pack_with = λ settings pack d. (ok tt, d);
}

instance abbrev process_maker : RuntimeMaker Process
process_maker = record { new_graph = λ run_id d. (ok tt, d); new_runtime = λ d. (ok tt, d) }

process-RuntimeLaws : RuntimeLaws wire-SocketLaws process_loader process_maker
process-RuntimeLaws = record {
  new_graph-Serving = λ run_id d q. q;
  new_runtime-Serving = λ d q. q;
  load_pack-Serving = λ pack d q. q;
  load_pack_with-Serving = λ settings pack d q. q;
}

abbrev wire : Bool → Wire
wire socket = record { socket = socket; schema = none }

-- a process whose stores both have an open socket, or both have none
abbrev process : Bool → World (Session String) Process
process socket = record {
  handle = record { interpreter = record { path = []; modules = [] }; loaded_packs = [] };
  db = record {
    event_store = record {
      store = record { handle = new_handle; db = empty_db; schedule = [] };
      connection = record { handle = new_connection; db = wire socket; schedule = [] };
    };
    graph_store = record {
      store = record { handle = graph_handle; db = graph_db; schedule = [] };
      connection = record { handle = new_connection; db = wire socket; schedule = [] };
    };
    framework = tt;
  };
  schedule = [];
}

idle-Released : Released wire-SocketLaws (process false).db
idle-Released = (
  record { released = record { quiet = refl; dead = refl } },
  record { released = record { quiet = refl; dead = refl } },
)

busy-Serving : Serving wire-SocketLaws (process true).db
busy-Serving = (
  record { connected = record { quiet = refl; live = refl; held = refl }; open_store = refl },
  record { connected = record { quiet = refl; live = refl; held = refl }; open_store = refl },
)

abbrev settings : SurrealConfig
settings = record {
  endpoint = codes "ws://db";
  namespace = codes "n";
  database = codes "d";
  username = codes "u";
  password = codes "p";
}

-- a pack is loaded from a checkout
build_runtime-Built_example : Built wire-SocketLaws (
    build_runtime [] "t1" settings "run_1" "acme"
      ("core" ∷ [])
      (λ name. none)
      (some "/a")
      (process false))
build_runtime-Built_example =
    build_runtime-Built wire-SocketLaws process-RuntimeLaws [] "t1" settings "run_1" "acme"
      ("core" ∷ []) (λ name. none) (some "/a") (process false) refl idle-Released

close_runtime-Released_example : Released wire-SocketLaws (close_runtime (process true)).1.db
close_runtime-Released_example =
    close_runtime-Released wire-SocketLaws (process true) refl busy-Serving

-- what the server reports, and the version in it
reported_version_test : reported_version (codes "SurrealDB-2.3.10+build.7") ≡ codes "2.3.10"
unfolding reported_version search_version version_at digits_of after_digits
reported_version_test = refl

abbrev visitor : World (Owned wire_server Handle (Db sample_server)) (Unit {0})
visitor = record { handle = (process false).db.event_store; db = tt; schedule = [] }

with_connection-Off_example :
    Off wire-SocketLaws
      (with_connection settings [] (count_artifacts "run_1" "acme") visitor).1.handle.connection
with_connection-Off_example =
    with_connection-Off wire-SocketLaws settings [] (count_artifacts "run_1" "acme") visitor
      (record { quiet = refl; dead = refl })
