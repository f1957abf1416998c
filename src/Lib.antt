-- ===== src/Lib.antt =====
-- The SurrealDB provider for ActiveGraph (src/activegraph_surrealdb/*.py): an event store, which keeps
-- each run's events as a hash chain, and a graph store, which keeps the current state of a run's
-- objects, relations and patches and can be rebuilt from the events.
--
-- Parts and files:
--   Prelude       lists, texts and Boolean tests on native numbers
--   Errors        src/activegraph_surrealdb/errors.py: the exception classes, and `Result`
--   Exec          methods that talk to the server and may raise, as actions on a `World`;
--                 Exec/Triples has their rules under any schedule, Exec/Splits those that tell a
--                 return from a raise, Exec/Held those about an object's own fields
--   Platform      what the package calls and does not implement: encode_payload, json, UTF-8, SHA-256
--   Serde         src/activegraph_surrealdb/serde.py: canonical JSON, rows, the chain hash; proofs in
--                 RoundTrip and Hashing
--   Keys          src/activegraph_surrealdb/keys.py: record keys (record_key), and their record IDs
--   Strings       Python's methods of `str`, on texts as lists of code points; Strings/Trimming proves
--                 what `strip` leaves
--   Config        src/activegraph_surrealdb/config.py: SurrealConfig and its __post_init__; proofs in
--                 Normal
--   Connection    src/activegraph_surrealdb/connection.py: Statements is _schema_statements, Schema is
--                 query, ensure_schema and close of SurrealConnection over a server that is a
--                 parameter, Opening its constructor over the SDK, Reported the
--                 version in what a server reports, and Owner what the constructors
--                 and the `close` of both stores do with their connection; proofs in Statements,
--                 Versions, Applying and Install, and about the socket in Live, Sockets and Owning
--   Surreal       the SurrealDB statements in use: `Collection` is a table, `CollectionLaws` what the
--                 code relies on; Surreal/Memory is a table in memory that meets them
--   EventStore    src/activegraph_surrealdb/event_store.py (SurrealEventStore) and the tables ag_run and
--                 ag_event of src/activegraph_surrealdb/schema.surql. Rows: the records, the statements
--                 of a transaction, the server. Chain: the pure loops. Session: the calls, the guards
--                 and _verified_rows_and_run. Writes: append, truncate_after. Reads: iter_events,
--                 get_event, count, verify_integrity, get_run, upsert_run. Fork: the constructor and
--                 fork_prefix. Opening: the constructor and close, with the connection. Diagnostics: the
--                 class methods with their connection, and the diagnostics. Listing: run_exists and most_recent_run_id. The other files hold proofs:
--                 Integrity, Ledger, Guards, Append, Verify, Outcomes, Truncation, Children,
--                 Window and Listing/Newest; Keeping, Branching, Copies and Forking lead up to
--                 Commands, any sequence of calls but truncate_after; Quiet and Forked are about one fork,
--                 Kept about the constructor, Visiting about the class methods
--   GraphStore    src/activegraph_surrealdb/graph_store.py (SurrealGraphStore) and the other tables of
--                 schema.surql. Rows, ObjectSeq (_object_seq), Session (guards and the projection's
--                 lifecycle), Objects (objects and patches), Relations (put_relation and its
--                 transaction), Queries (the query hooks, the neighbourhood), Opening (the
--                 constructor and close, with the connection); proofs in Kept, Lifecycle,
--                 Rebuild, Stored, Atomic, Linked, for the query hooks in Queries/Scan and
--                 Filters, and for the walk in Queries/Sets, Reach, Levels and Walk
--   Runtime       src/activegraph_surrealdb/runtime.py: Replay is replay_graph, on the worlds of two
--                 stores, and fork_event_store; Waiting is wait_until_ready and
--                 wait_until_unavailable; proofs in Repair and Deadline
--   Harness       src/activegraph_surrealdb/harness.py: packs_path, _ensure_importable,
--                 _evict_foreign_packs, import_pack and _load_modules; Building is build_runtime
--                 and SurrealPackRuntime; proofs in Evicting, Importing, Loading, Holdings
--                 and Released
--   Samples       concrete platforms and servers that meet the laws, tests and witnesses
--
-- How the code is read. A store object is a `Handle` (or `GraphHandle`) with the fields that methods
-- read or assign; a method is an action on a world of handle, database and schedule. The schedule has
-- one tick for each SDK call to come: what other sessions commit before the call, and whether the call
-- is answered, refused without effect, or has its effect and loses its answer. A schedule that has run
-- out means quiet: every call is answered and nobody else writes. A transaction sees the database as it
-- was when it began, with its own writes; COMMIT applies the writes to the database as it is then,
-- unless the server names a conflict. What the event store relies on is that a commit is refused when
-- a record that it writes has changed since the transaction began (LedgerLaws). `bool`, `str` and `int` of a
-- column change nothing, since schema.surql types every column; the clock's reading is an argument.
-- Loops are structural recursion on the rows, and the neighbourhood walk recurses on its depth. Only
-- the two wait loops need fuel: each round sleeps for 200 ms, so more rounds than timeout / 200 ms are
-- enough (Runtime/Deadline). Of the wait loops the clock and the server are parameters; of a replay
-- ActiveGraph's Graph is one, which changes the graph store only through its methods.
--
-- Each connection is a world of its own, whose state says whether its socket is open; build_runtime
-- runs on one state of both stores, their connections and ActiveGraph's runtime.
--
-- Not modelled: locks, the test hooks of the event store, session IDs of the SDK, negative integers,
-- that the server deletes a relation with its endpoint, texts with a lone surrogate, for which
-- `str.encode` raises, decimal digits other than 0 to 9, which the patterns' `\d` matches too and `int`
-- reads, the connection of the store that `fork_prefix` opens for the child, and the shapes of an answer that `_one`, `_rows`
-- and `_scalar` tell apart: an answer is typed as the rows that it has.
pub mod Prelude
pub mod Errors
pub mod Exec
pub mod Strings
pub mod Connection
pub mod Config
pub mod Platform
pub mod Serde
pub mod Keys
pub mod Surreal
pub mod EventStore
pub mod GraphStore
pub mod Runtime
pub mod Harness
pub mod Samples
