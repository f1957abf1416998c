-- ===== src/EventStore/Diagnostics.antt =====
-- event_store.py: the diagnostics of a store, and the class methods that open a connection of their own.
use activegraph_surrealdb.Prelude.{ℕ, String, Bool, Option, none, some, ◌==◌, ◌&&◌, text_eq, length}
use activegraph_surrealdb.Errors.{Error, Result, ok, raised, ledger_integrity}
use activegraph_surrealdb.Exec.{pure, fail, lift, ask, try_else, ◌>>=◌, ◌>>◌}
use activegraph_surrealdb.Platform.{Platform}
use activegraph_surrealdb.Strings.{Text}
use activegraph_surrealdb.Config.{SurrealConfig}
use activegraph_surrealdb.Connection.Schema.{SchemaRow, SchemaServer, query, ensure_schema, close}
use activegraph_surrealdb.Connection.Reported.{reported_version}
use activegraph_surrealdb.Connection.Opening.{Sdk, connect, server_version as connection_version}
use activegraph_surrealdb.Connection.Owner.{OwnedMethod, on_store, on_connection}
use activegraph_surrealdb.EventStore.Rows.{RunRow, LedgerServer, Db, in_run}
use activegraph_surrealdb.EventStore.Session.{Handle, Method, ensure_open}
use activegraph_surrealdb.EventStore.Listing.{any_order, run_exists, most_recent_run_id}

-- `{"run_records": …, "event_records": …}`
pub record Artifacts : Type 0 where
  pub run_records : ℕ
  pub event_records : ℕ

abbrev pub run_in : String → String → RunRow → Bool
run_in scope run_id row = row.scope == scope && row.run_id == run_id

module _ ⦃s : LedgerServer⦄ where
  -- what `inspect_run_artifacts` reads
  unfoldable pub count_artifacts : String → String → Method Artifacts
  count_artifacts run_id scope = do
    runs ← ask (λ d. ok (s.runs.select_where (run_in scope run_id) any_order d.runs))
    events ← ask (λ d. ok (s.events.select_where (in_run scope run_id) any_order d.events))
    pure (record { run_records = length runs; event_records = length events })

module _ ⦃c : SchemaServer⦄ ⦃s : LedgerServer⦄ where
  -- a statement is what it does on the server
  unfoldable pub raw_query :
      {A : Type 0} → (c.State → Result A × c.State) → OwnedMethod Handle (Db s) A
  raw_query statement = do on_store ensure_open; on_connection (query statement)

  -- SELECT VALUE version FROM ONLY ag_schema:singleton
  abbrev pub version_of : Option SchemaRow → Option ℕ
  version_of none = none
  version_of (some row) = row.version

module _ ⦃p : Platform⦄ ⦃c : SchemaServer⦄ ⦃s : LedgerServer⦄ where
  abbrev pub shown_or_missing : Option ℕ → Result String
  shown_or_missing none = raised ledger_integrity "the provider schema version record is missing"
  shown_or_missing (some version) = ok (p.shown version)

  unfoldable pub schema_version : OwnedMethod Handle (Db s) String
  schema_version = do
    on_store ensure_open
    row ← on_connection (query (λ d. (c.read d, d)))
    lift (shown_or_missing (version_of row))

module _ ⦃c : SchemaServer⦄ ⦃sdk : Sdk c⦄ ⦃s : LedgerServer⦄ where
  unfoldable pub server_version : OwnedMethod Handle (Db s) Text
  server_version = do
    on_store ensure_open
    raw ← on_connection connection_version
    pure (reported_version raw)

module _ ⦃p : Platform⦄ ⦃c : SchemaServer⦄ ⦃sdk : Sdk c⦄ ⦃s : LedgerServer⦄ where
  abbrev pub close_and_raise : {A : Type 0} → Error → OwnedMethod Handle (Db s) A
  close_and_raise exc = do on_connection close; fail exc

  abbrev pub close_and_return : {A : Type 0} → A → OwnedMethod Handle (Db s) A
  close_and_return a = do on_connection close; pure a

  -- `connection = cls._new_connection(config)`, `try: connection.ensure_schema() …`,
  -- `finally: connection.close()`
  unfoldable pub with_connection :
      {A : Type 0} → SurrealConfig → Text → Method A → OwnedMethod Handle (Db s) A
  with_connection config schema_text body = do
    on_connection (connect config)
    try_else (do _ ← on_connection (ensure_schema schema_text); on_store body) close_and_raise
        close_and_return

  -- `inspect_run_artifacts`, `run_exists` and `most_recent_run_id`
  abbrev pub inspect_run_artifacts :
      SurrealConfig → Text → String → String → OwnedMethod Handle (Db s) Artifacts
  inspect_run_artifacts config schema_text run_id scope =
      with_connection config schema_text (count_artifacts run_id scope)

  abbrev pub run_exists_in : SurrealConfig → Text → String → String → OwnedMethod Handle (Db s) Bool
  run_exists_in config schema_text run_id scope =
      with_connection config schema_text (run_exists run_id scope)

  abbrev pub most_recent_run_in :
      SurrealConfig → Text → String → OwnedMethod Handle (Db s) (Option String)
  most_recent_run_in config schema_text scope =
      with_connection config schema_text (most_recent_run_id scope)
