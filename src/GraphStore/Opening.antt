-- ===== src/GraphStore/Opening.antt =====
-- graph_store.py: the constructor and `close`, with the connection that the store owns.
use activegraph_surrealdb.Prelude.{String, Bool, true, false}
use activegraph_surrealdb.Errors.{Result}
use activegraph_surrealdb.Exec.{◌>>◌}
use activegraph_surrealdb.Platform.{Platform}
use activegraph_surrealdb.Strings.{Text}
use activegraph_surrealdb.Config.{SurrealConfig}
use activegraph_surrealdb.Connection.Schema.{SchemaServer, query}
use activegraph_surrealdb.Connection.Opening.{Sdk}
use activegraph_surrealdb.Connection.Owner.{
  OwnedMethod, on_store, on_connection, new_store, close_owned,
}
use activegraph_surrealdb.GraphStore.Rows.{GraphServer, GraphDb}
use activegraph_surrealdb.GraphStore.Session.{GraphHandle, ensure_open}
use activegraph_surrealdb.GraphStore.Objects.{ensure_projection_record}

abbrev pub new_handle : String → String → GraphHandle
new_handle scope run_id = record {
  run_id = run_id;
  scope = scope;
  closed = false;
  rebuilding_here = false;
}

-- `self._closed`, and `self._closed = True`
abbrev pub is_closed : GraphHandle → Bool
is_closed h = h.closed

abbrev pub shut : GraphHandle → GraphHandle
shut h = record h { closed = true }

module _ ⦃c : SchemaServer⦄ ⦃s : GraphServer⦄ where
  -- `close`
  abbrev pub close_graph_store : OwnedMethod GraphHandle (GraphDb s.tables) (Unit {0})
  close_graph_store = close_owned is_closed shut

  -- a statement is what it does on the server
  unfoldable pub raw_query :
      {A : Type 0} → (c.State → Result A × c.State) → OwnedMethod GraphHandle (GraphDb s.tables) A
  raw_query statement = do on_store ensure_open; on_connection (query statement)

module _ ⦃p : Platform⦄ ⦃c : SchemaServer⦄ ⦃sdk : Sdk c⦄ ⦃s : GraphServer⦄ where
  -- `SurrealGraphStore(config, run_id=…, scope=…)`
  abbrev pub new_graph_store :
      SurrealConfig
      → Text
      → String
      → String
      → String
      → OwnedMethod GraphHandle (GraphDb s.tables) (Unit {0})
  new_graph_store config schema_text run_id scope now =
      new_store config schema_text run_id scope (new_handle scope run_id) shut
        (ensure_projection_record now)
