-- ===== src/EventStore/Opening.antt =====
-- event_store.py: the constructor and `close`, with the connection that the store owns.
use activegraph_surrealdb.Prelude.{String, Bool, true}
use activegraph_surrealdb.Platform.{Platform}
use activegraph_surrealdb.Strings.{Text}
use activegraph_surrealdb.Config.{SurrealConfig}
use activegraph_surrealdb.Connection.Schema.{SchemaServer}
use activegraph_surrealdb.Connection.Opening.{Sdk}
use activegraph_surrealdb.Connection.Owner.{OwnedMethod, new_store, close_owned}
use activegraph_surrealdb.EventStore.Rows.{LedgerServer, Db}
use activegraph_surrealdb.EventStore.Session.{Handle}
use activegraph_surrealdb.EventStore.Fork.{fresh_handle, settle_head}

-- `self._closed`, and `self._closed = True`
abbrev pub is_closed : Handle → Bool
is_closed h = h.closed

abbrev pub shut : Handle → Handle
shut h = record h { closed = true }

module _ ⦃c : SchemaServer⦄ ⦃s : LedgerServer⦄ where
  -- `close`
  abbrev pub close_event_store : OwnedMethod Handle (Db s) (Unit {0})
  close_event_store = close_owned is_closed shut

module _ ⦃p : Platform⦄ ⦃c : SchemaServer⦄ ⦃sdk : Sdk c⦄ ⦃s : LedgerServer⦄ where
  -- `SurrealEventStore(config, run_id=…, scope=…)`
  abbrev pub new_event_store :
      SurrealConfig → Text → String → String → String → OwnedMethod Handle (Db s) (Unit {0})
  new_event_store config schema_text run_id scope now =
      new_store config schema_text run_id scope (fresh_handle scope run_id) shut (settle_head now)
