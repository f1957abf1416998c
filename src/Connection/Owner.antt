-- ===== src/Connection/Owner.antt =====
-- connection.py in use: a store object owns the connection that its constructor opens. The constructors
-- and the `close` methods of both stores, event_store.py and graph_store.py, treat it alike.
use activegraph_surrealdb.Prelude.{String, Bool, ◌==◌, text_eq, if◌then◌else◌}
use activegraph_surrealdb.Errors.{Error, value_error}
use activegraph_surrealdb.Exec.{
  World, Action, pure, fail, gets, modify, raise_if, try_else, within, ◌>>=◌, ◌>>◌,
}
use activegraph_surrealdb.Platform.{Platform}
use activegraph_surrealdb.Strings.{Text}
use activegraph_surrealdb.Config.{SurrealConfig}
use activegraph_surrealdb.Connection.Schema.{
  ConnectionHandle, SchemaServer, ConnectionMethod, ensure_schema, close,
}
use activegraph_surrealdb.Connection.Opening.{Sdk, connect}

-- a store object with its session's world, and the world of its connection
pub record Owned (c : SchemaServer) (H D : Type 0) : Type 0 where
  pub store : World H D
  pub connection : World ConnectionHandle c.State

module _ ⦃c : SchemaServer⦄ where
  abbrev pub OwnedMethod : Type 0 → Type 0 → Type 0 → Type 0
  OwnedMethod H D A = Action (Owned c H D) (Unit {0}) A

module _ ⦃c : SchemaServer⦄ {H D A : Type 0} where
  abbrev pub on_store : Action H D A → OwnedMethod H D A
  on_store m =
      within (λ w. w.handle.store) (λ v w. record w { handle = record w.handle { store = v } }) m

  abbrev pub on_connection : ConnectionMethod A → OwnedMethod H D A
  on_connection m =
      within (λ w. w.handle.connection)
        (λ v w. record w { handle = record w.handle { connection = v } }) m

module _ ⦃c : SchemaServer⦄ {H D : Type 0} where
  abbrev pub check_names : String → String → OwnedMethod H D (Unit {0})
  check_names run_id scope = do
    raise_if (run_id == "") value_error "run_id must be non-empty"
    raise_if (scope == "") value_error "scope must be non-empty"

  -- `except BaseException: self._connection.close(); self._closed = True; raise`
  abbrev pub abandon_store : (H → H) → Error → OwnedMethod H D (Unit {0})
  abandon_store shut exc = do on_connection close; on_store (modify shut); fail exc

  abbrev pub close_connection : (H → H) → OwnedMethod H D (Unit {0})
  close_connection shut = do on_store (modify shut); on_connection close

  -- `close`: nothing is done twice
  unfoldable pub close_owned : (H → Bool) → (H → H) → OwnedMethod H D (Unit {0})
  close_owned is_closed shut = do
    closed ← on_store (gets is_closed)
    if closed then pure tt else close_connection shut

module _ ⦃p : Platform⦄ ⦃c : SchemaServer⦄ ⦃sdk : Sdk c⦄ {H D : Type 0} where
  -- the `try` clause of a constructor: the schema, and what the store itself prepares
  abbrev pub prepare_store : Text → Action H D (Unit {0}) → OwnedMethod H D (Unit {0})
  prepare_store schema_text prepared = do
    _ ← on_connection (ensure_schema schema_text)
    on_store prepared

  -- `__init__` of a store with the fields `made`
  unfoldable pub new_store :
      SurrealConfig
      → Text
      → String
      → String
      → H
      → (H → H)
      → Action H D (Unit {0})
      → OwnedMethod H D (Unit {0})
  new_store config schema_text run_id scope made shut prepared = do
    check_names run_id scope
    on_store (modify (λ h. made))
    on_connection (connect config)
    try_else (prepare_store schema_text prepared) (abandon_store shut) pure
