-- ===== src/Connection/Schema.antt =====
-- connection.py: `ensure_schema` and `close` of SurrealConnection. The server is a parameter, and so
-- are the socket and the session.
use activegraph_surrealdb.Prelude.{
  ℕ, String, Bool, true, false, Option, none, some, List, [], ◌∷◌, ltb, if◌then◌else◌,
}
use activegraph_surrealdb.Errors.{
  ErrorClass, Error, Result, ok, raised, closed_store, ledger_integrity, not_found,
}
use activegraph_surrealdb.Exec.{
  Action, pure, fail, lift, gets, modify, raise_if, call, try_else, ◌>>=◌, ◌>>◌,
}
use activegraph_surrealdb.Platform.{Platform}
use activegraph_surrealdb.Strings.{Text}
use activegraph_surrealdb.EventStore.Chain.{format}
use activegraph_surrealdb.Connection.Statements.{schema_statements}

abbrev pub schema_version : ℕ
schema_version = 3

abbrev pub min_schema_version : ℕ
min_schema_version = 1

-- the record ag_schema:singleton; `version` is nothing where it is no number
pub record SchemaRow : Type 0 where
  pub version : Option ℕ
  pub installed_at : String

-- the fields of SurrealConnection that its methods read or assign
pub record ConnectionHandle : Type 0 where
  pub closed : Bool
  pub schema_ready : Bool
  pub has_session : Bool

pub record SchemaServer : Type 1 where
  pub State : Type 0
  -- SELECT * FROM ONLY $schema; NotFoundError where the table is not defined
  pub read : State → Result (Option SchemaRow)
  -- one statement of schema.surql
  pub define : Text → State → Result (Unit {0}) × State
  -- RETURN time::now(), CREATE $schema CONTENT …, UPDATE ONLY $schema SET version = …
  pub time_now : State → String
  pub create : SchemaRow → State → Result (Unit {0}) × State
  pub set_version : ℕ → State → State
  -- closing the session and the socket
  pub close_session : State → Result (Unit {0}) × State
  pub close_socket : State → Result (Unit {0}) × State

abbrev pub is_not_found : ErrorClass → Bool
is_not_found not_found = true
is_not_found _ = false

module _ ⦃p : Platform⦄ where
  abbrev pub assert_version : Option ℕ → Result (Unit {0})
  assert_version none = raised ledger_integrity "the provider schema version is absent or invalid"
  assert_version (some version) =
      if ltb schema_version version
      then raised ledger_integrity (
          format (
            "provider schema version "
            ∷ p.shown version
            ∷ " is newer than this provider supports (maximum "
            ∷ p.shown schema_version
            ∷ ")"
            ∷ []))
      else if ltb version min_schema_version
      then raised ledger_integrity (
          format (
            "provider schema version "
            ∷ p.shown version
            ∷ " predates the supported minimum "
            ∷ p.shown min_schema_version
            ∷ []))
      else ok tt

  -- `_assert_schema_version`
  unfoldable pub assert_schema_version : SchemaRow → Result (Unit {0})
  assert_schema_version row = assert_version row.version

abbrev pub older : Option ℕ → Bool
older none = false
older (some version) = ltb version schema_version

module _ ⦃c : SchemaServer⦄ where
  abbrev pub ConnectionMethod : Type 0 → Type 0
  ConnectionMethod = Action ConnectionHandle c.State

  unfoldable pub ensure_open : ConnectionMethod (Unit {0})
  ensure_open = do
    closed ← gets (λ h. h.closed)
    raise_if closed closed_store "the SurrealDB connection is closed"

  -- `query`: the session is there only while the connection is open
  unfoldable pub query : {A : Type 0} → (c.State → Result A × c.State) → ConnectionMethod A
  query statement = do ensure_open; call statement

  abbrev pub read_schema : ConnectionMethod (Option SchemaRow)
  read_schema = query (λ d. (c.read d, d))

  -- `except NotFoundError: existing = None`
  abbrev pub missing_table : Error → ConnectionMethod (Option SchemaRow)
  missing_table exc = if is_not_found exc.kind then pure none else fail exc

  unfoldable pub apply_statements : List Text → ConnectionMethod (Unit {0})
  apply_statements [] = pure tt
  apply_statements (statement ∷ rest) = do query (c.define statement); apply_statements rest

  -- what another store may have created meanwhile
  abbrev pub unless_created : Error → Option SchemaRow → ConnectionMethod (Option SchemaRow)
  unless_created exc none = fail exc
  unless_created exc (some row) = pure (some row)

  unfoldable pub create_record : ConnectionMethod (Unit {0})
  create_record = do
    now ← query (λ d. (ok (c.time_now d), d))
    query (c.create (record { version = some schema_version; installed_at = now }))

  abbrev pub create_if_missing : Option SchemaRow → ConnectionMethod (Option SchemaRow)
  create_if_missing (some row) = pure (some row)
  create_if_missing none =
      try_else create_record (λ exc. read_schema >>= unless_created exc) (λ _. read_schema)

  abbrev pub or_missing : Option SchemaRow → Result SchemaRow
  or_missing none = raised ledger_integrity "the provider schema record is missing"
  or_missing (some row) = ok row

  abbrev pub upgrade : Bool → ConnectionMethod (Unit {0})
  upgrade false = pure tt
  upgrade true = query (λ d. (ok tt, c.set_version schema_version d))

  abbrev pub set_ready : ConnectionMethod (Unit {0})
  set_ready = modify (λ h. record h { schema_ready = true })

module _ ⦃p : Platform⦄ ⦃c : SchemaServer⦄ where
  abbrev pub check_existing : Option SchemaRow → Result (Unit {0})
  check_existing none = ok tt
  check_existing (some row) = assert_schema_version row

  -- what follows the test of `_schema_ready`, for the text of schema.surql
  unfoldable pub install : Text → ConnectionMethod ℕ
  install schema_text = do
    existing ← try_else read_schema missing_table pure
    lift (check_existing existing)
    apply_statements (schema_statements schema_text)
    current ← read_schema
    created ← create_if_missing current
    row ← lift (or_missing created)
    lift (assert_schema_version row)
    upgrade (older row.version)
    set_ready
    pure schema_version

  unfoldable pub ensure_schema : Text → ConnectionMethod ℕ
  ensure_schema schema_text = do
    ensure_open
    ready ← gets (λ h. h.schema_ready)
    if ready then pure schema_version else install schema_text

module _ ⦃c : SchemaServer⦄ where
  abbrev pub close_session_if : Bool → ConnectionMethod (Unit {0})
  close_session_if false = pure tt
  close_session_if true = call c.close_session

  abbrev pub finish_close : ConnectionMethod (Unit {0})
  finish_close = call c.close_socket

  -- The socket is closed whether or not closing the session raises.
  abbrev pub close_open : Bool → ConnectionMethod (Unit {0})
  close_open has_session = do
    modify (λ h. record h { closed = true; has_session = false })
    try_else (close_session_if has_session) (λ exc. finish_close >> fail exc) (λ _. finish_close)

  unfoldable pub close : ConnectionMethod (Unit {0})
  close = do h ← gets (λ h. h); if h.closed then pure tt else close_open h.has_session
