-- ===== src/Connection/Opening.antt =====
-- connection.py: the constructor of SurrealConnection. The SDK's calls on a new connection are
-- parameters.
use activegraph_surrealdb.Prelude.{Bool, true, false}
use activegraph_surrealdb.Errors.{Error, Result, configuration}
use activegraph_surrealdb.Exec.{pure, fail, modify, call, try_else, ◌>>=◌, ◌>>◌}
use activegraph_surrealdb.Strings.{Text}
use activegraph_surrealdb.Config.{SurrealConfig}
use activegraph_surrealdb.Connection.Reported.{reported_version}
use activegraph_surrealdb.Connection.Schema.{ConnectionHandle, SchemaServer, ConnectionMethod}

pub record Sdk (c : SchemaServer) : Type 0 where
  -- whether the socket of the connection is open
  pub live : c.State → Bool
  -- Surreal(endpoint), and whether what it makes is a BlockingWsSurrealConnection
  pub connect : Text → c.State → Result Bool × c.State
  -- on the connection: signin, use, new_session
  pub signin : Text → Text → c.State → Result (Unit {0}) × c.State
  pub use_database : Text → Text → c.State → Result (Unit {0}) × c.State
  pub new_session : c.State → Result (Unit {0}) × c.State
  -- on the session: signin, use
  pub signin_session : Text → Text → c.State → Result (Unit {0}) × c.State
  pub use_session : Text → Text → c.State → Result (Unit {0}) × c.State
  -- version, on the connection
  pub version : c.State → Result Text

abbrev pub new_connection : ConnectionHandle
new_connection = record { closed = false; schema_ready = false; has_session = false }

module _ ⦃c : SchemaServer⦄ ⦃sdk : Sdk c⦄ where
  -- the `try` clause of the constructor
  unfoldable pub sign_in : SurrealConfig → ConnectionMethod (Unit {0})
  sign_in config = do
    call (sdk.signin config.username config.password)
    call (sdk.use_database config.namespace config.database)
    call sdk.new_session
    call (sdk.signin_session config.username config.password)
    call (sdk.use_session config.namespace config.database)
    modify (λ h. record h { has_session = true })

  -- its `except` clause
  abbrev pub abandon_connection : Error → ConnectionMethod (Unit {0})
  abandon_connection exc = do
    call c.close_socket
    modify (λ h. record h { closed = true })
    fail exc

  abbrev pub assert_transport : Bool → ConnectionMethod (Unit {0})
  assert_transport true = pure tt
  assert_transport false = do
    call c.close_socket
    fail (record {
      kind = configuration;
      message = "the provider requires the SurrealDB blocking WebSocket transport";
    })

  -- `__init__`
  unfoldable pub connect : SurrealConfig → ConnectionMethod (Unit {0})
  connect config = do
    modify (λ h. new_connection)
    blocking ← call (sdk.connect config.endpoint)
    assert_transport blocking
    try_else (sign_in config) abandon_connection pure

  -- `server_version`
  unfoldable pub server_version : ConnectionMethod Text
  server_version = do raw ← call (λ d. (sdk.version d, d)); pure (reported_version raw)
