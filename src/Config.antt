-- ===== src/Config.antt =====
-- config.py: the settings of a connection and their normalisation.
pub mod Normal
use activegraph_surrealdb.Prelude.{
  String, Bool, true, false, ◌||◌, List, [], ◌∷◌, ◌++◌, codes, if◌then◌else◌,
}
use activegraph_surrealdb.Errors.{Result, ok, raised, configuration, ◌>>=◌}
use activegraph_surrealdb.Strings.{Text, strip, rstrip, starts_with, ends_with, but_last_4}

pub record ProviderCapabilities : Type 0 where
  pub transport : String
  pub transactional_append : Bool
  pub atomic_event_projection : Bool
  pub tls_qualified : Bool

abbrev pub default_capabilities : ProviderCapabilities
default_capabilities = record {
  transport = "websocket";
  transactional_append = true;
  atomic_event_projection = false;
  tls_qualified = false;
}

-- the fields that a caller gives; `capabilities` is always the default
pub record SurrealConfig : Type 0 where
  pub endpoint : Text
  pub namespace : Text
  pub database : Text
  pub username : Text
  pub password : Text

-- `endpoint = str(self.endpoint).strip().rstrip("/")`, and once more without a trailing "/rpc"
unfoldable pub base_endpoint : Text → Text
base_endpoint given =
    let endpoint = rstrip b'/' (strip given) in
    if ends_with (codes "/rpc") endpoint then rstrip b'/' (but_last_4 endpoint) else endpoint

abbrev pub has_scheme : Text → Bool
has_scheme endpoint = starts_with (codes "ws://") endpoint || starts_with (codes "wss://") endpoint

unfoldable pub endpoint_of : Text → Result Text
endpoint_of given =
    if has_scheme (base_endpoint given)
    then ok (base_endpoint given)
    else raised configuration
        "endpoint must use ws:// or wss://; HTTP and embedded transports are not supported by this preview"

abbrev pub non_empty : String → Text → Result Text
non_empty message [] = raised configuration message
non_empty message (c ∷ cs) = ok (c ∷ cs)

-- one round of the loop over the other fields
unfoldable pub required : String → Text → Result Text
required message value = non_empty message (strip value)

-- `__post_init__`
unfoldable pub post_init : SurrealConfig → Result SurrealConfig
post_init config = do
  endpoint ← endpoint_of config.endpoint
  namespace ← required "namespace must be non-empty" config.namespace
  database ← required "database must be non-empty" config.database
  username ← required "username must be non-empty" config.username
  password ← required "password must be non-empty" config.password
  ok (record {
    endpoint = endpoint;
    namespace = namespace;
    database = database;
    username = username;
    password = password;
  })
