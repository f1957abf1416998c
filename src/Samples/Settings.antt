-- ===== src/Samples/Settings.antt =====
-- Tests and witnesses for config.py.
use activegraph_surrealdb.Prelude.{◌≡◌, refl, codes}
use activegraph_surrealdb.Errors.{ok}
use activegraph_surrealdb.Strings.{
  is_space, drop_while, trim_right, strip, rstrip, starts_with, ends_with, but_last_4,
}
use activegraph_surrealdb.Config.{SurrealConfig, base_endpoint, endpoint_of, required, post_init}
use activegraph_surrealdb.Config.Normal.{IsNormal, post_init-IsNormal}

abbrev given : SurrealConfig
given = record {
  endpoint = codes " ws://db:8000//rpc ";
  namespace = codes "main ";
  database = codes "graph";
  username = codes " root";
  password = codes "secret";
}

abbrev normal : SurrealConfig
normal = record {
  endpoint = codes "ws://db:8000";
  namespace = codes "main";
  database = codes "graph";
  username = codes "root";
  password = codes "secret";
}

-- Named on an `unfolding` line, this lets a normalisation run.
unfoldable settings_run : Unit {0}
unfolding post_init endpoint_of required base_endpoint strip rstrip trim_right drop_while is_space
    starts_with ends_with but_last_4
settings_run = tt

post_init_test : post_init given ≡ ok normal
unfolding settings_run
post_init_test = refl

post_init-IsNormal_example : IsNormal normal
post_init-IsNormal_example = post_init-IsNormal given normal post_init_test
