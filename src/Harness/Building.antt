-- ===== src/Harness/Building.antt =====
-- harness.py: build_runtime, and SurrealPackRuntime with its `close`. Both stores and ActiveGraph's
-- runtime are one state, which the behaviours of a pack may change; Graph and Runtime are parameters.
use activegraph_surrealdb.Prelude.{String, Option, List, [], ◌∷◌}
use activegraph_surrealdb.Errors.{Result}
use activegraph_surrealdb.Exec.{pure, fail, modify, call, try_else, within, ◌>>◌}
use activegraph_surrealdb.Platform.{Platform}
use activegraph_surrealdb.Strings.{Text}
use activegraph_surrealdb.Config.{SurrealConfig}
use activegraph_surrealdb.Connection.Schema.{SchemaServer}
use activegraph_surrealdb.Connection.Opening.{Sdk}
use activegraph_surrealdb.Connection.Owner.{Owned, OwnedMethod}
use activegraph_surrealdb.EventStore.Rows.{LedgerServer, Db}
use activegraph_surrealdb.EventStore.Session.{Handle}
use activegraph_surrealdb.EventStore.Opening.{new_event_store, close_event_store}
use activegraph_surrealdb.GraphStore.Rows.{GraphServer, GraphDb}
use activegraph_surrealdb.GraphStore.Session.{GraphHandle}
use activegraph_surrealdb.GraphStore.Opening.{new_graph_store, close_graph_store}
use activegraph_surrealdb.Harness.{Python, PackLoader, Loading, load_modules}

-- HARNESS_PACK_MODULES
abbrev pub harness_pack_modules : List String
harness_pack_modules =
    "core" ∷ "tool_gateway" ∷ "secrets" ∷ "memory_gateway" ∷ "identity_auth" ∷ "agent_profile"
    ∷ "entity" ∷ "subject_profile" ∷ "communication" ∷ "chat" ∷ "email" ∷ "composio" ∷ "bridges"
    ∷ "mcp" ∷ "attention" ∷ "evolution" ∷ "semantic_extraction" ∷ "eval_outcome"
    ∷ "activity_normalizer" ∷ "connector_control" ∷ "skills" ∷ "usage" ∷ "schedule"
    ∷ "importers.local_files" ∷ "importers.chatgpt_export" ∷ "importers.claude_export"
    ∷ "importers.assistant_self_summary" ∷ "importers.assistant_local_sessions"
    ∷ "importers.public_presence" ∷ "_template" ∷ []

-- the fields of SurrealPackRuntime but for `loaded_packs`, its stores and its runtime
pub record SurrealPackRuntime : Type 0 where
  pub config : SurrealConfig
  pub run_id : String
  pub scope : String

-- both stores, and what ActiveGraph keeps
pub record Deployment (c : SchemaServer) (s : LedgerServer) (g : GraphServer) (F : Type 0)
    : Type 0 where
  pub event_store : Owned c Handle (Db s)
  pub graph_store : Owned c GraphHandle (GraphDb g.tables)
  pub framework : F

-- Graph(run_id=…, graph_store=…), and Runtime(graph, store=…)
pub record RuntimeMaker (State : Type 0) : Type 0 where
  pub new_graph : String → State → Result (Unit {0}) × State
  pub new_runtime : State → Result (Unit {0}) × State

module _ ⦃py : Python⦄ ⦃c : SchemaServer⦄ ⦃s : LedgerServer⦄ ⦃g : GraphServer⦄ where
  abbrev pub Building : Type 0 → Type 0 → Type 0
  Building F = Loading (Deployment c s g F)

module _ ⦃py : Python⦄ ⦃c : SchemaServer⦄ ⦃s : LedgerServer⦄ ⦃g : GraphServer⦄ {F : Type 0} where
  abbrev pub on_event_store : {A : Type 0} → OwnedMethod Handle (Db s) A → Building F A
  on_event_store m =
      within (λ w. record { handle = w.db.event_store; db = tt; schedule = [] })
        (λ v w. record w { db = record w.db { event_store = v.handle } }) m

  abbrev pub on_graph_store :
      {A : Type 0} → OwnedMethod GraphHandle (GraphDb g.tables) A → Building F A
  on_graph_store m =
      within (λ w. record { handle = w.db.graph_store; db = tt; schedule = [] })
        (λ v w. record w { db = record w.db { graph_store = v.handle } }) m

  -- `stack.callback(cleanup)`: what an ExitStack does when the body raises
  abbrev pub with_callback : {A : Type 0} → Building F (Unit {0}) → Building F A → Building F A
  with_callback cleanup body = try_else body (λ exc. cleanup >> fail exc) pure

  -- `SurrealPackRuntime.close`
  unfoldable pub close_runtime : Building F (Unit {0})
  close_runtime =
      try_else (on_event_store close_event_store)
        (λ exc. on_graph_store close_graph_store >> fail exc)
        (λ _. on_graph_store close_graph_store)

module _ ⦃p : Platform⦄ ⦃py : Python⦄ ⦃c : SchemaServer⦄ ⦃sdk : Sdk c⦄ ⦃s : LedgerServer⦄
    ⦃g : GraphServer⦄ {F : Type 0} ⦃loader : PackLoader py (Deployment c s g F)⦄
    ⦃maker : RuntimeMaker (Deployment c s g F)⦄ where
  -- the steps behind both constructors
  unfoldable pub load_runtime :
      SurrealConfig
      → String
      → String
      → List String
      → (String → Option py.Settings)
      → Option String
      → Building F SurrealPackRuntime
  load_runtime config run_id scope modules settings root = do
    call (maker.new_graph run_id)
    call maker.new_runtime
    modify (λ h. record h { loaded_packs = [] })
    load_modules settings root modules
    pure (record { config = config; run_id = run_id; scope = scope })

  -- `build_runtime`, for the text of schema.surql and the clock's reading
  unfoldable pub build_runtime :
      Text
      → String
      → SurrealConfig
      → String
      → String
      → List String
      → (String → Option py.Settings)
      → Option String
      → Building F SurrealPackRuntime
  build_runtime schema_text now config run_id scope modules settings root = do
    on_event_store (new_event_store config schema_text run_id scope now)
    with_callback (on_event_store close_event_store) (do
      on_graph_store (new_graph_store config schema_text run_id scope now)
      with_callback (on_graph_store close_graph_store)
          (load_runtime config run_id scope modules settings root))
