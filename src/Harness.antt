-- ===== src/Harness.antt =====
-- harness.py: how the packs of a checkout are found, imported and loaded. The interpreter's modules
-- and search path are state; the import machinery, the file system and ActiveGraph's Runtime are
-- parameters.
pub mod Evicting
pub mod Importing
pub mod Loading
pub mod Building
pub mod Holdings
pub mod Released
use activegraph_surrealdb.Prelude.{
  String, Bool, true, false, ◌||◌, ◌==◌, text_eq, Option, none, some, List, [], ◌∷◌, codes, member,
  add_new, if◌then◌else◌,
}
use activegraph_surrealdb.Errors.{
  ErrorClass, Error, Result, ok, err, raised, pack_harness, import_error,
}
use activegraph_surrealdb.Exec.{Action, pure, fail, lift, modify, call, try_else, ◌>>=◌, ◌>>◌}
use activegraph_surrealdb.Strings.{starts_with}
use activegraph_surrealdb.EventStore.Chain.{format}

-- sys.path and sys.modules
pub record Interpreter (Module : Type 0) : Type 0 where
  pub path : List String
  pub modules : List (String × Module)

pub record Python : Type 1 where
  pub Module : Type 0
  pub Pack : Type 0
  pub Settings : Type 0
  -- `module.__path__`, `getattr(module, "pack", None)` and `pack.name`
  pub package_path : Module → List String
  pub exported : Module → Option Pack
  pub pack_name : Pack → String
  -- os.environ.get, Path.expanduser, `root / "packs"`, Path.is_dir and Path.resolve
  pub environ : String → Option String
  pub expanduser : String → String
  pub packs_in : String → String
  pub is_dir : String → Bool
  pub resolve : String → String
  -- importlib.import_module
  pub import_module : String → Interpreter Module → Result Module × Interpreter Module

-- Runtime.load_pack, on a state that has all that the behaviours of a runtime change
pub record PackLoader (p : Python) (State : Type 0) : Type 0 where
  pub load_pack : p.Pack → State → Result (Unit {0}) × State
  pub load_pack_with : p.Settings → p.Pack → State → Result (Unit {0}) × State

-- the interpreter, and the names in `handle.loaded_packs`
pub record Session (Module : Type 0) : Type 0 where
  pub interpreter : Interpreter Module
  pub loaded_packs : List String

abbrev pub default_packs_path : String
default_packs_path = "/opt/references/activegraph-packs"

abbrev pub packs_path_env : String
packs_path_env = "ACTIVEGRAPH_PACKS_PATH"

-- `name == "packs" or name.startswith("packs.")`
unfoldable pub of_packs : String → Bool
of_packs name = name == "packs" || starts_with (codes "packs.") (codes name)

module _ {Module : Type 0} where
  -- `sys.modules.get(name)`, and `del sys.modules[name]`
  unfoldable pub cached : String → List (String × Module) → Option Module
  cached name [] = none
  cached name ((key, found_module) ∷ rest) =
      let found = cached name rest in if key == name then some found_module else found

  unfoldable pub del_module : String → List (String × Module) → List (String × Module)
  del_module name [] = []
  del_module name ((key, found_module) ∷ rest) =
      let kept = del_module name rest in if key == name then kept else (key, found_module) ∷ kept

  unfoldable pub packs_names : List (String × Module) → List String
  packs_names [] = []
  packs_names ((key, found_module) ∷ rest) =
      let names = packs_names rest in if of_packs key then key ∷ names else names

  unfoldable pub del_modules : List String → List (String × Module) → List (String × Module)
  del_modules [] modules = modules
  del_modules (name ∷ names) modules = del_modules names (del_module name modules)

module _ ⦃p : Python⦄ where
  abbrev pub root_of : Option String → String
  root_of none = default_packs_path
  root_of (some given) = given

  unfoldable pub packs_path : Result String
  packs_path =
      let root = p.expanduser (root_of (p.environ packs_path_env)) in
      if p.is_dir (p.packs_in root)
      then ok root
      else raised pack_harness (
          format (
            "no pack library at " ∷ root ∷ "; set " ∷ packs_path_env
            ∷ " to a checkout containing a 'packs' package" ∷ []))

  -- `expected in {Path(entry).resolve() for entry in …}`
  unfoldable pub resolves_to : String → List String → Bool
  resolves_to expected [] = false
  resolves_to expected (entry ∷ rest) = p.resolve entry == expected || resolves_to expected rest

  abbrev pub is_foreign : String → Option p.Module → Bool
  is_foreign root none = false
  is_foreign root (some found_module) =
      if resolves_to (p.resolve (p.packs_in root)) (p.package_path found_module)
      then false
      else true

  unfoldable pub evict_foreign_packs : String → Interpreter p.Module → Interpreter p.Module
  evict_foreign_packs root i =
      if is_foreign root (cached "packs" i.modules)
      then record i { modules = del_modules (packs_names i.modules) i.modules }
      else i

  unfoldable pub ensure_importable : String → Interpreter p.Module → Interpreter p.Module
  ensure_importable root i =
      evict_foreign_packs root (if member root i.path then i else record i { path = root ∷ i.path })

  abbrev pub Loading : Type 0 → Type 0 → Type 0
  Loading State = Action (Session p.Module) State

  abbrev pub is_import_error : ErrorClass → Bool
  is_import_error import_error = true
  is_import_error _ = false

  unfoldable pub import_module : {State : Type 0} → String → Loading State p.Module
  import_module name w =
      let (r, i) = p.import_module name w.handle.interpreter in
      (r, record w { handle = record { interpreter = i; loaded_packs = w.handle.loaded_packs } })

  abbrev pub could_not_import : {State : Type 0} → String → Error → Loading State p.Module
  could_not_import module_name exc =
      if is_import_error exc.kind
      then fail (record {
        kind = pack_harness;
        message = format ("could not import packs." ∷ module_name ∷ ": " ∷ exc.message ∷ []);
      })
      else fail exc

  -- `root or packs_path()`
  abbrev pub chosen_root : Option String → Result String
  chosen_root none = packs_path
  chosen_root (some root) = ok root

  unfoldable pub import_pack : {State : Type 0} → String → Option String → Loading State p.Module
  import_pack module_name given = do
    root ← lift (chosen_root given)
    modify (λ h. record h { interpreter = ensure_importable root h.interpreter })
    try_else (import_module (format ("packs." ∷ module_name ∷ []))) (could_not_import module_name)
        pure

  abbrev pub pack_or_missing : String → Option p.Pack → Result p.Pack
  pack_or_missing module_name none =
      raised pack_harness (format ("packs." ∷ module_name ∷ " does not export a 'pack'" ∷ []))
  pack_or_missing module_name (some pack) = ok pack

module _ ⦃p : Python⦄ {State : Type 0} ⦃r : PackLoader p State⦄ where
  abbrev pub load_with : p.Pack → Option p.Settings → Loading State (Unit {0})
  load_with pack none = call (r.load_pack pack)
  load_with pack (some settings) = call (r.load_pack_with settings pack)

  -- one round of the loop
  unfoldable pub load_module :
      (String → Option p.Settings) → Option String → String → Loading State (Unit {0})
  load_module settings root module_name = do
    found_module ← import_pack module_name root
    pack ← lift (pack_or_missing module_name (p.exported found_module))
    load_with pack (settings module_name)
    modify (λ h. record h { loaded_packs = add_new (p.pack_name pack) h.loaded_packs })

  unfoldable pub load_modules :
      (String → Option p.Settings) → Option String → List String → Loading State (Unit {0})
  load_modules settings root [] = pure tt
  load_modules settings root (module_name ∷ modules) = do
    load_module settings root module_name
    load_modules settings root modules
