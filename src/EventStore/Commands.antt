-- ===== src/EventStore/Commands.antt =====
-- event_store.py: a store object in use: calls of `append`, `upsert_run`, `fork_prefix`, the reads and
-- `close`, in whatever order. `truncate_after` is not among them.
use activegraph_surrealdb.Prelude.{String, Option, List, [], ◌∷◌}
use activegraph_surrealdb.Exec.{World}
use activegraph_surrealdb.Exec.Triples.{Guarded}
use activegraph_surrealdb.Platform.{Platform, JsonLaws}
use activegraph_surrealdb.Serde.{Event}
use activegraph_surrealdb.EventStore.Rows.{LedgerServer, LedgerLaws, Db}
use activegraph_surrealdb.EventStore.Session.{Handle}
use activegraph_surrealdb.EventStore.Writes.{append}
use activegraph_surrealdb.EventStore.Reads.{
  RunPatch, iter_events, get_event, count, verify_integrity, get_run, upsert_run, close,
}
use activegraph_surrealdb.EventStore.Fork.{fork_prefix}
use activegraph_surrealdb.EventStore.Append.{IsSound, append-Safe}
use activegraph_surrealdb.EventStore.Guards.{IsOf}
use activegraph_surrealdb.EventStore.Keeping.{
  iter_events-Safe, get_event-Safe, count-Safe, verify_integrity-Safe, get_run-Safe,
  upsert_run-Safe, close-Safe,
}
use activegraph_surrealdb.EventStore.Forking.{fork_prefix-Safe}

-- a call of a method, with its arguments and the clock's reading
pub data Command ⦃p : Platform⦄ : Type 0 where
  appends : Event p.Value → Command
  upserts : RunPatch → String → Command
  forks : String → String → Option String → String → Command
  iterates : Option String → Option String → Command
  gets_event : String → Command
  counts verifies gets_run closes : Command

module _ ⦃p : Platform⦄ ⦃s : LedgerServer⦄ where
  -- what a call leaves, whether it returns or raises
  abbrev pub performed : Command → World Handle (Db s) → World Handle (Db s)
  performed (appends event) w = (append event w).1
  performed (upserts patch created_at) w = (upsert_run patch created_at w).1
  performed (forks new_run_id at_event_id label now) w =
      (fork_prefix new_run_id at_event_id label now w).1
  performed (iterates after until) w = (iter_events after until w).1
  performed (gets_event event_id) w = (get_event event_id w).1
  performed counts w = (count w).1
  performed verifies w = (verify_integrity w).1
  performed gets_run w = (get_run w).1
  performed closes w = (close w).1

  abbrev pub performed_all : List Command → World Handle (Db s) → World Handle (Db s)
  performed_all [] w = w
  performed_all (c ∷ cs) w = performed_all cs (performed c w)

module _ ⦃p : Platform⦄ ⦃s : LedgerServer⦄ (json : JsonLaws p) (laws : LedgerLaws s)
    (scope run_id : String) where
  abbrev Keeping : World Handle (Db s) → Type 0
  Keeping = Guarded (IsOf scope run_id) (IsSound json laws scope run_id)

  performed-Keeping : (c : Command) (w : World Handle (Db s)) → Keeping w → Keeping (performed c w)
  performed-Keeping (appends event) w k = ((append-Safe json laws scope run_id event).at w k).0
  performed-Keeping (upserts patch created_at) w k =
      ((upsert_run-Safe json laws scope run_id patch created_at).at w k).0
  performed-Keeping (forks new_run_id at_event_id label now) w k =
      ((fork_prefix-Safe json laws scope run_id new_run_id at_event_id label now).at w k).0
  performed-Keeping (iterates after until) w k =
      ((iter_events-Safe json laws scope run_id scope run_id after until).at w k).0
  performed-Keeping (gets_event event_id) w k =
      ((get_event-Safe json laws scope run_id scope run_id event_id).at w k).0
  performed-Keeping counts w k = ((count-Safe json laws scope run_id scope run_id).at w k).0
  performed-Keeping verifies w k =
      ((verify_integrity-Safe json laws scope run_id scope run_id).at w k).0
  performed-Keeping gets_run w k = ((get_run-Safe json laws scope run_id scope run_id).at w k).0
  performed-Keeping closes w k = ((close-Safe json laws scope run_id scope run_id).at w k).0

  -- From a sound run (its stored rows are one gap-free hash chain in scope that ends in the run row's
  -- number and hash) and an object of it, the run is sound after any sequence of `append`,
  -- `upsert_run`, `fork_prefix`, `iter_events`, `get_event`, `count`, `verify_integrity`, `get_run`
  -- and `close`, whether each returns or raises, whichever calls of the server are refused or lose
  -- their answer, and whatever other sessions that keep the run sound commit before each of them.
  pub performed_all-IsSound :
      (commands : List Command) (w : World Handle (Db s))
      → Guarded (IsOf scope run_id) (IsSound json laws scope run_id) w
      → IsSound json laws scope run_id (performed_all commands w).db
  performed_all-IsSound [] w k = k.holds
  performed_all-IsSound (c ∷ cs) w k =
      performed_all-IsSound cs (performed c w) (performed-Keeping c w k)
