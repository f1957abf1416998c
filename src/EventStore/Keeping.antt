-- ===== src/EventStore/Keeping.antt =====
-- event_store.py: the methods that write no event keep every run sound, and so does the constructor of
-- another object.
use activegraph_surrealdb.Prelude.{
  String, ◌≡◌, refl, sym, subst, Option, none, some, Bool, true, false, nat_eq, text_eq, option_eq,
  is_some, length, Bool-cases, Option-cases, inl, inr, arith,
}
use activegraph_surrealdb.Errors.{Error}
use activegraph_surrealdb.Exec.Triples.{
  Triple-pure, Triple-fail, Triple-lift, Triple-raise_if, Triple-bind, Triple-try_else, Triple-gets,
  Triple-modify, Triple-call,
}
use activegraph_surrealdb.Platform.{Platform, JsonLaws}
use activegraph_surrealdb.Keys.{RecordId}
use activegraph_surrealdb.Surreal.Memory.{same_id_iff}
use activegraph_surrealdb.EventStore.Rows.{RunRow, LedgerServer, LedgerLaws, Db, update_run}
use activegraph_surrealdb.EventStore.Chain.{run_record}
use activegraph_surrealdb.EventStore.Session.{
  Handle, Method, create_on, create_run_record, update_run_record, select_events, select_event,
  verified_rows_and_run,
}
use activegraph_surrealdb.EventStore.Reads.{
  RunPatch, merge_patch, upsert_row, upsert_run, verify_integrity, iter_events, get_event, count,
  get_run, close, is_given,
}
use activegraph_surrealdb.EventStore.Fork.{
  ensure_run, initialise, create_if_missing, unless_created, open_store, fresh_handle,
}
use activegraph_surrealdb.EventStore.Ledger.{IsLedger, select-update_run}
use activegraph_surrealdb.EventStore.Append.{IsSound}
use activegraph_surrealdb.EventStore.Guards.{
  IsOf, Anything, Safe, Safe-ask, ensure_open-Safe, read_run_row-Safe,
}

module _ ⦃p : Platform⦄ ⦃s : LedgerServer⦄ (json : JsonLaws p) (laws : LedgerLaws s)
    (scope run_id : String) where
  abbrev Sound : Db s → Type 0
  Sound = IsSound json laws scope run_id

  -- a new run record beside that of the run
  pub IsLedger-create_run :
      (d : Db s) (run row : RunRow) (k : RecordId)
      → s.runs.select d.runs k ≡ none
      → IsLedger scope run_id d run
      → IsLedger scope run_id (record d { runs = s.runs.write k row d.runs }) run
  IsLedger-create_run d run row k absent ledger = record {
    found = ground (
      arith,
      ledger.found,
      absent,
      laws.runs.select-write k row d.runs (run_record scope run_id),
      same_id_iff k (run_record scope run_id),
    );
    in_scope = ledger.in_scope;
    of_run = ledger.of_run;
    chain = ledger.chain;
    counted = ledger.counted;
  }

  -- other columns of the run's own record
  IsLedger-merge_patch :
      (d : Db s) (run : RunRow) (patch : RunPatch)
      → IsLedger scope run_id d run
      → IsLedger scope run_id
          (record d {
            runs = update_run s.runs (run_record scope run_id) (merge_patch patch) d.runs;
          })
          (merge_patch patch run)
  unfolding merge_patch
  IsLedger-merge_patch d run patch ledger = record {
    found =
        select-update_run laws (run_record scope run_id) (merge_patch patch) d.runs run
          ledger.found;
    in_scope = ledger.in_scope;
    of_run = ledger.of_run;
    chain = ledger.chain;
    counted = ledger.counted;
  }

  create_on-Sound :
      (reason : Option String) (d : Db s) (k : RecordId) (row : RunRow)
      → s.runs.refuses k row d.runs ≡ reason
      → Sound d
      → Sound (create_on reason k row d).1
  create_on-Sound (some m) d k row e q = q
  create_on-Sound none d k row e (run, ledger) = elim (Option-cases (s.runs.select d.runs k)) [
    | inl absent ↦ (run, IsLedger-create_run d run row k absent ledger)
    | inr (old, taken) ↦ absurd (laws.runs.refuses_taken k row old d.runs e taken)
  ]

  -- the object that runs the method may be of another run
  module _ (its_scope its_run : String) where
    abbrev Kept : {A : Type 0} → Method A → Type 0
    Kept m = Safe its_scope its_run Sound Anything m

    pub create_run_record-Safe : (k : RecordId) (row : RunRow) → Kept (create_run_record k row)
    unfolding create_run_record
    create_run_record-Safe k row =
        Triple-call _
          (λ d q. (create_on-Sound (s.runs.refuses k row d.runs) d k row refl q, λ a e. tt))

    create_if_missing-Safe :
        (h : Handle) (now : String) (row : Option RunRow) → Kept (create_if_missing h now row)
    create_if_missing-Safe h now (some row) = Triple-pure tt tt
    create_if_missing-Safe h now none =
        Triple-try_else {R = Anything} _ _ _ (create_run_record-Safe _ _)
          (λ exc.
            Triple-bind {R = Anything} _ _ (read_run_row-Safe its_scope its_run Sound)
              (λ row _. created exc row))
          (λ u _. Triple-pure u tt)
      where
        created : (exc : Error) (row : Option RunRow) → Kept (unless_created exc row)
        created exc none = Triple-fail exc
        created exc (some row) = Triple-pure tt tt

    ensure_run-Safe : (now : String) → Kept (ensure_run now)
    unfolding ensure_run
    ensure_run-Safe now =
        Triple-bind {R = Anything} _ _ (Triple-gets {R = Anything} _ (λ h k. tt)) λ h _.
          Triple-bind {R = Anything} _ _ (read_run_row-Safe its_scope its_run Sound)
            λ row _. create_if_missing-Safe h now row

    select_events-Safe : (a b : String) → Kept (select_events a b)
    unfolding select_events
    select_events-Safe a b = Safe-ask its_scope its_run Sound Anything _ (λ d rows q e. tt)

    select_event-Safe : (k : RecordId) → Kept (select_event k)
    unfolding select_event
    select_event-Safe k = Safe-ask its_scope its_run Sound Anything _ (λ d row q e. tt)

    pub verified_rows_and_run-Safe :
        Safe its_scope its_run Sound
          (λ found. found.1.next_seq ≡ length found.0)
          verified_rows_and_run
    unfolding verified_rows_and_run
    verified_rows_and_run-Safe = Triple-bind _ _ (ensure_open-Safe its_scope its_run Sound) λ _ _.
        Triple-bind {R = Anything} _ _ (Triple-gets {R = Anything} _ (λ h k. tt)) λ h _.
          Triple-bind _ _ (select_events-Safe _ _) λ rows _.
            Triple-bind _ _ (read_run_row-Safe its_scope its_run Sound) λ found _.
              Triple-bind {R = Anything} _ _ (Triple-lift _ (λ a e. tt)) λ run _.
                Triple-bind {R = Anything} _ _ (Triple-lift _ (λ a e. tt)) λ last _.
                  Triple-bind _ _ (Triple-raise_if _ _ _) λ _ counted.
                    Triple-bind _ _ (Triple-raise_if _ _ _)
                      λ _ _. Triple-pure _ (ground (arith, counted))

    pub verify_integrity-Safe : Kept verify_integrity
    unfolding verify_integrity
    verify_integrity-Safe = Triple-bind _ _ verified_rows_and_run-Safe λ found _. Triple-pure _ tt

    pub initialise-Safe : (now : String) → Kept (initialise now)
    unfolding initialise
    initialise-Safe now =
        Triple-bind {R = Anything} _ _ (Triple-gets {R = Anything} _ (λ h k. tt)) λ h _.
          Triple-bind _ _ (Triple-raise_if _ _ _) λ _ _.
            Triple-bind _ _ (Triple-raise_if _ _ _) λ _ _.
              Triple-bind _ _ (ensure_run-Safe now) λ _ _.
                Triple-bind _ _ verify_integrity-Safe λ report _.
                  Triple-modify _ (λ h k. record { of_scope = k.of_scope; of_run = k.of_run })

    pub iter_events-Safe : (after until : Option String) → Kept (iter_events after until)
    unfolding iter_events
    iter_events-Safe after until =
        Triple-bind {R = Anything} _ _ (Triple-gets {R = Anything} _ (λ h k. tt)) λ h _.
          Triple-bind _ _ verified_rows_and_run-Safe λ found _.
            Triple-bind {R = Anything} _ _ (Triple-lift _ (λ a e. tt)) λ after_seq _.
              Triple-bind {R = Anything} _ _ (Triple-lift _ (λ a e. tt))
                λ until_seq _. Triple-lift _ (λ a e. tt)

    pub get_event-Safe : (event_id : String) → Kept (get_event event_id)
    unfolding get_event
    get_event-Safe event_id = Triple-bind _ _ (ensure_open-Safe its_scope its_run Sound) λ _ _.
        Triple-bind {R = Anything} _ _ (Triple-gets {R = Anything} _ (λ h k. tt))
          λ h _. Triple-bind _ _ (select_event-Safe _) λ row _. Triple-lift _ (λ a e. tt)

    pub count-Safe : Kept count
    unfolding count
    count-Safe = Triple-bind _ _ (ensure_open-Safe its_scope its_run Sound) λ _ _.
        Triple-bind {R = Anything} _ _ (Triple-gets {R = Anything} _ (λ h k. tt))
          λ h _. Triple-bind _ _ (select_events-Safe _ _) λ rows _. Triple-pure _ tt

    pub get_run-Safe : Kept get_run
    unfolding get_run
    get_run-Safe =
        Triple-bind _ _ (ensure_open-Safe its_scope its_run Sound) λ _ _.
          Triple-bind _ _ (read_run_row-Safe its_scope its_run Sound) λ row _. Triple-pure _ tt

    pub close-Safe : Kept close
    unfolding close
    close-Safe = Triple-modify _ (λ h k. record { of_scope = k.of_scope; of_run = k.of_run })

  -- the constructor of another object, on the same database
  pub open_store-Safe :
      (its_scope its_run other_scope other_run now : String)
      → Safe its_scope its_run Sound Anything (open_store other_scope other_run now)
  unfolding open_store
  open_store-Safe its_scope its_run other_scope other_run now = record {
    at = λ w g.
        let (inner, _) =
          (initialise-Safe other_scope other_run now).at
            (record w { handle = fresh_handle other_scope other_run })
            (record {
              owner = record { of_scope = refl; of_run = refl };
              holds = g.holds;
              friends = g.friends;
            }) in
        (record { owner = g.owner; holds = inner.holds; friends = inner.friends }, λ a e. tt);
  }

  update_run_record-Safe :
      (patch : RunPatch)
      → Safe scope run_id Sound Anything
          (update_run_record (run_record scope run_id) (merge_patch patch))
  unfolding update_run_record
  update_run_record-Safe patch = Triple-call _ (λ d (run, ledger).
      ((merge_patch patch run, IsLedger-merge_patch d run patch ledger), λ a e. tt))

  upsert_row-Safe :
      (patch : RunPatch) (created_at : String) (h : Handle) (there : Bool)
      → IsOf scope run_id h
      → Safe scope run_id Sound Anything (upsert_row patch created_at h there)
  upsert_row-Safe patch created_at h false k = create_run_record-Safe scope run_id _ _
  upsert_row-Safe patch created_at h true k = elim (Bool-cases (is_given patch)) [
    | inl given ↦ rw given (
        subst (λ r. Safe scope run_id Sound Anything (update_run_record r (merge_patch patch)))
          (sym (own_record h k)) (update_run_record-Safe patch))
    | inr nothing ↦ rw nothing (Triple-pure tt tt)
  ]
    where
      own_record :
          (h : Handle) → IsOf scope run_id h → run_record h.scope h.run_id ≡ run_record scope run_id
      own_record h k = cc (k.of_scope, k.of_run)

  pub upsert_run-Safe :
      (patch : RunPatch) (created_at : String)
      → Safe scope run_id Sound Anything (upsert_run patch created_at)
  unfolding upsert_run
  upsert_run-Safe patch created_at = Triple-bind _ _ (ensure_open-Safe scope run_id Sound) λ _ _.
      Triple-bind _ _ (Triple-gets {R = IsOf scope run_id} _ (λ h k. k)) λ h k.
        Triple-bind _ _ (read_run_row-Safe scope run_id Sound)
          λ row _. upsert_row-Safe patch created_at h (is_some row) k
