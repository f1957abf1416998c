-- ===== src/EventStore/Reads.antt =====
-- event_store.py: the methods that only read, `close`, and the run's metadata.
use activegraph_surrealdb.Prelude.{
  ℕ, String, Option, none, some, List, [], ◌∷◌, Bool, true, false, length, is_some, if◌then◌else◌,
}
use activegraph_surrealdb.Exec.{pure, lift, gets, modify, ◌>>=◌, ◌>>◌}
use activegraph_surrealdb.Platform.{Platform}
use activegraph_surrealdb.Serde.{Event}
use activegraph_surrealdb.EventStore.Rows.{RunRow, LedgerServer}
use activegraph_surrealdb.EventStore.Chain.{
  run_record, event_record, events_within, optional_boundary, event_of,
}
use activegraph_surrealdb.EventStore.Session.{
  Handle, Method, select_event, select_events, ensure_open, read_run_row, verified_rows_and_run,
  create_run_record, update_run_record,
}

pub record IntegrityReport : Type 0 where
  pub event_count : ℕ
  pub next_seq : ℕ
  pub head_hash : Option String

-- activegraph.store.base.RunRecord
pub record RunRecord : Type 0 where
  pub run_id : String
  pub parent_run_id : Option String
  pub forked_at_event_id : Option String
  pub label : Option String
  pub created_at : String
  pub goal : Option String
  pub frame_id : Option String

abbrev pub run_of_row : RunRow → RunRecord
run_of_row row = record {
  run_id = row.run_id;
  parent_run_id = row.parent_run_id;
  forked_at_event_id = row.forked_at_event_id;
  label = row.label;
  created_at = row.created_at;
  goal = row.goal;
  frame_id = row.frame_id;
}

-- the keyword arguments of `upsert_run`, `created_at` apart
pub record RunPatch : Type 0 where
  pub parent_run_id : Option String
  pub forked_at_event_id : Option String
  pub label : Option String
  pub goal : Option String
  pub frame_id : Option String

-- A `None` is left out of the patch, and so leaves the stored value.
abbrev pub given_or : Option String → Option String → Option String
given_or (some new) stored = some new
given_or none stored = stored

unfoldable pub merge_patch : RunPatch → RunRow → RunRow
merge_patch patch row = record row {
  parent_run_id = given_or patch.parent_run_id row.parent_run_id;
  forked_at_event_id = given_or patch.forked_at_event_id row.forked_at_event_id;
  label = given_or patch.label row.label;
  goal = given_or patch.goal row.goal;
  frame_id = given_or patch.frame_id row.frame_id;
}

-- `if patch:`, the dictionary of the values that are given
abbrev pub any_given : List (Option String) → Bool
any_given [] = false
any_given (some v ∷ vs) = true
any_given (none ∷ vs) = any_given vs

unfoldable pub is_given : RunPatch → Bool
is_given patch = any_given (
    patch.parent_run_id ∷ patch.forked_at_event_id ∷ patch.label ∷ patch.goal ∷ patch.frame_id ∷ [])

-- the row that a run begins with
unfoldable pub new_run_row : String → String → RunPatch → String → RunRow
new_run_row scope run_id patch created_at = record {
  scope = scope;
  run_id = run_id;
  parent_run_id = patch.parent_run_id;
  forked_at_event_id = patch.forked_at_event_id;
  label = patch.label;
  created_at = created_at;
  goal = patch.goal;
  frame_id = patch.frame_id;
  next_seq = 0;
  head_hash = none;
}

module _ ⦃p : Platform⦄ ⦃s : LedgerServer⦄ where
  -- `list(store.iter_events(after, until))`
  unfoldable pub iter_events : Option String → Option String → Method (List (Event p.Value))
  iter_events after until = do
    h ← gets (λ h. h)
    (rows, _) ← verified_rows_and_run
    after_seq ← lift (optional_boundary h.run_id rows after)
    until_seq ← lift (optional_boundary h.run_id rows until)
    lift (events_within after_seq until_seq rows)

  unfoldable pub get_event : String → Method (Option (Event p.Value))
  get_event event_id = do
    ensure_open
    h ← gets (λ h. h)
    row ← select_event (event_record h.scope h.run_id event_id)
    lift (event_of h.scope h.run_id row)

  unfoldable pub count : Method ℕ
  count = do
    ensure_open
    h ← gets (λ h. h)
    rows ← select_events h.scope h.run_id
    pure (length rows)

  unfoldable pub verify_integrity : Method IntegrityReport
  verify_integrity = do
    (rows, run) ← verified_rows_and_run
    pure (record { event_count = length rows; next_seq = run.next_seq; head_hash = run.head_hash })

  abbrev pub optional_run : Option RunRow → Option RunRecord
  optional_run none = none
  optional_run (some row) = some (run_of_row row)

  unfoldable pub get_run : Method (Option RunRecord)
  get_run = do ensure_open; row ← read_run_row; pure (optional_run row)

  abbrev pub upsert_row : RunPatch → String → Handle → Bool → Method (Unit {0})
  upsert_row patch created_at h false =
      create_run_record (run_record h.scope h.run_id)
        (new_run_row h.scope h.run_id patch created_at)
  upsert_row patch created_at h true =
      if is_given patch
      then update_run_record (run_record h.scope h.run_id) (merge_patch patch)
      else pure tt

  unfoldable pub upsert_run : RunPatch → String → Method (Unit {0})
  upsert_run patch created_at = do
    ensure_open
    h ← gets (λ h. h)
    row ← read_run_row
    upsert_row patch created_at h (is_some row)

  -- `close` but for its last line, the connection's own `close`, which changes nothing that is stored:
  -- `close_event_store` of EventStore/Opening has it.
  unfoldable pub close : Method (Unit {0})
  close = modify (λ h. record h { closed = true })
