-- ===== src/EventStore/Chain.antt =====
-- event_store.py: the pure loops of the methods. `verify_rows` is the loop of
-- `_verified_rows_and_run`, `child_rows` that of `fork_prefix`.
use Prim.Native.String.{◌++◌ as text_append}
use activegraph_surrealdb.Prelude.{
  ℕ, String, ◌+◌, Option, none, some, List, [], ◌∷◌, Bool, not, ◌==◌, ◌||◌, nat_eq, text_eq,
  option_eq, ltb, leb, if◌then◌else◌,
}
use activegraph_surrealdb.Errors.{
  Result, ok, raised, raise_if, ◌>>=◌, ◌>>◌, ledger_integrity, event_not_found,
}
use activegraph_surrealdb.Platform.{Platform}
use activegraph_surrealdb.Serde.{Event, event_to_record, record_to_event, event_hash}
use activegraph_surrealdb.Keys.{RecordId, record_id}
use activegraph_surrealdb.EventStore.Rows.{EventRow}

-- the pieces of a formatted string
abbrev pub format : List String → String
format [] = ""
format (s ∷ ss) = text_append s (format ss)

-- `any(word in text for word in _CONFLICT_WORDS)`
abbrev pub conflict_words : List String
conflict_words = "conflict" ∷ "concurrent" ∷ "transaction" ∷ "unique" ∷ "already exists" ∷ []

abbrev pub any_text : (String → Bool) → List String → Bool
any_text test [] = Bool.false
any_text test (word ∷ words) = test word || any_text test words

-- The position of an event ID: a dictionary comprehension, in which a later row would win.
unfoldable pub boundary : String → List EventRow → Option ℕ
boundary id [] = none
boundary id (row ∷ rows) = elim (boundary id rows) [
  | some seq ↦ some seq
  | none ↦ if row.content.event_id == id then some row.seq else none
]

-- `next((index for index, row in enumerate(rows) if …), None)`, counted from `index`
unfoldable pub index_of : String → ℕ → List EventRow → Option ℕ
index_of id index [] = none
index_of id index (row ∷ rows) =
    let rest = index_of id (index + 1) rows in
    if row.content.event_id == id then some index else rest

-- `after_seq is not None and seq <= after_seq`, `until_seq is not None and seq > until_seq`
abbrev pub at_or_before : Option ℕ → ℕ → Bool
at_or_before none seq = Bool.false
at_or_before (some after_seq) seq = leb seq after_seq

abbrev pub beyond : Option ℕ → ℕ → Bool
beyond none seq = Bool.false
beyond (some until_seq) seq = ltb until_seq seq

module _ ⦃p : Platform⦄ where
  unfoldable pub run_record : String → String → RecordId
  run_record scope run_id = record_id "ag_run" (scope ∷ run_id ∷ [])

  unfoldable pub event_record : String → String → String → RecordId
  event_record scope run_id event_id = record_id "ag_event" (scope ∷ run_id ∷ event_id ∷ [])

  unfoldable pub assert_row_scope : String → String → EventRow → Result (Unit {0})
  assert_row_scope scope run_id row =
      raise_if (not (row.scope == scope) || not (row.run_id == run_id)) ledger_integrity
        "an event row crossed its scope/run boundary"

  unfoldable pub boundary_seq : String → String → List EventRow → Result ℕ
  unfolding boundary
  boundary_seq run_id event_id rows = elim (boundary event_id rows) [
    | some seq ↦ ok seq
    | none ↦
        raised event_not_found
          (format ("event " ∷ p.repr event_id ∷ " not found in run " ∷ p.repr run_id ∷ []))
  ]

  -- one round of the verification loop: the hash that the next row must name
  unfoldable pub verify_row : String → String → ℕ → Option String → EventRow → Result String
  unfolding assert_row_scope
  verify_row scope run_id expected_seq previous_hash row = do
    assert_row_scope scope run_id row
    raise_if (not (row.seq == expected_seq)) ledger_integrity (
        format (
          "run "
          ∷ p.repr run_id
          ∷ " has sequence "
          ∷ p.shown row.seq
          ∷ "; expected "
          ∷ p.shown expected_seq
          ∷ []))
    raise_if (not (row.previous_hash == previous_hash)) ledger_integrity
        (format ("event " ∷ p.repr row.content.event_id ∷ " has an invalid previous hash" ∷ []))
    event ← record_to_event row.content
    calculated ← event_hash scope run_id row.seq event row.previous_hash
    raise_if (not (calculated == row.hash)) ledger_integrity
        (format ("event " ∷ p.repr event.id ∷ " failed hash-chain verification" ∷ []))
    ok calculated

  unfoldable pub verify_rows :
      String → String → ℕ → Option String → List EventRow → Result (Option String)
  unfolding verify_row
  verify_rows scope run_id expected_seq previous_hash [] = ok previous_hash
  verify_rows scope run_id expected_seq previous_hash (row ∷ rows) = do
    calculated ← verify_row scope run_id expected_seq previous_hash row
    verify_rows scope run_id (expected_seq + 1) (some calculated) rows

  unfoldable pub events_of : List EventRow → Result (List (Event p.Value))
  events_of [] = ok []
  events_of (row ∷ rows) = do
    event ← record_to_event row.content
    rest ← events_of rows
    ok (event ∷ rest)

  -- the generator's loop: rows out of the window are skipped before they are decoded
  unfoldable pub events_within : Option ℕ → Option ℕ → List EventRow → Result (List (Event p.Value))
  events_within after until [] = ok []
  events_within after until (row ∷ rows) =
      let rest = events_within after until rows in
      if at_or_before after row.seq
      then rest
      else if beyond until row.seq
      then rest
      else (do event ← record_to_event row.content; later ← rest; ok (event ∷ later))

  -- the child rows of a fork, each with its record, and the last hash
  unfoldable pub child_rows :
      String
      → String
      → ℕ
      → Option String
      → List (Event p.Value)
      → Result (List (RecordId × EventRow) × Option String)
  unfolding event_record
  child_rows scope run_id seq previous_hash [] = ok ([], previous_hash)
  child_rows scope run_id seq previous_hash (event ∷ rest) = do
    current_hash ← event_hash scope run_id seq event previous_hash
    encoded ← event_to_record event
    (children, last) ← child_rows scope run_id (seq + 1) (some current_hash) rest
    ok (
      (
        event_record scope run_id event.id,
        record {
          scope = scope;
          run_id = run_id;
          content = encoded;
          seq = seq;
          previous_hash = previous_hash;
          hash = current_hash;
        },
      )
          ∷ children,
      last,
    )

  unfoldable pub optional_boundary : String → List EventRow → Option String → Result (Option ℕ)
  unfolding boundary_seq
  optional_boundary run_id rows none = ok none
  optional_boundary run_id rows (some event_id) = do
    seq ← boundary_seq run_id event_id rows
    ok (some seq)

  -- the end of `get_event`
  unfoldable pub event_of : String → String → Option EventRow → Result (Option (Event p.Value))
  unfolding assert_row_scope
  event_of scope run_id none = ok none
  event_of scope run_id (some row) = do
    assert_row_scope scope run_id row
    event ← record_to_event row.content
    ok (some event)
