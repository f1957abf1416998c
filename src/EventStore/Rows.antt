-- ===== src/EventStore/Rows.antt =====
-- event_store.py: the rows of the run and event tables, the transaction that a method builds up,
-- and the server that holds them.
use activegraph_surrealdb.Prelude.{
  ℕ, String, ◌≡◌, Option, none, some, List, [], ◌∷◌, ◌++◌, Bool, ◌&&◌, ◌==◌, nat_eq, text_eq, ltb,
  All,
}
use activegraph_surrealdb.Serde.{EventRecord}
use activegraph_surrealdb.Keys.{RecordId}
use activegraph_surrealdb.Surreal.{Collection, CollectionLaws}

pub record RunRow : Type 0 where
  pub scope : String
  pub run_id : String
  pub parent_run_id : Option String
  pub forked_at_event_id : Option String
  pub label : Option String
  pub created_at : String
  pub goal : Option String
  pub frame_id : Option String
  pub next_seq : ℕ
  pub head_hash : Option String

pub record EventRow : Type 0 where
  pub scope : String
  pub run_id : String
  pub content : EventRecord
  pub seq : ℕ
  pub previous_hash : Option String
  pub hash : String

pub record LedgerDb (rs : Collection RunRow) (es : Collection EventRow) : Type 0 where
  pub runs : rs.Table
  pub events : es.Table

-- The statements that the methods put into a transaction.
pub data Write : Type 0 where
  create_run : RecordId → RunRow → Write
  merge_head : RecordId → ℕ → Option String → Write
  create_event : RecordId → EventRow → Write
  -- DELETE ag_event WHERE scope = … AND run_id = … AND seq > …
  delete_events : String → String → ℕ → Write

-- WHERE scope = $scope AND run_id = $run_id
abbrev pub in_run : String → String → EventRow → Bool
in_run scope run_id row = row.scope == scope && row.run_id == run_id

-- … AND seq > $cutoff_seq
abbrev pub in_run_after : String → String → ℕ → EventRow → Bool
in_run_after scope run_id cutoff row = in_run scope run_id row && ltb cutoff row.seq

-- ORDER BY seq ASC
abbrev pub by_seq : EventRow → EventRow → Bool
by_seq a b = ltb a.seq b.seq

-- the transaction sees the database as it was at `base`, with its own writes
pub record Tx (rs : Collection RunRow) (es : Collection EventRow) : Type 0 where
  pub base : LedgerDb rs es
  pub writes : List Write

abbrev pub with_head : ℕ → Option String → RunRow → RunRow
with_head next_seq head_hash r = record r { next_seq = next_seq; head_hash = head_hash }

-- MERGE into a record that is not there changes nothing.
abbrev pub update_run :
    (rs : Collection RunRow) → RecordId → (RunRow → RunRow) → rs.Table → rs.Table
update_run rs k f t = elim (rs.select t k) [ none ↦ t | some r ↦ rs.write k (f r) t ]

module _ {rs : Collection RunRow} {es : Collection EventRow} where
  abbrev pub apply_write : LedgerDb rs es → Write → LedgerDb rs es
  apply_write d (create_run k r) = record d { runs = rs.write k r d.runs }
  apply_write d (merge_head k n h) = record d { runs = update_run rs k (with_head n h) d.runs }
  apply_write d (create_event k r) = record d { events = es.write k r d.events }
  apply_write d (delete_events scope run_id cutoff) = record d {
    events = es.delete_where (in_run_after scope run_id cutoff) d.events;
  }

  abbrev pub apply_writes : LedgerDb rs es → List Write → LedgerDb rs es
  apply_writes d [] = d
  apply_writes d (w ∷ ws) = apply_writes (apply_write d w) ws

  abbrev pub view : Tx rs es → LedgerDb rs es
  view tx = apply_writes tx.base tx.writes

  abbrev pub with_write : Tx rs es → Write → Tx rs es
  with_write tx w = record tx { writes = tx.writes ++ w ∷ [] }

  -- the record that a statement names is the same in both states
  abbrev pub Unchanged : LedgerDb rs es → LedgerDb rs es → Write → Type 0
  Unchanged d e (create_run k r) = rs.select d.runs k ≡ rs.select e.runs k
  Unchanged d e (merge_head k n h) = rs.select d.runs k ≡ rs.select e.runs k
  Unchanged d e (create_event k r) = es.select d.events k ≡ es.select e.events k
  Unchanged d e (delete_events scope run_id cutoff) = Unit

pub record LedgerServer : Type 1 where
  pub runs : Collection RunRow
  pub events : Collection EventRow
  -- why COMMIT of a transaction is refused in the current state
  pub conflict : Tx runs events → LedgerDb runs events → Option String

abbrev pub Db : LedgerServer → Type 0
Db s = LedgerDb s.runs s.events

abbrev pub Transaction : LedgerServer → Type 0
Transaction s = Tx s.runs s.events

-- What the code relies on: the laws of the tables, and that a commit is refused when a record that
-- the transaction writes has changed since it began.
pub record LedgerLaws (s : LedgerServer) : Type 0 where
  pub runs : CollectionLaws s.runs
  pub events : CollectionLaws s.events
  pub no_lost_update :
      (tx : Transaction s) (d : Db s) → s.conflict tx d ≡ none → All (Unchanged tx.base d) tx.writes
