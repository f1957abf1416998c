-- ===== src/Samples/Ledger.antt =====
-- A server in memory for the event store. It refuses a commit unless each record that the
-- transaction writes is as it was.
use activegraph_surrealdb.Prelude.{
  String, ◌≡◌, refl, Bool, true, false, ◌&&◌, ◌==◌, nat_eq, text_eq, option_eq, Option, none, some,
  List, [], ◌∷◌, All, arith, beq-eq, ap, if◌then◌else◌,
}
use activegraph_surrealdb.Surreal.{Collection}
use activegraph_surrealdb.Surreal.Memory.{memory, memory-CollectionLaws}
use activegraph_surrealdb.EventStore.Rows.{
  RunRow, EventRow, Write, create_run, merge_head, create_event, delete_events, LedgerServer,
  LedgerLaws, Tx, LedgerDb, Unchanged,
}

same_run : RunRow → RunRow → Bool
same_run a b =
    a.scope == b.scope
    && a.run_id == b.run_id
    && a.parent_run_id == b.parent_run_id
    && a.forked_at_event_id == b.forked_at_event_id
    && a.label == b.label
    && a.created_at == b.created_at
    && a.goal == b.goal
    && a.frame_id == b.frame_id
    && a.next_seq == b.next_seq
    && a.head_hash == b.head_hash

both : (a b : Bool) → (a && b) ≡ true → (a ≡ true) × (b ≡ true)
both a b h = ground arith

same_run-eq : (a b : RunRow) → same_run a b ≡ true → a ≡ b
unfolding same_run
same_run-eq a b h =
    let (h9, head) = both _ _ h in
    let (h8, next) = both _ _ h9 in
    let (h7, frame) = both _ _ h8 in
    let (h6, goal) = both _ _ h7 in
    let (h5, created) = both _ _ h6 in
    let (h4, label) = both _ _ h5 in
    let (h3, forked) = both _ _ h4 in
    let (h2, parent) = both _ _ h3 in
    let (scope, run) = both _ _ h2 in
    λ i. record {
      scope = beq-eq a.scope b.scope scope i;
      run_id = beq-eq a.run_id b.run_id run i;
      parent_run_id = beq-eq a.parent_run_id b.parent_run_id parent i;
      forked_at_event_id = beq-eq a.forked_at_event_id b.forked_at_event_id forked i;
      label = beq-eq a.label b.label label i;
      created_at = beq-eq a.created_at b.created_at created i;
      goal = beq-eq a.goal b.goal goal i;
      frame_id = beq-eq a.frame_id b.frame_id frame i;
      next_seq = beq-eq a.next_seq b.next_seq next i;
      head_hash = beq-eq a.head_hash b.head_hash head i;
    }

same_optional_run : Option RunRow → Option RunRow → Bool
unfolding same_run
same_optional_run none none = true
same_optional_run (some a) (some b) = same_run a b
same_optional_run _ _ = false

same_optional_run-eq : (a b : Option RunRow) → same_optional_run a b ≡ true → a ≡ b
unfolding same_optional_run
same_optional_run-eq none none h = refl
same_optional_run-eq none (some b) h = absurd (cc)
same_optional_run-eq (some a) none h = absurd (cc)
same_optional_run-eq (some a) (some b) h = ap some (same_run-eq a b h)

abbrev pub run_table : Collection RunRow
run_table = memory RunRow

abbrev pub event_table : Collection EventRow
event_table = memory EventRow

both_missing : Option EventRow → Option EventRow → Bool
both_missing none none = true
both_missing _ _ = false

both_missing-eq : (a b : Option EventRow) → both_missing a b ≡ true → a ≡ b
unfolding both_missing
both_missing-eq none none h = refl
both_missing-eq none (some b) h = absurd (cc)
both_missing-eq (some a) none h = absurd (cc)
both_missing-eq (some a) (some b) h = absurd (cc)

-- Is the record that a statement writes as it was? A created event is absent in both states.
unchanged : LedgerDb run_table event_table → LedgerDb run_table event_table → Write → Bool
unfolding same_optional_run both_missing
unchanged d e (create_run k r) =
    same_optional_run (run_table.select d.runs k) (run_table.select e.runs k)
unchanged d e (merge_head k n h) =
    same_optional_run (run_table.select d.runs k) (run_table.select e.runs k)
unchanged d e (create_event k r) =
    both_missing (event_table.select d.events k) (event_table.select e.events k)
unchanged d e (delete_events scope run_id cutoff) = true

unchanged-Unchanged :
    (d e : LedgerDb run_table event_table) (w : Write)
    → unchanged d e w ≡ true
    → Unchanged {rs = run_table} {es = event_table} d e w
unfolding unchanged
unchanged-Unchanged d e (create_run k r) h = same_optional_run-eq _ _ h
unchanged-Unchanged d e (merge_head k n x) h = same_optional_run-eq _ _ h
unchanged-Unchanged d e (create_event k r) h = both_missing-eq _ _ h
unchanged-Unchanged d e (delete_events scope run_id cutoff) h = tt

all_unchanged : LedgerDb run_table event_table → LedgerDb run_table event_table → List Write → Bool
unfolding unchanged
all_unchanged d e [] = true
all_unchanged d e (w ∷ ws) = unchanged d e w && all_unchanged d e ws

all_unchanged-All :
    (d e : LedgerDb run_table event_table) (ws : List Write)
    → all_unchanged d e ws ≡ true
    → All (Unchanged {rs = run_table} {es = event_table} d e) ws
unfolding all_unchanged
all_unchanged-All d e [] h = tt
all_unchanged-All d e (w ∷ ws) h =
    let (p, q) = both _ _ h in (unchanged-Unchanged d e w p, all_unchanged-All d e ws q)

unfoldable pub collision : Tx run_table event_table → LedgerDb run_table event_table → Option String
unfolding all_unchanged
collision tx d =
    if all_unchanged tx.base d tx.writes then none else some "Transaction conflict: resource busy"

abbrev pub server : LedgerServer
server = record { runs = run_table; events = event_table; conflict = collision }

collision-none :
    (b : Bool)
    → if◌then◌else◌ {A = Option String} b none (some "Transaction conflict: resource busy") ≡ none
    → b ≡ true
collision-none true h = refl
collision-none false h = absurd (cc)

pub server-LedgerLaws : LedgerLaws server
unfolding collision
server-LedgerLaws = record {
  runs = memory-CollectionLaws RunRow;
  events = memory-CollectionLaws EventRow;
  no_lost_update = λ tx d h. all_unchanged-All tx.base d tx.writes (collision-none _ h);
}
