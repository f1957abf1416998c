-- ===== src/EventStore/Append.antt =====
-- event_store.py: `append` keeps a run sound, whatever fails and whoever else writes.
use activegraph_surrealdb.Prelude.{
  ℕ, String, ◌+◌, ◌≡◌, refl, sym, subst, ◌∙◌, Option, none, some, [], ◌∷◌, Bool, true, false,
  is_some, All,
}
use activegraph_surrealdb.Errors.{ErrorClass, Error, ok}
use activegraph_surrealdb.Exec.{World}
use activegraph_surrealdb.Exec.Triples.{
  Guarded, Triple-pure, Triple-fail, Triple-lift, Triple-raise_if, Triple-bind, Triple-try_else,
  Triple-gets, Triple-modify,
}
use activegraph_surrealdb.Platform.{Platform, JsonLaws}
use activegraph_surrealdb.Serde.{Event, EventRecord, event_to_record, event_hash}
use activegraph_surrealdb.Serde.RoundTrip.{record_to_event-event_to_record, event_hash-adapt}
use activegraph_surrealdb.Keys.{RecordId}
use activegraph_surrealdb.EventStore.Rows.{
  RunRow, EventRow, LedgerServer, LedgerLaws, Db, Transaction, with_write, create_event, merge_head,
  apply_writes, with_head, Unchanged, Write, Write,
}
use activegraph_surrealdb.EventStore.Chain.{run_record}
use activegraph_surrealdb.EventStore.Session.{Handle}
use activegraph_surrealdb.EventStore.Writes.{
  append, append_body, abandon, raise_again, expect, passes_append,
}
use activegraph_surrealdb.EventStore.Integrity.{IsLink}
use activegraph_surrealdb.EventStore.Ledger.{IsLedger, IsLedger-extend}
use activegraph_surrealdb.EventStore.Guards.{
  IsOf, Anything, Safe, begin_transaction-Safe, ensure_open-Safe, tx_select_event-Safe,
  tx_create_event-Safe, tx_write-Safe, commit-Safe, cancel_safely-Safe, transaction_run_row-Safe,
  assert_expected_head-Safe, raise_if_concurrent-Safe,
}

module _ ⦃p : Platform⦄ where
  -- The row that `append` writes for an event whose encoding and hash are at hand.
  abbrev pub appended_row : String → String → ℕ → Option String → EventRecord → String → EventRow
  appended_row scope run_id seq previous encoded hash = record {
    scope = scope;
    run_id = run_id;
    content = encoded;
    seq = seq;
    previous_hash = previous;
    hash = hash;
  }

  -- The written row is a link of the chain, since its decoded event has the hash of the event.
  pub appended_row-IsLink :
      (laws : JsonLaws p) (scope run_id : String) (seq : ℕ) (previous : Option String)
      (event : Event p.Value) (encoded : EventRecord) (hash : String)
      → event_to_record event ≡ ok encoded
      → event_hash scope run_id seq event previous ≡ ok hash
      → IsLink scope run_id seq previous (appended_row scope run_id seq previous encoded hash)
  appended_row-IsLink laws scope run_id seq previous event encoded hash e g =
      let (a, adapted, decoded, _) = record_to_event-event_to_record laws event encoded e in
      (
        refl,
        refl,
        refl,
        refl,
        (
          record event { payload = a },
          decoded,
          event_hash-adapt laws scope run_id seq event previous a adapted ∙ g,
        ),
      )

module _ ⦃p : Platform⦄ ⦃s : LedgerServer⦄ (json : JsonLaws p) (laws : LedgerLaws s)
    (scope run_id : String) where
  -- the run is sound: its rows are the chain that its row describes
  abbrev pub IsSound : Db s → Type 0
  IsSound d = (run : RunRow) × IsLedger scope run_id d run

  -- In a state that accepts the transaction the head is still the one that was read.
  append-writes-IsSound :
      (tx : Transaction s) (base d : Db s) (head : RunRow) (k : RecordId) (row : EventRow)
      → tx ≡ record {
        base = base;
        writes =
            create_event k row
            ∷ merge_head (run_record scope run_id) (head.next_seq + 1) (some row.hash)
            ∷ [];
      }
      → s.runs.select base.runs (run_record scope run_id) ≡ some head
      → s.events.select base.events k ≡ none
      → IsLink scope run_id head.next_seq head.head_hash row
      → s.conflict tx d ≡ none
      → IsSound d
      → IsSound (apply_writes d tx.writes)
  append-writes-IsSound tx base d head k row e found absent link accepted (run, ledger) =
      let same =
        subst (λ t. All (Unchanged t.base d) t.writes) e (laws.no_lost_update tx d accepted) in
      let same_run : head ≡ run = cc (same.1.0, found, ledger.found) in
      let absent_now : s.events.select d.events k ≡ none = sym same.0 ∙ absent in
      subst (λ (t : Transaction s). IsSound (apply_writes d t.writes)) (sym e)
        (
          with_head (head.next_seq + 1) (some row.hash) head,
          IsLedger-extend laws scope run_id d head k row
              (subst (λ r. IsLedger scope run_id d r) (sym same_run) ledger) absent_now link,
        )

  raise_again-Safe :
      {A : Type 0} (again : Bool) (e : Error)
      → Safe scope run_id IsSound (Anything {A = A}) (raise_again again e)
  raise_again-Safe true e = Triple-fail e
  raise_again-Safe false e =
      Triple-bind _ _ (raise_if_concurrent-Safe scope run_id IsSound e) (λ _ _. Triple-fail e)

  moved-IsLink :
      (h : Handle)
      → IsOf scope run_id h
      → {seq : ℕ} {previous : Option String} (row : EventRow)
      → IsLink h.scope h.run_id seq previous row
      → IsLink scope run_id seq previous row
  moved-IsLink h k {seq} {previous} row link =
      subst (λ r. IsLink scope r seq previous row) k.of_run
        (subst (λ r. IsLink r h.run_id seq previous row) k.of_scope link)

  missing :
      {o : Option EventRow} (existing : Option EventRow)
      → o ≡ existing
      → is_some existing ≡ false
      → o ≡ none
  missing none e f = e
  missing (some row) e f = absurd (cc)

  built :
      {create : Write} {next_seq : ℕ} {hash : Option String} (base : Db s)
      (created merged : Transaction s) (h : Handle)
      → IsOf scope run_id h
      → with_write {rs = s.runs} {es = s.events} (record { base = base; writes = [] }) create
        ≡ created
      → with_write created (merge_head (run_record h.scope h.run_id) next_seq hash) ≡ merged
      → merged ≡ record {
        base = base;
        writes = create ∷ merge_head (run_record scope run_id) next_seq hash ∷ [];
      }
  built {create} {next_seq} {hash} base created merged h k c m =
      let same : run_record h.scope h.run_id ≡ run_record scope run_id =
        cc (k.of_scope, k.of_run) in
      subst
        (λ r. merged ≡ record { base = base; writes = create ∷ merge_head r next_seq hash ∷ [] })
        same
        (sym (
          subst
            (λ t. with_write t (merge_head (run_record h.scope h.run_id) next_seq hash) ≡ merged)
            (sym c) m))

  append_body-Safe :
      (event : Event p.Value) (encoded : EventRecord) (base : Db s)
      → event_to_record event ≡ ok encoded
      → Safe scope run_id IsSound Anything
          (append_body event encoded (record { base = base; writes = [] }))
  unfolding append_body
  append_body-Safe event encoded base e =
      Triple-bind _ _ (Triple-gets {R = IsOf scope run_id} _ (λ h k. k)) λ h k.
        Triple-bind _ _ (transaction_run_row-Safe scope run_id IsSound _) λ head f.
          Triple-bind _ _ (assert_expected_head-Safe scope run_id IsSound head) λ _ _.
            Triple-bind _ _ (tx_select_event-Safe scope run_id IsSound _ _) λ existing x.
              Triple-bind _ _ (Triple-raise_if (is_some existing) _ _) λ _ fresh.
                Triple-bind _ _ (Triple-lift _ (λ hash g. g)) λ hash g.
                  Triple-bind _ _ (tx_create_event-Safe scope run_id IsSound _ _ _) λ created c.
                    Triple-bind _ _ (tx_write-Safe scope run_id IsSound created _) λ merged m.
                      Triple-bind _ _
                        (commit-Safe scope run_id IsSound merged λ d.
                          append-writes-IsSound merged base d head _ _
                            (built base created merged h k c m) f.0 (missing existing x fresh)
                            (moved-IsLink h k _ (
                              appended_row-IsLink json h.scope h.run_id _ _ event encoded hash e
                                g)))
                        λ _ _. Triple-pure _ tt

  pub abandon-Safe :
      {A : Type 0} (passes : ErrorClass → Bool) (e : Error)
      → Safe scope run_id IsSound (Anything {A = A}) (abandon passes e)
  abandon-Safe passes e =
      Triple-bind _ _ (cancel_safely-Safe scope run_id IsSound)
        λ _ _. raise_again-Safe (passes e.kind) e

  pub expect-Safe : (head : ℕ × Option String) → Safe scope run_id IsSound Anything (expect head)
  expect-Safe (next_seq, head_hash) =
      Triple-modify _ (λ h k. record { of_scope = k.of_scope; of_run = k.of_run })

  pub append-Safe : (event : Event p.Value) → Safe scope run_id IsSound Anything (append event)
  unfolding append
  append-Safe event =
      Triple-bind _ _ (Triple-lift (event_to_record event) (λ encoded e. e)) λ encoded e.
        Triple-bind _ _ (ensure_open-Safe scope run_id IsSound) λ _ _.
          Triple-bind _ _ (begin_transaction-Safe scope run_id IsSound) λ transaction (base, q, b).
            Triple-try_else _ _ _
              (subst (λ t. Safe scope run_id IsSound Anything (append_body event encoded t)) (sym b)
                (append_body-Safe event encoded base e))
              (λ exc. abandon-Safe passes_append exc) (λ head _. expect-Safe head)

  -- Whatever calls fail or lose their answer, and whatever other sessions commit in between that
  -- keeps the run sound, the run is sound after `append`, whether it returns or raises.
  pub append-IsSound :
      (event : Event p.Value) (w : World Handle (Db s))
      → Guarded (IsOf scope run_id) IsSound w
      → IsSound (append event w).1.db
  append-IsSound event w h = ((append-Safe event).at w h).0.holds
