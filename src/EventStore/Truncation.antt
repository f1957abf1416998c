-- ===== src/EventStore/Truncation.antt =====
-- event_store.py: what `truncate_after` keeps, when every call is answered and no other session is
-- at work.
use activegraph_surrealdb.Prelude.{
  ℕ, suc, String, ◌≡◌, ap, ◌+◌, ◌<◌, Option, none, some, List, [], ◌∷◌, Bool, false, not, nat_eq,
  text_eq, option_eq, length, arith, eq_iff, option_beq_iff, inl, inr, sym, ◌∙◌, refl, take,
  keep_if, Elem, subst,
}
use activegraph_surrealdb.Errors.{ok}
use activegraph_surrealdb.Platform.{Platform}
use activegraph_surrealdb.Surreal.{IsOrder}
use activegraph_surrealdb.EventStore.Rows.{
  RunRow, EventRow, LedgerServer, LedgerLaws, Db, Write, delete_events, merge_head, apply_writes,
  with_head, in_run, in_run_after, by_seq,
}
use activegraph_surrealdb.EventStore.Chain.{run_record, event_record, assert_row_scope}
use activegraph_surrealdb.EventStore.Session.{Handle, head_differs, session_steps}
use activegraph_surrealdb.EventStore.Writes.{truncate_after, truncate_body}
use activegraph_surrealdb.EventStore.Integrity.{IsChain, IsChain-take, hash_after}
use activegraph_surrealdb.EventStore.Ledger.{rows_of, IsLedger, in_run_self, select-update_run}
use activegraph_surrealdb.EventStore.Verify.{quiet, scoped_self}

by_seq-IsOrder : IsOrder by_seq
by_seq-IsOrder = record { asym = λ a b h. ground arith; trans_weak = λ a b c h k. ground arith }

module _ ⦃p : Platform⦄ (scope run_id : String) where
  abbrev kept : ℕ → EventRow → Bool
  kept cutoff row = not (in_run_after scope run_id cutoff row)

  -- A chain that starts behind the cutoff is dropped whole.
  keep_if-behind :
      (cutoff seq : ℕ) (previous last : Option String) (rows : List EventRow)
      → cutoff < seq
      → IsChain scope run_id seq previous rows last
      → keep_if (kept cutoff) rows ≡ []
  keep_if-behind cutoff seq previous last [] h c = refl
  keep_if-behind cutoff seq previous last (row ∷ rows) h c = ground (
    arith,
    in_run_self scope run_id row c.0.0 c.0.1,
    keep_if-behind cutoff (seq + 1) (some row.hash) last rows (omega arith) c.1,
  )

  -- Of a chain, the rows up to the cutoff row are its prefix that ends in that row.
  pub record Cut (seq : ℕ) (previous : Option String) (rows : List EventRow) (cutoff : EventRow)
      : Type 0 where
    pub size : ℕ
    pub counted : cutoff.seq + 1 ≡ seq + size
    pub prefix : keep_if (kept cutoff.seq) rows ≡ take size rows
    pub full : length (take size rows) ≡ size
    pub ends : hash_after previous (take size rows) ≡ some cutoff.hash

  chain-Cut :
      (seq : ℕ) (previous last : Option String) (rows : List EventRow) (cutoff : EventRow)
      → IsChain scope run_id seq previous rows last
      → Elem cutoff rows
      → Cut seq previous rows cutoff
  chain-Cut seq previous last [] cutoff c h = absurd h
  chain-Cut seq previous last (row ∷ rows) cutoff c (inl e) = record {
    size = 1;
    counted = omega (arith, c.0.2, ap (λ (r : EventRow). r.seq) e);
    prefix = ground (
      arith,
      in_run_self scope run_id row c.0.0 c.0.1,
      ap (λ (r : EventRow). r.seq) e,
      keep_if-behind cutoff.seq (seq + 1) (some row.hash) last rows
          (omega (arith, c.0.2, ap (λ (r : EventRow). r.seq) e)) c.1,
    );
    full = refl;
    ends = ap (λ (r : EventRow). some r.hash) (sym e);
  }
  chain-Cut seq previous last (row ∷ rows) cutoff c (inr later) =
      let cut = chain-Cut (seq + 1) (some row.hash) last rows cutoff c.1 later in
      record {
        size = suc cut.size;
        counted = omega (arith, cut.counted);
        prefix =
            ground
              (arith, in_run_self scope run_id row c.0.0 c.0.1, c.0.2, cut.counted, cut.prefix);
        full = ap suc cut.full;
        ends = cut.ends;
      }

module _ ⦃p : Platform⦄ ⦃s : LedgerServer⦄ (h : Handle) (d : Db s) (run : RunRow)
    (event_id : String) (cutoff : EventRow) where
  -- the writes of `truncate_after`
  abbrev pub truncating : List Write
  truncating =
      delete_events h.scope h.run_id cutoff.seq
      ∷ merge_head (run_record h.scope h.run_id) (cutoff.seq + 1) (some cutoff.hash)
      ∷ []

  truncate_after-accepted :
      s.conflict (record { base = d; writes = truncating }) d ≡ none
      → h.closed ≡ false
      → IsLedger h.scope h.run_id d run
      → head_differs h run ≡ false
      → s.events.select d.events (event_record h.scope h.run_id event_id) ≡ some cutoff
      → cutoff.scope ≡ h.scope
      → cutoff.run_id ≡ h.run_id
      → truncate_after event_id (quiet h d) ≡ (
        ok tt,
        quiet
            (record h { expected_next_seq = cutoff.seq + 1; expected_head_hash = some cutoff.hash })
            (apply_writes d truncating),
      )
  unfolding session_steps truncate_after truncate_body assert_row_scope
  truncate_after-accepted accepts open_handle ledger fresh present in_scope of_run = ground (
    arith,
    present,
    ledger.found,
    scoped_self h run ledger.in_scope ledger.of_run,
    eq_iff cutoff.scope h.scope,
    eq_iff cutoff.run_id h.run_id,
    accepts,
  )

  -- On an open handle that expects the sound run's head, with a server that accepts the commit, `truncate_after` of an event whose record holds a row of this
  -- run returns. The run's rows are then the prefix of the old ones that ends in the event's row;
  -- the run is sound with that row's number plus one and that row's hash as its head, and the handle
  -- expects this head.
  pub truncate_after_prefix :
      (laws : LedgerLaws s)
      → s.conflict (record { base = d; writes = truncating }) d ≡ none
      → h.closed ≡ false
      → IsLedger h.scope h.run_id d run
      → head_differs h run ≡ false
      → s.events.select d.events (event_record h.scope h.run_id event_id) ≡ some cutoff
      → cutoff.scope ≡ h.scope
      → cutoff.run_id ≡ h.run_id
      → let after = truncate_after event_id (quiet h d) in
        (after.0 ≡ ok tt)
        × (rows_of h.scope h.run_id after.1.db ≡ take (cutoff.seq + 1) (rows_of h.scope h.run_id d))
        × IsLedger h.scope h.run_id after.1.db (with_head (cutoff.seq + 1) (some cutoff.hash) run)
        × (head_differs after.1.handle (with_head (cutoff.seq + 1) (some cutoff.hash) run) ≡ false)
  truncate_after_prefix laws accepts open_handle ledger fresh present in_scope of_run =
      let rows = rows_of h.scope h.run_id d in
      let stored : Elem cutoff rows =
        laws.events.Elem-select_where (in_run h.scope h.run_id) by_seq d.events _ cutoff present
          (in_run_self h.scope h.run_id cutoff in_scope of_run) in
      let cut = chain-Cut h.scope h.run_id 0 none run.head_hash rows cutoff ledger.chain stored in
      let size : cut.size ≡ cutoff.seq + 1 = omega (arith, cut.counted) in
      let left : rows_of h.scope h.run_id (apply_writes d truncating) ≡ take (cutoff.seq + 1) rows =
        laws.events.select_where-delete_where (in_run h.scope h.run_id) by_seq
          (in_run_after h.scope h.run_id cutoff.seq) d.events by_seq-IsOrder
        ∙ cut.prefix
        ∙ ap (λ n. take n rows) size in
      let ends : hash_after none (take (cutoff.seq + 1) rows) ≡ some cutoff.hash =
        subst (λ n. hash_after none (take n rows) ≡ some cutoff.hash) size cut.ends in
      rw (truncate_after-accepted accepts open_handle ledger fresh present in_scope of_run) (
        refl,
        left,
        record {
          found =
              select-update_run laws (run_record h.scope h.run_id)
                (with_head (cutoff.seq + 1) (some cutoff.hash)) d.runs run ledger.found;
          in_scope = ledger.in_scope;
          of_run = ledger.of_run;
          chain = rw left (
              subst (IsChain h.scope h.run_id 0 none (take (cutoff.seq + 1) rows)) ends (
                IsChain-take h.scope h.run_id 0 none run.head_hash (cutoff.seq + 1) rows
                  ledger.chain));
          counted = rw left (sym (subst (λ n. length (take n rows) ≡ n) size cut.full));
        },
        ground (arith, option_beq_iff (some cutoff.hash) (some cutoff.hash)),
      )
