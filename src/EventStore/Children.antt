-- ===== src/EventStore/Children.antt =====
-- event_store.py: the rows that `fork_prefix` derives for the child run.
use activegraph_surrealdb.Prelude.{
  ℕ, suc, String, subst, ◌+◌, ◌≡◌, ap, Option, some, List, [], ◌∷◌, length, arith,
}
use activegraph_surrealdb.Errors.{Result, ok, bind-eq-ok}
use activegraph_surrealdb.Platform.{Platform, JsonLaws}
use activegraph_surrealdb.Serde.{Event, event_to_record, event_hash}
use activegraph_surrealdb.Keys.{RecordId}
use activegraph_surrealdb.EventStore.Rows.{EventRow}
use activegraph_surrealdb.EventStore.Chain.{event_record, child_rows}
use activegraph_surrealdb.EventStore.Integrity.{IsLink, IsChain}
use activegraph_surrealdb.EventStore.Append.{appended_row, appended_row-IsLink}

abbrev pub rows_in : List (RecordId × EventRow) → List EventRow
rows_in [] = []
rows_in ((k, row) ∷ rest) = row ∷ rows_in rest

module _ ⦃p : Platform⦄ (json : JsonLaws p) where
  -- a first row in front of a derived chain
  cons_link :
      (scope run_id : String) (seq : ℕ) (previous end last : Option String) (n : ℕ) (k : RecordId)
      (row : EventRow) (rest children : List (RecordId × EventRow))
      → IsLink scope run_id seq previous row
      → IsChain scope run_id (seq + 1) (some row.hash) (rows_in rest) end
      → length rest ≡ n
      → ◌≡◌ {A = Result (List (RecordId × EventRow) × Option String)}
          (ok ((k, row) ∷ rest, end))
          (ok (children, last))
      → IsChain scope run_id seq previous (rows_in children) last × (length children ≡ suc n)
  cons_link scope run_id seq previous end last n k row rest children link chain count e =
      let same : ◌≡◌ {A = List (RecordId × EventRow)} ((k, row) ∷ rest) children = cc (e) in
      let ends : end ≡ last = cc (e) in
      subst (λ cs. IsChain scope run_id seq previous (rows_in cs) last × (length cs ≡ suc n)) same
        (
          (link, subst (IsChain scope run_id (seq + 1) (some row.hash) (rows_in rest)) ends chain),
          ap suc count,
        )

  -- The rows that a fork derives from events, from a number and a previous hash on, are a gap-free
  -- hash chain of the child run that ends in the hash returned, with one row for each event.
  pub child_rows-IsChain :
      (scope run_id : String) (seq : ℕ) (previous last : Option String)
      (events : List (Event p.Value)) (children : List (RecordId × EventRow))
      → child_rows scope run_id seq previous events ≡ ok (children, last)
      → IsChain scope run_id seq previous (rows_in children) last
        × (length children ≡ length events)
  unfolding child_rows
  child_rows-IsChain scope run_id seq previous last [] [] e = ground (arith, e)
  child_rows-IsChain scope run_id seq previous last [] (c ∷ children) e = absurd (ground (arith, e))
  child_rows-IsChain scope run_id seq previous last (event ∷ events) children e =
      let (hash, g, e1) = bind-eq-ok (event_hash scope run_id seq event previous) _ e in
      let (encoded, k, e2) = bind-eq-ok (event_to_record event) _ e1 in
      let ((rest, end), r, e3) =
        bind-eq-ok (child_rows scope run_id (seq + 1) (some hash) events) _ e2 in
      let (chain, count) =
        child_rows-IsChain scope run_id (seq + 1) (some hash) end events rest r in
      let link = appended_row-IsLink json scope run_id seq previous event encoded hash k g in
      cons_link scope run_id seq previous end last (length events)
        (event_record scope run_id event.id) (appended_row scope run_id seq previous encoded hash)
        rest children link chain count e3
