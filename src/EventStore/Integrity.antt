-- ===== src/EventStore/Integrity.antt =====
-- event_store.py: the verification loop accepts exactly the hash chains.
use activegraph_surrealdb.Prelude.{
  ℕ, zero, suc, String, ◌+◌, ◌≡◌, refl, sym, subst, ap, ◌↔◌, Option, some, List, [], ◌∷◌, ◌++◌,
  nat_eq, text_eq, option_eq, length, take, arith, eq_iff, option_beq_iff,
}
use activegraph_surrealdb.Errors.{ok, returned, failed, outcome, bind-eq-ok}
use activegraph_surrealdb.Platform.{Platform}
use activegraph_surrealdb.Serde.{Event, record_to_event, event_hash}
use activegraph_surrealdb.EventStore.Rows.{EventRow}
use activegraph_surrealdb.EventStore.Chain.{verify_row, verify_rows}

module _ ⦃p : Platform⦄ where
  -- A row stands at its place in the chain: it is of the run, has the sequence number and the
  -- previous hash that are due, and its hash is that of its decoded event there.
  abbrev pub IsLink : String → String → ℕ → Option String → EventRow → Type 0
  IsLink scope run_id seq previous row =
      (row.scope ≡ scope)
      × (row.run_id ≡ run_id)
      × (row.seq ≡ seq)
      × (row.previous_hash ≡ previous)
      × ((event : Event p.Value) × (record_to_event row.content ≡ ok event)
          × (event_hash scope run_id seq event previous ≡ ok row.hash))

  -- The rows link up from a sequence number and a previous hash to a last hash.
  abbrev pub IsChain : String → String → ℕ → Option String → List EventRow → Option String → Type 0
  IsChain scope run_id seq previous [] last = previous ≡ last
  IsChain scope run_id seq previous (row ∷ rows) last =
      IsLink scope run_id seq previous row
      × IsChain scope run_id (seq + 1) (some row.hash) rows last

  -- What the tests of an accepted row have found, with the decoded event and its hash at hand.
  verify_row_tests :
      (scope run_id : String) (seq : ℕ) (previous : Option String) (row : EventRow) (hash : String)
      (event : Event p.Value) (calculated : String)
      → record_to_event row.content ≡ ok event
      → event_hash scope run_id row.seq event row.previous_hash ≡ ok calculated
      → verify_row scope run_id seq previous row ≡ ok hash
      → (row.scope ≡ scope)
        × (row.run_id ≡ run_id)
        × (row.seq ≡ seq)
        × (row.previous_hash ≡ previous)
        × (calculated ≡ row.hash)
        × (hash ≡ row.hash)
  unfolding verify_row
  verify_row_tests scope run_id seq previous row hash event calculated e g h = ground (
    arith,
    eq_iff row.scope scope,
    eq_iff row.run_id run_id,
    option_beq_iff row.previous_hash previous,
    eq_iff calculated row.hash,
  )

  pub verify_row-IsLink :
      (scope run_id : String) (seq : ℕ) (previous : Option String) (row : EventRow) (hash : String)
      → verify_row scope run_id seq previous row ≡ ok hash
      → IsLink scope run_id seq previous row × (hash ≡ row.hash)
  unfolding verify_row
  verify_row-IsLink scope run_id seq previous row hash h =
      elim (outcome (record_to_event row.content)) [
        | failed x e ↦ absurd (ground arith)
        | returned event e ↦
            elim (outcome (event_hash scope run_id row.seq event row.previous_hash)) [
              | failed x g ↦ absurd (ground arith)
              | returned calculated g ↦
                  let (a, b, c, d, m, n) =
                    verify_row_tests scope run_id seq previous row hash event calculated e g h in
                  ((a, b, c, d, (event, e, rw (← c, ← d, ← m) g)), n)
            ]
      ]

  pub IsLink-verify_row :
      (scope run_id : String) (seq : ℕ) (previous : Option String) (row : EventRow)
      → IsLink scope run_id seq previous row
      → verify_row scope run_id seq previous row ≡ ok row.hash
  unfolding verify_row
  IsLink-verify_row scope run_id seq previous row (a, b, c, d, (event, e, g)) = ground (
    arith,
    eq_iff row.scope scope,
    eq_iff row.run_id run_id,
    option_beq_iff row.previous_hash previous,
    eq_iff row.hash row.hash,
  )

  -- Verification succeeds with a last hash exactly when the rows are a chain that ends in it.
  pub verify_rows_iff :
      (scope run_id : String) (seq : ℕ) (previous last : Option String) (rows : List EventRow)
      → (verify_rows scope run_id seq previous rows ≡ ok last)
        ↔ IsChain scope run_id seq previous rows last
  unfolding verify_rows
  verify_rows_iff scope run_id seq previous last [] = (λ h. cc, λ h. ap ok h)
  verify_rows_iff scope run_id seq previous last (row ∷ rows) = (
    λ h.
        let (hash, e, g) = bind-eq-ok (verify_row scope run_id seq previous row) _ h in
        let (link, m) = verify_row-IsLink scope run_id seq previous row hash e in
        (link, (verify_rows_iff scope run_id (seq + 1) (some row.hash) last rows).0 (rw (← m) g)),
    λ c.
        rw (IsLink-verify_row scope run_id seq previous row c.0)
          ((verify_rows_iff scope run_id (seq + 1) (some row.hash) last rows).1 c.1),
  )

  -- Chains that meet are one chain.
  pub IsChain-append :
      (scope run_id : String) (seq seq' : ℕ) (previous middle last : Option String)
      (xs ys : List EventRow)
      → seq + length xs ≡ seq'
      → IsChain scope run_id seq previous xs middle
      → IsChain scope run_id seq' middle ys last
      → IsChain scope run_id seq previous (xs ++ ys) last
  IsChain-append scope run_id seq seq' previous middle last [] ys n c d =
      let e : seq' ≡ seq = omega arith in
      subst (λ k. IsChain scope run_id k previous ys last) e
        (subst (λ o. IsChain scope run_id seq' o ys last) (sym c) d)
  IsChain-append scope run_id seq seq' previous middle last (x ∷ xs) ys n c d = (
    c.0,
    IsChain-append scope run_id (seq + 1) seq' (some x.hash) middle last xs ys (omega arith) c.1 d,
  )

  -- The hash of the last of the first n rows.
  abbrev pub hash_after : Option String → List EventRow → Option String
  hash_after previous [] = previous
  hash_after previous (row ∷ rows) = hash_after (some row.hash) rows

  -- Each prefix of a chain is a chain.
  pub IsChain-take :
      (scope run_id : String) (seq : ℕ) (previous last : Option String) (n : ℕ)
      (rows : List EventRow)
      → IsChain scope run_id seq previous rows last
      → IsChain scope run_id seq previous (take n rows) (hash_after previous (take n rows))
  IsChain-take scope run_id seq previous last zero rows c = refl
  IsChain-take scope run_id seq previous last (suc n) [] c = refl
  IsChain-take scope run_id seq previous last (suc n) (row ∷ rows) c =
      (c.0, IsChain-take scope run_id (seq + 1) (some row.hash) last n rows c.1)
