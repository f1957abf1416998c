-- ===== src/EventStore/Window.antt =====
-- event_store.py: the events that `iter_events` yields are a slice of the run.
use activegraph_surrealdb.Prelude.{
  ℕ, zero, suc, ◌+◌, ◌-◌, String, ◌≡◌, refl, Option, none, some, List, [], ◌∷◌, take, ltb, arith,
}
use activegraph_surrealdb.Platform.{Platform}
use activegraph_surrealdb.EventStore.Rows.{EventRow}
use activegraph_surrealdb.EventStore.Chain.{events_within, events_of, at_or_before}
use activegraph_surrealdb.EventStore.Integrity.{IsChain}

abbrev pub drop : ℕ → List EventRow → List EventRow
drop zero rows = rows
drop (suc n) [] = []
drop (suc n) (row ∷ rows) = drop n rows

drop_nil : (n : ℕ) → drop n [] ≡ []
drop_nil zero = refl
drop_nil (suc n) = refl

-- the rows behind one, and those up to one
abbrev pub behind : Option ℕ → List EventRow → List EventRow
behind none rows = rows
behind (some seq) rows = drop (seq + 1) rows

abbrev pub up_to : Option ℕ → List EventRow → List EventRow
up_to none rows = rows
up_to (some seq) rows = take (seq + 1) rows

take_nil : (n : ℕ) → take {A = EventRow} n [] ≡ []
take_nil zero = refl
take_nil (suc n) = refl

module _ ⦃p : Platform⦄ (scope run_id : String) (after : Option ℕ) (low : ℕ)
    (skips : (seq : ℕ) → at_or_before after seq ≡ ltb seq low) where
  -- the chain from the number n on, of which d rows are skipped, and t rows stand up to the last one
  bounded_slice :
      (last_seq n d t : ℕ) (previous last : Option String) (rows : List EventRow)
      → d ≡ low - n
      → t ≡ last_seq + 1 - n
      → IsChain scope run_id n previous rows last
      → events_within after (some last_seq) rows ≡ events_of (drop d (take t rows))
  unfolding events_within events_of
  bounded_slice last_seq n d t previous last [] a b chain = rw (take_nil t) (rw (drop_nil d) refl)
  bounded_slice last_seq n zero zero previous last (row ∷ rows) a b chain = ground (
    arith,
    a,
    b,
    (chain.0).2,
    bounded_slice last_seq (n + 1) zero zero (some row.hash) last rows (omega arith) (omega arith)
        chain.1,
  )
  bounded_slice last_seq n (suc d) zero previous last (row ∷ rows) a b chain = ground (
    arith,
    a,
    (chain.0).2,
    skips row.seq,
    drop_nil d,
    bounded_slice last_seq (n + 1) d zero (some row.hash) last rows (omega arith) (omega arith)
        chain.1,
  )
  bounded_slice last_seq n zero (suc t) previous last (row ∷ rows) a b chain = ground (
    arith,
    a,
    b,
    (chain.0).2,
    skips row.seq,
    bounded_slice last_seq (n + 1) zero t (some row.hash) last rows (omega arith) (omega arith)
        chain.1,
  )
  bounded_slice last_seq n (suc d) (suc t) previous last (row ∷ rows) a b chain = ground (
    arith,
    a,
    (chain.0).2,
    skips row.seq,
    bounded_slice last_seq (n + 1) d t (some row.hash) last rows (omega arith) (omega arith)
        chain.1,
  )

  open_slice :
      (n d : ℕ) (previous last : Option String) (rows : List EventRow)
      → d ≡ low - n
      → IsChain scope run_id n previous rows last
      → events_within after none rows ≡ events_of (drop d rows)
  unfolding events_within events_of
  open_slice n d previous last [] a chain = rw (drop_nil d) refl
  open_slice n zero previous last (row ∷ rows) a chain = ground (
    arith,
    a,
    (chain.0).2,
    skips row.seq,
    open_slice (n + 1) zero (some row.hash) last rows (omega arith) chain.1,
  )
  open_slice n (suc d) previous last (row ∷ rows) a chain = ground (
    arith,
    a,
    (chain.0).2,
    skips row.seq,
    open_slice (n + 1) d (some row.hash) last rows (omega arith) chain.1,
  )

-- Of a chain of a run, from its start on, the loop of `iter_events` decodes the rows behind the one
-- boundary and up to the other, in order and with no gap: one slice of the chain.
pub events_within-slice :
    ⦃p : Platform⦄ (scope run_id : String) (after until : Option ℕ) (last : Option String)
    (rows : List EventRow)
    → IsChain scope run_id 0 none rows last
    → events_within after until rows ≡ events_of (behind after (up_to until rows))
events_within-slice scope run_id none none last rows chain =
    open_slice scope run_id none 0 (λ seq. ground arith) 0 0 none last rows refl chain
events_within-slice scope run_id (some a) none last rows chain =
    open_slice scope run_id (some a) (a + 1) (λ seq. ground arith) 0 (a + 1) none last rows
      (omega arith) chain
events_within-slice scope run_id none (some u) last rows chain =
    bounded_slice scope run_id none 0 (λ seq. ground arith) u 0 0 (u + 1) none last rows refl
      (omega arith) chain
events_within-slice scope run_id (some a) (some u) last rows chain =
    bounded_slice scope run_id (some a) (a + 1) (λ seq. ground arith) u 0 (a + 1) (u + 1) none last
      rows (omega arith) (omega arith) chain
