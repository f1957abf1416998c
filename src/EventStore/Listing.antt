-- ===== src/EventStore/Listing.antt =====
-- event_store.py: `most_recent_run_id` and `run_exists`, on the connection that these class methods
-- open and close.
pub mod Newest
use activegraph_surrealdb.Prelude.{
  ℕ, ◌+◌, String, Bool, true, false, ◌&&◌, ◌||◌, ◌==◌, nat_eq, text_eq, ltb, text_ltb, Option, none,
  some, List, [], ◌∷◌, is_some, if◌then◌else◌,
}
use activegraph_surrealdb.Errors.{ok}
use activegraph_surrealdb.Exec.{ask, pure, ◌>>=◌}
use activegraph_surrealdb.Platform.{Platform}
use activegraph_surrealdb.EventStore.Rows.{RunRow, EventRow, LedgerServer}
use activegraph_surrealdb.EventStore.Chain.{run_record}
use activegraph_surrealdb.EventStore.Session.{Method, select_run}

-- one more in the group of a run
abbrev pub bump : String → List (String × ℕ) → List (String × ℕ)
bump run_id [] = (run_id, 1) ∷ []
bump run_id ((key, n) ∷ rest) =
    let bumped = bump run_id rest in
    if key == run_id then (key, n + 1) ∷ rest else (key, n) ∷ bumped

-- SELECT run_id, count() … GROUP BY run_id, and `counts.get(run_id, 0)`
unfoldable pub count_by_run : List EventRow → List (String × ℕ)
count_by_run [] = []
count_by_run (row ∷ rows) = bump row.run_id (count_by_run rows)

unfoldable pub count_of : String → List (String × ℕ) → ℕ
count_of run_id [] = 0
count_of run_id ((key, n) ∷ rest) =
    let later = count_of run_id rest in if key == run_id then n else later

-- the tuples that `max` compares
pub record Candidate : Type 0 where
  pub has_events : ℕ
  pub events : ℕ
  pub created_at : String
  pub run_id : String

abbrev pub candidate : RunRow → ℕ → Candidate
candidate row n = record {
  has_events = if ltb 0 n then 1 else 0;
  events = n;
  created_at = row.created_at;
  run_id = row.run_id;
}

unfoldable pub candidates : List (String × ℕ) → List RunRow → List Candidate
candidates counts [] = []
candidates counts (row ∷ rows) = candidate row (count_of row.run_id counts) ∷ candidates counts rows

-- `a < b` on tuples
abbrev pub precedes : Candidate → Candidate → Bool
precedes a b =
    ltb a.has_events b.has_events
    || a.has_events == b.has_events
      && (ltb a.events b.events
          || a.events == b.events
            && (text_ltb a.created_at b.created_at
                || a.created_at == b.created_at && text_ltb a.run_id b.run_id))

-- `max`, which keeps the first of equal tuples
unfoldable pub max_of : Candidate → List Candidate → Candidate
max_of best [] = best
max_of best (c ∷ cs) = max_of (if precedes best c then c else best) cs

abbrev pub newest : List Candidate → Option String
newest [] = none
newest (c ∷ cs) = some (max_of c cs).run_id

abbrev pub any_order : {Row : Type 0} → Row → Row → Bool
any_order a b = false

module _ ⦃p : Platform⦄ ⦃s : LedgerServer⦄ where
  unfoldable pub most_recent_run_id : String → Method (Option String)
  most_recent_run_id scope = do
    run_rows ← ask (λ d. ok (s.runs.select_where (λ row. row.scope == scope) any_order d.runs))
    event_rows ←
        ask (λ d. ok (s.events.select_where (λ row. row.scope == scope) any_order d.events))
    pure (newest (candidates (count_by_run event_rows) run_rows))

  unfoldable pub run_exists : String → String → Method Bool
  run_exists run_id scope = do row ← select_run (run_record scope run_id); pure (is_some row)
