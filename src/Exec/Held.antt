-- ===== src/Exec/Held.antt =====
-- Rules for what a method leaves of the object's own fields, whatever the schedule.
use activegraph_surrealdb.Prelude.{◌≡◌, sym, subst, refl, List, [], ◌∷◌}
use activegraph_surrealdb.Errors.{Result}
use activegraph_surrealdb.Exec.{Tick, World, Action, gets, modify, call, ask, run_call}
use activegraph_surrealdb.Exec.Triples.{Triple}

module _ {H D : Type 0} (K : H → Type 0) where
  -- from an object with `K`, an object with `K`
  abbrev pub Holds : {A : Type 0} → Action H D A → Type 0
  Holds m = Triple (λ w. K w.handle) (λ a. Unit {0}) m

  run_call-handle :
      {A : Type 0} (f : D → Result A × D) (w : World H D) (ticks : List (Tick D))
      → (run_call f w ticks).1.handle ≡ w.handle
  run_call-handle f w [] = refl
  run_call-handle f w (t ∷ rest) = refl

  pub Holds-call : {A : Type 0} (f : D → Result A × D) → Holds (call f)
  unfolding call
  Holds-call f = record {
    at = λ w k. (subst K (sym (run_call-handle f w w.schedule)) k, λ a e. tt);
  }

  pub Holds-ask : {A : Type 0} (f : D → Result A) → Holds (ask f)
  unfolding ask
  Holds-ask f = Holds-call _

  pub Holds-gets : {A : Type 0} (f : H → A) → Holds {A = A} (gets f)
  unfolding gets
  Holds-gets f = record { at = λ w k. (k, λ a e. tt) }

  pub Holds-modify : (f : H → H) → ((h : H) → K h → K (f h)) → Holds (modify f)
  unfolding modify
  Holds-modify f keep = record { at = λ w k. (keep w.handle k, λ a e. tt) }

-- no other session is at work, and something holds of the database
pub record Quietly {H D : Type 0} (P : D → Type 0) (w : World H D) : Type 0 where
  pub quiet : w.schedule ≡ []
  pub state : P w.db

module _ {H D A : Type 0} (P : D → Type 0) (f : D → Result A × D)
    (keep : (d : D) → P d → P (f d).1) where
  run_call-Quietly :
      (w : World H D) (ticks : List (Tick D))
      → ticks ≡ []
      → P w.db
      → Quietly P (run_call f w ticks).1
  run_call-Quietly w ticks e p = rw e (record { quiet = refl; state = keep w.db p })

  pub call-Quietly : Triple {H = H} (Quietly P) (λ a. Unit {0}) (call f)
  unfolding call
  call-Quietly = record { at = λ w q. (run_call-Quietly w w.schedule q.quiet q.state, λ a e. tt) }
