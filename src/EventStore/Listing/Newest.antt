-- ===== src/EventStore/Listing/Newest.antt =====
-- event_store.py: `most_recent_run_id` finds the run that comes last.
use activegraph_surrealdb.Prelude.{
  ℕ, ◌+◌, String, ◌≡◌, inl, inr, refl, sym, ap, subst, ◌∙◌, true, false, ◌==◌, nat_eq, text_eq,
  text_ltb_asym, text_ltb_trans_weak, text_ltb_connex, Option, none, some, List, [], ◌∷◌, Elem,
  keep_if, length, if◌then◌else◌, Bool-cases, arith, eq_iff,
}
use activegraph_surrealdb.Errors.{ok}
use activegraph_surrealdb.Platform.{Platform}
use activegraph_surrealdb.Exec.{ask, call, pure, ◌>>=◌}
use activegraph_surrealdb.EventStore.Rows.{RunRow, EventRow, LedgerServer, Db}
use activegraph_surrealdb.EventStore.Session.{Handle}
use activegraph_surrealdb.EventStore.Verify.{quiet}
use activegraph_surrealdb.EventStore.Listing.{
  bump, count_by_run, count_of, Candidate, candidate, candidates, precedes, max_of, newest,
  any_order, most_recent_run_id,
}

count_of-bump :
    (run_id other : String) (counts : List (String × ℕ))
    → count_of run_id (bump other counts)
      ≡ (if other == run_id then count_of run_id counts + 1 else count_of run_id counts)
unfolding count_of
count_of-bump run_id other [] = ground arith
count_of-bump run_id other ((key, n) ∷ rest) = ground (
  arith,
  count_of-bump run_id other rest,
  eq_iff key other,
  eq_iff key run_id,
  eq_iff other run_id,
)

-- the number of events of a run
abbrev pub events_of_run : String → List EventRow → ℕ
events_of_run run_id rows = length (keep_if (λ row. row.run_id == run_id) rows)

count_of-count_by_run :
    (run_id : String) (rows : List EventRow)
    → count_of run_id (count_by_run rows) ≡ events_of_run run_id rows
unfolding count_of count_by_run
count_of-count_by_run run_id [] = refl
count_of-count_by_run run_id (row ∷ rows) =
    ground (
      arith,
      count_of-count_by_run run_id rows,
      count_of-bump run_id row.run_id (count_by_run rows),
    )

precedes_asym : (a b : Candidate) → precedes a b ≡ true → precedes b a ≡ false
precedes_asym a b h = ground (
  arith,
  h,
  text_ltb_asym a.created_at b.created_at,
  text_ltb_asym a.run_id b.run_id,
  eq_iff a.created_at b.created_at,
  eq_iff b.created_at a.created_at,
)

precedes_trans_weak :
    (a b c : Candidate) → precedes a b ≡ true → precedes c b ≡ false → precedes a c ≡ true
precedes_trans_weak a b c h k = ground (
  arith,
  h,
  k,
  text_ltb_trans_weak a.created_at b.created_at c.created_at,
  text_ltb_trans_weak a.run_id b.run_id c.run_id,
  text_ltb_connex b.created_at c.created_at,
  eq_iff a.created_at b.created_at,
  eq_iff c.created_at b.created_at,
  eq_iff a.created_at c.created_at,
)

-- The maximum is one of the candidates, and precedes none of them.
record IsMax (best : Candidate) (cs : List Candidate) : Type 0 where
  among : Elem best cs
  last : (c : Candidate) → Elem c cs → precedes best c ≡ false

precedes_irrefl : (a : Candidate) → precedes a a ≡ false
precedes_irrefl a = elim (Bool-cases (precedes a a)) [
  | inl yes_less ↦ absurd (cc (yes_less, precedes_asym a a yes_less))
  | inr not_less ↦ not_less
]

-- what does not precede a candidate does not precede one below it, nor one that this precedes not
not_below :
    (m best c : Candidate) → precedes best c ≡ true → precedes m c ≡ false → precedes m best ≡ false
not_below m best c h k = elim (Bool-cases (precedes m best)) [
  | inl less ↦ absurd (cc (k, precedes_trans_weak m best c less (precedes_asym best c h)))
  | inr not_less ↦ not_less
]

not_beside :
    (m best c : Candidate)
    → precedes best c ≡ false
    → precedes m best ≡ false
    → precedes m c ≡ false
not_beside m best c h k = elim (Bool-cases (precedes m c)) [
  | inl less ↦ absurd (cc (k, precedes_trans_weak m c best less h))
  | inr not_less ↦ not_less
]

max_of-IsMax : (best : Candidate) (cs : List Candidate) → IsMax (max_of best cs) (best ∷ cs)
unfolding max_of
max_of-IsMax best [] = record {
  among = inl refl;
  last = λ c m. elim m [
    | inl e ↦ subst (λ x. precedes best x ≡ false) (sym e) (precedes_irrefl best)
    | inr later ↦ absurd later
  ];
}
max_of-IsMax best (c ∷ cs) = elim (Bool-cases (precedes best c)) [
  | inl less ↦
      let r = max_of-IsMax c cs in
      let m = max_of c cs in
      rw less (record {
        among = inr r.among;
        last = λ x found. elim found [
          | inl e ↦
              subst (λ y. precedes m y ≡ false) (sym e)
                (not_below m best c less (r.last c (inl refl)))
          | inr later ↦ r.last x later
        ];
      })
  | inr not_less ↦
      let r = max_of-IsMax best cs in
      let m = max_of best cs in
      rw not_less (record {
        among = elim r.among [ inl e ↦ inl e | inr later ↦ inr (inr later) ];
        last = λ x found. elim found [
          | inl e ↦ r.last x (inl e)
          | inr (inl e) ↦
              subst (λ y. precedes m y ≡ false) (sym e)
                (not_beside m best c not_less (r.last best (inl refl)))
          | inr (inr later) ↦ r.last x (inr later)
        ];
      })
]

module _ (events : List EventRow) where
  abbrev pub standing : RunRow → Candidate
  standing row = candidate row (events_of_run row.run_id events)

  -- The run row is among the rows, and precedes none of them.
  pub record IsMostRecent (run_id : String) (runs : List RunRow) : Type 0 where
    pub row : RunRow
    pub of_run : row.run_id ≡ run_id
    pub among : Elem row runs
    pub last : (other : RunRow) → Elem other runs → precedes (standing row) (standing other) ≡ false

  -- no run for no rows
  abbrev pub Answers : Option String → List RunRow → Type 0
  Answers none runs = runs ≡ []
  Answers (some run_id) runs = IsMostRecent run_id runs

  candidates-standing :
      (row : RunRow) → candidate row (count_of row.run_id (count_by_run events)) ≡ standing row
  candidates-standing row = ap (candidate row) (count_of-count_by_run row.run_id events)

  Elem-candidates :
      (c : Candidate) (runs : List RunRow)
      → Elem c (candidates (count_by_run events) runs)
      → (row : RunRow) × Elem row runs × (c ≡ standing row)
  unfolding candidates
  Elem-candidates c [] m = absurd m
  Elem-candidates c (row ∷ runs) (inl e) = (row, inl refl, e ∙ candidates-standing row)
  Elem-candidates c (row ∷ runs) (inr later) =
      let (found, m, e) = Elem-candidates c runs later in (found, inr m, e)

  standing-Elem :
      (row : RunRow) (runs : List RunRow)
      → Elem row runs
      → Elem (standing row) (candidates (count_by_run events) runs)
  unfolding candidates
  standing-Elem row [] m = absurd m
  standing-Elem row (other ∷ runs) (inl e) = inl (ap standing e ∙ sym (candidates-standing other))
  standing-Elem row (other ∷ runs) (inr later) = inr (standing-Elem row runs later)

  newest-Answers :
      (runs : List RunRow) → Answers (newest (candidates (count_by_run events) runs)) runs
  unfolding candidates
  newest-Answers [] = refl
  newest-Answers (row ∷ runs) =
      let counts = count_by_run events in
      let top =
        max_of-IsMax (candidate row (count_of row.run_id counts)) (candidates counts runs) in
      let (found, m, e) = Elem-candidates _ (row ∷ runs) top.among in
      record {
        row = found;
        of_run = sym (ap (λ c. c.run_id) e);
        among = m;
        last = λ other k.
            subst (λ c. precedes c (standing other) ≡ false) e
              (top.last (standing other) (standing-Elem other (row ∷ runs) k));
      }

-- In a quiet world `most_recent_run_id` returns, and reads only: it finds no run exactly if the scope
-- has no run row, and otherwise the run of a row of the scope that precedes no other: it has the most
-- events, of those with as many the latest creation time, and then the greatest ID.
pub most_recent_run_id-Answers :
    ⦃p : Platform⦄ ⦃s : LedgerServer⦄ (h : Handle) (d : Db s) (scope : String)
    → let runs = s.runs.select_where (λ row. row.scope == scope) any_order d.runs in
      let events = s.events.select_where (λ row. row.scope == scope) any_order d.events in
      (answer : Option String) × (most_recent_run_id scope (quiet h d) ≡ (ok answer, quiet h d))
      × Answers events answer runs
unfolding most_recent_run_id ask call pure ◌>>=◌
most_recent_run_id-Answers h d scope = (_, refl, newest-Answers _ _)
