-- ===== src/Exec/Triples.antt =====
-- Rules for invariants of methods, whatever the schedule: a predicate of the database that other
-- sessions keep, and a predicate of the store object.
use activegraph_surrealdb.Prelude.{String, ◌≡◌, refl, ap, subst, Bool, false, List, [], ◌∷◌, All}
use activegraph_surrealdb.Errors.{ErrorClass, Error, Result, ok, err, raise_if-eq-ok}
use activegraph_surrealdb.Exec.{
  Answer, answered, refused, lost, Tick, World, Action, pure, fail, lift, gets, modify, raise_if,
  call, try_else, ◌>>=◌, continue, settle, run_call, effect_of, answer_with,
}

module _ {H D : Type 0} where
  -- What holds of the object and of the database, and every other session keeps the latter.
  pub record Guarded (K : H → Type 0) (Q : D → Type 0) (w : World H D) : Type 0 where
    pub owner : K w.handle
    pub holds : Q w.db
    pub friends : All (λ (t : Tick D). (d : D) → Q d → Q (t.others d)) w.schedule

-- From a world with `P`, the method ends in one with `P`, whether it returns or raises, and a value
-- that it returns satisfies `R`.
pub record Triple {H D A : Type 0} (P : World H D → Type 0) (R : A → Type 0) (m : Action H D A)
    : Type 0 where
  pub at : (w : World H D) → P w → P (m w).1 × ((a : A) → (m w).0 ≡ ok a → R a)

subst_ok : {A : Type 0} (R : A → Type 0) (a b : A) → R a → ok a ≡ ok b → R b
subst_ok R a b r e = subst R (cc) r

module _ {H D A : Type 0} {P : World H D → Type 0} {R : A → Type 0} where
  pub Triple-pure : (a : A) → R a → Triple P R (pure a)
  unfolding pure
  Triple-pure a r = record { at = λ w h. (h, λ b e. subst_ok R a b r e) }

  pub Triple-fail : (e : Error) → Triple P R (fail e)
  unfolding fail
  Triple-fail e = record { at = λ w h. (h, λ b e. absurd (cc)) }

  pub Triple-lift : (r : Result A) → ((a : A) → r ≡ ok a → R a) → Triple P R (lift r)
  unfolding lift
  Triple-lift r k = record { at = λ w h. (h, k) }

pub weaken :
    {H D A : Type 0} {P : World H D → Type 0} (R S : A → Type 0) (m : Action H D A)
    → ((a : A) → R a → S a)
    → Triple P R m
    → Triple P S m
weaken R S m k t = record { at = λ w h. let (h', r) = t.at w h in (h', λ a e. k a (r a e)) }

module _ {H D : Type 0} {P : World H D → Type 0} where
  pub Triple-raise_if :
      (b : Bool) (c : ErrorClass) (m : String) → Triple P (λ _. b ≡ false) (raise_if b c m)
  unfolding raise_if
  Triple-raise_if b c m = record { at = λ w h. (h, λ u e. raise_if-eq-ok b c m e) }

module _ {H D A B : Type 0} {P : World H D → Type 0} {R : A → Type 0} {S : B → Type 0} where
  continue-Triple :
      (r : Result A) (f : A → Action H D B) (w : World H D)
      → P w
      → ((a : A) → r ≡ ok a → R a)
      → ((a : A) → R a → Triple P S (f a))
      → P (continue r f w).1 × ((b : B) → (continue r f w).0 ≡ ok b → S b)
  continue-Triple (ok a) f w h k next = (next a (k a refl)).at w h
  continue-Triple (err e) f w h k next = (h, λ b g. absurd (cc))

  pub Triple-bind :
      (m : Action H D A) (f : A → Action H D B)
      → Triple P R m
      → ((a : A) → R a → Triple P S (f a))
      → Triple P S (m >>= f)
  unfolding ◌>>=◌
  Triple-bind m f first next = record {
    at = λ w h. let (h', k) = first.at w h in continue-Triple (m w).0 f (m w).1 h' k next;
  }

  settle-Triple :
      (r : Result A) (handler : Error → Action H D B) (f : A → Action H D B) (w : World H D)
      → P w
      → ((a : A) → r ≡ ok a → R a)
      → ((e : Error) → Triple P S (handler e))
      → ((a : A) → R a → Triple P S (f a))
      → P (settle r f handler w).1 × ((b : B) → (settle r f handler w).0 ≡ ok b → S b)
  settle-Triple (ok a) handler f w h k caught next = (next a (k a refl)).at w h
  settle-Triple (err e) handler f w h k caught next = (caught e).at w h

  pub Triple-try_else :
      (m : Action H D A) (handler : Error → Action H D B) (f : A → Action H D B)
      → Triple P R m
      → ((e : Error) → Triple P S (handler e))
      → ((a : A) → R a → Triple P S (f a))
      → Triple P S (try_else m handler f)
  unfolding try_else
  Triple-try_else m handler f first caught next = record {
    at = λ w h.
        let (h', k) = first.at w h in settle-Triple (m w).0 handler f (m w).1 h' k caught next;
  }

-- A step that returns is followed by what comes next.
pub bind_returns :
    {H D A B : Type 0} (m : Action H D A) (f : A → Action H D B) (w w' : World H D) (a : A)
    → m w ≡ (ok a, w')
    → (m >>= f) w ≡ f a w'
unfolding ◌>>=◌
bind_returns m f w w' a e = ap (λ x. continue x.0 f x.1) e

effect_of-Q :
    {D : Type 0} (Q : D → Type 0) (a : Answer) (before after : D)
    → Q before
    → Q after
    → Q (effect_of a before after)
effect_of-Q Q answered before after q q' = q'
effect_of-Q Q (refused m) before after q q' = q
effect_of-Q Q (lost m) before after q q' = q'

answer_with-R :
    {A : Type 0} (R : A → Type 0) (a : Answer) (r : Result A)
    → ((v : A) → r ≡ ok v → R v)
    → (v : A) → answer_with a r ≡ ok v
    → R v
answer_with-R R answered r k v e = k v e
answer_with-R R (refused m) r k v e = absurd (cc)
answer_with-R R (lost m) r k v e = absurd (cc)

module _ {H D A : Type 0} {K : H → Type 0} {Q : D → Type 0} {R : A → Type 0} where
  pub Triple-gets : (f : H → A) → ((h : H) → K h → R (f h)) → Triple (Guarded K Q) R (gets f)
  unfolding gets
  Triple-gets f k = record {
    at = λ w h. (h, λ b e. subst_ok R (f w.handle) b (k w.handle h.owner) e);
  }

  run_call-Triple :
      (f : D → Result A × D) (w : World H D) (ticks : List (Tick D))
      → ((d : D) → Q d → Q (f d).1 × ((a : A) → (f d).0 ≡ ok a → R a))
      → K w.handle
      → Q w.db
      → All (λ (t : Tick D). (d : D) → Q d → Q (t.others d)) ticks
      → Guarded K Q (run_call f w ticks).1 × ((a : A) → (run_call f w ticks).0 ≡ ok a → R a)
  run_call-Triple f w [] step k q friends =
      let (q', r) = step w.db q in (record { owner = k; holds = q'; friends = tt }, r)
  run_call-Triple f w (t ∷ rest) step k q friends =
      let (q', r) = step (t.others w.db) (friends.0 w.db q) in
      (
        record {
          owner = k;
          holds =
              effect_of-Q Q t.answer (t.others w.db) (f (t.others w.db)).1 (friends.0 w.db q) q';
          friends = friends.1;
        },
        answer_with-R R t.answer (f (t.others w.db)).0 r,
      )

  -- A call is given what every state with `Q` gives: it keeps `Q`, and its answer satisfies `R`.
  pub Triple-call :
      (f : D → Result A × D)
      → ((d : D) → Q d → Q (f d).1 × ((a : A) → (f d).0 ≡ ok a → R a))
      → Triple (Guarded K Q) R (call f)
  unfolding call
  Triple-call f step = record {
    at = λ w h. run_call-Triple f w w.schedule step h.owner h.holds h.friends;
  }

module _ {H D : Type 0} {K : H → Type 0} {Q : D → Type 0} where
  pub Triple-modify :
      (f : H → H) → ((h : H) → K h → K (f h)) → Triple (Guarded K Q) (λ _. Unit {0}) (modify f)
  unfolding modify
  Triple-modify f k = record {
    at = λ w h.
        (record { owner = k w.handle h.owner; holds = h.holds; friends = h.friends }, λ u e. tt);
  }
