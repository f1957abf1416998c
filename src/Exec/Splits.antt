-- ===== src/Exec/Splits.antt =====
-- Rules for methods that leave one thing when they return and another when they raise.
use activegraph_surrealdb.Prelude.{String, ◌≡◌, refl, Bool, true, false, List, []}
use activegraph_surrealdb.Errors.{ErrorClass, Error, Result, ok, err, raise_if as result_raise_if}
use activegraph_surrealdb.Exec.{
  Tick, World, Action, pure, fail, gets, modify, raise_if, call, try_else, ◌>>=◌, continue, settle,
  run_call, within,
}
use activegraph_surrealdb.Exec.Triples.{Triple}

-- what is left of a method that returned, and of one that raised
abbrev pub EitherWay :
    {H D A : Type 0}
    → (A → World H D → Type 0)
    → (World H D → Type 0)
    → Result A × World H D
    → Type 0
EitherWay R X (ok a, w) = R a w
EitherWay R X (err e, w) = X w

pub both_ways :
    {H D A : Type 0} (P : World H D → Type 0) (r : Result A) (w : World H D)
    → P w
    → EitherWay (λ a. P) P (r, w)
both_ways P (ok a) w p = p
both_ways P (err e) w p = p

pub whichever :
    {H D A : Type 0} (P : World H D → Type 0) (x : Result A × World H D)
    → EitherWay (λ a. P) P x
    → P x.1
whichever P (ok a, w) p = p
whichever P (err e, w) p = p

-- From a world with `P`, a method that returns leaves `R` of its value, and one that raises leaves `X`.
pub record Splits {H D A : Type 0} (P : World H D → Type 0) (R : A → World H D → Type 0)
    (X : World H D → Type 0) (m : Action H D A) : Type 0 where
  pub at : (w : World H D) → P w → EitherWay R X (m w)

run_call-quiet :
    {H D A : Type 0} (R : A → World H D → Type 0) (X : World H D → Type 0) (f : D → Result A × D)
    (w : World H D) (ticks : List (Tick D))
    → ticks ≡ []
    → EitherWay R X ((f w.db).0, record w { db = (f w.db).1; schedule = [] })
    → EitherWay R X (run_call f w ticks)
run_call-quiet R X f w ticks e k = rw e k

module _ {H D A : Type 0} {P X : World H D → Type 0} {R : A → World H D → Type 0} where
  pub Splits-pure : (a : A) → ((w : World H D) → P w → R a w) → Splits P R X (pure a)
  unfolding pure
  Splits-pure a k = record { at = k }

  pub Splits-fail : (e : Error) → ((w : World H D) → P w → X w) → Splits P R X (fail e)
  unfolding fail
  Splits-fail e k = record { at = k }

  pub Splits-gets : (f : H → A) → ((w : World H D) → P w → R (f w.handle) w) → Splits P R X (gets f)
  unfolding gets
  Splits-gets f k = record { at = k }

  either_way :
      (S : A → Type 0) (r : Result A) (w : World H D)
      → P w
      → ((a : A) → r ≡ ok a → S a)
      → ((w : World H D) → P w → X w)
      → ((a : A) (w : World H D) → S a → P w → R a w)
      → EitherWay R X (r, w)
  either_way S (ok a) w p s x k = k a w (s a refl) p
  either_way S (err e) w p s x k = x w p

  -- a method that keeps `P` whatever happens
  pub Splits-keeps :
      (S : A → Type 0) (m : Action H D A)
      → Triple P S m
      → ((w : World H D) → P w → X w)
      → ((a : A) (w : World H D) → S a → P w → R a w)
      → Splits P R X m
  Splits-keeps S m t x k = record {
    at = λ w p. let (p', s) = t.at w p in either_way S (m w).0 (m w).1 p' s x k;
  }

  -- a call when no other session is at work
  pub Splits-call :
      (f : D → Result A × D)
      → ((w : World H D)
          → P w
          → (w.schedule ≡ [])
            × EitherWay R X ((f w.db).0, record w { db = (f w.db).1; schedule = [] }))
      → Splits P R X (call f)
  unfolding call
  Splits-call f k = record {
    at = λ w p. let (e, q) = k w p in run_call-quiet R X f w w.schedule e q;
  }

raised_or_not :
    {H D : Type 0} (P X : World H D → Type 0) (R : Unit {0} → World H D → Type 0) (b : Bool)
    (c : ErrorClass) (m : String) (w : World H D)
    → P w
    → ((w : World H D) → P w → X w)
    → ((w : World H D) → P w → R tt w)
    → EitherWay R X (result_raise_if b c m, w)
raised_or_not P X R true c m w p x k = x w p
raised_or_not P X R false c m w p x k = k w p

module _ {H D : Type 0} {P X : World H D → Type 0} {R : Unit {0} → World H D → Type 0} where
  pub Splits-modify :
      (f : H → H)
      → ((w : World H D) → P w → R tt (record w { handle = f w.handle }))
      → Splits P R X (modify f)
  unfolding modify
  Splits-modify f k = record { at = k }

  pub Splits-raise_if :
      (b : Bool) (c : ErrorClass) (m : String)
      → ((w : World H D) → P w → X w)
      → ((w : World H D) → P w → R tt w)
      → Splits P R X (raise_if b c m)
  unfolding raise_if
  Splits-raise_if b c m x k = record { at = λ w p. raised_or_not P X R b c m w p x k }

module _ {H D A B : Type 0} (X Y : World H D → Type 0) (R : A → World H D → Type 0)
    (S : B → World H D → Type 0) where
  settle-Splits :
      (r : Result A) (w : World H D) (handler : Error → Action H D B) (f : A → Action H D B)
      → EitherWay R Y (r, w)
      → ((e : Error) → Splits Y S X (handler e))
      → ((a : A) → Splits (R a) S X (f a))
      → EitherWay S X (settle r f handler w)
  settle-Splits (ok a) w handler f q caught next = (next a).at w q
  settle-Splits (err e) w handler f q caught next = (caught e).at w q

module _ {H D A B : Type 0} (X : World H D → Type 0) (R : A → World H D → Type 0)
    (S : B → World H D → Type 0) where
  continue-Splits :
      (r : Result A) (w : World H D) (f : A → Action H D B)
      → EitherWay R X (r, w)
      → ((a : A) → Splits (R a) S X (f a))
      → EitherWay S X (continue r f w)
  continue-Splits (ok a) w f q next = (next a).at w q
  continue-Splits (err e) w f q next = q

module _ {H D A B : Type 0} {P X Y : World H D → Type 0} {R : A → World H D → Type 0}
    {S : B → World H D → Type 0} where
  pub Splits-try_else :
      (m : Action H D A) (handler : Error → Action H D B) (f : A → Action H D B)
      → Splits P R Y m
      → ((e : Error) → Splits Y S X (handler e))
      → ((a : A) → Splits (R a) S X (f a))
      → Splits P S X (try_else m handler f)
  unfolding try_else
  Splits-try_else m handler f first caught next = record {
    at = λ w p. settle-Splits X Y R S (m w).0 (m w).1 handler f (first.at w p) caught next;
  }

module _ {H D A B : Type 0} {P X : World H D → Type 0} {R : A → World H D → Type 0}
    {S : B → World H D → Type 0} where
  pub Splits-bind :
      (m : Action H D A) (f : A → Action H D B)
      → Splits P R X m
      → ((a : A) → Splits (R a) S X (f a))
      → Splits P S X (m >>= f)
  unfolding ◌>>=◌
  Splits-bind m f first next = record {
    at = λ w p. continue-Splits X R S (m w).0 (m w).1 f (first.at w p) next;
  }

module _ {P E H D A : Type 0} (part : World P E → World H D)
    (replace : World H D → World P E → World P E) (Y : World P E → Type 0)
    (R : A → World P E → Type 0) (X : World H D → Type 0) (S : A → World H D → Type 0) where
  within_part :
      (r : Result A) (v : World H D) (w : World P E)
      → EitherWay S X (r, v)
      → ((a : A) → S a v → R a (replace v w))
      → (X v → Y (replace v w))
      → EitherWay R Y (r, replace v w)
  within_part (ok a) v w q ret rai = ret a q
  within_part (err e) v w q ret rai = rai q

module _ {P E H D A : Type 0} (part : World P E → World H D)
    (replace : World H D → World P E → World P E) {Q Y : World P E → Type 0}
    {R : A → World P E → Type 0} {F X : World H D → Type 0} {S : A → World H D → Type 0} where
  -- a method of a part, from what is known of the part and of the rest
  pub Splits-within :
      (m : Action H D A)
      → Splits F S X m
      → ((w : World P E) → Q w → F (part w))
      → ((w : World P E) (v : World H D) (a : A) → Q w → S a v → R a (replace v w))
      → ((w : World P E) (v : World H D) → Q w → X v → Y (replace v w))
      → Splits Q R Y (within part replace m)
  unfolding within
  Splits-within m t here ret rai = record {
    at = λ w q.
        within_part part replace Y R X S (m (part w)).0 (m (part w)).1 w (t.at (part w) (here w q))
          (λ a s. ret w _ a q s) (λ x. rai w _ q x);
  }

-- any method at all
pub Splits-any :
    {H D A : Type 0} (m : Action H D A) → Splits (λ w. Unit {0}) (λ a w. Unit {0}) (λ w. Unit {0}) m
Splits-any m = record { at = λ w u. both_ways (λ v. Unit {0}) (m w).0 (m w).1 tt }
