-- ===== src/Exec.antt =====
-- Methods that talk to the server and may raise. A `World` is the store object's own fields, the
-- database, and a schedule that says, for each SDK call to come, what other sessions commit before
-- it and whether it is answered. What was written before a raise stays written.
pub mod Triples
pub mod Splits
pub mod Held
use activegraph_surrealdb.Prelude.{String, Bool, List, [], ◌∷◌}
use activegraph_surrealdb.Errors.{
  ErrorClass, Error, Result, ok, err, raised, sdk_error, raise_if as result_raise_if,
}

-- `refused` calls have had no effect; of a `lost` call the effect stands, but not the answer.
pub data Answer : Type 0 where
  answered : Answer
  refused lost : String → Answer

pub record Tick (D : Type 0) : Type 0 where
  pub others : D → D
  pub answer : Answer

pub record World (H D : Type 0) : Type 0 where
  pub handle : H
  pub db : D
  pub schedule : List (Tick D)

abbrev pub Action : Type 0 → Type 0 → Type 0 → Type 0
Action H D A = World H D → Result A × World H D

abbrev pub answer_with : {A : Type 0} → Answer → Result A → Result A
answer_with answered r = r
answer_with (refused m) r = raised sdk_error m
answer_with (lost m) r = raised sdk_error m

abbrev pub effect_of : {D : Type 0} → Answer → D → D → D
effect_of answered before after = after
effect_of (refused m) before after = before
effect_of (lost m) before after = after

module _ {H D A : Type 0} where
  unfoldable pub pure : A → Action H D A
  pure a w = (ok a, w)

  unfoldable pub fail : Error → Action H D A
  fail e w = (err e, w)

  unfoldable pub lift : Result A → Action H D A
  lift r w = (r, w)

  unfoldable pub gets : (H → A) → Action H D A
  gets f w = (ok (f w.handle), w)

  abbrev pub run_call : (D → Result A × D) → World H D → List (Tick D) → Result A × World H D
  run_call f w [] = let (r, d) = f w.db in (r, record w { db = d; schedule = [] })
  run_call f w (t ∷ rest) =
      let d = t.others w.db in
      let (r, d') = f d in
      (answer_with t.answer r, record w { db = effect_of t.answer d d'; schedule = rest })

  -- One SDK call: what others commit, then the call.
  unfoldable pub call : (D → Result A × D) → Action H D A
  call f w = run_call f w w.schedule

module _ {H D : Type 0} where
  unfoldable pub modify : (H → H) → Action H D (Unit {0})
  modify f w = (ok tt, record w { handle = f w.handle })

  unfoldable pub raise_if : Bool → ErrorClass → String → Action H D (Unit {0})
  raise_if b c m w = (result_raise_if b c m, w)

module _ {H D A : Type 0} where
  -- a call that only reads
  unfoldable pub ask : (D → Result A) → Action H D A
  unfolding call
  ask f = call (λ d. (f d, d))

module _ {H D A B : Type 0} where
  abbrev pub continue : Result A → (A → Action H D B) → Action H D B
  continue (ok a) f w = f a w
  continue (err e) f w = (err e, w)

  infixl 10 ◌>>=◌ ◌>>◌
  unfoldable pub ◌>>=◌ : Action H D A → (A → Action H D B) → Action H D B
  ◌>>=◌ m f w = let (r, w') = m w in continue r f w'

  abbrev pub ◌>>◌ : Action H D A → Action H D B → Action H D B
  m >> n = m >>= λ _. n

  abbrev pub settle : Result A → (A → Action H D B) → (Error → Action H D B) → Action H D B
  settle (ok a) f handler w = f a w
  settle (err e) f handler w = handler e w

  -- `try: m  except BaseException as exc: handler(exc)  else: f`
  unfoldable pub try_else :
      Action H D A → (Error → Action H D B) → (A → Action H D B) → Action H D B
  try_else m handler f w = let (r, w') = m w in settle r f handler w'

module _ {P E H D A : Type 0} where
  -- a method of an object, in a world that the object's own world is a part of
  unfoldable pub within :
      (World P E → World H D) → (World H D → World P E → World P E) → Action H D A → Action P E A
  within part replace m w = let (r, v) = m (part w) in (r, replace v w)
