-- ===== src/Errors.antt =====
-- errors.py, and the other exception classes that the provider raises or meets. An exception is
-- its class with its text, since `_raise_if_concurrent` reads the text. A pure function that may
-- raise returns a `Result`.
use activegraph_surrealdb.Prelude.{String, ◌≡◌, refl, Bool, true, false}

pub data ErrorClass : Type 0 where
  configuration surreal_provider ledger_integrity concurrent_writer fork_point_not_found
        run_already_exists unsupported_compacted_run closed_store projection_unavailable
        pack_harness :
      ErrorClass
  -- of Python, of ActiveGraph, and of the SurrealDB SDK
  value_error key_error timeout non_serializable duplicate_event event_not_found sdk_error not_found
        import_error :
      ErrorClass

pub record Error : Type 0 where
  pub kind : ErrorClass
  pub message : String

pub data Result {ℓ} (A : Type ℓ) : Type ℓ where
  ok : A → Result A
  err : Error → Result A

abbrev pub raised {ℓ} : {A : Type ℓ} → ErrorClass → String → Result A
raised c m = err (record { kind = c; message = m })

infixl 10 ◌>>=◌ ◌>>◌
-- A raise passes over what follows.
abbrev pub ◌>>=◌ {ℓ κ} : {A : Type ℓ} {B : Type κ} → Result A → (A → Result B) → Result B
err raised_error >>= next = err raised_error
ok value >>= next = next value

abbrev pub ◌>>◌ {ℓ} : {B : Type ℓ} → Result (Unit {0}) → Result B → Result B
first >> rest = first >>= λ _. rest

-- `if test: raise …`
abbrev pub raise_if : Bool → ErrorClass → String → Result (Unit {0})
raise_if true c m = raised c m
raise_if false c m = ok tt

-- What a successful chain has passed through.
pub bind-eq-ok {ℓ κ} :
    {A : Type ℓ} {B : Type κ} (r : Result A) (next : A → Result B) {last : B}
    → (r >>= next) ≡ ok last
    → (value : A) × (r ≡ ok value) × (next value ≡ ok last)
bind-eq-ok (err raised_error) next e = cc
bind-eq-ok (ok value) next e = (value, refl, e)

pub raise_if-eq-ok :
    (b : Bool) (c : ErrorClass) (m : String) {u : Unit {0}} → raise_if b c m ≡ ok u → b ≡ false
raise_if-eq-ok true c m h = cc
raise_if-eq-ok false c m h = refl

pub data Outcome {ℓ} {A : Type ℓ} (r : Result A) : Type ℓ where
  returned : (a : A) → r ≡ ok a → Outcome r
  failed : (e : Error) → r ≡ err e → Outcome r

pub outcome {ℓ} : {A : Type ℓ} (r : Result A) → Outcome r
outcome (ok a) = returned a refl
outcome (err e) = failed e refl
