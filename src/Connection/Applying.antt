-- ===== src/Connection/Applying.antt =====
-- connection.py: what carrying out the statements of schema.surql does, and what the code relies on of
-- the server.
use activegraph_surrealdb.Prelude.{
  ℕ, ◌≡◌, inl, inr, refl, subst, ◌∙◌, Bool, true, false, Option, none, some, List, [], ◌∷◌, All,
  Elem, arith, String,
}
use activegraph_surrealdb.Errors.{ok, raised, not_found}
use activegraph_surrealdb.Exec.{
  World, pure, fail, lift, gets, modify, raise_if, call, try_else, ◌>>=◌,
}
use activegraph_surrealdb.Strings.{Text}
use activegraph_surrealdb.Connection.Schema.{
  SchemaRow, ConnectionHandle, SchemaServer, ensure_open, query, apply_statements, create_record,
}

-- What the code relies on, for the statements of one text: each is carried out and leaves the version
-- record alone, and afterwards the record can be read; before them the table may be missing. CREATE
-- makes the record if it is not there, and UPDATE sets its version.
pub record SchemaLaws (c : SchemaServer) (statements : List Text) : Type 0 where
  pub stored : c.State → Option SchemaRow
  pub defined : c.State → Bool
  pub read_defined : (d : c.State) → defined d ≡ true → c.read d ≡ ok (stored d)
  pub read_undefined :
      (d : c.State)
      → defined d ≡ false
      → (stored d ≡ none) × (m : String) × (c.read d ≡ raised not_found m)
  pub define_ok : (text : Text) (d : c.State) → Elem text statements → (c.define text d).0 ≡ ok tt
  pub stored-define : (text : Text) (d : c.State) → stored (c.define text d).1 ≡ stored d
  pub defined-define :
      (text : Text) (d : c.State) → defined d ≡ true → defined (c.define text d).1 ≡ true
  pub table_statement : Text
  pub has_table : Elem table_statement statements
  pub defined-table : (d : c.State) → defined (c.define table_statement d).1 ≡ true
  pub create_ok :
      (row : SchemaRow) (d : c.State)
      → defined d ≡ true
      → stored d ≡ none
      → ((c.create row d).0 ≡ ok tt)
        × (stored (c.create row d).1 ≡ some row)
        × (defined (c.create row d).1 ≡ true)
  pub stored-set_version :
      (version : ℕ) (d : c.State) (row : SchemaRow)
      → stored d ≡ some row
      → stored (c.set_version version d) ≡ some (record row { version = some version })

unfoldable pub connection_steps : Unit {0}
unfolding pure fail lift gets modify raise_if call try_else ◌>>=◌ ensure_open query create_record
connection_steps = tt

module _ ⦃c : SchemaServer⦄ where
  abbrev pub calm : ConnectionHandle → c.State → World ConnectionHandle c.State
  calm h d = record { handle = h; db = d; schedule = [] }

  -- the state after the statements, in order
  abbrev pub defined_by : List Text → c.State → c.State
  defined_by [] d = d
  defined_by (text ∷ rest) d = defined_by rest (c.define text d).1

module _ ⦃c : SchemaServer⦄ (statements : List Text) (laws : SchemaLaws c statements) where
  pub stored-defined_by :
      (texts : List Text) (d : c.State) → laws.stored (defined_by texts d) ≡ laws.stored d
  stored-defined_by [] d = refl
  stored-defined_by (text ∷ rest) d =
      stored-defined_by rest (c.define text d).1 ∙ laws.stored-define text d

  still_defined :
      (texts : List Text) (d : c.State)
      → laws.defined d ≡ true
      → laws.defined (defined_by texts d) ≡ true
  still_defined [] d h = h
  still_defined (text ∷ rest) d h =
      still_defined rest (c.define text d).1 (laws.defined-define text d h)

  pub then_defined :
      (texts : List Text) (d : c.State)
      → Elem laws.table_statement texts
      → laws.defined (defined_by texts d) ≡ true
  then_defined [] d h = absurd h
  then_defined (text ∷ rest) d (inl e) =
      still_defined rest (c.define text d).1
        (subst (λ t. laws.defined (c.define t d).1 ≡ true) e (laws.defined-table d))
  then_defined (text ∷ rest) d (inr later) = then_defined rest (c.define text d).1 later

  pub apply_statements-calm :
      (texts : List Text) (h : ConnectionHandle) (d : c.State)
      → h.closed ≡ false
      → All (λ t. Elem t statements) texts
      → apply_statements texts (calm h d) ≡ (ok tt, calm h (defined_by texts d))
  unfolding connection_steps apply_statements
  apply_statements-calm [] h d o k = refl
  apply_statements-calm (text ∷ rest) h d o k =
      ground (
        arith,
        o,
        laws.define_ok text d k.0,
        apply_statements-calm rest h (c.define text d).1 o k.1,
      )

pub All-Elem : (xs ys : List Text) → ((t : Text) → Elem t xs → Elem t ys) → All (λ t. Elem t ys) xs
All-Elem [] ys h = tt
All-Elem (x ∷ xs) ys h = (h x (inl refl), All-Elem xs ys (λ t m. h t (inr m)))
