-- ===== src/Connection/Install.antt =====
-- connection.py: what `ensure_schema` leaves in the database, with no other session at work.
use activegraph_surrealdb.Prelude.{
  ℕ, ◌≡◌, ◌⊎◌, inl, inr, refl, sym, subst, ap, ◌∙◌, true, false, none, some, ltb, arith, String,
  Option, Bool-cases, if◌then◌else◌,
}
use activegraph_surrealdb.Errors.{Error, Result, ok, err, raised, ledger_integrity, not_found}
use activegraph_surrealdb.Exec.{World}
use activegraph_surrealdb.Platform.{Platform}
use activegraph_surrealdb.Strings.{Text}
use activegraph_surrealdb.Connection.Statements.{schema_statements}
use activegraph_surrealdb.Connection.Schema.{
  SchemaRow, ConnectionHandle, SchemaServer, schema_version, assert_schema_version,
  apply_statements, install, ensure_schema, older,
}
use activegraph_surrealdb.Connection.Applying.{
  SchemaLaws, connection_steps, calm, defined_by, stored-defined_by, then_defined,
  apply_statements-calm, All-Elem,
}
use activegraph_surrealdb.Connection.Versions.{IsSupported, assert_schema_version-Refuses}

module _ ⦃p : Platform⦄ ⦃c : SchemaServer⦄ (text : Text)
    (laws : SchemaLaws c (schema_statements text)) (h : ConnectionHandle) (d : c.State)
    (open_connection : h.closed ≡ false) where
  abbrev installed : c.State
  installed = defined_by (schema_statements text) d

  read_installed : c.read installed ≡ ok (laws.stored d)
  read_installed =
      laws.read_defined installed
        (then_defined (schema_statements text) laws (schema_statements text) d laws.has_table)
      ∙ ap ok (stored-defined_by (schema_statements text) laws (schema_statements text) d)

  applied : apply_statements (schema_statements text) (calm h d) ≡ (ok tt, calm h installed)
  applied =
      apply_statements-calm (schema_statements text) laws (schema_statements text) h d
        open_connection (All-Elem (schema_statements text) (schema_statements text) (λ t m. m))

  abbrev new_row : SchemaRow
  new_row = record { version = some schema_version; installed_at = c.time_now installed }

  -- the first read sees what is stored, whether or not the table is there
  first_answer :
      (c.read d ≡ ok (laws.stored d))
      ⊎ ((laws.stored d ≡ none) × (m : String) × (c.read d ≡ raised not_found m))
  first_answer = elim (Bool-cases (laws.defined d)) [
    | inl there ↦ inl (laws.read_defined d there)
    | inr not_there ↦ inr (laws.read_undefined d not_there)
  ]

  install_fresh :
      laws.stored d ≡ none
      → install text (calm h d)
        ≡ (ok 3, calm (record h { schema_ready = true }) (c.create new_row installed).1)
  unfolding connection_steps install assert_schema_version
  install_fresh empty =
      let stored_there =
        stored-defined_by (schema_statements text) laws (schema_statements text) d in
      let there =
        then_defined (schema_statements text) laws (schema_statements text) d laws.has_table in
      let (made, kept, readable) = laws.create_ok new_row installed there (stored_there ∙ empty) in
      let again = laws.read_defined (c.create new_row installed).1 readable ∙ ap ok kept in
      elim first_answer [
        | inl answer ↦
            ground (arith, open_connection, answer, empty, applied, read_installed, made, again)
        | inr (_, m, answer) ↦
            ground (arith, open_connection, answer, empty, applied, read_installed, made, again)
      ]

  existing_answer : (row : SchemaRow) → laws.stored d ≡ some row → c.read d ≡ ok (some row)
  existing_answer row there = elim first_answer [
    | inl answer ↦ answer ∙ ap ok there
    | inr (empty, m, answer) ↦ absurd (cc (empty, there))
  ]

  -- The version is raised to the current one, or is it already.
  install_existing :
      (row : SchemaRow)
      → laws.stored d ≡ some row
      → (supported : IsSupported row)
      → install text (calm h d) ≡ (
        ok 3,
        calm
            (record h { schema_ready = true })
            (if ltb supported.version 3 then c.set_version 3 installed else installed),
      )
  unfolding connection_steps install assert_schema_version
  install_existing row there supported = ground (
    arith,
    open_connection,
    existing_answer row there,
    applied,
    read_installed,
    there,
    supported.stored,
    supported.at_least,
    supported.at_most,
  )

  ensure_schema-install :
      h.schema_ready ≡ false → ensure_schema text (calm h d) ≡ install text (calm h d)
  unfolding connection_steps ensure_schema
  ensure_schema-install not_ready = ground (arith, open_connection, not_ready)

  -- the database after the statements, and then after the record was made, raised or left alone
  abbrev pub recorded : Option SchemaRow → c.State
  recorded none = (c.create new_row installed).1
  recorded (some row) = if older row.version then c.set_version 3 installed else installed

  -- the whole database after an installation, and the version record in it
  pub record IsInstalled (after : Result ℕ × World ConnectionHandle c.State) : Type 0 where
    pub answer : after.0 ≡ ok 3
    pub ready : after.1.handle ≡ record h { schema_ready = true }
    pub carried_out : after.1.db ≡ recorded (laws.stored d)
    pub row : SchemaRow
    pub stored : laws.stored after.1.db ≡ some row
    pub current : row.version ≡ some 3

  existing-IsInstalled :
      (row : SchemaRow)
      → laws.stored d ≡ some row
      → IsSupported row
      → IsInstalled (install text (calm h d))
  existing-IsInstalled row there supported =
      let kept =
        stored-defined_by (schema_statements text) laws (schema_statements text) d ∙ there in
      subst IsInstalled (sym (install_existing row there supported))
        (elim (Bool-cases (ltb supported.version 3)) [
          | inl outdated ↦ record {
            answer = refl;
            ready = refl;
            carried_out = rw (there, supported.stored, outdated);
            row = record row { version = some 3 };
            stored = rw outdated (laws.stored-set_version 3 installed row kept);
            current = refl;
          }
          | inr newest ↦ record {
            answer = refl;
            ready = refl;
            carried_out = rw (there, supported.stored, newest);
            row = row;
            stored = rw newest kept;
            current = ground (arith, supported.stored, newest, supported.at_most);
          }
        ])

  -- On an open connection that has not yet found the schema ready, with no other session at work,
  -- `ensure_schema` of a database with no version record, or with one of a supported version, returns
  -- the current version. The database is then as all statements of the text leave it, carried out in
  -- their order, and after them CREATE of the record if there was none, UPDATE of its version if that
  -- was older, and nothing else; the stored record has the current version, and the connection knows
  -- that the schema is there.
  pub ensure_schema-IsInstalled :
      h.schema_ready ≡ false
      → (laws.stored d ≡ none) ⊎ ((row : SchemaRow) × (laws.stored d ≡ some row) × IsSupported row)
      → IsInstalled (ensure_schema text (calm h d))
  ensure_schema-IsInstalled not_ready (inl empty) =
      let there =
        then_defined (schema_statements text) laws (schema_statements text) d laws.has_table in
      let stored_there =
        stored-defined_by (schema_statements text) laws (schema_statements text) d in
      let (made, kept, readable) = laws.create_ok new_row installed there (stored_there ∙ empty) in
      subst IsInstalled (sym (ensure_schema-install not_ready ∙ install_fresh empty)) (record {
        answer = refl;
        ready = refl;
        carried_out = rw empty;
        row = new_row;
        stored = kept;
        current = refl;
      })
  ensure_schema-IsInstalled not_ready (inr (row, there, supported)) =
      subst IsInstalled (sym (ensure_schema-install not_ready))
        (existing-IsInstalled row there supported)

  refused_install :
      (row : SchemaRow) (e : Error)
      → laws.stored d ≡ some row
      → assert_schema_version row ≡ err e
      → install text (calm h d) ≡ (err e, calm h d)
  unfolding connection_steps install
  refused_install row e there refused =
      ground (arith, open_connection, existing_answer row there, refused)

  -- On an open connection that has not yet found the schema ready, with no other session at work,
  -- `ensure_schema` of a database whose version record is of no supported version raises
  -- LedgerIntegrityError before it carries out any statement: nothing is changed.
  pub ensure_schema_refuses :
      (row : SchemaRow)
      → h.schema_ready ≡ false
      → laws.stored d ≡ some row
      → ¬ IsSupported row
      → (message : String) × (ensure_schema text (calm h d)
          ≡ (raised ledger_integrity message, calm h d))
  ensure_schema_refuses row not_ready there unsupported =
      let (message, refused) = assert_schema_version-Refuses row unsupported in
      (message, ensure_schema-install not_ready ∙ refused_install row _ there refused)
