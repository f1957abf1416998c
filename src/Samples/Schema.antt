-- ===== src/Samples/Schema.antt =====
-- Tests and witnesses for the schema installation of connection.py.
use activegraph_surrealdb.Prelude.{
  ℕ, ◌≡◌, refl, ap, inl, inr, arith, String, Bool, true, false, Option, none, some, [], ◌∷◌, All,
  codes, nat_eq,
}
use activegraph_surrealdb.Errors.{Result, ok, raised, not_found, sdk_error, ledger_integrity}
use activegraph_surrealdb.Strings.{
  Text, is_space, drop_while, trim_right, strip, starts_with, split_on, lines_after, is_line_end,
  join_lines,
}
use activegraph_surrealdb.Connection.Statements.{
  is_kept_line, uncommented, fragments, schema_statements, IsStatement, schema_statements-All,
}
use activegraph_surrealdb.Connection.Schema.{
  SchemaRow, ConnectionHandle, SchemaServer, ensure_schema,
}
use activegraph_surrealdb.Connection.Applying.{SchemaLaws, calm}
use activegraph_surrealdb.Connection.Versions.{IsSupported}
use activegraph_surrealdb.Connection.Install.{
  IsInstalled, ensure_schema-IsInstalled, ensure_schema_refuses,
}
use activegraph_surrealdb.Samples.Events.{sample_platform}

-- no table, or the table with or without its record
abbrev Store : Type 0
Store = Option (Option SchemaRow)

abbrev read_store : Store → Result (Option SchemaRow)
read_store none = raised not_found "the table ag_schema does not exist"
read_store (some row) = ok row

abbrev with_table : Store → Store
with_table none = some none
with_table (some row) = some row

abbrev create_row : SchemaRow → Store → Result (Unit {0}) × Store
create_row new none = (raised not_found "the table ag_schema does not exist", none)
create_row new (some none) = (ok tt, some (some new))
create_row new (some (some row)) = (raised sdk_error "already exists", some (some row))

abbrev versioned : ℕ → Store → Store
versioned version none = none
versioned version (some none) = some none
versioned version (some (some row)) = some (some (record row { version = some version }))

-- Every statement makes the table.
instance abbrev schema_server : SchemaServer
schema_server = record {
  State = Store;
  read = read_store;
  define = λ text d. (ok tt, with_table d);
  time_now = λ d. "t0";
  create = create_row;
  set_version = versioned;
  close_session = λ d. (ok tt, d);
  close_socket = λ d. (ok tt, d);
}

abbrev source : Text
source = codes "DEFINE A;\n  -- note; more\nDEFINE\nB ; \n"

unfoldable source_runs : Unit {0}
unfolding schema_statements uncommented is_kept_line fragments split_on join_lines strip starts_with
    drop_while is_space lines_after is_line_end trim_right
source_runs = tt

schema_statements_test : schema_statements source ≡ codes "DEFINE A;" ∷ codes "DEFINE\nB;" ∷ []
unfolding source_runs
schema_statements_test = refl

schema_statements-All_example : All IsStatement (schema_statements source)
schema_statements-All_example = schema_statements-All source

abbrev stored_in : Store → Option SchemaRow
stored_in none = none
stored_in (some row) = row

abbrev has_table : Store → Bool
has_table none = false
has_table (some row) = true

stored_in-with_table : (d : Store) → stored_in (with_table d) ≡ stored_in d
stored_in-with_table none = refl
stored_in-with_table (some row) = refl

with_table_made : (d : Store) → has_table (with_table d) ≡ true
with_table_made none = refl
with_table_made (some row) = refl

read_made : (d : Store) → has_table d ≡ true → read_store d ≡ ok (stored_in d)
read_made none h = absurd (cc)
read_made (some row) h = refl

read_missing :
    (d : Store)
    → has_table d ≡ false
    → (stored_in d ≡ none) × (m : String) × (read_store d ≡ raised not_found m)
read_missing none h = (refl, _, refl)
read_missing (some row) h = absurd (cc)

create_made :
    (row : SchemaRow) (d : Store)
    → has_table d ≡ true
    → stored_in d ≡ none
    → ((create_row row d).0 ≡ ok tt)
      × (stored_in (create_row row d).1 ≡ some row)
      × (has_table (create_row row d).1 ≡ true)
create_made row none h k = absurd (cc)
create_made row (some none) h k = (refl, refl, refl)
create_made row (some (some old)) h k = absurd (cc)

versioned_row :
    (version : ℕ) (d : Store) (row : SchemaRow)
    → stored_in d ≡ some row
    → stored_in (versioned version d) ≡ some (record row { version = some version })
versioned_row version none row h = absurd (cc)
versioned_row version (some none) row h = absurd (cc)
versioned_row version (some (some old)) row h =
    let e : old ≡ row = cc in ap {A = SchemaRow} (λ r. some (record r { version = some version })) e

source-SchemaLaws : SchemaLaws schema_server (schema_statements source)
unfolding source_runs
source-SchemaLaws = record {
  stored = stored_in;
  defined = has_table;
  read_defined = read_made;
  read_undefined = read_missing;
  define_ok = λ text d m. refl;
  stored-define = λ text d. stored_in-with_table d;
  defined-define = λ text d h. with_table_made d;
  table_statement = codes "DEFINE A;";
  has_table = inl refl;
  defined-table = with_table_made;
  create_ok = create_made;
  stored-set_version = versioned_row;
}

abbrev idle : ConnectionHandle
idle = record { closed = false; schema_ready = false; has_session = true }

abbrev row_at : ℕ → SchemaRow
row_at version = record { version = some version; installed_at = "t0" }

unsupported : ¬ IsSupported (row_at 9)
unsupported s = let e : 9 ≡ s.version = cc (s.stored) in omega (arith, e, s.at_most)

ensure_schema-IsInstalled_example :
    IsInstalled source source-SchemaLaws idle
      (some (some (row_at 2)))
      refl
      (ensure_schema source (calm idle (some (some (row_at 2)))))
unfolding source-SchemaLaws
ensure_schema-IsInstalled_example =
    ensure_schema-IsInstalled source source-SchemaLaws idle (some (some (row_at 2))) refl refl (
      inr (
        row_at 2,
        refl,
        record { version = 2; stored = refl; at_least = omega arith; at_most = omega arith },
      ))

ensure_schema_refuses_example :
    (message : String) × (ensure_schema source (calm idle (some (some (row_at 9))))
      ≡ (raised ledger_integrity message, calm idle (some (some (row_at 9)))))
unfolding source-SchemaLaws
ensure_schema_refuses_example =
    ensure_schema_refuses source source-SchemaLaws idle (some (some (row_at 9))) refl (row_at 9)
      refl refl unsupported
