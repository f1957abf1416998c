-- ===== src/Connection/Live.antt =====
-- connection.py: what keeps the socket of a connection as it is.
use activegraph_surrealdb.Prelude.{
  ℕ, ◌≡◌, refl, ◌∙◌, Bool, true, false, Option, none, some, List, [], ◌∷◌, Bool-cases, inl, inr,
  if◌then◌else◌,
}
use activegraph_surrealdb.Errors.{Error, Result, ok, err}
use activegraph_surrealdb.Exec.{Tick, World, run_call, pure, gets, modify, call}
use activegraph_surrealdb.Exec.Triples.{
  Triple, Triple-pure, Triple-fail, Triple-lift, Triple-raise_if, Triple-bind, Triple-try_else,
  weaken,
}
use activegraph_surrealdb.Platform.{Platform}
use activegraph_surrealdb.Strings.{Text}
use activegraph_surrealdb.Connection.Statements.{schema_statements}
use activegraph_surrealdb.Connection.Schema.{
  SchemaRow, ConnectionHandle, SchemaServer, ConnectionMethod, ensure_open, query, read_schema,
  missing_table, is_not_found, apply_statements, unless_created, create_record, create_if_missing,
  upgrade, set_ready, install, ensure_schema, schema_version,
}
use activegraph_surrealdb.Connection.Opening.{Sdk}

abbrev pub is_ok : {A : Type 0} → Result A → Bool
is_ok (ok a) = true
is_ok (err e) = false

-- What the code relies on: a socket is open from `Surreal(…)` on until it is closed.
pub record SocketLaws (c : SchemaServer) (sdk : Sdk c) : Type 0 where
  pub connect-live :
      (e : Text) (d : c.State) → sdk.live (sdk.connect e d).1 ≡ is_ok (sdk.connect e d).0
  pub close_socket-live : (d : c.State) → sdk.live (c.close_socket d).1 ≡ false
  pub signin-live : (u v : Text) (d : c.State) → sdk.live (sdk.signin u v d).1 ≡ sdk.live d
  pub use_database-live :
      (u v : Text) (d : c.State) → sdk.live (sdk.use_database u v d).1 ≡ sdk.live d
  pub new_session-live : (d : c.State) → sdk.live (sdk.new_session d).1 ≡ sdk.live d
  pub signin_session-live :
      (u v : Text) (d : c.State) → sdk.live (sdk.signin_session u v d).1 ≡ sdk.live d
  pub use_session-live :
      (u v : Text) (d : c.State) → sdk.live (sdk.use_session u v d).1 ≡ sdk.live d
  pub close_session-live : (d : c.State) → sdk.live (c.close_session d).1 ≡ sdk.live d
  pub define-live : (text : Text) (d : c.State) → sdk.live (c.define text d).1 ≡ sdk.live d
  pub create-live : (row : SchemaRow) (d : c.State) → sdk.live (c.create row d).1 ≡ sdk.live d
  pub set_version-live : (d : c.State) → sdk.live (c.set_version schema_version d) ≡ sdk.live d

abbrev pub StillOpen : ConnectionHandle → Type 0
StillOpen h = h.closed ≡ false

abbrev pub AnyHandle : ConnectionHandle → Type 0
AnyHandle h = Unit

module _ ⦃c : SchemaServer⦄ ⦃sdk : Sdk c⦄ (laws : SocketLaws c sdk) where
  -- nobody else is at work, the socket is open, and something holds of the connection's fields
  pub record On (K : ConnectionHandle → Type 0) (w : World ConnectionHandle c.State) : Type 0 where
    pub quiet : w.schedule ≡ []
    pub live : sdk.live w.db ≡ true
    pub held : K w.handle

  pub record Off (w : World ConnectionHandle c.State) : Type 0 where
    pub quiet : w.schedule ≡ []
    pub dead : sdk.live w.db ≡ false

  module _ (K : ConnectionHandle → Type 0) where
    -- what keeps the socket as it is, whether it returns or raises
    abbrev KeepsOn : {A : Type 0} → ConnectionMethod A → Type 0
    KeepsOn m = Triple (On K) (λ a. Unit) m

    run_call-On :
        {A : Type 0} (f : c.State → Result A × c.State) (w : World ConnectionHandle c.State)
        (ticks : List (Tick c.State))
        → ((d : c.State) → sdk.live (f d).1 ≡ sdk.live d)
        → ticks ≡ []
        → On K w
        → On K (run_call f w ticks).1
    run_call-On f w ticks same e a =
        rw e (record { quiet = refl; live = same w.db ∙ a.live; held = a.held })

    pub call-KeepsOn :
        {A : Type 0} (f : c.State → Result A × c.State)
        → ((d : c.State) → sdk.live (f d).1 ≡ sdk.live d)
        → KeepsOn (call f)
    unfolding call
    call-KeepsOn f same = record {
      at = λ w a. (run_call-On f w w.schedule same a.quiet a, λ b e. tt);
    }

    gets-KeepsOn : {A : Type 0} (f : ConnectionHandle → A) → KeepsOn (gets f)
    unfolding gets
    gets-KeepsOn f = record { at = λ w a. (a, λ b e. tt) }

    ensure_open-KeepsOn : KeepsOn ensure_open
    unfolding ensure_open
    ensure_open-KeepsOn =
        Triple-bind _ _ (gets-KeepsOn _)
          λ closed _. weaken _ _ _ (λ u e. tt) (Triple-raise_if closed _ _)

    query-KeepsOn :
        {A : Type 0} (f : c.State → Result A × c.State)
        → ((d : c.State) → sdk.live (f d).1 ≡ sdk.live d)
        → KeepsOn (query f)
    unfolding query
    query-KeepsOn f same = Triple-bind _ _ ensure_open-KeepsOn λ _ _. call-KeepsOn f same

    read_schema-KeepsOn : KeepsOn read_schema
    read_schema-KeepsOn = query-KeepsOn _ (λ d. refl)

    missing_table-KeepsOn : (exc : Error) → KeepsOn (missing_table exc)
    missing_table-KeepsOn exc = elim (Bool-cases (is_not_found exc.kind)) [
      | inl missing ↦ rw missing (Triple-pure none tt)
      | inr other ↦ rw other (Triple-fail exc)
    ]

    apply_statements-KeepsOn : (statements : List Text) → KeepsOn (apply_statements statements)
    unfolding apply_statements
    apply_statements-KeepsOn [] = Triple-pure tt tt
    apply_statements-KeepsOn (statement ∷ rest) =
        Triple-bind _ _ (query-KeepsOn _ (laws.define-live statement))
          λ _ _. apply_statements-KeepsOn rest

    unless_created-KeepsOn :
        (exc : Error) (row : Option SchemaRow) → KeepsOn (unless_created exc row)
    unless_created-KeepsOn exc none = Triple-fail exc
    unless_created-KeepsOn exc (some row) = Triple-pure (some row) tt

    create_record-KeepsOn : KeepsOn create_record
    unfolding create_record
    create_record-KeepsOn =
        Triple-bind _ _ (query-KeepsOn _ (λ d. refl)) λ now _. query-KeepsOn _ (laws.create-live _)

    create_if_missing-KeepsOn : (row : Option SchemaRow) → KeepsOn (create_if_missing row)
    create_if_missing-KeepsOn (some row) = Triple-pure (some row) tt
    create_if_missing-KeepsOn none =
        Triple-try_else _ _ _ create_record-KeepsOn
          (λ exc. Triple-bind _ _ read_schema-KeepsOn λ row _. unless_created-KeepsOn exc row)
          (λ _ _. read_schema-KeepsOn)

    upgrade-KeepsOn : (b : Bool) → KeepsOn (upgrade b)
    upgrade-KeepsOn false = Triple-pure tt tt
    upgrade-KeepsOn true = query-KeepsOn _ laws.set_version-live

    set_ready-KeepsOn :
        ((h : ConnectionHandle) → K h → K (record h { schema_ready = true })) → KeepsOn set_ready
    unfolding modify
    set_ready-KeepsOn k = record {
      at = λ w a. (record { quiet = a.quiet; live = a.live; held = k w.handle a.held }, λ u e. tt);
    }

    install-KeepsOn :
        ⦃p : Platform⦄ (text : Text)
        → ((h : ConnectionHandle) → K h → K (record h { schema_ready = true }))
        → KeepsOn (install text)
    unfolding install
    install-KeepsOn text k =
        Triple-bind _ _
          (Triple-try_else _ _ _ read_schema-KeepsOn missing_table-KeepsOn
            (λ row _. Triple-pure row tt))
          λ existing _. Triple-bind _ _ (Triple-lift _ (λ u e. tt)) λ _ _.
            Triple-bind _ _ (apply_statements-KeepsOn (schema_statements text)) λ _ _.
              Triple-bind _ _ read_schema-KeepsOn λ current _.
                Triple-bind _ _ (create_if_missing-KeepsOn current) λ created _.
                  Triple-bind _ _ (Triple-lift _ (λ u e. tt)) λ row _.
                    Triple-bind _ _ (Triple-lift _ (λ u e. tt)) λ _ _.
                      Triple-bind _ _ (upgrade-KeepsOn _)
                        λ _ _. Triple-bind _ _ (set_ready-KeepsOn k) λ _ _. Triple-pure _ tt

    ready_or-KeepsOn :
        (ready : Bool) (m : ConnectionMethod ℕ)
        → KeepsOn m
        → KeepsOn (if ready then pure schema_version else m)
    ready_or-KeepsOn true m k = Triple-pure _ tt
    ready_or-KeepsOn false m k = k

  pub ensure_schema-KeepsOn :
      ⦃p : Platform⦄ (text : Text)
      → Triple (On StillOpen) (λ (n : ℕ). Unit {0}) (ensure_schema text)
  unfolding ensure_schema
  ensure_schema-KeepsOn text = Triple-bind _ _ (ensure_open-KeepsOn _) λ _ _.
      Triple-bind _ _ (gets-KeepsOn _ _)
        λ ready _. ready_or-KeepsOn _ ready _ (install-KeepsOn _ text (λ h e. e))
