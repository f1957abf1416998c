-- ===== src/Connection/Owning.antt =====
-- connection.py in use: the socket of a store is open from the store's constructor on until its `close`.
use activegraph_surrealdb.Prelude.{String, ◌≡◌, Bool, true, false, if◌then◌else◌}
use activegraph_surrealdb.Errors.{Error}
use activegraph_surrealdb.Exec.{World, Action, pure}
use activegraph_surrealdb.Exec.Triples.{Triple}
use activegraph_surrealdb.Exec.Splits.{
  Splits, Splits-pure, Splits-fail, Splits-keeps, Splits-modify, Splits-raise_if, Splits-gets,
  Splits-bind, Splits-try_else, Splits-within,
}
use activegraph_surrealdb.Platform.{Platform}
use activegraph_surrealdb.Strings.{Text}
use activegraph_surrealdb.Config.{SurrealConfig}
use activegraph_surrealdb.Connection.Schema.{SchemaServer}
use activegraph_surrealdb.Connection.Opening.{Sdk}
use activegraph_surrealdb.Connection.Owner.{
  Owned, check_names, abandon_store, close_connection, close_owned, prepare_store, new_store,
}
use activegraph_surrealdb.Connection.Live.{SocketLaws, On, Off, StillOpen, ensure_schema-KeepsOn}
use activegraph_surrealdb.Connection.Sockets.{connect-Opens, close-Closes}

-- what does not raise
abbrev Never : {A : Type 0} → A → Type 0
Never a = true ≡ false

module _ ⦃c : SchemaServer⦄ ⦃sdk : Sdk c⦄ (laws : SocketLaws c sdk) {H D : Type 0}
    (is_closed : H → Bool) (shut : H → H) where
  -- an open store with an open socket, and a store without one
  pub record Open (w : World (Owned c H D) (Unit {0})) : Type 0 where
    pub connected : On laws StillOpen w.handle.connection
    pub open_store : is_closed w.handle.store.handle ≡ false

  pub record Shut (w : World (Owned c H D) (Unit {0})) : Type 0 where
    pub released : Off laws w.handle.connection

  abandon_store-Splits :
      (exc : Error)
      → Splits Open (λ (u : Unit {0}). Open) Shut (abandon_store {H = H} {D = D} shut exc)
  abandon_store-Splits exc =
      Splits-bind {R = λ u. Shut} _ _
        (Splits-within _ _ _ (close-Closes laws) (λ w o. o.connected)
          (λ w v a o x. record { released = x }) (λ w v o x. record { released = x }))
        λ _.
          Splits-bind {R = λ u. Shut} _ _
            (Splits-within _ _ {F = λ v. Unit {0}} {X = Never} {S = λ u v. Unit {0}} _
              (Splits-modify _ (λ w a. tt)) (λ w o. tt)
              (λ w v a o x. record { released = o.released }) (λ w v o x. absurd (cc (x))))
            λ _. Splits-fail exc (λ w x. x)

  close_connection-Splits :
      Splits Open (λ (u : Unit {0}). Shut) Shut (close_connection {H = H} {D = D} shut)
  close_connection-Splits =
      Splits-bind {R = λ u w. On laws StillOpen w.handle.connection} _ _
        (Splits-within _ _ {F = λ v. Unit {0}} {X = Never} {S = λ u v. Unit {0}} _
          (Splits-modify _ (λ w a. tt)) (λ w o. tt) (λ w v a o x. o.connected)
          (λ w v o x. absurd (cc (x))))
        λ _.
          Splits-within _ _ _ (close-Closes laws) (λ w o. o) (λ w v a o x. record { released = x })
            (λ w v o x. record { released = x })

  close_or :
      (closed : Bool)
      → Splits
          (λ w. Open w × (closed ≡ false))
          (λ (u : Unit {0}). Shut)
          Shut
          (if closed then pure tt else close_connection {H = H} {D = D} shut)
  close_or closed = record { at = λ w (o, e). rw e (close_connection-Splits.at w o) }

  -- After `close` of an open store its socket is closed, whether or not `close` raises.
  pub close_owned-Shuts :
      Splits Open (λ (u : Unit {0}). Shut) Shut (close_owned {H = H} {D = D} is_closed shut)
  unfolding close_owned
  close_owned-Shuts =
      Splits-bind {R = λ closed w. Open w × (closed ≡ false)} _ _
        (Splits-within _ _ {F = λ v. is_closed v.handle ≡ false} {X = Never}
          {S = λ closed v. (is_closed v.handle ≡ false) × (closed ≡ false)} _
          (Splits-gets _ (λ w e. (e, e))) (λ w o. o.open_store)
          (λ w v closed o x. (record { connected = o.connected; open_store = x.0 }, x.1))
          (λ w v o x. absurd (cc (x))))
        close_or

  module _ ⦃p : Platform⦄ (made : H) (prepared : Action H D (Unit {0}))
      (open_made : is_closed made ≡ false)
      (prepared-Open : Triple
        (λ w. is_closed w.handle ≡ false)
        (λ (u : Unit {0}). Unit {0})
        prepared) where
    prepare_store-Splits :
        (schema_text : Text)
        → Splits Open (λ (u : Unit {0}). Open) Open (prepare_store {H = H} schema_text prepared)
    prepare_store-Splits schema_text =
        Splits-bind {R = λ n. Open} _ _
          (Splits-within _ _ _
            (Splits-keeps _ _ (ensure_schema-KeepsOn laws schema_text) (λ w a. a) (λ n w _ a. a))
            (λ w o. o.connected) (λ w v n o x. record { connected = x; open_store = o.open_store })
            (λ w v o x. record { connected = x; open_store = o.open_store }))
          λ _.
            Splits-within _ _ _ (Splits-keeps _ _ prepared-Open (λ w a. a) (λ u w _ a. a))
              (λ w o. o.open_store)
              (λ w v u o x. record { connected = o.connected; open_store = x })
              (λ w v o x. record { connected = o.connected; open_store = x })

    check_names-Splits :
        (run_id scope : String)
        → Splits Shut (λ (u : Unit {0}). Shut) Shut (check_names {H = H} {D = D} run_id scope)
    check_names-Splits run_id scope =
        Splits-bind {R = λ u. Shut} _ _ (Splits-raise_if _ _ _ (λ w x. x) (λ w x. x))
          λ _. Splits-raise_if _ _ _ (λ w x. x) (λ w x. x)

    -- A constructor that returns leaves an open store with an open socket, and one that raises, at
    -- whatever step, leaves no socket open.
    pub new_store-Opens :
        (config : SurrealConfig) (schema_text : Text) (run_id scope : String)
        → Splits Shut
            (λ (u : Unit {0}). Open)
            Shut
            (new_store config schema_text run_id scope made shut prepared)
    unfolding new_store
    new_store-Opens config schema_text run_id scope =
        Splits-bind _ _ (check_names-Splits run_id scope) λ _.
          Splits-bind {R = λ u w. Shut w × (is_closed w.handle.store.handle ≡ false)} _ _
            (Splits-within _ _ {F = λ v. Unit {0}} {X = Never}
              {S = λ u v. is_closed v.handle ≡ false} _ (Splits-modify _ (λ w a. open_made))
              (λ w x. tt) (λ w v u x e. (record { released = x.released }, e))
              (λ w v x e. absurd (cc (e))))
            λ _.
              Splits-bind {R = λ u. Open} _ _
                (Splits-within _ _ _ (connect-Opens laws config) (λ w x. x.0.released)
                  (λ w v u x o. record { connected = o; open_store = x.1 })
                  (λ w v x o. record { released = o }))
                λ _.
                  Splits-try_else {Y = Open} {R = λ u. Open} _ _ _
                    (prepare_store-Splits schema_text) abandon_store-Splits
                    (λ u. Splits-pure u (λ w o. o))
