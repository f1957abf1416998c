-- ===== src/EventStore/Visiting.antt =====
-- event_store.py: the class methods keep no socket.
use activegraph_surrealdb.Errors.{Error}
use activegraph_surrealdb.Exec.{World}
use activegraph_surrealdb.Exec.Splits.{
  whichever, Splits, Splits-pure, Splits-fail, Splits-keeps, Splits-bind, Splits-try_else,
  Splits-within, Splits-any,
}
use activegraph_surrealdb.Platform.{Platform}
use activegraph_surrealdb.Strings.{Text}
use activegraph_surrealdb.Config.{SurrealConfig}
use activegraph_surrealdb.Connection.Schema.{SchemaServer}
use activegraph_surrealdb.Connection.Opening.{Sdk}
use activegraph_surrealdb.Connection.Owner.{Owned}
use activegraph_surrealdb.Connection.Live.{SocketLaws, On, Off, StillOpen, ensure_schema-KeepsOn}
use activegraph_surrealdb.Connection.Sockets.{connect-Opens, close-Closes}
use activegraph_surrealdb.EventStore.Rows.{LedgerServer, Db}
use activegraph_surrealdb.EventStore.Session.{Handle, Method}
use activegraph_surrealdb.EventStore.Diagnostics.{
  with_connection, close_and_raise, close_and_return,
}

module _ ⦃c : SchemaServer⦄ ⦃sdk : Sdk c⦄ ⦃s : LedgerServer⦄ (laws : SocketLaws c sdk) where
  abbrev Connected : World (Owned c Handle (Db s)) (Unit {0}) → Type 0
  Connected w = On laws StillOpen w.handle.connection

  abbrev Disconnected : World (Owned c Handle (Db s)) (Unit {0}) → Type 0
  Disconnected w = Off laws w.handle.connection

module _ ⦃p : Platform⦄ ⦃c : SchemaServer⦄ ⦃sdk : Sdk c⦄ ⦃s : LedgerServer⦄
    (laws : SocketLaws c sdk) {A : Type 0} where
  close_and_raise-Splits :
      (exc : Error)
      → Splits
          (Connected laws)
          (λ (a : A). Disconnected laws)
          (Disconnected laws)
          (close_and_raise exc)
  close_and_raise-Splits exc =
      Splits-bind {R = λ u. Disconnected laws} _ _
        (Splits-within _ _ _ (close-Closes laws) (λ w o. o) (λ w v a o x. x) (λ w v o x. x))
        λ _. Splits-fail exc (λ w x. x)

  close_and_return-Splits :
      (a : A)
      → Splits
          (Connected laws)
          (λ (a : A). Disconnected laws)
          (Disconnected laws)
          (close_and_return a)
  close_and_return-Splits a =
      Splits-bind {R = λ u. Disconnected laws} _ _
        (Splits-within _ _ _ (close-Closes laws) (λ w o. o) (λ w v a o x. x) (λ w v o x. x))
        λ _. Splits-pure a (λ w x. x)

  visits :
      (config : SurrealConfig) (schema_text : Text) (body : Method A)
      → Splits
          (Disconnected laws)
          (λ (a : A). Disconnected laws)
          (Disconnected laws)
          (with_connection config schema_text body)
  unfolding with_connection
  visits config schema_text body =
      Splits-bind {R = λ u. Connected laws} _ _
        (Splits-within _ _ _ (connect-Opens laws config) (λ w x. x) (λ w v u x o. o) (λ w v x o. o))
        λ _.
          Splits-try_else {Y = Connected laws} {R = λ a. Connected laws} _ _ _
            (Splits-bind {R = λ n. Connected laws} _ _
              (Splits-within _ _ _
                (Splits-keeps _ _ (ensure_schema-KeepsOn laws schema_text) (λ w a. a)
                  (λ n w _ a. a))
                (λ w o. o) (λ w v n o x. x) (λ w v o x. x))
              λ _.
                Splits-within _ _ _ (Splits-any body) (λ w o. tt) (λ w v a o x. o) (λ w v o x. o))
            close_and_raise-Splits close_and_return-Splits

  -- With no other session at work on the connection, a class method (`run_exists`,
  -- `most_recent_run_id` or `inspect_run_artifacts`) that begins without a socket leaves none open,
  -- whether it returns or raises, and whatever it reads.
  pub with_connection-Off :
      (config : SurrealConfig) (schema_text : Text) (body : Method A)
      (w : World (Owned c Handle (Db s)) (Unit {0}))
      → Off laws w.handle.connection
      → Off laws (with_connection config schema_text body w).1.handle.connection
  with_connection-Off config schema_text body w off =
      whichever (Disconnected laws) _ ((visits config schema_text body).at w off)
