-- ===== src/Connection/Sockets.antt =====
-- connection.py: a connection holds a socket from its constructor on until it is closed.
use activegraph_surrealdb.Prelude.{◌≡◌, refl, sym, ap, ◌∙◌, Bool, true, false, [], if◌then◌else◌}
use activegraph_surrealdb.Errors.{Error, Result, ok, err}
use activegraph_surrealdb.Exec.{World, pure, modify, call}
use activegraph_surrealdb.Exec.Triples.{Triple, Triple-pure, Triple-bind}
use activegraph_surrealdb.Exec.Splits.{
  EitherWay, Splits, Splits-pure, Splits-fail, Splits-keeps, Splits-call, Splits-modify,
  Splits-gets, Splits-bind, Splits-try_else, both_ways,
}
use activegraph_surrealdb.Strings.{Text}
use activegraph_surrealdb.Config.{SurrealConfig}
use activegraph_surrealdb.Connection.Schema.{
  ConnectionHandle, SchemaServer, close, close_open, close_session_if,
}
use activegraph_surrealdb.Connection.Opening.{
  Sdk, sign_in, connect, assert_transport, abandon_connection,
}
use activegraph_surrealdb.Connection.Live.{
  is_ok, SocketLaws, On, Off, StillOpen, AnyHandle, call-KeepsOn,
}

module _ ⦃c : SchemaServer⦄ ⦃sdk : Sdk c⦄ (laws : SocketLaws c sdk) where
  -- closing the socket
  close_socket-Off :
      (K : ConnectionHandle → Type 0)
      → Splits (On laws K) (λ u. (Off laws)) (Off laws) (call c.close_socket)
  close_socket-Off K = Splits-call c.close_socket λ w a. (
    a.quiet,
    both_ways (Off laws) _ _ (record { quiet = refl; dead = laws.close_socket-live w.db }),
  )

  sign_in-KeepsOn :
      (config : SurrealConfig)
      → Triple (On laws StillOpen) (λ (u : Unit {0}). Unit {0}) (sign_in config)
  unfolding sign_in modify
  sign_in-KeepsOn config = Triple-bind _ _ (call-KeepsOn laws _ _ (laws.signin-live _ _)) λ _ _.
      Triple-bind _ _ (call-KeepsOn laws _ _ (laws.use_database-live _ _)) λ _ _.
        Triple-bind _ _ (call-KeepsOn laws _ _ laws.new_session-live) λ _ _.
          Triple-bind _ _ (call-KeepsOn laws _ _ (laws.signin_session-live _ _)) λ _ _.
            Triple-bind _ _ (call-KeepsOn laws _ _ (laws.use_session-live _ _)) λ _ _. record {
              at = λ w a. (record { quiet = a.quiet; live = a.live; held = a.held }, λ u e. tt);
            }

  -- the fields are those of a new object, and there is no socket yet
  record Starting (w : World ConnectionHandle c.State) : Type 0 where
    off : Off laws w
    fresh : w.handle.closed ≡ false

  connected :
      (r : Result Bool) (w : World ConnectionHandle c.State)
      → w.schedule ≡ []
      → w.handle.closed ≡ false
      → sdk.live w.db ≡ is_ok r
      → EitherWay (λ b. On laws StillOpen) (Off laws) (r, w)
  connected (ok b) w q f l = record { quiet = q; live = l; held = f }
  connected (err e) w q f l = record { quiet = q; dead = l }

  connect-Splits :
      (endpoint : Text)
      → Splits Starting (λ b. On laws StillOpen) (Off laws) (call (sdk.connect endpoint))
  connect-Splits endpoint =
      Splits-call (sdk.connect endpoint)
        λ w a. (a.off.quiet, connected _ _ refl a.fresh (laws.connect-live endpoint w.db))

  abandon_connection-Splits :
      (exc : Error)
      → Splits
          (On laws StillOpen)
          (λ (u : Unit {0}). On laws StillOpen)
          (Off laws)
          (abandon_connection exc)
  abandon_connection-Splits exc = Splits-bind _ _ (close_socket-Off StillOpen) λ _.
      Splits-bind {R = λ u. (Off laws)} _ _
        (Splits-modify _ (λ w a. record { quiet = a.quiet; dead = a.dead }))
        λ _. Splits-fail exc (λ w a. a)

  assert_transport-Splits :
      (b : Bool)
      → Splits (On laws StillOpen) (λ u. On laws StillOpen) (Off laws) (assert_transport b)
  assert_transport-Splits true = Splits-pure tt (λ w a. a)
  assert_transport-Splits false =
      Splits-bind _ _ (close_socket-Off StillOpen) λ _. Splits-fail _ (λ w a. a)

  -- The constructor that returns has opened a socket, and the one that raises leaves none.
  pub connect-Opens :
      (config : SurrealConfig)
      → Splits (Off laws) (λ u. On laws StillOpen) (Off laws) (connect config)
  unfolding connect
  connect-Opens config =
      Splits-bind {R = λ u. Starting} _ _
        (Splits-modify _
          (λ w a. record { off = record { quiet = a.quiet; dead = a.dead }; fresh = refl }))
        λ _. Splits-bind _ _ (connect-Splits config.endpoint) λ blocking.
          Splits-bind _ _ (assert_transport-Splits blocking) λ _.
            Splits-try_else {Y = On laws StillOpen} {R = λ u. On laws StillOpen} _ _ _
              (Splits-keeps _ _ (sign_in-KeepsOn config) (λ w a. a) (λ u w _ a. a))
              abandon_connection-Splits (λ u. Splits-pure u (λ w a. a))

  close_session_if-KeepsOn :
      (b : Bool) → Triple (On laws AnyHandle) (λ (u : Unit {0}). Unit {0}) (close_session_if b)
  close_session_if-KeepsOn false = Triple-pure tt tt
  close_session_if-KeepsOn true = call-KeepsOn laws AnyHandle _ laws.close_session-live

  close_open-Splits :
      (b : Bool) → Splits (On laws StillOpen) (λ u. (Off laws)) (Off laws) (close_open b)
  close_open-Splits b =
      Splits-bind {R = λ u. On laws AnyHandle} _ _
        (Splits-modify _ (λ w a. record { quiet = a.quiet; live = a.live; held = tt }))
        λ _.
          Splits-try_else {Y = On laws AnyHandle} {R = λ u. On laws AnyHandle} _ _ _
            (Splits-keeps _ _ (close_session_if-KeepsOn b) (λ w a. a) (λ u w _ a. a))
            (λ exc. Splits-bind _ _ (close_socket-Off AnyHandle) λ _. Splits-fail exc (λ w a. a))
            (λ _. close_socket-Off AnyHandle)

  close_or :
      (h : ConnectionHandle)
      → Splits
          (λ w. On laws StillOpen w × (w.handle ≡ h))
          (λ u. (Off laws))
          (Off laws)
          (if h.closed then pure tt else close_open h.has_session)
  close_or h = record {
    at = λ w (a, e).
        rw (ap (λ (x : ConnectionHandle). x.closed) (sym e) ∙ a.held)
          ((close_open-Splits h.has_session).at w a);
  }

  -- After `close` no socket is open, whether or not it raises.
  pub close-Closes : Splits (On laws StillOpen) (λ u. (Off laws)) (Off laws) close
  unfolding close
  close-Closes = Splits-bind _ _ (Splits-gets _ (λ w a. (a, refl))) close_or
