-- ===== src/Runtime/Waiting.antt =====
-- runtime.py: `wait_until_ready` and `wait_until_unavailable`. Time is in milliseconds. The clock and
-- the server are parameters; `none` means that the fuel of a loop has run out.
use activegraph_surrealdb.Prelude.{
  ℕ, zero, suc, ◌+◌, String, Option, none, some, ltb, if◌then◌else◌,
}
use activegraph_surrealdb.Errors.{Error, Result, ok, err, raised, timeout}

-- Each operation changes the state of the outside world, whatever comes of it.
pub record Outside : Type 1 where
  pub State : Type 0
  pub Connection : Type 0
  -- time.monotonic, and time.sleep of so many milliseconds
  pub monotonic : State → ℕ × State
  pub sleep : ℕ → State → State
  -- SurrealEventStore._new_connection, and the connection's server_version and close
  pub connect : State → Result Connection × State
  pub server_version : Connection → State → Result String × State
  pub close : Connection → State → Result (Unit {0}) × State

-- How a round of a loop ends: the `try` clause has returned, its exception is caught, or the `finally`
-- clause raises.
pub data Attempt : Type 0 where
  reached : Attempt
  caught escaped : Error → Attempt

abbrev pub attempt_of : Result String → Attempt
attempt_of (ok version) = reached
attempt_of (err exc) = caught exc

-- `connection.close()` in the `finally` clause
abbrev pub closed_after : Attempt → Result (Unit {0}) → Attempt
closed_after attempt (ok u) = attempt
closed_after attempt (err exc) = escaped exc

module _ ⦃o : Outside⦄ where
  abbrev pub attempt_on : Result o.Connection → o.State → Attempt × o.State
  attempt_on (err exc) s = (caught exc, s)
  attempt_on (ok connection) s =
      let (version, s') = o.server_version connection s in
      let (torn_down, s'') = o.close connection s' in
      (closed_after (attempt_of version) torn_down, s'')

  -- one `try … finally`
  unfoldable pub attempt : o.State → Attempt × o.State
  attempt s = let (connection, s') = o.connect s in attempt_on connection s'

  abbrev pub Answer : Type 0
  Answer = Option (Result (Unit {0}) × o.State)

  -- what a round of each loop makes of its attempt
  abbrev pub when_ready : Attempt → o.State → (o.State → Answer) → Answer
  when_ready reached s again = some (ok tt, s)
  when_ready (caught exc) s again = again (o.sleep 200 s)
  when_ready (escaped exc) s again = some (err exc, s)

  abbrev pub when_unavailable : Attempt → o.State → (o.State → Answer) → Answer
  when_unavailable reached s again = again (o.sleep 200 s)
  when_unavailable (caught exc) s again = some (ok tt, s)
  when_unavailable (escaped exc) s again = some (err exc, s)

  -- `while time.monotonic() < deadline: …`, with what each round makes of its attempt
  unfoldable pub poll :
      (Attempt → o.State → (o.State → Answer) → Answer) → String → ℕ → ℕ → o.State → Answer
  poll round message zero deadline s = none
  poll round message (suc fuel) deadline s =
      let (now, s') = o.monotonic s in
      let rest = round (attempt s').0 (attempt s').1 (poll round message fuel deadline) in
      if ltb now deadline then rest else some (raised timeout message, s')

  unfoldable pub wait_until_ready : ℕ → ℕ → o.State → Answer
  wait_until_ready fuel timeout_ms s =
      let (now, s') = o.monotonic s in
      poll when_ready "SurrealDB did not become ready before the deadline" fuel (now + timeout_ms)
        s'

  unfoldable pub wait_until_unavailable : ℕ → ℕ → o.State → Answer
  wait_until_unavailable fuel timeout_ms s =
      let (now, s') = o.monotonic s in
      poll when_unavailable "SurrealDB remained available past the deadline" fuel (now + timeout_ms)
        s'
