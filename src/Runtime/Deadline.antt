-- ===== src/Runtime/Deadline.antt =====
-- runtime.py: both wait loops end, and time out only past their deadline.
use activegraph_surrealdb.Prelude.{
  ℕ, zero, suc, ◌+◌, ◌*◌, ◌≤◌, ◌<◌, ◌≡◌, refl, subst, String, Bool, true, false, some, ltb,
  if◌then◌else◌, arith,
}
use activegraph_surrealdb.Errors.{Error, Result, ok, err, raised, timeout}
use activegraph_surrealdb.Runtime.Waiting.{
  Outside, Attempt, reached, caught, escaped, attempt_of, closed_after, attempt_on, attempt, Answer,
  when_ready, when_unavailable, poll, wait_until_ready, wait_until_unavailable,
}

-- The clock tells a time that no operation turns back, and a sleep lasts at least as long as asked.
pub record ClockLaws (o : Outside) : Type 0 where
  pub time : o.State → ℕ
  pub told : (s : o.State) → (o.monotonic s).0 ≡ time s
  pub monotonic_later : (s : o.State) → time s ≤ time (o.monotonic s).1
  pub sleep_later : (n : ℕ) (s : o.State) → time s + n ≤ time (o.sleep n s)
  pub connect_later : (s : o.State) → time s ≤ time (o.connect s).1
  pub server_version_later :
      (c : o.Connection) (s : o.State) → time s ≤ time (o.server_version c s).1
  pub close_later : (c : o.Connection) (s : o.State) → time s ≤ time (o.close c s).1

abbrev pub IsReached : Attempt → Type 0
IsReached a = a ≡ reached

abbrev pub IsCaught : Attempt → Type 0
IsCaught a = (exc : Error) × a ≡ caught exc

module _ ⦃o : Outside⦄ (clock : ClockLaws o) where
  attempt_on_later :
      (r : Result o.Connection) (s : o.State) → clock.time s ≤ clock.time (attempt_on r s).1
  attempt_on_later (err exc) s = omega arith
  attempt_on_later (ok c) s =
      omega (arith, clock.server_version_later c s, clock.close_later c (o.server_version c s).1)

  attempt_later : (s : o.State) → clock.time s ≤ clock.time (attempt s).1
  unfolding attempt
  attempt_later s =
      omega (arith, clock.connect_later s, attempt_on_later (o.connect s).0 (o.connect s).1)

  -- The result of a loop, and the state it ends in: an attempt on which it stops, the exception of a
  -- `close`, or a timeout once the deadline has passed.
  pub data Ending (Stops : Attempt → Type 0) (deadline : ℕ) (message : String)
      (r : Result (Unit {0})) (final : o.State) : Type 0 where
    stopped :
        (s : o.State) → Stops (attempt s).0 → r ≡ ok tt → Ending Stops deadline message r final
    torn_down :
        (c : o.Connection) (s : o.State) (exc : Error)
        → (o.close c s).0 ≡ err exc
        → r ≡ err exc
        → Ending Stops deadline message r final
    late :
        deadline ≤ clock.time final
        → r ≡ raised timeout message
        → Ending Stops deadline message r final

  pub record Ended (Stops : Attempt → Type 0) (deadline : ℕ) (message : String) (a : Answer)
      : Type 0 where
    pub result : Result (Unit {0})
    pub final : o.State
    pub ends : a ≡ some (result, final)
    pub ending : Ending Stops deadline message result final

  -- What a round makes of its attempt: the loop stops, sleeps, or raises.
  data Verdict (Stops : Attempt → Type 0) (a : Attempt) (s : o.State) (again : o.State → Answer)
      (outcome : Answer) : Type 0 where
    stops : Stops a → outcome ≡ some (ok tt, s) → Verdict Stops a s again outcome
    sleeps : outcome ≡ again (o.sleep 200 s) → Verdict Stops a s again outcome
    raises :
        (exc : Error)
        → a ≡ escaped exc
        → outcome ≡ some (err exc, s)
        → Verdict Stops a s again outcome

  abbrev Round : (Attempt → Type 0) → (Attempt → o.State → (o.State → Answer) → Answer) → Type 0
  Round Stops round =
      (a : Attempt) (s : o.State) (again : o.State → Answer)
      → Verdict Stops a s again (round a s again)

  when_ready-Round : Round IsReached when_ready
  when_ready-Round reached s again = stops refl refl
  when_ready-Round (caught exc) s again = sleeps refl
  when_ready-Round (escaped exc) s again = raises exc refl refl

  when_unavailable-Round : Round IsCaught when_unavailable
  when_unavailable-Round reached s again = sleeps refl
  when_unavailable-Round (caught exc) s again = stops (exc, refl) refl
  when_unavailable-Round (escaped exc) s again = raises exc refl refl

  abbrev TornDown : Error → Type 0
  TornDown exc = (c : o.Connection) × (s : o.State) × (o.close c s).0 ≡ err exc

  closed_after_escapes :
      (v : Result String) (t : Result (Unit {0})) (exc : Error)
      → closed_after (attempt_of v) t ≡ escaped exc
      → t ≡ err exc
  closed_after_escapes (ok version) (ok u) exc e = absurd (cc)
  closed_after_escapes (err raised_exc) (ok u) exc e = absurd (cc)
  closed_after_escapes v (err raised_exc) exc e = cc

  attempt_on_escapes :
      (r : Result o.Connection) (s : o.State) (exc : Error)
      → (attempt_on r s).0 ≡ escaped exc
      → TornDown exc
  attempt_on_escapes (err raised_exc) s exc e = absurd (cc)
  attempt_on_escapes (ok c) s exc e =
      let (version, s') = o.server_version c s in
      (c, s', closed_after_escapes version (o.close c s').0 exc e)

  attempt_escapes : (s : o.State) (exc : Error) → (attempt s).0 ≡ escaped exc → TornDown exc
  unfolding attempt
  attempt_escapes s = attempt_on_escapes (o.connect s).0 (o.connect s).1

  module _ (Stops : Attempt → Type 0) (round : Attempt → o.State → (o.State → Answer) → Answer)
      (verdict : Round Stops round) where
    Verdict-Ended :
        (message : String) (deadline : ℕ) (s : o.State) (again : o.State → Answer)
        (outcome : Answer)
        → Verdict Stops (attempt s).0 (attempt s).1 again outcome
        → Ended Stops deadline message (again (o.sleep 200 (attempt s).1))
        → Ended Stops deadline message outcome
    Verdict-Ended message deadline s again outcome (stops h e) rest = record {
      result = ok tt;
      final = (attempt s).1;
      ends = e;
      ending = stopped s h refl;
    }
    Verdict-Ended message deadline s again outcome (sleeps e) rest =
        subst (Ended Stops deadline message) (cc) rest
    Verdict-Ended message deadline s again outcome (raises exc h e) rest =
        let (c, s', t) = attempt_escapes s exc h in
        record {
          result = err exc;
          final = (attempt s).1;
          ends = e;
          ending = torn_down c s' exc t refl;
        }

    test_ends :
        (b : Bool) (message : String) (deadline : ℕ) (s : o.State) (rest : Answer)
        → (b ≡ true → Ended Stops deadline message rest)
        → (b ≡ false → deadline ≤ clock.time s)
        → Ended Stops deadline message (if b then rest else some (raised timeout message, s))
    test_ends true message deadline s rest early overdue = early refl
    test_ends false message deadline s rest early overdue = record {
      result = raised timeout message;
      final = s;
      ends = refl;
      ending = late (overdue refl) refl;
    }

    abbrev RestEnds : ℕ → String → ℕ → o.State → Type 0
    RestEnds fuel message deadline s =
        let s' = (attempt (o.monotonic s).1).1 in
        clock.time s < deadline
        → Ended Stops deadline message (poll round message fuel deadline (o.sleep 200 s'))

    turn_ends :
        (fuel : ℕ) (message : String) (deadline : ℕ) (s : o.State)
        → RestEnds fuel message deadline s
        → Ended Stops deadline message (poll round message (suc fuel) deadline s)
    unfolding poll
    turn_ends fuel message deadline s rest =
        let (now, s') = o.monotonic s in
        let (a, s'') = attempt s' in
        let again = poll round message fuel deadline in
        test_ends (ltb now deadline) message deadline s' (round a s'' again)
          (λ early.
            Verdict-Ended message deadline s' again (round a s'' again) (verdict a s'' again)
              (rest (ground (arith, clock.told s))))
          (λ overdue. ground (arith, clock.told s, clock.monotonic_later s))

    slept_later :
        (s : o.State) → clock.time s + 200 ≤ clock.time (o.sleep 200 (attempt (o.monotonic s).1).1)
    slept_later s = omega (
      arith,
      clock.monotonic_later s,
      attempt_later (o.monotonic s).1,
      clock.sleep_later 200 (attempt (o.monotonic s).1).1,
    )

    poll-Ended :
        (fuel : ℕ) (message : String) (deadline : ℕ) (s : o.State)
        → deadline ≤ clock.time s + 200 * fuel
        → Ended Stops deadline message (poll round message (suc fuel) deadline s)
    poll-Ended zero message deadline s bound =
        turn_ends zero message deadline s (λ early. absurd (omega arith))
    poll-Ended (suc fuel) message deadline s bound =
        let s' = o.sleep 200 (attempt (o.monotonic s).1).1 in
        turn_ends (suc fuel) message deadline s
          (λ early. poll-Ended fuel message deadline s' (omega (arith, slept_later s)))

    wait-Ended :
        (fuel timeout_ms : ℕ) (message : String) (s : o.State)
        → timeout_ms ≤ 200 * fuel
        → Ended Stops
            (clock.time s + timeout_ms)
            message
            (let (now, s') = o.monotonic s in poll round message (suc fuel) (now + timeout_ms) s')
    wait-Ended fuel timeout_ms message s bound =
        let (now, s') = o.monotonic s in
        subst
          (λ n.
            Ended Stops (n + timeout_ms) message
              (poll round message (suc fuel) (now + timeout_ms) s'))
          (clock.told s)
          (poll-Ended fuel message (now + timeout_ms) s'
            (omega (arith, clock.told s, clock.monotonic_later s)))

  -- With a clock that no operation turns back and that a sleep moves on by at least its length,
  -- `wait_until_ready` ends on fuel above `timeout_ms / 200`, whatever the server does: it returns
  -- only after an attempt that read the server's version, or raises the exception of a `close`, or
  -- times out once the deadline has passed.
  pub wait_until_ready-Ended :
      (fuel timeout_ms : ℕ) (s : o.State)
      → timeout_ms ≤ 200 * fuel
      → Ended IsReached
          (clock.time s + timeout_ms)
          "SurrealDB did not become ready before the deadline"
          (wait_until_ready (suc fuel) timeout_ms s)
  unfolding wait_until_ready
  wait_until_ready-Ended fuel timeout_ms s bound =
      wait-Ended IsReached when_ready when_ready-Round fuel timeout_ms
        "SurrealDB did not become ready before the deadline" s bound

  -- With a clock that no operation turns back and that a sleep moves on by at least its length,
  -- `wait_until_unavailable` ends on fuel above `timeout_ms / 200`, whatever the server does: it
  -- returns only after an attempt that raised, or raises the exception of a `close`, or times out
  -- once the deadline has passed.
  pub wait_until_unavailable-Ended :
      (fuel timeout_ms : ℕ) (s : o.State)
      → timeout_ms ≤ 200 * fuel
      → Ended IsCaught
          (clock.time s + timeout_ms)
          "SurrealDB remained available past the deadline"
          (wait_until_unavailable (suc fuel) timeout_ms s)
  unfolding wait_until_unavailable
  wait_until_unavailable-Ended fuel timeout_ms s bound =
      wait-Ended IsCaught when_unavailable when_unavailable-Round fuel timeout_ms
        "SurrealDB remained available past the deadline" s bound
