-- ===== src/Samples/Waits.antt =====
-- Tests and witnesses for the wait loops of runtime.py.
use activegraph_surrealdb.Prelude.{ℕ, ◌+◌, ◌≡◌, refl, some, ltb, if◌then◌else◌, arith}
use activegraph_surrealdb.Errors.{ok, raised, sdk_error, timeout}
use activegraph_surrealdb.Runtime.Waiting.{
  Outside, attempt, poll, wait_until_ready, wait_until_unavailable,
}
use activegraph_surrealdb.Runtime.Deadline.{
  ClockLaws, Ended, IsReached, IsCaught, wait_until_ready-Ended, wait_until_unavailable-Ended,
}

-- The state is the time. The server answers from 450 ms on, and each connection takes 1 ms.
instance abbrev late_server : Outside
late_server = record {
  State = ℕ;
  Connection = Unit {0};
  monotonic = λ s. (s, s);
  sleep = λ n s. s + n;
  connect = λ s. if ltb s 450 then (raised sdk_error "refused", s + 1) else (ok tt, s + 1);
  server_version = λ c s. (ok "2.3", s);
  close = λ c s. (ok tt, s);
}

late_server-ClockLaws : ClockLaws late_server
late_server-ClockLaws = record {
  time = λ s. s;
  told = λ s. refl;
  monotonic_later = λ s. omega arith;
  sleep_later = λ n s. omega arith;
  connect_later = λ s. ground arith;
  server_version_later = λ c s. omega arith;
  close_later = λ c s. omega arith;
}

-- three failures, then it answers
ready_test : wait_until_ready 10 1000 0 ≡ some (ok tt, 604)
unfolding wait_until_ready poll attempt
ready_test = refl

timeout_test :
    wait_until_ready 10 300 0
    ≡ some (raised timeout "SurrealDB did not become ready before the deadline", 402)
unfolding wait_until_ready poll attempt
timeout_test = refl

gone_test : wait_until_unavailable 10 1000 0 ≡ some (ok tt, 1)
unfolding wait_until_unavailable poll attempt
gone_test = refl

wait_until_ready-Ended_example :
    Ended late_server-ClockLaws IsReached 1000 "SurrealDB did not become ready before the deadline"
      (wait_until_ready 6 1000 0)
unfolding late_server-ClockLaws
wait_until_ready-Ended_example = wait_until_ready-Ended late_server-ClockLaws 5 1000 0 (omega arith)

wait_until_unavailable-Ended_example :
    Ended late_server-ClockLaws IsCaught 1600 "SurrealDB remained available past the deadline"
      (wait_until_unavailable 6 1000 600)
unfolding late_server-ClockLaws
wait_until_unavailable-Ended_example =
    wait_until_unavailable-Ended late_server-ClockLaws 5 1000 600 (omega arith)
