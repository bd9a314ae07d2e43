-- ===== src/Breaker/Trips.antt =====
-- Runs of calls through one `CircuitBreaker`: how failures open it, how it refuses, and how
-- successes close it again.
use logs_interceptor_python.Base.{ℕ, zero, suc, ◌+◌, ◌≤◌, ◌<◌, ◌≡◌, refl, true, false, arith}
use logs_interceptor_python.Breaker.{
  closed, opened, half_open, CircuitBreaker, open_error, has_passed, execute,
}
use logs_interceptor_python.Config.{ResolvedCircuitBreakerConfig}
use logs_interceptor_python.Errors.{Result, raise, is_ok}

module _ (config : ResolvedCircuitBreakerConfig) {S : Type 0} (time : S → ℕ × S) {A : Type 0} where
  -- `n` calls of `execute` with one operation, whatever they return or raise
  unfoldable pub again : ℕ → (S → Result A × S) → CircuitBreaker × S → CircuitBreaker × S
  again zero operation (b, s) = (b, s)
  again (suc n) operation (b, s) =
      let (_, b', s') = execute config time operation b s in again n operation (b', s')

  fail_closed :
      (operation : S → Result A × S) (b : CircuitBreaker) (s : S)
      → config.enabled ≡ true
      → is_ok (operation s).0 ≡ false
      → b.state ≡ closed
      → b.failures + 1 < config.failure_threshold
      → let b' = (execute config time operation b s).1 in
        (b'.state ≡ closed) × (b'.failures ≡ b.failures + 1)
  unfolding execute
  fail_closed operation b s on bad st few = ground arith

  fail_last :
      (operation : S → Result A × S) (b : CircuitBreaker) (s : S)
      → config.enabled ≡ true
      → is_ok (operation s).0 ≡ false
      → b.state ≡ closed
      → config.failure_threshold ≤ b.failures + 1
      → (execute config time operation b s).1.state ≡ opened
  unfolding execute
  fail_last operation b s on bad st few = ground arith

  -- Of a closed, enabled breaker with an operation that always fails, a number of calls that stays
  -- under the threshold leaves it closed with each failure counted, and the call that reaches the
  -- threshold opens it.
  pub again-trips :
      (operation : S → Result A × S) (n : ℕ) (b : CircuitBreaker) (s : S)
      → config.enabled ≡ true
      → ((u : S) → is_ok (operation u).0 ≡ false)
      → b.state ≡ closed
      → b.failures + n < config.failure_threshold
      → let b' = (again n operation (b, s)).0 in
        (b'.state ≡ closed)
        × (b'.failures ≡ b.failures + n)
        × (b.failures + n + 1 ≡ config.failure_threshold
            → (again (suc n) operation (b, s)).0.state ≡ opened)
  unfolding again
  again-trips operation zero b s on bad st few =
      (st, omega arith, λ e. fail_last operation b s on (bad s) st (omega arith))
  again-trips operation (suc n) b s on bad st few =
      let (_, b', s') = execute config time operation b s in
      let (st', count) = fail_closed operation b s on (bad s) st (omega arith) in
      let (st'', count', last) = again-trips operation n b' s' on bad st' (omega arith) in
      (st'', omega arith, λ e. last (omega arith))

  -- Before its deadline an open, enabled breaker refuses every call: the operation does not run,
  -- and nothing changes but the clock that was read.
  pub open_refuses :
      (operation : S → Result A × S) (b : CircuitBreaker) (s : S)
      → config.enabled ≡ true
      → b.state ≡ opened
      → has_passed b.next_attempt (time s).0 ≡ false
      → execute config time operation b s ≡ (raise open_error, b, (time s).1)
  unfolding execute
  open_refuses operation b s on st early = ground arith

  probe_closes :
      (operation : S → Result A × S) (b : CircuitBreaker) (s : S)
      → config.enabled ≡ true
      → is_ok (operation s).0 ≡ true
      → b.state ≡ half_open
      → b.half_open_in_flight ≡ 0
      → b.success_count + 1 ≡ config.half_open_requests
      → let b' = (execute config time operation b s).1 in (b'.state ≡ closed) × (b'.failures ≡ 0)
  unfolding execute
  probe_closes operation b s on good st idle last = ground arith

  probe_counts :
      (operation : S → Result A × S) (b : CircuitBreaker) (s : S)
      → config.enabled ≡ true
      → is_ok (operation s).0 ≡ true
      → b.state ≡ half_open
      → b.half_open_in_flight ≡ 0
      → b.success_count + 1 < config.half_open_requests
      → let b' = (execute config time operation b s).1 in
        (b'.state ≡ half_open)
        × (b'.half_open_in_flight ≡ 0)
        × (b'.success_count ≡ b.success_count + 1)
  unfolding execute
  probe_counts operation b s on good st idle more = ground arith

  probes_close :
      (operation : S → Result A × S) (n : ℕ) (b : CircuitBreaker) (s : S)
      → config.enabled ≡ true
      → ((u : S) → is_ok (operation u).0 ≡ true)
      → b.state ≡ half_open
      → b.half_open_in_flight ≡ 0
      → b.success_count + suc n ≡ config.half_open_requests
      → let b' = (again (suc n) operation (b, s)).0 in (b'.state ≡ closed) × (b'.failures ≡ 0)
  unfolding again
  probes_close operation zero b s on good st idle need =
      probe_closes operation b s on (good s) st idle (omega arith)
  probes_close operation (suc n) b s on good st idle need =
      let (_, b', s') = execute config time operation b s in
      let (st', idle', count) = probe_counts operation b s on (good s) st idle (omega arith) in
      probes_close operation n b' s' on good st' idle' (omega arith)

  -- Past its deadline, the next call is a probe of the half-open breaker.
  open_probes :
      (operation : S → Result A × S) (b : CircuitBreaker) (s : S)
      → config.enabled ≡ true
      → 0 < config.half_open_requests
      → b.state ≡ opened
      → has_passed b.next_attempt (time s).0 ≡ true
      → execute config time operation b s
        ≡ execute config time operation
            (record b { state = half_open; success_count = 0; half_open_in_flight = 0 })
            (time s).1
  unfolding execute
  open_probes operation b s on some_probe st late = ground arith

  -- Once the deadline of an open, enabled breaker has passed, `half_open_requests` calls of an
  -- operation that always succeeds close it and set its count of failures back to 0.
  pub again-recovers :
      (operation : S → Result A × S) (n : ℕ) (b : CircuitBreaker) (s : S)
      → config.enabled ≡ true
      → ((u : S) → is_ok (operation u).0 ≡ true)
      → b.state ≡ opened
      → has_passed b.next_attempt (time s).0 ≡ true
      → config.half_open_requests ≡ suc n
      → let b' = (again (suc n) operation (b, s)).0 in (b'.state ≡ closed) × (b'.failures ≡ 0)
  unfolding again
  again-recovers operation n b s on good st late need =
      rw (open_probes operation b s on (omega arith) st late, again)
        (probes_close operation n
          (record b { state = half_open; success_count = 0; half_open_in_flight = 0 }) (time s).1 on
          good refl refl (omega arith))
