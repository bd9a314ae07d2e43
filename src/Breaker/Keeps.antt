-- ===== src/Breaker/Keeps.antt =====
-- What `execute` does to the state around it: nothing but the operation and readings of the clock.
use logs_interceptor_python.Base.{ℕ, ◌+◌, ◌||◌, Option, none, some, leb, Bool-cases, inl, inr}
use logs_interceptor_python.Breaker.{
  CircuitBreakerState, closed, opened, half_open, CircuitBreaker, is_half_open, admit, read_if_open,
  record_failure_now, settle, run_admitted, execute,
}
use logs_interceptor_python.Config.{ResolvedCircuitBreakerConfig}
use logs_interceptor_python.Errors.{Exception, Result, ok, raise}

module _ (config : ResolvedCircuitBreakerConfig) {S : Type 0} (time : S → ℕ × S) (P : S → Type 0)
    (time_keeps : (s : S) → P s → P (time s).1) where
  record_failure_now-keeps :
      (e : Exception) (b : CircuitBreaker) (s : S)
      → P s
      → P (record_failure_now config time e b s).1
  unfolding record_failure_now
  record_failure_now-keeps e b s h =
      elim (Bool-cases (leb config.failure_threshold (b.failures + 1) || is_half_open b.state)) [
        | inl opens ↦ rw opens (time_keeps (time s).1 (time_keeps s h))
        | inr stays ↦ rw stays (time_keeps s h)
      ]

  settle-keeps :
      {A : Type 0} (r : Result A) (b : CircuitBreaker) (s : S)
      → P s
      → P (settle config time r b s).2
  unfolding settle
  settle-keeps (ok a) b s h = h
  settle-keeps (raise e) b s h = record_failure_now-keeps e b s h

  read_if_open-keeps : (c : CircuitBreakerState) (s : S) → P s → P (read_if_open time c s).1
  read_if_open-keeps closed s h = h
  read_if_open-keeps opened s h = time_keeps s h
  read_if_open-keeps half_open s h = h

  module _ {A : Type 0} (operation : S → Result A × S)
      (operation_keeps : (s : S) → P s → P (operation s).1) where
    run_admitted-keeps :
        (refused : Option Exception) (b : CircuitBreaker) (s : S)
        → P s
        → P (run_admitted config time operation refused b s).2
    run_admitted-keeps (some e) b s h = h
    run_admitted-keeps none b s h =
        settle-keeps (operation s).0 b (operation s).1 (operation_keeps s h)

    pub execute-keeps : (b : CircuitBreaker) (s : S) → P s → P (execute config time operation b s).2
    unfolding execute
    execute-keeps b s h = elim (Bool-cases config.enabled) [
      | inl on ↦
          let (now, s1) = read_if_open time b.state s in
          let (refused, b1) = admit config now b in
          rw on (run_admitted-keeps refused b1 s1 (read_if_open-keeps b.state s h))
      | inr off ↦ rw off (operation_keeps s h)
    ]
