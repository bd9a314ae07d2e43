-- ===== src/Breaker/Refinement.antt =====
-- The circuit breaker's contract, and that `execute` keeps it when calls follow one another.
use logs_interceptor_python.Base.{
  ℕ, ◌+◌, ◌*◌, ◌≡◌, true, not, ◌&&◌, Option, none, some, leb, ◌==◌, ℕ_comparable, if◌then◌else◌,
  arith,
}
use logs_interceptor_python.Breaker.{
  CircuitBreakerState, closed, opened, half_open, CircuitBreaker, open_error, admit, read_if_open,
  settle, run_admitted, execute,
}
use logs_interceptor_python.Breaker.Invariant.{IsPositive, IsValid}
use logs_interceptor_python.Config.{ResolvedCircuitBreakerConfig}
use logs_interceptor_python.Errors.{Result, ok, raise}

-- The abstract breaker: closed after so many failures in a row, open until a deadline, or probing
-- after so many successes.
pub data Mode : Type 0 where
  counting tripped probing : ℕ → Mode

abbrev pub deadline : Option ℕ → ℕ
deadline none = 0
deadline (some t) = t

abbrev view_at : CircuitBreakerState → CircuitBreaker → Mode
view_at closed b = counting b.failures
view_at opened b = tripped (deadline b.next_attempt)
view_at half_open b = probing b.success_count

abbrev pub view : CircuitBreaker → Mode
view b = view_at b.state b

abbrev pub forget : {S A : Type 0} → Result A × CircuitBreaker × S → Result A × Mode × S
forget (r, b, s) = (r, view b, s)

-- While a call runs, it is the only one: a probe holds the one slot in flight.
abbrev IsRunningAt : CircuitBreakerState → CircuitBreaker → Type 0
IsRunningAt closed b = b.half_open_in_flight ≡ 0
IsRunningAt opened b = ⊥
IsRunningAt half_open b = b.half_open_in_flight ≡ 1

module _ (config : ResolvedCircuitBreakerConfig) where
  -- Between two calls nothing is in flight.
  pub record IsIdle (b : CircuitBreaker) : Type 0 where
    pub valid : IsValid config b
    pub idle : b.half_open_in_flight ≡ 0

  abbrev succeed : Mode → Mode
  succeed (counting n) = counting 0
  succeed (tripped d) = tripped d
  succeed (probing k) =
      if leb config.half_open_requests (k + 1) then counting 0 else probing (k + 1)

  module _ {S : Type 0} (time : S → ℕ × S) where
    abbrev trip : S → Mode × S
    trip s = let (t, s') = time s in (tripped (t + config.reset_timeout * 1000), s')

    abbrev fail : Mode → S → Mode × S
    fail (counting n) s =
        let (_, s') = time s in
        if leb config.failure_threshold (n + 1) then trip s' else (counting (n + 1), s')
    fail (tripped d) s = (tripped d, s)
    fail (probing k) s = let (_, s') = time s in trip s'

    module _ {A : Type 0} where
      abbrev finish : Mode → Result A → S → Result A × Mode × S
      finish m (ok a) s = (ok a, succeed m, s)
      finish m (raise e) s = let (m', s') = fail m s in (raise e, m', s')

      -- An open breaker refuses until its deadline and then probes; otherwise the operation runs.
      pub call : (S → Result A × S) → Mode → S → Result A × Mode × S
      call operation (counting n) s = let (r, s') = operation s in finish (counting n) r s'
      call operation (probing k) s = let (r, s') = operation s in finish (probing k) r s'
      call operation (tripped d) s =
          let (now, s1) = time s in
          let (r, s2) = operation s1 in
          if not (d == 0) && leb d now
          then finish (probing 0) r s2
          else (raise open_error, tripped d, s1)

      settle-finish :
          (r : Result A) (b : CircuitBreaker) (s : S)
          → IsPositive config
          → IsValid config b
          → IsRunningAt b.state b
          → (forget (settle config time r b s) ≡ finish (view b) r s)
            × IsIdle (settle config time r b s).1
      unfolding settle
      settle-finish (ok a) b s p v run = ground arith
      settle-finish (raise e) b s p v run = ground arith

      run-call :
          (operation : S → Result A × S) (b : CircuitBreaker) (s : S)
          → IsPositive config
          → IsIdle b
          → let (now, s1) = read_if_open time b.state s in
            let (refused, b1) = admit config now b in
            let (r, s2) = operation s1 in
            (forget (run_admitted config time operation refused b1 s1) ≡ call operation (view b) s)
            × IsIdle (run_admitted config time operation refused b1 s1).1
      unfolding call admit
      run-call operation b s p h =
          let (now, s1) = read_if_open time b.state s in
          let (refused, b1) = admit config now b in
          let (r, s2) = operation s1 in ground (arith, settle-finish r b1 s2 p)

      -- For an enabled circuit breaker with positive limits that is idle, `execute` returns or
      -- raises, leaves the surrounding state and moves the breaker exactly as the three-mode
      -- contract `call` says, and the breaker is idle again afterwards.
      pub execute-call :
          (operation : S → Result A × S) (b : CircuitBreaker) (s : S)
          → config.enabled ≡ true
          → IsPositive config
          → IsIdle b
          → (forget (execute config time operation b s) ≡ call operation (view b) s)
            × IsIdle (execute config time operation b s).1
      unfolding execute
      execute-call operation b s on p h = simp on (run-call operation b s p h)
