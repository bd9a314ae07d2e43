-- ===== src/Breaker/Examples.antt =====
-- Runs of a small circuit breaker, and each theorem at one of them.
use logs_interceptor_python.Base.{ℕ, ◌+◌, ◌≡◌, refl, true, some, arith}
use logs_interceptor_python.Breaker.{
  CircuitBreaker, closed, opened, new, admit, record_failure, execute,
}
use logs_interceptor_python.Breaker.Invariant.{IsPositive, IsValid}
use logs_interceptor_python.Breaker.Refinement.{IsIdle, view, call, forget, execute-call}
use logs_interceptor_python.Breaker.Threads.{start, later, admits, fails, Reach-IsValid}
use logs_interceptor_python.Breaker.Trips.{again, again-trips, again-recovers}
use logs_interceptor_python.Config.{ResolvedCircuitBreakerConfig}
use logs_interceptor_python.Errors.{Exception, Result, ok, raise, runtime_error}

abbrev config : ResolvedCircuitBreakerConfig
config = record {
  enabled = true;
  failure_threshold = 2;
  reset_timeout = 1000;
  half_open_requests = 2;
}

config-IsPositive : IsPositive config
config-IsPositive = record { threshold = omega arith; requests = omega arith }

-- A clock that moves by a second at each reading.
abbrev time : ℕ → ℕ × ℕ
time s = (s, s + 1000000)

abbrev boom : Exception
boom = runtime_error "boom"

abbrev failing : ℕ → Result ℕ × ℕ
failing s = (raise boom, s)

abbrev working : ℕ → Result ℕ × ℕ
working s = (ok s, s)

abbrev tripped : CircuitBreaker
tripped = record new { state = opened; failures = 2; next_attempt = some 2000000 }

two_failures : (again config time 2 failing (new, 0)).0.state ≡ opened
unfolding again execute
two_failures = refl

execute-call_example :
    (forget (execute config time failing new 0) ≡ call config time failing (view new) 0)
    × IsIdle config (execute config time failing new 0).1
execute-call_example =
    execute-call config time failing new 0 refl config-IsPositive
      (record { valid = omega arith; idle = refl })

again-trips_example :
    let b = (again config time 1 failing (new, 0)).0 in
    (b.state ≡ closed)
    × (b.failures ≡ 1)
    × (◌≡◌ {A = ℕ} 2 2 → (again config time 2 failing (new, 0)).0.state ≡ opened)
again-trips_example = again-trips config time failing 1 new 0 refl (λ u. refl) refl (omega arith)

again-recovers_example :
    let b = (again config time 2 working (tripped, 3000000)).0 in
    (b.state ≡ closed) × (b.failures ≡ 0)
again-recovers_example =
    again-recovers config time working 1 tripped 3000000 refl (λ u. refl) refl refl refl

Reach-IsValid_example : IsValid config (record_failure config 5 6 boom (admit config 4 new).1)
Reach-IsValid_example =
    Reach-IsValid config config-IsPositive (later (later start (admits 4)) (fails 5 6 boom))
