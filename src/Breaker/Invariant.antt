-- ===== src/Breaker/Invariant.antt =====
-- What holds of a `CircuitBreaker` between two blocks under its lock.
use logs_interceptor_python.Base.{ℕ, ◌≤◌, ◌<◌, ◌≡◌, ◌≢◌, none, arith}
use logs_interceptor_python.Breaker.{
  CircuitBreakerState, closed, opened, half_open, CircuitBreaker, new, reset, admit, record_success,
  record_failure, release,
}
use logs_interceptor_python.Config.{ResolvedCircuitBreakerConfig}
use logs_interceptor_python.Errors.{Exception}

-- What `ConfigService.validate` asks of the configuration.
pub record IsPositive (config : ResolvedCircuitBreakerConfig) : Type 0 where
  pub threshold : 0 < config.failure_threshold
  pub requests : 0 < config.half_open_requests

module _ (config : ResolvedCircuitBreakerConfig) where
  abbrev pub IsValidAt : CircuitBreakerState → CircuitBreaker → Type 0
  IsValidAt closed b =
      (b.failures < config.failure_threshold) × (b.success_count ≡ 0) × (b.half_open_in_flight ≡ 0)
  IsValidAt opened b = (b.success_count ≡ 0) × (b.half_open_in_flight ≡ 0) × (b.next_attempt ≢ none)
  IsValidAt half_open b =
      (b.success_count < config.half_open_requests)
      × (b.half_open_in_flight ≤ config.half_open_requests)

  -- A closed breaker has failed fewer times than the threshold, an open one has a deadline, and a
  -- half-open one has fewer successes than it needs and no more probes counted than it allows.
  abbrev pub IsValid : CircuitBreaker → Type 0
  IsValid b = IsValidAt b.state b

  pub new-IsValid : IsPositive config → IsValid new
  new-IsValid p = ground arith

  pub reset-IsValid : (b : CircuitBreaker) → IsPositive config → IsValid (reset b)
  unfolding reset
  reset-IsValid b p = ground arith

  pub admit-IsValid :
      (now : ℕ) (b : CircuitBreaker)
      → IsPositive config
      → IsValid b
      → IsValid (admit config now b).1
  unfolding admit
  admit-IsValid now b p v = ground arith

  pub record_success-IsValid :
      (b : CircuitBreaker) → IsPositive config → IsValid b → IsValid (record_success config b)
  unfolding record_success
  record_success-IsValid b p v = ground arith

  pub record_failure-IsValid :
      (t t' : ℕ) (e : Exception) (b : CircuitBreaker)
      → IsValid b
      → IsValid (record_failure config t t' e b)
  unfolding record_failure
  record_failure-IsValid t t' e b v = ground arith

  pub release-IsValid : (b : CircuitBreaker) → IsValid b → IsValid (release b)
  unfolding release
  release-IsValid b v = ground arith
